-- ===== src/CpuList/Figures.antt =====
-- The figures of every listed processor.
use taskmonitor.Common.{
  ℕ, refl, List, Option, none, some, ltb, length, inl, inr, Bool-cases, arith, Bytes, codes, equal,
  contains,
}
use taskmonitor.Messages.{Clock}
use taskmonitor.CpuStat.{new_cpu_stat}
use taskmonitor.CpuStat.Samples.{IsSummed, update_stats-IsSummed}
use taskmonitor.Keyed.{read_rows}
use taskmonitor.Keyed.Entries.{Every, Sound, read_rows-Every}
use taskmonitor.CpuList.{name_of, put_cpu, cpu_act, Manager, do_update_stats}
use taskmonitor.CpuList.Processors.{update_cpu-keeps, after_rows-cpus}

new_cpu_stat-IsSummed : (name : Bytes) → IsSummed (new_cpu_stat name)
unfolding new_cpu_stat
new_cpu_stat-IsSummed name = record { all_le = omega arith; all_left = refl; all_sum = inl refl }

put_cpu-Sound : (name : Bytes) (vs : List ℕ) → Sound name_of equal IsSummed (put_cpu name vs)
unfolding put_cpu
put_cpu-Sound name vs = elim (Bool-cases (ltb (length vs) 10)) [
  | inl short ↦ rw short tt
  | inr all_there ↦ rw all_there (
    new_cpu_stat-IsSummed name,
    λ e v. update_cpu-keeps IsSummed _ e (λ t h. update_stats-IsSummed _ e h v) v,
  )
]

cpu_act-Sound : (line : Bytes) → Sound name_of equal IsSummed (cpu_act line)
unfolding cpu_act
cpu_act-Sound line = elim (Bool-cases (contains (codes "cpu") line)) [
  | inl line_of_cpu ↦ rw line_of_cpu (put_cpu-Sound _ _)
  | inr other ↦ rw other tt
]

-- Where `all` of each listed processor is at most 100 and the sum of its three figures, or what is left in
-- 32 bits of a sum of 2^32 or more, this is so after a reading of /proc/stat, however it ends: at a parse
-- error, an exception or a trap too. No listed figures with a sum
-- below 2^32 exceed 100 in sum.
pub do_update_stats-IsSummed :
    {N P : Type 0} (file : Option (List Bytes)) (now : Clock) (m : Manager N P)
    → Every name_of equal IsSummed m.cpus
    → Every name_of equal IsSummed (do_update_stats file now m).0.cpus
unfolding do_update_stats
do_update_stats-IsSummed none now m v = v
do_update_stats-IsSummed (some lines) now m v =
    rw (after_rows-cpus now m (read_rows name_of equal cpu_act lines m.cpus))
      (read_rows-Every name_of equal IsSummed cpu_act cpu_act-Sound lines m.cpus v)
