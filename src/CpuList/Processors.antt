-- ===== src/CpuList/Processors.antt =====
-- The list of processors: each once, and each and what a reading does to them.
use taskmonitor.Common.{
  ℕ, ◌≡◌, refl, sym, ap, ◌∙◌, Bool, true, false, List, Option, none, some, ltb, length, inl, inr,
  Bool-cases, Bytes, codes, equal, equal_iff, contains, Outcome, ok, throws, traps, arith,
}
use taskmonitor.CpuStat.{CpuStatData, CpuStat, new_cpu_stat, update_stats, take_sample, get_percent}
use taskmonitor.Keyed.{read_rows}
use taskmonitor.Keyed.View.{view, keys, Unique}
use taskmonitor.Keyed.Rows.{Lawful, read_map, read_rows-Unique, read_rows-view}
use taskmonitor.Messages.{Clock}
use taskmonitor.CpuList.{
  name_of, changed, update_cpu, put_cpu, cpu_act, Manager, add_startup_data, after_rows,
  do_update_stats,
}

update_stats-name :
    (d : CpuStatData) (s : CpuStat) {t : CpuStat} → update_stats d s ≡ ok t → name_of t ≡ name_of s
unfolding update_stats get_percent take_sample
update_stats-name d s h = ground arith

changed-keeps :
    (Q : CpuStat → Type 0) (s : CpuStat) (o : Outcome CpuStat)
    → ((t : CpuStat) → o ≡ ok t → Q t)
    → Q s
    → Q (changed s o).0
changed-keeps Q s (ok t) h q = h t refl
changed-keeps Q s (throws e) h q = q
changed-keeps Q s traps h q = q

-- What holds of an entry and of what its update returns, holds after the update.
pub update_cpu-keeps :
    (Q : CpuStat → Type 0) (d : CpuStatData) (s : CpuStat)
    → ((t : CpuStat) → update_stats d s ≡ ok t → Q t)
    → Q s
    → Q (update_cpu d s).0
unfolding update_cpu
update_cpu-keeps Q d s = changed-keeps Q s (update_stats d s)

update_cpu-name : (d : CpuStatData) (s : CpuStat) → name_of (update_cpu d s).0 ≡ name_of s
update_cpu-name d s =
    update_cpu-keeps (λ t. name_of t ≡ name_of s) d s (λ t e. update_stats-name d s e) refl

put_cpu-Lawful : (name : Bytes) (vs : List ℕ) → Lawful name_of equal equal_iff (put_cpu name vs)
unfolding put_cpu new_cpu_stat
put_cpu-Lawful name vs = elim (Bool-cases (ltb (length vs) 10)) [
  | inl short ↦ rw short tt
  | inr all_there ↦ rw all_there (refl, λ e h. update_cpu-name _ e ∙ h)
]

cpu_act-Lawful : (line : Bytes) → Lawful name_of equal equal_iff (cpu_act line)
unfolding cpu_act
cpu_act-Lawful line = elim (Bool-cases (contains (codes "cpu") line)) [
  | inl line_of_cpu ↦ rw line_of_cpu (put_cpu-Lawful _ _)
  | inr other ↦ rw other tt
]

pub after_rows-cpus :
    {N P : Type 0} (now : Clock) (m : Manager N P) (x : List CpuStat × Outcome Bool)
    → (after_rows now m x).0.cpus ≡ x.0
unfolding after_rows add_startup_data
after_rows-cpus now m (ss, ok true) = ground arith
after_rows-cpus now m (ss, ok false) = refl
after_rows-cpus now m (ss, throws e) = refl
after_rows-cpus now m (ss, traps) = refl

after_rows_done :
    {N P : Type 0} (now : Clock) (m : Manager N P) (x : List CpuStat × Outcome Bool)
    → (after_rows now m x).1 ≡ x.1
unfolding after_rows
after_rows_done now m (ss, ok true) = refl
after_rows_done now m (ss, ok false) = refl
after_rows_done now m (ss, throws e) = refl
after_rows_done now m (ss, traps) = refl

-- No reading of /proc/stat, however it ends, lists a processor twice.
pub do_update_stats-Unique_cpus :
    {N P : Type 0} (file : Option (List Bytes)) (now : Clock) (m : Manager N P)
    → Unique name_of equal (keys name_of equal m.cpus)
    → Unique name_of equal (keys name_of equal (do_update_stats file now m).0.cpus)
unfolding do_update_stats
do_update_stats-Unique_cpus none now m u = u
do_update_stats-Unique_cpus (some lines) now m u =
    rw (after_rows-cpus now m (read_rows name_of equal cpu_act lines m.cpus))
      (read_rows-Unique name_of equal equal_iff cpu_act cpu_act-Lawful lines m.cpus u)

-- A reading that succeeds does to the list of processors, as a map from names, what the lines up to
-- the first without "cpu" do one after the other: each updates the entry of its name, or adds one,
-- and no other.
pub do_update_stats-cpus :
    {N P : Type 0} (lines : List Bytes) (now : Clock) (m : Manager N P)
    → (do_update_stats (some lines) now m).1 ≡ ok true
    → view name_of equal (do_update_stats (some lines) now m).0.cpus
      ≡ read_map name_of equal equal_iff cpu_act lines (view name_of equal m.cpus)
unfolding do_update_stats
do_update_stats-cpus lines now m h =
    let x = read_rows name_of equal cpu_act lines m.cpus in
    ap (view name_of equal) (after_rows-cpus now m x)
    ∙ read_rows-view name_of equal equal_iff cpu_act cpu_act-Lawful lines m.cpus
        (sym (after_rows_done now m x) ∙ h)
