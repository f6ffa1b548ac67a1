-- ===== src/CpuStat/Growth.antt =====
-- A sample of counters that grew: the three figures are the parts of the time between the samples.
use native.Mathlib.Nat.{div-mul-le_self}
use taskmonitor.Common.{ℕ, ◌+◌, ◌-◌, ◌*◌, ◌/◌, ◌%◌, ◌≤◌, ◌<◌, ◌≡◌, ap, ◌∙◌, u64, ok, arith}
use taskmonitor.CpuStat.{
  CpuStatData, CpuStat, get_total_time, get_diff, take_sample, update_stats, u32,
}
use taskmonitor.CpuStat.Counters.{
  Grew, exact_total, get_total_time-exact, Fits-of_exact, get_total_time-get_diff, sub64-of-le,
}
use taskmonitor.CpuStat.Samples.{update_stats_tests}

le-of-mul_le : (q t : ℕ) → 0 < t → q * t ≤ 100 * t → q ≤ 100
le-of-mul_le q t h k = grind arith

percent-sum_le :
    (a b c t : ℕ) → 0 < t → a + b + c ≤ t → a * 100 / t + b * 100 / t + c * 100 / t ≤ 100
percent-sum_le a b c t h k = le-of-mul_le (a * 100 / t + b * 100 / t + c * 100 / t) t h (
    omega (
      arith,
      div-mul-le_self (a * 100) t,
      div-mul-le_self (b * 100) t,
      div-mul-le_self (c * 100) t,
    ))

-- Where the counters grew, with totals below 2^64 / 100.
pub record Grown (d p : CpuStatData) : Type 0 where
  pub grew : Grew p d
  pub started : 0 < exact_total p
  pub moved : exact_total p < exact_total d
  pub small : exact_total d * 100 < u64

module _ (d p : CpuStatData) (g : Grown d p) where
  total_grown : get_total_time (get_diff d p) ≡ exact_total d - exact_total p
  total_grown =
      get_total_time-get_diff d p (Fits-of_exact d (omega arith)) (Fits-of_exact p (omega arith))
      ∙ rw (get_total_time-exact d (omega arith), get_total_time-exact p (omega arith))
          (sub64-of-le (exact_total d) (exact_total p) (omega arith) (omega arith))

  user_grown : (get_diff d p).user_time ≡ d.user_time - p.user_time
  unfolding get_diff
  user_grown = sub64-of-le d.user_time p.user_time (omega arith) (omega arith)

  system_grown : (get_diff d p).system_time ≡ d.system_time - p.system_time
  unfolding get_diff
  system_grown = sub64-of-le d.system_time p.system_time (omega arith) (omega arith)

  io_wait_grown : (get_diff d p).io_wait_time ≡ d.io_wait_time - p.io_wait_time
  unfolding get_diff
  io_wait_grown = sub64-of-le d.io_wait_time p.io_wait_time (omega arith) (omega arith)

-- The part of the time between two samples, in percent, rounded down.
abbrev pub share : CpuStatData → CpuStatData → ℕ → ℕ
share d p grown = grown * 100 / (exact_total d - exact_total p)

percent_share : (x t : ℕ) → 0 < t → x ≤ t → t * 100 < u64 → x * 100 % u64 / t % u32 ≡ x * 100 / t
percent_share x t h k b =
    let q : x * 100 / t ≤ 100 =
      le-of-mul_le (x * 100 / t) t h (omega (arith, div-mul-le_self (x * 100) t)) in
    let e : x * 100 % u64 ≡ x * 100 = omega arith in rw e (omega arith)

take_sample_accepts :
    (d : CpuStatData) (usr sys iow : ℕ) (s : CpuStat)
    → usr + sys + iow ≤ 100
    → take_sample d usr sys iow s ≡ record s {
      last = d;
      message = record s.message { usr = usr; sys = sys; iow = iow; all = usr + sys + iow };
    }
unfolding take_sample
take_sample_accepts d usr sys iow s h =
    let e : ((usr + sys) % u32 + iow) % u32 ≡ usr + sys + iow = omega arith in rw e (ground arith)

-- A sample whose counters grew since the last one, with totals below 2^64 / 100, is accepted: it
-- is the new last sample, the three figures are the parts of the time between the two samples in
-- percent, rounded down, and `all` is their sum, at most 100.
pub update_stats-Grown :
    (d : CpuStatData) (s : CpuStat)
    → Grown d s.last
    → let usr = share d s.last (d.user_time - s.last.user_time) in
      let sys = share d s.last (d.system_time - s.last.system_time) in
      let iow = share d s.last (d.io_wait_time - s.last.io_wait_time) in
      (update_stats d s
        ≡ ok (record s {
          last = d;
          message = record s.message { usr = usr; sys = sys; iow = iow; all = usr + sys + iow };
        }))
      × (usr + sys + iow ≤ 100)
update_stats-Grown d s g =
    let total = total_grown d s.last g in
    let bound =
      percent-sum_le (d.user_time - s.last.user_time) (d.system_time - s.last.system_time)
        (d.io_wait_time - s.last.io_wait_time) (exact_total d - exact_total s.last) (omega arith)
        (omega arith) in
    (
      update_stats_tests d s
            (λ e. absurd (omega (arith, get_total_time-exact s.last (omega arith))))
            (λ e. absurd (omega (arith, total)))
          ∙ rw
              (
                total,
                user_grown d s.last g,
                system_grown d s.last g,
                io_wait_grown d s.last g,
                percent_share (d.user_time - s.last.user_time) (exact_total d - exact_total s.last)
                    (omega arith) (omega arith) (omega arith),
                percent_share (d.system_time - s.last.system_time)
                    (exact_total d - exact_total s.last) (omega arith) (omega arith) (omega arith),
                percent_share (d.io_wait_time - s.last.io_wait_time)
                    (exact_total d - exact_total s.last) (omega arith) (omega arith) (omega arith),
              )
              (ap ok (take_sample_accepts d _ _ _ s bound)),
      bound,
    )
