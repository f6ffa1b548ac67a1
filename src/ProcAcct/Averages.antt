-- ===== src/ProcAcct/Averages.antt =====
-- The averages of an accounting message.
use native.Mathlib.Nat.{div-mul-le_self, lt-div-mul-add}
use taskmonitor.Common.{
  ℕ, ◌+◌, ◌*◌, ◌/◌, ◌≤◌, ◌<◌, ◌≡◌, refl, arith, ◌==◌, if◌then◌else◌, Bool-cases, inl, inr,
}
use taskmonitor.ProcAcct.{TaskStats, average_ms, acct_of}

-- The average is the whole number of milliseconds per event, where no event counts as one.
abbrev pub IsAverage : ℕ → ℕ → ℕ → Type 0
IsAverage total count average =
    let events = if count == 0 then 1 else count in
    (average * events * 1000000 ≤ total) × (total < (average + 1) * events * 1000000)

whole_ms :
    (t e : ℕ)
    → 0 < e
    → let a = t / 1000000 / e in (a * e * 1000000 ≤ t) × (t < (a + 1) * e * 1000000)
whole_ms t e h =
    let q = t / 1000000 in
    let low : q / e * e ≤ q = div-mul-le_self q e in
    let high : q < q / e * e + e = lt-div-mul-add h in (omega (arith, low), omega (arith, high))

average_ms-IsAverage : (t c : ℕ) → IsAverage t c (average_ms t c)
unfolding average_ms
average_ms-IsAverage t c =
    whole_ms t (if c == 0 then 1 else c)
      (elim (Bool-cases (c == 0)) [ inl e ↦ ground arith | inr e ↦ ground arith ])

-- Whatever the kernel reports, each average of the message for a process is the whole number of
-- milliseconds per event of its delay, and no division by zero is made; the processor's total delay is
-- not the kernel's, but the virtual time that the process ran.
pub acct_of-IsAverage :
    (t : TaskStats)
    → IsAverage t.cpu_delay_total t.cpu_count (acct_of t).cpu.cpu_delay_average
      × IsAverage t.blkio_delay_total t.blkio_count (acct_of t).io.blkio_delay_average
      × IsAverage t.swapin_delay_total t.swapin_count (acct_of t).swp.swapin_delay_average
      × IsAverage t.freepages_delay_total t.freepages_count
          (acct_of t).reclaim.freepages_delay_average
      × IsAverage t.thrashing_delay_total t.thrashing_count
          (acct_of t).thrashing.thrashing_delay_average
      × ((acct_of t).cpu.cpu_delay_total ≡ t.cpu_run_virtual_total)
unfolding acct_of
acct_of-IsAverage t = (
  average_ms-IsAverage t.cpu_delay_total t.cpu_count,
  average_ms-IsAverage t.blkio_delay_total t.blkio_count,
  average_ms-IsAverage t.swapin_delay_total t.swapin_count,
  average_ms-IsAverage t.freepages_delay_total t.freepages_count,
  average_ms-IsAverage t.thrashing_delay_total t.thrashing_count,
  refl,
)
