-- ===== src/ProcEntry/Percent.antt =====
-- The processor's share, and the division that ends the process.
use native.Mathlib.Nat.{div-lt_iff_lt-mul}
use taskmonitor.Common.{
  ℕ, ◌≡◌, ◌≢◌, ◌≤◌, ◌<◌, ◌+◌, ◌-◌, ◌*◌, ◌/◌, ◌%◌, ◌^◌, ◌↔◌, refl, sym, ap, subst, ◌∙◌, Bool, true,
  false, ltb, ◌==◌, if◌then◌else◌, length, inl, inr, Bool-cases, arith, some, Bytes, words, u64,
  Outcome, ok, throws, traps,
}
use taskmonitor.ProcEntry.{ProcEntry}
use taskmonitor.ProcEntry.Update.{
  Reading, duration_us, with_percent, measure, measured, new_cpu_time, read_stat_line,
  read_proc_stat, unless_false, update_info_data, pending_set, settled, update_proc_info,
}
use taskmonitor.ProcEntry.Sampling.{update_info_data-Step, settled_traps}

share : (x d : ℕ) → d ≢ 0 → x < 2 ^ 32 * d → x / d % 2 ^ 32 ≡ x / d
share x d n h = omega (arith, (div-lt_iff_lt-mul {k = d} {x = x} {y = 2 ^ 32} (omega arith)).1 h)

wrapped : (a b : ℕ) → b ≤ a → a < u64 → (a + u64 - b) % u64 ≡ a - b
wrapped a b h k = omega arith

fitting : (x : ℕ) → x < u64 → x % u64 ≡ x
fitting x h = omega arith

-- For a reading that is not the first, a microsecond or more after the last, of a processor time that
-- grew and fits 64 bits: where the growth times 10^6 fits 64 bits and the quotient 32, the share is
-- the growth times 10^6 by the microseconds since the last reading, rounded down, with no wrap-around.
pub measure-percent :
    (now time : ℕ) (e : ProcEntry)
    → e.last_update_time ≢ 0
    → duration_us now e.last_update_time ≢ 0
    → e.info.cpu_time ≤ time
    → time < u64
    → (time - e.info.cpu_time) * 1000000 < u64
    → (time - e.info.cpu_time) * 1000000 < 2 ^ 32 * duration_us now e.last_update_time
    → measure now time e ≡ (
      with_percent now time
          ((time - e.info.cpu_time) * 1000000 / duration_us now e.last_update_time)
          e,
      ok true,
    )
unfolding measure
measure-percent now time e a b le bound fits small = elim (Bool-cases (e.last_update_time == 0)) [
  | inl first ↦ absurd (ground arith)
  | inr later ↦ elim (Bool-cases (duration_us now e.last_update_time == 0)) [
    | inl same ↦ absurd (ground arith)
    | inr apart ↦ simp (
      later,
      apart,
      wrapped time e.info.cpu_time le bound,
      fitting ((time - e.info.cpu_time) * 1000000) fits,
      share ((time - e.info.cpu_time) * 1000000) (duration_us now e.last_update_time) b small,
    )
  ]
]

measure_traps :
    (now time : ℕ) (e : ProcEntry)
    → ((measure now time e).1 ≡ traps)
      ↔ ((e.last_update_time ≢ 0) × (duration_us now e.last_update_time ≡ 0))
unfolding measure
measure_traps now time e = ground arith

measured_traps :
    (now time : ℕ) (o : Outcome ℕ) (e : ProcEntry)
    → o ≡ ok time
    → ((measured now o e).1 ≡ traps)
      ↔ ((e.last_update_time ≢ 0) × (duration_us now e.last_update_time ≡ 0))
measured_traps now time (ok t) e h = measure_traps now t e
measured_traps now time (throws x) e h = cc
measured_traps now time traps e h = cc

read_proc_stat_traps :
    (g : Reading) (e : ProcEntry) (line : Bytes) (time : ℕ)
    → g.stat_line ≡ some line
    → ltb (length (words line)) 52 ≡ false
    → new_cpu_time (words line) ≡ ok time
    → ((read_proc_stat g e).1 ≡ traps)
      ↔ ((e.last_update_time ≢ 0) × (duration_us g.steady_clock e.last_update_time ≡ 0))
unfolding read_proc_stat
read_proc_stat_traps g e line time h long t =
    let last = e.last_update_time in
    subst
      (λ file.
        ((read_stat_line g.steady_clock file e).1 ≡ traps)
        ↔ ((last ≢ 0) × (duration_us g.steady_clock last ≡ 0)))
      (sym h) (simp long (measured_traps g.steady_clock time (new_cpu_time (words line)) e t))

-- The first call that traps is the one of the whole.
unless_false_trapped :
    (x : ProcEntry × Outcome Bool) (rest : ProcEntry → ProcEntry × Outcome Bool)
    → x.1 ≡ traps
    → (unless_false x rest).1 ≡ traps
unless_false_trapped (e, ok b) rest h = cc
unless_false_trapped (e, throws x) rest h = cc
unless_false_trapped (e, traps) rest h = refl

settled_trapped : (x : ProcEntry × Outcome Bool) → x.1 ≡ traps → (settled x).1 ≡ traps
settled_trapped (e, ok b) h = cc
settled_trapped (e, throws x) h = cc
settled_trapped (e, traps) h = refl

update_info_data_trapped :
    (collect_fd : Bool) (g : Reading) (e : ProcEntry)
    → (read_proc_stat g e).1 ≡ traps
    → (update_info_data collect_fd g e).1 ≡ traps
unfolding update_info_data
update_info_data_trapped collect_fd g e h = unless_false_trapped (read_proc_stat g e) _ h

not_pending : (b : Bool) (x y : ProcEntry × Outcome Bool) → b ≡ false → (if b then x else y) ≡ y
not_pending true x y h = cc
not_pending false x y h = refl

-- For an entry that is not being updated and a line of `stat` that can be read, the update divides by
-- zero, and ends the process, exactly when the entry was updated before and less than a microsecond
-- ago.
pub update_proc_info-traps_iff :
    (collect_fd : Bool) (g : Reading) (e : ProcEntry) (line : Bytes) (time : ℕ)
    → e.base.update_pending ≡ false
    → g.stat_line ≡ some line
    → ltb (length (words line)) 52 ≡ false
    → new_cpu_time (words line) ≡ ok time
    → ((update_proc_info collect_fd g e).1 ≡ traps)
      ↔ ((e.last_update_time ≢ 0) × (duration_us g.steady_clock e.last_update_time ≡ 0))
unfolding update_proc_info
update_proc_info-traps_iff collect_fd g e line time free h long t =
    let busy = pending_set true e in
    let (there, back) = read_proc_stat_traps g busy line time h long t in
    let same =
      not_pending e.base.update_pending (e, ok true) (settled (update_info_data collect_fd g busy))
        free in
    (
      λ p. there (
          (update_info_data-Step collect_fd g busy).trapped
            (settled_traps (update_info_data collect_fd g busy) (ap (λ x. x.1) (sym same) ∙ p))),
      λ p.
          ap (λ x. x.1) same
          ∙ settled_trapped (update_info_data collect_fd g busy)
              (update_info_data_trapped collect_fd g busy (back p)),
    )
