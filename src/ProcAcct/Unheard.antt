-- ===== src/ProcAcct/Unheard.antt =====
-- An entry whose request is never answered, through any history of the registry.
use taskmonitor.Common.{
  any, sym, ==_iff, ℕ, ◌^◌, ◌≡◌, ◌≢◌, refl, Bool, true, List, [], ◌∷◌, Option, none, some, ltb,
  ◌==◌, arith, inl, inr, Bool-cases, ok,
}
use taskmonitor.Bswinfra.Changes.{All}
use taskmonitor.Bswinfra.{AsyncQueue, SafeList, Ref}
use taskmonitor.ProcEntry.Update.{update_proc_acct}
use taskmonitor.ProcRegistry.{Registry, Request, Blacklist, write, get_proc_entry}
use taskmonitor.ProcRegistry.Invariant.{pid_of, Inv}
use taskmonitor.ProcRegistry.Lookup.{
  Passes, get_proc_entry-Passes, Finds, Finds-hit, get_proc_entry-Finds,
}
use taskmonitor.ProcRegistry.Waiting.{
  Waits, add_proc_entry-Waits, commit_procs-Waits, upd_proc_entry-Waits, rem_proc_entry-Waits,
  rem_proc_entry_named-Waits,
}
use taskmonitor.ProcRegistry.Unanswered.{dispatch-Waits, update-Waits, update_all-Waits}
use taskmonitor.ProcRegistry.History.{
  Op, adds, updates, removes, removes_named, commits, dispatches, times, updates_all, answers, step,
  run, run_keeps-Inv,
}
use taskmonitor.ProcAcct.{
  TaskStats, Reply, unparsed, parsed, write_accounted, process_delay_acct,
  callback_statistics_message, handed, receive,
}
use taskmonitor.ProcAcct.Answers.{stats_of, about}

-- No message is about the process.
abbrev pub Silent : ℕ → List Reply → Type 0
Silent pid [] = Unit {0}
Silent pid (m ∷ ms) = (about pid (stats_of m) ≡ none) × Silent pid ms

-- In no step does the kernel answer about it.
abbrev pub Quiet : ℕ → Op → Type 0
Quiet pid (adds fs k) = Unit {0}
Quiet pid (updates fs k) = Unit {0}
Quiet pid (removes k sync) = Unit {0}
Quiet pid (removes_named name sync) = Unit {0}
Quiet pid commits = Unit {0}
Quiet pid (dispatches w acct now) = Unit {0}
Quiet pid (times k lane) = Unit {0}
Quiet pid (updates_all k n) = Unit {0}
Quiet pid (answers ms result) = Silent pid ms

abbrev pub AllQuiet : ℕ → List Op → Type 0
AllQuiet pid [] = Unit {0}
AllQuiet pid (o ∷ os) = Quiet pid o × AllQuiet pid os

module _ (L : SafeList) (Q : AsyncQueue Request) (blacklist : Blacklist) (r : Ref) (pid : ℕ) where
  open L use {Elements, visited}
  open Q use {Queue}

  abbrev Kept : Registry Elements Queue → Type 0
  Kept = Waits L Q blacklist r pid

  write_accounted-Waits :
      (t : TaskStats) (o : Option Ref) (s : Registry Elements Queue)
      → Passes (pid_of L Q none s) t.ac_pid o
      → pid ≢ t.ac_pid
      → Kept s
      → Kept (write_accounted L Q t o s)
  unfolding write
  write_accounted-Waits t none s p h v = v
  write_accounted-Waits t (some x) s p h v = elim (Bool-cases (r == x)) [
    | inl hit ↦ absurd (ground (arith, hit, p x refl, v.of_pid, h))
    | inr miss ↦ record { known = v.known; of_pid = rw miss v.of_pid; waits = rw miss v.waits }
  ]

  process_delay_acct-Waits :
      (t : TaskStats) (s : Registry Elements Queue)
      → about pid (some t) ≡ none
      → Kept s
      → Kept (process_delay_acct L Q t s)
  unfolding process_delay_acct
  process_delay_acct-Waits t s h v = elim (Bool-cases (ltb t.ac_pid (2 ^ 31))) [
    | inl small ↦ rw small (
        write_accounted-Waits t (get_proc_entry L Q t.ac_pid s) s
          (get_proc_entry-Passes L Q t.ac_pid s) (λ e. ground (arith, small, e, h)) v)
    | inr big ↦ rw big v
  ]

  callback-Waits :
      (m : Reply) (s : Registry Elements Queue)
      → about pid (stats_of m) ≡ none
      → Kept s
      → Kept (callback_statistics_message L Q m s).0
  unfolding callback_statistics_message
  callback-Waits unparsed s h v = v
  callback-Waits (parsed (some t) tgid) s h v = process_delay_acct-Waits t s h v
  callback-Waits (parsed none (some t)) s h v = process_delay_acct-Waits t s h v
  callback-Waits (parsed none none) s h v = v

  handed-Waits :
      (ms : List Reply) (s : Registry Elements Queue)
      → Silent pid ms
      → Kept s
      → Kept (handed L Q ms s)
  unfolding handed
  handed-Waits [] s h v = v
  handed-Waits (m ∷ ms) s h v =
      handed-Waits ms (callback_statistics_message L Q m s).0 h.1 (callback-Waits m s h.0 v)

  step-Waits :
      (o : Op) (s : Registry Elements Queue) → Quiet pid o → Kept s → Kept (step L Q blacklist o s)
  unfolding step receive
  step-Waits (adds fs k) s h v = add_proc_entry-Waits L Q blacklist r pid fs k s v
  step-Waits (updates fs k) s h v = upd_proc_entry-Waits L Q blacklist r pid fs k s v
  step-Waits (removes k sync) s h v = rem_proc_entry-Waits L Q blacklist r pid k sync s v
  step-Waits (removes_named name sync) s h v =
      rem_proc_entry_named-Waits L Q blacklist r pid name sync s v
  step-Waits commits s h v = commit_procs-Waits L Q blacklist r pid s v
  step-Waits (dispatches w acct now) s h v = dispatch-Waits L Q blacklist r pid w acct now s v
  step-Waits (times k lane) s h v = update-Waits L Q blacklist r pid k lane s v
  step-Waits (updates_all k n) s h v = update_all-Waits L Q blacklist r pid k n s v
  step-Waits (answers ms result) s h v = handed-Waits ms s h v

  run-Waits :
      (os : List Op) (s : Registry Elements Queue)
      → AllQuiet pid os
      → Kept s
      → Kept (run L Q blacklist os s)
  unfolding run
  run-Waits [] s h v = v
  run-Waits (o ∷ os) s h v = run-Waits os (step L Q blacklist o s) h.1 (step-Waits o s h.0 v)

  -- An entry object of the store keeps its pid and its wait.
  waits-update_proc_acct :
      (os : List Op) (s : Registry Elements Queue) (collectors : ℕ) (accepted : Bool)
      → AllQuiet pid os
      → Kept s
      → let e = (run L Q blacklist os s).entries r in
        update_proc_acct collectors accepted e ≡ (e, ok true)
  unfolding update_proc_acct
  waits-update_proc_acct os s collectors accepted h v =
      let w = run-Waits os s h v in ground (arith, w.waits)

  -- One that is listed is found by its pid.
  listed-found :
      (s : Registry Elements Queue)
      → Inv L Q blacklist s
      → Kept s
      → (xs : List Ref) → any (λ x. x == r) xs ≡ true
      → All (Finds (pid_of L Q none s) pid (get_proc_entry L Q pid s)) xs
      → get_proc_entry L Q pid s ≡ some r
  listed-found s v w [] h a = absurd (ground arith)
  listed-found s v w (x ∷ xs) h a = elim (Bool-cases (x == r)) [
    | inl hit ↦
        let same : x ≡ r = (==_iff x r).0 hit in
        rw (sym same) (
          Finds-hit (pid_of L Q none s) pid (get_proc_entry L Q pid s) x
            (rw same ((==_iff (s.entries r).pid pid).1 w.of_pid)) a.0)
    | inr miss ↦ listed-found s v w xs (ground arith) a.1
  ]

  -- A process whose entry waits for the kernel's answer is not asked for again before the kernel answers
  -- about it, as long as this entry is kept: from a registry that keeps its invariant, through any
  -- history without such an answer, with timers of any lane, that leaves the entry listed, the entry
  -- of the pid is still this one, and the next update of its accounting, with any number of collectors
  -- and any acceptance, sends no request and changes nothing. Where the entry is removed and the process is
  -- added again, its new entry is another one, of which this says nothing.
  pub run-update_proc_acct :
      (os : List Op) (s : Registry Elements Queue) (collectors : ℕ) (accepted : Bool)
      → AllQuiet pid os
      → Inv L Q blacklist s
      → Waits L Q blacklist r pid s
      → any (λ x. x == r) (visited (run L Q blacklist os s).proc_list) ≡ true
      → let t = run L Q blacklist os s in
        (get_proc_entry L Q pid t ≡ some r)
        × (update_proc_acct collectors accepted (t.entries r) ≡ (t.entries r, ok true))
  run-update_proc_acct os s collectors accepted h v w listed =
      let t = run L Q blacklist os s in
      let i = run_keeps-Inv L Q blacklist os s v in
      (
        listed-found t i (run-Waits os s h w) (visited t.proc_list) listed
            (get_proc_entry-Finds L Q pid t i.distinct),
        waits-update_proc_acct os s collectors accepted h w,
      )
