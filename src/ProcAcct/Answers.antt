-- ===== src/ProcAcct/Answers.antt =====
-- What the kernel's messages do to the listed processes, and what a collector is then sent.
use taskmonitor.Common.{
  false, ℕ, ◌^◌, ◌≡◌, refl, sym, ap, ◌∙◌, subst, true, ◌&&◌, List, [], ◌∷◌, map, Option, none, some,
  ltb, ◌==◌, arith, if◌then◌else◌, inl, inr, Bool-cases,
}
use taskmonitor.Bswinfra.{AsyncQueue, SafeList, Ref}
use taskmonitor.Bswinfra.Changes.{All}
use taskmonitor.Messages.{Clock, Collector}
use taskmonitor.Messages.Acct.{Acct}
use taskmonitor.ProcRegistry.ContextMessage.{map-cong}
use taskmonitor.ProcEntry.{ProcEntry}
use taskmonitor.ProcRegistry.{Registry, Request, write, get_proc_entry}
use taskmonitor.ProcRegistry.Lookup.{none_ne, Finds, Finds-hit, Finds-miss, get_proc_entry-Finds}
use taskmonitor.ProcRegistry.Invariant.{Distinct, Distinct-cong, All-map, pid_of}
use taskmonitor.ProcRegistry.Requests.{send_acct, collect_proc_acct}
use taskmonitor.ProcAcct.{
  TaskStats, acct_of, Reply, unparsed, parsed, NlResult, accounted, write_accounted,
  process_delay_acct, callback_statistics_message, handed, receive,
}

-- The statistics that a message gives, if it gives any.
abbrev pub stats_of : Reply → Option TaskStats
stats_of unparsed = none
stats_of (parsed (some t) tgid) = some t
stats_of (parsed none tgid) = tgid

-- The last message's statistics of the process, if there are any.
abbrev pub about : ℕ → Option TaskStats → Option TaskStats
about pid none = none
about pid (some t) = if ltb t.ac_pid (2 ^ 31) && (pid == t.ac_pid) then some t else none

abbrev pub or_earlier : Option TaskStats → Option TaskStats → Option TaskStats
or_earlier (some t) earlier = some t
or_earlier none earlier = earlier

unfoldable pub latest : ℕ → List Reply → Option TaskStats
latest pid [] = none
latest pid (m ∷ ms) = or_earlier (latest pid ms) (about pid (stats_of m))

-- The message with these statistics.
abbrev pub acct_with : Option TaskStats → Acct → Acct
acct_with none a = a
acct_with (some t) a = acct_of t

-- The entry with these statistics.
abbrev pub answered : Option TaskStats → ProcEntry → ProcEntry
answered none e = e
answered (some t) e = record e { acct = acct_of t; update_proc_acct_pending = false }

everywhere : {P : Ref → Type 0} → ((r : Ref) → P r) → (xs : List Ref) → All P xs
everywhere f [] = tt
everywhere f (x ∷ xs) = (f x, everywhere f xs)

module _ (P R : Ref → Type 0) where
  All-both : (xs : List Ref) → All P xs → All R xs → All (λ r. P r × R r) xs
  All-both [] h k = tt
  All-both (x ∷ xs) h k = ((h.0, k.0), All-both xs h.1 k.1)

module _ (L : SafeList) (Q : AsyncQueue Request) where
  open L use {Elements, visited}
  open Q use {Queue}

  -- What holds of an entry behind the messages.
  abbrev pub Shows : List Reply → Registry Elements Queue → Registry Elements Queue → Ref → Type 0
  Shows ms s u r = u.entries r ≡ answered (latest (s.entries r).pid ms) (s.entries r)

  abbrev Same : Registry Elements Queue → Registry Elements Queue → Type 0
  Same s u = (u.proc_list ≡ s.proc_list) × ((r : Ref) → (u.entries r).pid ≡ (s.entries r).pid)

  process_delay_acct-Same :
      (t : TaskStats) (s : Registry Elements Queue) → Same s (process_delay_acct L Q t s)
  unfolding process_delay_acct write
  process_delay_acct-Same t s =
      elim (if ltb t.ac_pid (2 ^ 31) then get_proc_entry L Q t.ac_pid s else none)
        as (λ o. Same s (write_accounted L Q t o s)) [
          | none ↦ (refl, λ r. refl)
          | some x ↦ (refl, λ r. ground arith)
        ]

  written_to :
      (t : TaskStats) (s : Registry Elements Queue) (o : Option Ref) (r : Ref)
      → Finds (pid_of L Q none s) t.ac_pid o r
      → (write_accounted L Q t o s).entries r
        ≡ (if (s.entries r).pid == t.ac_pid then accounted t (s.entries r) else s.entries r)
  unfolding write
  written_to t s none r h = elim (Bool-cases ((s.entries r).pid == t.ac_pid)) [
    | inl hit ↦ absurd (none_ne (Finds-hit (pid_of L Q none s) t.ac_pid none r hit h))
    | inr miss ↦ rw miss refl
  ]
  written_to t s (some x) r h = elim (Bool-cases ((s.entries r).pid == t.ac_pid)) [
    | inl hit ↦ ground (arith, Finds-hit (pid_of L Q none s) t.ac_pid (some x) r hit h)
    | inr miss ↦ ground (
      arith,
      λ (e : x ≡ r). Finds-miss (pid_of L Q none s) t.ac_pid (some x) r miss h (ap some e),
    )
  ]

  process_delay_acct-entries :
      (t : TaskStats) (s : Registry Elements Queue)
      → Distinct (pid_of L Q none s) (visited s.proc_list)
      → All
          (λ r.
            (process_delay_acct L Q t s).entries r
            ≡ answered (about (s.entries r).pid (some t)) (s.entries r))
          (visited s.proc_list)
  unfolding process_delay_acct
  process_delay_acct-entries t s d = elim (Bool-cases (ltb t.ac_pid (2 ^ 31))) [
    | inl small ↦ rw small (
        All-map (λ r h. written_to t s (get_proc_entry L Q t.ac_pid s) r h ∙ ground arith)
          (visited s.proc_list) (get_proc_entry-Finds L Q t.ac_pid s d))
    | inr big ↦ rw big (everywhere (λ r. ground arith) (visited s.proc_list))
  ]

  callback-Same :
      (m : Reply) (s : Registry Elements Queue) → Same s (callback_statistics_message L Q m s).0
  unfolding callback_statistics_message
  callback-Same unparsed s = (refl, λ r. refl)
  callback-Same (parsed (some t) tgid) s = process_delay_acct-Same t s
  callback-Same (parsed none (some t)) s = process_delay_acct-Same t s
  callback-Same (parsed none none) s = (refl, λ r. refl)

  callback-entries :
      (m : Reply) (s : Registry Elements Queue)
      → Distinct (pid_of L Q none s) (visited s.proc_list)
      → All
          (λ r.
            (callback_statistics_message L Q m s).0.entries r
            ≡ answered (about (s.entries r).pid (stats_of m)) (s.entries r))
          (visited s.proc_list)
  unfolding callback_statistics_message
  callback-entries unparsed s d = everywhere (λ r. refl) (visited s.proc_list)
  callback-entries (parsed (some t) tgid) s d = process_delay_acct-entries t s d
  callback-entries (parsed none (some t)) s d = process_delay_acct-entries t s d
  callback-entries (parsed none none) s d = everywhere (λ r. refl) (visited s.proc_list)

  handed-Same : (ms : List Reply) (s : Registry Elements Queue) → Same s (handed L Q ms s)
  unfolding handed
  handed-Same [] s = (refl, λ r. refl)
  handed-Same (m ∷ ms) s =
      let u = (callback_statistics_message L Q m s).0 in
      let first = callback-Same m s in
      let later = handed-Same ms u in (later.0 ∙ first.0, λ r. later.1 r ∙ first.1 r)

  answered_twice :
      (a b : Option TaskStats) (e : ProcEntry)
      → answered a (answered b e) ≡ answered (or_earlier a b) e
  answered_twice none b e = refl
  answered_twice (some t) none e = refl
  answered_twice (some t) (some u) e = refl

  handed-entries :
      (ms : List Reply) (s : Registry Elements Queue)
      → Distinct (pid_of L Q none s) (visited s.proc_list)
      → All (Shows ms s (handed L Q ms s)) (visited s.proc_list)
  unfolding handed latest
  handed-entries [] s d = everywhere (λ r. refl) (visited s.proc_list)
  handed-entries (m ∷ ms) s d =
      let u = (callback_statistics_message L Q m s).0 in
      let same = callback-Same m s in
      let rest : All (Shows ms u (handed L Q ms u)) (visited s.proc_list) =
        subst (λ l. All (Shows ms u (handed L Q ms u)) (visited l)) same.0
          (handed-entries ms u (
            subst (λ l. Distinct (pid_of L Q none u) (visited l)) (sym same.0)
              (Distinct-cong (pid_of L Q none s) (pid_of L Q none u) (visited s.proc_list)
                (everywhere (λ r. sym (same.1 r)) (visited s.proc_list)) d))) in
      All-map
        (λ r h.
          h.0
          ∙ ap (λ k. answered (latest k ms) (u.entries r)) (same.1 r)
          ∙ ap (answered (latest (s.entries r).pid ms)) h.1
          ∙ answered_twice (latest (s.entries r).pid ms) (about (s.entries r).pid (stats_of m))
              (s.entries r))
        (visited s.proc_list) (All-both _ _ (visited s.proc_list) rest (callback-entries m s d))

  answered-acct : (o : Option TaskStats) (e : ProcEntry) → (answered o e).acct ≡ acct_with o e.acct
  answered-acct none e = refl
  answered-acct (some t) e = refl

  -- Where the listed pids are pairwise different: whatever messages a wake-up hands over, the list stays,
  -- each listed process whose statistics came last with a pid below 2^31 takes these and waits for no
  -- answer any more, the other listed entries stay as they are, and a collector is then sent one message
  -- for each listed process in order, with the last statistics about it, or what it had before where
  -- there were none.
  pub receive-collect :
      (ms : List Reply) (result : NlResult) (now : Clock) (c : Collector)
      (s : Registry Elements Queue)
      → Distinct (pid_of L Q none s) (visited s.proc_list)
      → let u = (receive L Q ms result s).0 in
        (u.proc_list ≡ s.proc_list)
        × All (Shows ms s u) (visited s.proc_list)
        × (collect_proc_acct L Q true now c u
            ≡ map
                (λ r. send_acct now c (acct_with (latest (s.entries r).pid ms) (s.entries r).acct))
                (visited s.proc_list))
  unfolding receive collect_proc_acct
  receive-collect ms result now c s v =
      let shown = handed-entries ms s v in
      let same = (handed-Same ms s).0 in
      (
        same,
        shown,
        ap (λ l. map (λ r. send_acct now c ((handed L Q ms s).entries r).acct) (visited l)) same
            ∙ map-cong _ _ (visited s.proc_list) (
                All-map
                  (λ r h. ap (send_acct now c) (
                    ap (λ (e : ProcEntry). e.acct) h
                    ∙ answered-acct (latest (s.entries r).pid ms) (s.entries r)))
                  (visited s.proc_list) shown),
      )
