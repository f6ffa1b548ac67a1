-- ===== src/ProcRegistry/Unanswered.antt =====
-- A request for accounting that is not answered.
use taskmonitor.Common.{
  ℕ, ◌≡◌, ◌∙◌, Bool, true, false, List, [], ◌∷◌, Option, none, some, arith, inl, inr, Bool-cases,
  Bytes, stoi, Outcome, ok, throws, traps, M,
}
use taskmonitor.Bswinfra.{AsyncQueue, SafeList, Ref}
use taskmonitor.Messages.{Clock}
use taskmonitor.Source.{UpdateLane, fast, pace, slow, any_lane}
use taskmonitor.ProcEntry.{ProcEntry, ProcFs}
use taskmonitor.ProcEntry.Update.{unless_false, update_proc_info, update_proc_acct, update_both}
use taskmonitor.ProcEntry.Sampling.{update_proc_info-SameProcess}
use taskmonitor.ProcRegistry.{
  Registry, Request, commit_proc_list, commit_context_list, collect_and_send_proc_acct,
  collect_and_send_proc_info, collect_and_send_context_info, Blacklist, write,
}
use taskmonitor.ProcRegistry.Contexts.{Widths, collect_context_info}
use taskmonitor.ProcRegistry.Requests.{Message, request_handler, commit_contexts, dispatch}
use taskmonitor.ProcRegistry.Handling.{tally_all-Alike}
use taskmonitor.ProcRegistry.Updates.{
  Accounting, Kernel, pid_of_name, add_named, update_process_list, after_entry, continued,
  update_entries, listed_now, accounting_update, update_with, update, ask_nobody, update_entry,
  update_all,
}
use taskmonitor.ProcRegistry.Waiting.{
  Waits, written-Waits, add_proc_entry-Waits, commit_procs-Waits, rem_proc_entry-Waits,
}

-- An update that keeps the pid and does not end a wait.
pub record StillWaits (e f : ProcEntry) : Type 0 where
  pub still_pid : f.pid ≡ e.pid
  pub still_waits : e.update_proc_acct_pending ≡ true → f.update_proc_acct_pending ≡ true

update_proc_info-StillWaits :
    (k : Kernel) (e : ProcEntry)
    → StillWaits e (update_proc_info k.collect_fd (k.reading_of e.pid) e).0
update_proc_info-StillWaits k e =
    let same = update_proc_info-SameProcess k.collect_fd (k.reading_of e.pid) e in
    record { still_pid = same.same_pid; still_waits = λ h. same.same_waiting ∙ h }

update_proc_acct-StillWaits :
    (n : ℕ) (accepted : Bool) (e : ProcEntry) → StillWaits e (update_proc_acct n accepted e).0
unfolding update_proc_acct
update_proc_acct-StillWaits n accepted e = ground arith

unless_false-StillWaits :
    (e : ProcEntry) (x : ProcEntry × Outcome Bool) (rest : M ProcEntry Bool)
    → StillWaits e x.0
    → ((f : ProcEntry) → StillWaits f (rest f).0)
    → StillWaits e (unless_false x rest).0
unless_false-StillWaits e (f, ok true) rest h g = record {
  still_pid = (g f).still_pid ∙ h.still_pid;
  still_waits = λ w. (g f).still_waits (h.still_waits w);
}
unless_false-StillWaits e (f, ok false) rest h g = h
unless_false-StillWaits e (f, throws x) rest h g = h
unless_false-StillWaits e (f, traps) rest h g = h

module _ (L : SafeList) (Q : AsyncQueue Request) (blacklist : Blacklist) where
  open L use {Elements, visited}
  open Q use {Queue}

  update_entry-StillWaits :
      (k : Kernel) (n : ℕ) (o : Option Accounting) (e : ProcEntry)
      → StillWaits e (update_entry L Q blacklist k n o e).0
  unfolding update_both
  update_entry-StillWaits k n (some a) e =
      unless_false-StillWaits e (update_proc_info k.collect_fd (k.reading_of e.pid) e)
        (update_proc_acct n (a.accepts e.pid)) (update_proc_info-StillWaits k e)
        (update_proc_acct-StillWaits n (a.accepts e.pid))
  update_entry-StillWaits k n none e =
      unless_false-StillWaits e (update_proc_info k.collect_fd (k.reading_of e.pid) e)
        (ask_nobody L Q blacklist n) (update_proc_info-StillWaits k e) (λ f. ground arith)

  module _ (r : Ref) (pid : ℕ) where
    abbrev Kept : Registry Elements Queue → Type 0
    Kept = Waits L Q blacklist r pid

    request_handler-Waits :
        (w : Widths) (acct : Bool) (now : Clock) (q : Request) (s : Registry Elements Queue)
        → Kept s
        → Kept (request_handler L Q w acct now q s).0
    unfolding request_handler commit_contexts collect_context_info
    request_handler-Waits w acct now commit_proc_list s v =
        commit_procs-Waits L Q blacklist r pid s v
    request_handler-Waits w acct now commit_context_list s v = record {
      known = v.known;
      of_pid = v.of_pid;
      waits = v.waits;
    }
    request_handler-Waits w acct now (collect_and_send_proc_acct c) s v = v
    request_handler-Waits w acct now (collect_and_send_proc_info c) s v = v
    request_handler-Waits w acct now (collect_and_send_context_info c) s v =
        let a = tally_all-Alike L Q blacklist w (visited s.context_list) s in
        record {
          known = rw a.same_fresh v.known;
          of_pid = rw a.same_entries v.of_pid;
          waits = rw a.same_entries v.waits;
        }

    dispatched-Waits :
        (w : Widths) (acct : Bool) (now : Clock) (o : Option (Request × Queue))
        (s : Registry Elements Queue)
        → Kept s
        → Kept
            (elim o as (λ _. Registry Elements Queue × List Message) [
              | none ↦ (s, [])
              | some (q, rest) ↦ request_handler L Q w acct now q (record s { queue = rest })
            ]).0
    dispatched-Waits w acct now none s v = v
    dispatched-Waits w acct now (some (q, rest)) s v =
        request_handler-Waits w acct now q (record s { queue = rest })
          (record { known = v.known; of_pid = v.of_pid; waits = v.waits })

    pub dispatch-Waits :
        (w : Widths) (acct : Bool) (now : Clock) (s : Registry Elements Queue)
        → Kept s
        → Kept (dispatch L Q w acct now s).0
    unfolding dispatch
    dispatch-Waits w acct now s v = dispatched-Waits w acct now (Q.take s.queue) s v

    add_named-Waits :
        (fs : ProcFs) (o : Option ℕ) (s : Registry Elements Queue)
        → Kept s
        → Kept (add_named L Q blacklist fs o s)
    add_named-Waits fs none s v = v
    add_named-Waits fs (some k) s v = add_proc_entry-Waits L Q blacklist r pid fs k s v

    update_process_list-Waits :
        (fs : ProcFs) (names : List Bytes) (s : Registry Elements Queue)
        → Kept s
        → Kept (update_process_list L Q blacklist fs names s)
    unfolding update_process_list
    update_process_list-Waits fs [] s v = v
    update_process_list-Waits fs (name ∷ names) s v =
        update_process_list-Waits fs names _ (add_named-Waits fs (pid_of_name (stoi name)) s v)

    listed_now-Waits :
        (k : Kernel) (s : Registry Elements Queue) → Kept s → Kept (listed_now L Q blacklist k s)
    listed_now-Waits k s v = elim (Bool-cases k.list_follows_events) [
      | inl follows ↦ simp follows v
      | inr walks ↦ simp walks (update_process_list-Waits k.fs k.directories s v)
    ]

    after_entry-Waits :
        (x : Ref) (s : Registry Elements Queue) (y : ProcEntry × Outcome Bool)
        → StillWaits (s.entries x) y.0
        → Kept s
        → Kept (after_entry L Q blacklist x s y).0
    unfolding after_entry
    after_entry-Waits x s (e, ok true) h v =
        written-Waits L Q blacklist r pid x e s h.still_pid h.still_waits v
    after_entry-Waits x s (e, ok false) h v =
        rem_proc_entry-Waits L Q blacklist r pid e.pid false
          (record s { entries = write x e s.entries })
          (written-Waits L Q blacklist r pid x e s h.still_pid h.still_waits v)
    after_entry-Waits x s (e, throws y) h v =
        written-Waits L Q blacklist r pid x e s h.still_pid h.still_waits v
    after_entry-Waits x s (e, traps) h v =
        written-Waits L Q blacklist r pid x e s h.still_pid h.still_waits v

    continued-Waits :
        (x : Registry Elements Queue × Outcome (Unit {0}))
        (rest : M (Registry Elements Queue) (Unit {0}))
        → ((t : Registry Elements Queue) → Kept t → Kept (rest t).0)
        → Kept x.0
        → Kept (continued L Q blacklist x rest).0
    continued-Waits (s, ok u) rest h v = h s v
    continued-Waits (s, throws x) rest h v = v
    continued-Waits (s, traps) rest h v = v

    update_entries-Waits :
        (f : ProcEntry → ProcEntry × Outcome Bool) (h : (e : ProcEntry) → StillWaits e (f e).0)
        (xs : List Ref) (s : Registry Elements Queue)
        → Kept s
        → Kept (update_entries L Q blacklist f xs s).0
    unfolding update_entries
    update_entries-Waits f h [] s v = v
    update_entries-Waits f h (x ∷ xs) s v =
        continued-Waits (after_entry L Q blacklist x s (f (s.entries x)))
          (update_entries L Q blacklist f xs) (update_entries-Waits f h xs)
          (after_entry-Waits x s (f (s.entries x)) (h (s.entries x)) v)

    accounted-Waits :
        (o : Option Accounting) (s : Registry Elements Queue)
        → Kept s
        → Kept (update_with L Q blacklist (accounting_update L Q blacklist o) s).0
    accounted-Waits none s v = v
    accounted-Waits (some a) s v =
        update_entries-Waits _ (λ e. update_proc_acct-StillWaits a.collectors (a.accepts e.pid) e) _
          s v

    pub update-Waits :
        (k : Kernel) (lane : UpdateLane) (s : Registry Elements Queue)
        → Kept s
        → Kept (update L Q blacklist k lane s).0
    unfolding update
    update-Waits k fast s v = listed_now-Waits k s v
    update-Waits k pace s v =
        update_entries-Waits (λ e. update_proc_info k.collect_fd (k.reading_of e.pid) e)
          (update_proc_info-StillWaits k) _ _ (listed_now-Waits k s v)
    update-Waits k slow s v = accounted-Waits k.accounting _ (listed_now-Waits k s v)
    update-Waits k any_lane s v = listed_now-Waits k s v

    pub update_all-Waits :
        (k : Kernel) (n : ℕ) (s : Registry Elements Queue)
        → Kept s
        → Kept (update_all L Q blacklist k n s).0
    unfolding update_all
    update_all-Waits k n s v =
        update_entries-Waits (update_entry L Q blacklist k n k.accounting)
          (update_entry-StillWaits k n k.accounting) _ _ (listed_now-Waits k s v)
