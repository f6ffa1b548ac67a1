-- ===== src/ProcRegistry/Walk.antt =====
-- The registry's timer keeps the invariant.
use taskmonitor.Common.{
  ℕ, ◌≡◌, Bool, true, false, List, [], ◌∷◌, Option, none, some, arith, inl, inr, Bool-cases, Bytes,
  stoi, Outcome, ok, throws, traps, M,
}
use taskmonitor.Bswinfra.{AsyncQueue, SafeList, Ref}
use taskmonitor.Bswinfra.Changes.{All}
use taskmonitor.Source.{UpdateLane, fast, pace, slow, any_lane}
use taskmonitor.ProcEntry.{ProcEntry, ProcFs}
use taskmonitor.ProcEntry.Update.{unless_false, update_proc_info, update_proc_acct, update_both}
use taskmonitor.ProcEntry.Lines.{SameProcess}
use taskmonitor.ProcEntry.Sampling.{update_proc_info-SameProcess}
use taskmonitor.ProcRegistry.{Registry, Request, Blacklist, write}
use taskmonitor.ProcRegistry.Invariant.{Distinct-cong, All-map, pid_of, Clean, Inv}
use taskmonitor.ProcRegistry.Additions.{add_proc_entry-Inv}
use taskmonitor.ProcRegistry.Upkeep.{rem_proc_entry-Inv}
use taskmonitor.ProcRegistry.Updates.{
  Accounting, Kernel, pid_of_name, add_named, update_process_list, after_entry, continued,
  update_entries, listed_now, accounting_update, update_with, update, ask_nobody, update_entry,
  update_all,
}

-- What the invariant needs of an entry and a later state of it.
pub record Kin (e f : ProcEntry) : Type 0 where
  pub kin_pid : f.pid ≡ e.pid
  pub kin_comm : f.info.comm ≡ e.info.comm

SameProcess-Kin : {e f : ProcEntry} → SameProcess e f → Kin e f
SameProcess-Kin h = record { kin_pid = h.same_pid; kin_comm = h.same_comm }

Kin-trans : {e f g : ProcEntry} → Kin e f → Kin f g → Kin e g
Kin-trans p q = ground arith

update_proc_acct-Kin :
    (collectors : ℕ) (accepted : Bool) (e : ProcEntry)
    → Kin e (update_proc_acct collectors accepted e).0
unfolding update_proc_acct
update_proc_acct-Kin collectors accepted e = ground arith

module _ (L : SafeList) (Q : AsyncQueue Request) (blacklist : Blacklist) where
  open L use {Elements, visited}
  open Q use {Queue}

  -- The entry `r` of `s` replaced.
  abbrev pub written : Ref → ProcEntry → Registry Elements Queue → Registry Elements Queue
  written r e s = record s { entries = write r e s.entries }

  pids-written :
      (r : Ref) (e : ProcEntry) (s : Registry Elements Queue) (xs : List Ref)
      → Kin (s.entries r) e
      → All (λ x. pid_of L Q blacklist s x ≡ pid_of L Q blacklist (written r e s) x) xs
  unfolding write
  pids-written r e s [] h = tt
  pids-written r e s (x ∷ xs) h = (ground arith, pids-written r e s xs h)

  Clean-written :
      (r : Ref) (e : ProcEntry) (s : Registry Elements Queue) (x : Ref)
      → Kin (s.entries r) e
      → Clean L Q blacklist s x
      → Clean L Q blacklist (written r e s) x
  unfolding write
  Clean-written r e s x h c = ground arith

  pub written-Inv :
      (r : Ref) (e : ProcEntry) (s : Registry Elements Queue)
      → Kin (s.entries r) e
      → Inv L Q blacklist s
      → Inv L Q blacklist (written r e s)
  written-Inv r e s h v = record {
    distinct =
        Distinct-cong (pid_of L Q blacklist s) (pid_of L Q blacklist (written r e s))
          (visited s.proc_list) (pids-written r e s (visited s.proc_list) h) v.distinct;
    clean = All-map (λ x. Clean-written r e s x h) (visited s.proc_list) v.clean;
    known = v.known;
    waiting = v.waiting;
  }

  after_entry-Inv :
      (r : Ref) (s : Registry Elements Queue) (x : ProcEntry × Outcome Bool)
      → Kin (s.entries r) x.0
      → Inv L Q blacklist s
      → Inv L Q blacklist (after_entry L Q blacklist r s x).0
  unfolding after_entry
  after_entry-Inv r s (e, ok true) h v = written-Inv r e s h v
  after_entry-Inv r s (e, ok false) h v =
      rem_proc_entry-Inv L Q blacklist e.pid false (written r e s) (written-Inv r e s h v)
  after_entry-Inv r s (e, throws x) h v = written-Inv r e s h v
  after_entry-Inv r s (e, traps) h v = written-Inv r e s h v

  continued-Inv :
      (x : Registry Elements Queue × Outcome (Unit {0}))
      (rest : M (Registry Elements Queue) (Unit {0}))
      → ((t : Registry Elements Queue) → Inv L Q blacklist t → Inv L Q blacklist (rest t).0)
      → Inv L Q blacklist x.0
      → Inv L Q blacklist (continued L Q blacklist x rest).0
  continued-Inv (s, ok u) rest h v = h s v
  continued-Inv (s, throws x) rest h v = v
  continued-Inv (s, traps) rest h v = v

  update_entries-Inv :
      (f : ProcEntry → ProcEntry × Outcome Bool) (same : (e : ProcEntry) → Kin e (f e).0)
      (rs : List Ref) (s : Registry Elements Queue)
      → Inv L Q blacklist s
      → Inv L Q blacklist (update_entries L Q blacklist f rs s).0
  unfolding update_entries
  update_entries-Inv f same [] s v = v
  update_entries-Inv f same (r ∷ rs) s v =
      continued-Inv (after_entry L Q blacklist r s (f (s.entries r)))
        (update_entries L Q blacklist f rs) (update_entries-Inv f same rs)
        (after_entry-Inv r s (f (s.entries r)) (same (s.entries r)) v)

  pub add_named-Inv :
      (fs : ProcFs) (pid : Option ℕ) (s : Registry Elements Queue)
      → Inv L Q blacklist s
      → Inv L Q blacklist (add_named L Q blacklist fs pid s)
  add_named-Inv fs none s v = v
  add_named-Inv fs (some pid) s v = add_proc_entry-Inv L Q blacklist fs pid s v

  pub update_process_list-Inv :
      (fs : ProcFs) (names : List Bytes) (s : Registry Elements Queue)
      → Inv L Q blacklist s
      → Inv L Q blacklist (update_process_list L Q blacklist fs names s)
  unfolding update_process_list
  update_process_list-Inv fs [] s v = v
  update_process_list-Inv fs (name ∷ names) s v =
      update_process_list-Inv fs names _ (add_named-Inv fs (pid_of_name (stoi name)) s v)

  listed_now-Inv :
      (k : Kernel) (s : Registry Elements Queue)
      → Inv L Q blacklist s
      → Inv L Q blacklist (listed_now L Q blacklist k s)
  listed_now-Inv k s v = elim (Bool-cases k.list_follows_events) [
    | inl follows ↦ simp follows v
    | inr walks ↦ simp walks (update_process_list-Inv k.fs k.directories s v)
  ]

  accounted-Inv :
      (a : Option Accounting) (s : Registry Elements Queue)
      → Inv L Q blacklist s
      → Inv L Q blacklist (update_with L Q blacklist (accounting_update L Q blacklist a) s).0
  accounted-Inv none s v = v
  accounted-Inv (some a) s v =
      update_entries-Inv _ (λ e. update_proc_acct-Kin a.collectors (a.accepts e.pid) e) _ s v

  -- A timer of any lane keeps the invariant of the registry, whatever the kernel shows and however
  -- the update ends: the listed pids differ and no listed name is blacklisted.
  pub update-Inv :
      (k : Kernel) (lane : UpdateLane) (s : Registry Elements Queue)
      → Inv L Q blacklist s
      → Inv L Q blacklist (update L Q blacklist k lane s).0
  unfolding update
  update-Inv k fast s v = listed_now-Inv k s v
  update-Inv k pace s v =
      update_entries-Inv (λ e. update_proc_info k.collect_fd (k.reading_of e.pid) e)
        (λ e. SameProcess-Kin (update_proc_info-SameProcess k.collect_fd (k.reading_of e.pid) e)) _
        _ (listed_now-Inv k s v)
  update-Inv k slow s v = accounted-Inv k.accounting _ (listed_now-Inv k s v)
  update-Inv k any_lane s v = listed_now-Inv k s v

  unless_false-Kin :
      (e : ProcEntry) (x : ProcEntry × Outcome Bool) (rest : M ProcEntry Bool)
      → Kin e x.0
      → ((f : ProcEntry) → Kin f (rest f).0)
      → Kin e (unless_false x rest).0
  unless_false-Kin e (f, ok true) rest h g = Kin-trans h (g f)
  unless_false-Kin e (f, ok false) rest h g = h
  unless_false-Kin e (f, throws x) rest h g = h
  unless_false-Kin e (f, traps) rest h g = h

  update_entry-Kin :
      (k : Kernel) (collectors : ℕ) (o : Option Accounting) (e : ProcEntry)
      → Kin e (update_entry L Q blacklist k collectors o e).0
  unfolding update_both
  update_entry-Kin k collectors (some a) e =
      unless_false-Kin e (update_proc_info k.collect_fd (k.reading_of e.pid) e)
        (update_proc_acct collectors (a.accepts e.pid))
        (SameProcess-Kin (update_proc_info-SameProcess k.collect_fd (k.reading_of e.pid) e))
        (update_proc_acct-Kin collectors (a.accepts e.pid))
  update_entry-Kin k collectors none e =
      unless_false-Kin e (update_proc_info k.collect_fd (k.reading_of e.pid) e)
        (ask_nobody L Q blacklist collectors)
        (SameProcess-Kin (update_proc_info-SameProcess k.collect_fd (k.reading_of e.pid) e))
        (λ f. ground arith)

  pub update_all-Inv :
      (k : Kernel) (collectors : ℕ) (s : Registry Elements Queue)
      → Inv L Q blacklist s
      → Inv L Q blacklist (update_all L Q blacklist k collectors s).0
  unfolding update_all
  update_all-Inv k collectors s v =
      update_entries-Inv (update_entry L Q blacklist k collectors k.accounting)
        (update_entry-Kin k collectors k.accounting) _ _ (listed_now-Inv k s v)
