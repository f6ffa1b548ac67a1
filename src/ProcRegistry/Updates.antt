-- ===== src/ProcRegistry/Updates.antt =====
-- `ProcRegistry::update` of source/ProcRegistry.cpp: the walk over /proc, and the update of each
-- entry at its lane's timer. An entry whose update fails asks for its removal.
use taskmonitor.Common.{
  ◌==◌, ℕ, Bool, true, false, List, [], ◌∷◌, Option, none, some, if◌then◌else◌, Bytes, ℤ, pos,
  negsuc, stoi, Outcome, ok, throws, traps, M,
}
use taskmonitor.Bswinfra.{AsyncQueue, SafeList, Ref}
use taskmonitor.Source.{UpdateLane, pace, slow}
use taskmonitor.ProcEntry.{ProcEntry, ProcFs}
use taskmonitor.ProcEntry.Update.{
  Reading, unless_false, update_proc_info, update_proc_acct, update_both,
}
use taskmonitor.ProcRegistry.{Registry, Request, Blacklist, write, add_proc_entry, rem_proc_entry}

-- `ProcAcct`: the number of collectors that want accounting, and the processes whose request is
-- accepted.
pub record Accounting : Type 0 where
  pub collectors : ℕ
  pub accepts : ℕ → Bool

-- What an update meets: the directories of /proc, a reading for each process, whether the open files
-- are counted, whether the kernel's events keep the list, and the accounting, if there is any.
pub record Kernel : Type 0 where
  pub fs : ProcFs
  pub directories : List Bytes
  pub reading_of : ℕ → Reading
  pub collect_fd : Bool
  pub list_follows_events : Bool
  pub accounting : Option Accounting

-- A name that is no number is passed over; no directory of /proc has a negative one.
unfoldable pub pid_of_name : Outcome ℤ → Option ℕ
pid_of_name (ok (pos n)) = some n
pid_of_name (ok (negsuc n)) = none
pid_of_name (throws e) = none
pid_of_name traps = none

module _ (L : SafeList) (Q : AsyncQueue Request) (blacklist : Blacklist) where
  open L use {Elements, visited}
  open Q use {Queue}

  abbrev pub add_named : ProcFs → Option ℕ → Registry Elements Queue → Registry Elements Queue
  add_named fs none s = s
  add_named fs (some pid) s = add_proc_entry L Q fs blacklist pid s

  unfoldable pub update_process_list :
      ProcFs → List Bytes → Registry Elements Queue → Registry Elements Queue
  unfolding pid_of_name
  update_process_list fs [] s = s
  update_process_list fs (name ∷ names) s =
      update_process_list fs names (add_named fs (pid_of_name (stoi name)) s)

  -- The entry written, and removed where its update fails.
  unfoldable pub after_entry :
      Ref
      → Registry Elements Queue
      → ProcEntry × Outcome Bool
      → Registry Elements Queue × Outcome (Unit {0})
  after_entry r s (e, ok true) = (record s { entries = write r e s.entries }, ok tt)
  after_entry r s (e, ok false) =
      (rem_proc_entry L Q e.pid false (record s { entries = write r e s.entries }), ok tt)
  after_entry r s (e, throws x) = (record s { entries = write r e s.entries }, throws x)
  after_entry r s (e, traps) = (record s { entries = write r e s.entries }, traps)

  abbrev pub continued :
      Registry Elements Queue × Outcome (Unit {0})
      → M (Registry Elements Queue) (Unit {0})
      → Registry Elements Queue × Outcome (Unit {0})
  continued (s, ok u) rest = rest s
  continued (s, throws x) rest = (s, throws x)
  continued (s, traps) rest = (s, traps)

  -- `foreach` with an update of the entry.
  unfoldable pub update_entries :
      (ProcEntry → ProcEntry × Outcome Bool) → List Ref → M (Registry Elements Queue) (Unit {0})
  update_entries f [] s = (s, ok tt)
  update_entries f (r ∷ rs) s = continued (after_entry r s (f (s.entries r))) (update_entries f rs)

  abbrev pub listed_now : Kernel → Registry Elements Queue → Registry Elements Queue
  listed_now k s = if k.list_follows_events then s else update_process_list k.fs k.directories s

  abbrev pub accounting_update : Option Accounting → Option (ProcEntry → ProcEntry × Outcome Bool)
  accounting_update none = none
  accounting_update (some a) = some (λ e. update_proc_acct a.collectors (a.accepts e.pid) e)

  -- The update of an entry at a lane's timer, where there is one.
  abbrev pub lane_update : Kernel → UpdateLane → Option (ProcEntry → ProcEntry × Outcome Bool)
  lane_update k pace = some (λ e. update_proc_info k.collect_fd (k.reading_of e.pid) e)
  lane_update k slow = accounting_update k.accounting
  lane_update k _ = none

  abbrev pub update_with :
      Option (ProcEntry → ProcEntry × Outcome Bool) → M (Registry Elements Queue) (Unit {0})
  update_with none s = (s, ok tt)
  update_with (some f) s = update_entries f (visited s.proc_list) s

  -- `update(lane)`.
  unfoldable pub update : Kernel → UpdateLane → M (Registry Elements Queue) (Unit {0})
  unfolding update_entries update_process_list
  update k lane s = update_with (lane_update k lane) (listed_now k s)

  -- `updateProcAcct` where there is no accounting object: its use is a read through a null pointer.
  abbrev pub ask_nobody : ℕ → M ProcEntry Bool
  ask_nobody collectors e =
      if collectors == 0
      then (e, ok true)
      else if e.update_proc_acct_pending
      then (e, ok true)
      else (record e { update_proc_acct_pending = true }, traps)

  abbrev pub update_entry : Kernel → ℕ → Option Accounting → M ProcEntry Bool
  update_entry k collectors (some a) e =
      update_both k.collect_fd (k.reading_of e.pid) collectors (a.accepts e.pid) e
  update_entry k collectors none e =
      unless_false (update_proc_info k.collect_fd (k.reading_of e.pid) e) (ask_nobody collectors)

  -- `update()`, with the number of collectors that want accounting: both updates of every entry.
  unfoldable pub update_all : Kernel → ℕ → M (Registry Elements Queue) (Unit {0})
  unfolding update_entries update_process_list
  update_all k collectors s =
      let t = listed_now k s in
      update_entries (update_entry k collectors k.accounting) (visited t.proc_list) t
