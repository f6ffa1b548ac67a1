-- ===== src/ProcRegistry/History.antt =====
-- Histories of the process registry.
use taskmonitor.Common.{ℕ, ◌≡◌, Bool, List, [], ◌∷◌, Bytes}
use taskmonitor.Bswinfra.{AsyncQueue, SafeList}
use taskmonitor.ProcEntry.{ProcFs}
use taskmonitor.ProcRegistry.{
  Registry, Request, Blacklist, add_proc_entry, upd_proc_entry, commit_procs, rem_proc_entry,
  rem_proc_entry_named,
}
use taskmonitor.ProcRegistry.Invariant.{Inv, empty-Inv, commit_procs-Inv}
use taskmonitor.ProcRegistry.Additions.{add_proc_entry-Inv}
use taskmonitor.ProcRegistry.Upkeep.{
  upd_proc_entry-Inv, rem_proc_entry-Inv, rem_proc_entry_named-Inv,
}
use taskmonitor.ProcRegistry.Contexts.{Widths}
use taskmonitor.ProcRegistry.Requests.{dispatch}
use taskmonitor.ProcRegistry.Handling.{dispatch-Inv}
use taskmonitor.ProcRegistry.Updates.{Kernel, update, update_all}
use taskmonitor.ProcRegistry.Walk.{update-Inv, update_all-Inv}
use taskmonitor.ProcAcct.{Reply, NlResult, receive}
use taskmonitor.ProcAcct.Keeping.{receive-Inv}
use taskmonitor.Messages.{Clock}
use taskmonitor.Source.{UpdateLane}

-- A call, with what the kernel shows while it runs.
pub data Op : Type 0 where
  adds updates : ProcFs → ℕ → Op
  removes : ℕ → Bool → Op
  removes_named : Bytes → Bool → Op
  commits : Op
  -- The event loop hands a request over, a timer fires, and the kernel answers for accounting.
  dispatches : Widths → Bool → Clock → Op
  times : Kernel → UpdateLane → Op
  updates_all : Kernel → (collectors : ℕ) → Op
  answers : List Reply → NlResult → Op

module _ (L : SafeList) (Q : AsyncQueue Request) (blacklist : Blacklist) where
  open L use {Elements, visited, staged}
  open Q use {Queue}

  unfoldable pub step : Op → Registry Elements Queue → Registry Elements Queue
  step (adds fs pid) s = add_proc_entry L Q fs blacklist pid s
  step (updates fs pid) s = upd_proc_entry L Q fs blacklist pid s
  step (removes pid sync) s = rem_proc_entry L Q pid sync s
  step (removes_named name sync) s = rem_proc_entry_named L Q name sync s
  step commits s = commit_procs L Q s
  step (dispatches w acct now) s = (dispatch L Q w acct now s).0
  step (times k lane) s = (update L Q blacklist k lane s).0
  step (updates_all k collectors) s = (update_all L Q blacklist k collectors s).0
  step (answers ms result) s = (receive L Q ms result s).0

  unfoldable pub run : List Op → Registry Elements Queue → Registry Elements Queue
  unfolding step
  run [] s = s
  run (o ∷ os) s = run os (step o s)

  step-Inv :
      (o : Op) (s : Registry Elements Queue) → Inv L Q blacklist s → Inv L Q blacklist (step o s)
  unfolding step
  step-Inv (adds fs pid) s v = add_proc_entry-Inv L Q blacklist fs pid s v
  step-Inv (updates fs pid) s v = upd_proc_entry-Inv L Q blacklist fs pid s v
  step-Inv (removes pid sync) s v = rem_proc_entry-Inv L Q blacklist pid sync s v
  step-Inv (removes_named name sync) s v = rem_proc_entry_named-Inv L Q blacklist name sync s v
  step-Inv commits s v = commit_procs-Inv L Q blacklist s v
  step-Inv (dispatches w acct now) s v = dispatch-Inv L Q blacklist w acct now s v
  step-Inv (times k lane) s v = update-Inv L Q blacklist k lane s v
  step-Inv (updates_all k collectors) s v = update_all-Inv L Q blacklist k collectors s v
  step-Inv (answers ms result) s v = receive-Inv L Q blacklist ms result s v

  pub run_keeps-Inv :
      (os : List Op) (s : Registry Elements Queue)
      → Inv L Q blacklist s
      → Inv L Q blacklist (run os s)
  unfolding run
  run_keeps-Inv [] s v = v
  run_keeps-Inv (o ∷ os) s v = run_keeps-Inv os (step o s) (step-Inv o s v)

  -- From an empty registry, every sequence of additions, updates, removals, commits, handled requests,
  -- timers, full updates and accounting answers of the kernel leaves entries with pairwise different pids, none of which
  -- has a blacklisted name, and only removals waiting for a commit.
  pub run-Inv :
      (os : List Op) (s : Registry Elements Queue)
      → visited s.proc_list ≡ []
      → staged s.proc_list ≡ []
      → Inv L Q blacklist (run os s)
  run-Inv os s e f = run_keeps-Inv os s (empty-Inv L Q blacklist s e f)
