-- ===== src/ProcRegistry/Requests.antt =====
-- The requests of source/ProcRegistry.cpp and the reading of /proc at the start. `w` gives the widths of
-- the totals.
use taskmonitor.Common.{
  ℕ, Bool, List, [], ◌∷◌, map, Option, none, some, if◌then◌else◌, Bytes, codes, equal, ◌&&◌, stoi,
  Outcome, ok, throws, traps,
}
use taskmonitor.Bswinfra.{AsyncQueue, SafeList}
use taskmonitor.Messages.{Clock, Collector, Sent, proc_acct}
use taskmonitor.Messages.Acct.{Acct}
use taskmonitor.Options.{Config, get_for, read_proc_at_init}
use taskmonitor.ProcEntry.{ProcInfo, ProcFs, get_proc_name_for_pid}
use taskmonitor.ProcRegistry.{
  ContextEntry, Registry, Request, commit_proc_list, commit_context_list,
  collect_and_send_proc_acct, collect_and_send_proc_info, collect_and_send_context_info, Blacklist,
  is_blacklisted, create_process_entry, commit_procs,
}
use taskmonitor.ProcRegistry.Contexts.{Widths, collect_context_info, collect_proc_info}
use taskmonitor.ProcRegistry.Updates.{pid_of_name}

abbrev pub send_acct : Clock → Collector → Acct → Sent Acct
send_acct now c a = record {
  collector = c;
  message = record {
    what = proc_acct;
    system_time_sec = now.realtime;
    monotonic_time_sec = now.monotonic;
    payload = a;
  };
}

-- A message, by what is packed into it.
pub data Message : Type 0 where
  of_acct : Sent Acct → Message
  of_procs : Sent (List ProcInfo) → Message
  of_contexts : Sent (List ContextEntry) → Message

module _ (L : SafeList) (Q : AsyncQueue Request) where
  open L use {Elements, visited, commit}
  open Q use {Queue}

  -- `doCollectAndSendProcAcct`: one message for each process, if there is accounting.
  unfoldable pub collect_proc_acct :
      Bool → Clock → Collector → Registry Elements Queue → List (Sent Acct)
  collect_proc_acct has_proc_acct now c s =
      if has_proc_acct
      then map (λ r. send_acct now c (s.entries r).acct) (visited s.proc_list)
      else []

  -- `doCommitContextList`.
  unfoldable pub commit_contexts : Registry Elements Queue → Registry Elements Queue
  commit_contexts s = record s { context_list = commit s.context_list }

  unfoldable pub request_handler :
      Widths
      → Bool
      → Clock
      → Request
      → Registry Elements Queue
      → Registry Elements Queue × List Message
  unfolding collect_proc_acct commit_contexts collect_context_info collect_proc_info commit_procs
  request_handler w has_proc_acct now commit_proc_list s = (commit_procs L Q s, [])
  request_handler w has_proc_acct now commit_context_list s = (commit_contexts s, [])
  request_handler w has_proc_acct now (collect_and_send_proc_acct c) s =
      (s, map of_acct (collect_proc_acct has_proc_acct now c s))
  request_handler w has_proc_acct now (collect_and_send_proc_info c) s =
      (s, of_procs (record { collector = c; message = collect_proc_info L Q w now s }) ∷ [])
  request_handler w has_proc_acct now (collect_and_send_context_info c) s =
      let (t, m) = collect_context_info L Q w now s in
      (t, of_contexts (record { collector = c; message = m }) ∷ [])

  -- The event loop hands the next request over.
  unfoldable pub dispatch :
      Widths → Bool → Clock → Registry Elements Queue → Registry Elements Queue × List Message
  unfolding request_handler
  dispatch w has_proc_acct now s = elim (Q.take s.queue) [
    | none ↦ (s, [])
    | some (r, q) ↦ request_handler w has_proc_acct now r (record s { queue = q })
  ]

  module _ (blacklist : Blacklist) where
    -- The body of the loop of `initFromProc`: nothing is looked up in the list.
    abbrev pub init_named :
        ProcFs → ℕ → Outcome Bytes → Registry Elements Queue → Registry Elements Queue
    init_named fs pid (throws x) s = s
    init_named fs pid traps s = s
    init_named fs pid (ok name) s =
        if is_blacklisted blacklist name then s else create_process_entry L Q fs pid name s

    abbrev pub init_pid : ProcFs → Option ℕ → Registry Elements Queue → Registry Elements Queue
    init_pid fs none s = s
    init_pid fs (some pid) s = init_named fs pid (get_proc_name_for_pid fs pid) s

    -- `initFromProc` with the names under /proc.
    unfoldable pub init_from_proc :
        ProcFs → List Bytes → Registry Elements Queue → Registry Elements Queue
    init_from_proc fs [] s = s
    init_from_proc fs (name ∷ names) s =
        init_from_proc fs names (init_pid fs (pid_of_name (stoi name)) s)

    -- `setEventSource`, for the processes: adding the queue to the event loop reads /proc if the option asks
    -- for it.
    unfoldable pub set_event_source :
        Config → ProcFs → List Bytes → Bool → Registry Elements Queue → Registry Elements Queue
    unfolding init_from_proc
    set_event_source config fs names enabled s =
        if enabled && equal (get_for read_proc_at_init config) (codes "true")
        then init_from_proc fs names s
        else s
