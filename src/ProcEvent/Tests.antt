-- ===== src/ProcEvent/Tests.antt =====
-- Init forks, a thread starts, and init ends; the socket then fails.
use taskmonitor.Common.{arith, ◌≡◌, true, false, List, [], ◌∷◌, some, none, codes}
use taskmonitor.Messages.Acct.{blank_acct}
use taskmonitor.Bswinfra.{AsyncQueue}
use taskmonitor.Bswinfra.Plain.{plain_queue, plain_list}
use taskmonitor.Source.{new_data_source}
use taskmonitor.ProcEntry.{ProcFs, blank_info}
use taskmonitor.ProcRegistry
use taskmonitor.ProcRegistry.{Registry, new_context_entry, get_proc_entry}
use taskmonitor.ProcRegistry.Invariant.{Inv}
use taskmonitor.ProcRegistry.History.{run, run-Inv}
use taskmonitor.StateManager
use taskmonitor.ProcEvent.{Received, nothing, event, fork, exec, exit, Listener, receive, receives}
use taskmonitor.ProcEvent.Calls.{
  heard, calls, added, receives-added, receives-run, receive_exit-get_proc_entry,
}

abbrev Q : AsyncQueue ProcRegistry.Request
Q = plain_queue ProcRegistry.Request 8

abbrev K : AsyncQueue StateManager.Request
K = plain_queue StateManager.Request 8

no_requests : (plain_queue ProcRegistry.Request 8).Queue
unfolding plain_queue
no_requests = []

no_asks : (plain_queue StateManager.Request 8).Queue
unfolding plain_queue
no_asks = []

abbrev one_process : ProcFs
one_process = record {
  status = λ pid. some (codes "Name: init" ∷ []);
  stat = λ pid. some (
      codes
        "1 (init) S 1 7 7 0 0 0 0 0 0 0 20 30 0 0 0 0 0 0 0 0 0 0 0 0 0 0 0 0 0 0 0 0 0 0 0 0 0 0 0 0 0 0 0 0 0 0 0 0 0");
  as_root = false;
  context_of = λ pid. 40;
}

abbrev empty_registry : Registry plain_list.Elements (plain_queue ProcRegistry.Request 8).Queue
empty_registry = record {
  base = new_data_source;
  proc_list = plain_list.empty;
  context_list = plain_list.empty;
  queue = no_requests;
  entries = λ r. record {
    base = new_data_source;
    info = blank_info [];
    pid = 0;
    last_update_time = 0;
    acct = blank_acct;
    update_proc_acct_pending = false;
  };
  contexts = λ r. new_context_entry 0 [];
  fresh = 0;
}

abbrev listener :
    Listener plain_list.Elements
      (plain_queue ProcRegistry.Request 8).Queue
      (plain_queue StateManager.Request 8).Queue
listener = record {
  event_data = record {
    fork_count = 0;
    exec_count = 0;
    uid_count = 0;
    gid_count = 0;
    exit_count = 0;
  };
  registry = empty_registry;
  manager_queue = no_asks;
}

empty-Inv : Inv plain_list Q none empty_registry
unfolding run
empty-Inv =
    run-Inv plain_list Q none [] empty_registry plain_list.visited-empty plain_list.staged-empty

abbrev some_events : List (ProcFs × Received)
some_events =
    (one_process, event (fork 1 1))
    ∷ (one_process, event (fork 12 1))
    ∷ (one_process, nothing)
    ∷ (one_process, event (exec 1))
    ∷ []

receives-run_example :
    (receives plain_list Q K none true some_events listener).registry
    ≡ run plain_list Q none (calls (heard some_events)) empty_registry
receives-run_example = receives-run plain_list Q K none some_events listener

receive_exit-get_proc_entry_example :
    let t = receives plain_list Q K none true some_events listener in
    get_proc_entry plain_list Q 1
      (receive plain_list Q K none true one_process (event (exit 1 1)) t).0.registry
    ≡ none
receive_exit-get_proc_entry_example =
    receive_exit-get_proc_entry plain_list Q K none some_events one_process 1 listener empty-Inv

receives-added_example :
    (receives plain_list Q K none true some_events listener).event_data
    ≡ added listener.event_data (heard some_events)
receives-added_example = receives-added plain_list Q K none true some_events listener (record {
  fork_fits = omega arith;
  exec_fits = omega arith;
  uid_fits = omega arith;
  gid_fits = omega arith;
  exit_fits = omega arith;
})
