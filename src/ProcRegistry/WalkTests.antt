-- ===== src/ProcRegistry/WalkTests.antt =====
-- /proc with one process, at the timer of the pace lane.
use taskmonitor.Common.{◌≡◌, refl, List, stoi, false, [], ◌∷◌, some, none, Bytes, codes}
use taskmonitor.Messages.Acct.{blank_acct}
use taskmonitor.Bswinfra.{AsyncQueue}
use taskmonitor.Bswinfra.Plain.{plain_queue, plain_list}
use taskmonitor.Source.{new_data_source}
use taskmonitor.ProcEntry.{blank_info}
use taskmonitor.ProcEntry.Update.{closed}
use taskmonitor.ProcRegistry.{Registry, Request, new_context_entry}
use taskmonitor.ProcRegistry.Invariant.{Inv, Distinct}
use taskmonitor.ProcRegistry.History.{run, run-Inv}
use taskmonitor.ProcRegistry.Updates.{Kernel, pid_of_name, update_process_list}
use taskmonitor.ProcRegistry.Requests.{init_from_proc}
use taskmonitor.ProcRegistry.Listing.{numbers, init_from_proc-update_process_list}

abbrev Q : AsyncQueue Request
Q = plain_queue Request 8

no_requests : (plain_queue Request 8).Queue
unfolding plain_queue
no_requests = []

abbrev stat_of_init : Bytes
stat_of_init =
    codes
      "1 (init) S 1 7 7 0 0 0 0 0 0 0 20 30 0 0 0 0 0 0 0 0 0 0 0 0 0 0 0 0 0 0 0 0 0 0 0 0 0 0 0 0 0 0 0 0 0 0 0 0 0"

abbrev kernel : Kernel
kernel = record {
  fs = record {
    status = λ pid. some (codes "Name: init" ∷ []);
    stat = λ pid. some stat_of_init;
    as_root = false;
    context_of = λ pid. 40;
  };
  directories = codes "acpi" ∷ codes "1" ∷ [];
  reading_of = λ pid. record {
    stat_line = some stat_of_init;
    steady_clock = 5000;
    smaps_rollup = none;
    fd_directory = closed;
  };
  collect_fd = false;
  list_follows_events = false;
  accounting = none;
}

abbrev empty_registry : Registry plain_list.Elements (plain_queue Request 8).Queue
empty_registry = record {
  base = new_data_source;
  proc_list = plain_list.empty;
  context_list = plain_list.empty;
  queue = no_requests;
  entries = λ r. record {
    base = new_data_source;
    info = blank_info [];
    pid = 0;
    last_update_time = 0;
    acct = blank_acct;
    update_proc_acct_pending = false;
  };
  contexts = λ r. new_context_entry 0 [];
  fresh = 0;
}

empty-Inv : Inv plain_list Q none empty_registry
unfolding run
empty-Inv =
    run-Inv plain_list Q none [] empty_registry plain_list.visited-empty plain_list.staged-empty

abbrev names : List Bytes
names = codes "acpi" ∷ codes "1" ∷ codes "7" ∷ codes "version" ∷ []

different : Distinct (λ k. k) (numbers plain_list Q none names)
unfolding stoi pid_of_name
different = (refl, (refl, tt))

init_from_proc-update_process_list_example :
    (init_from_proc plain_list Q none kernel.fs names empty_registry
      ≡ update_process_list plain_list Q none kernel.fs names empty_registry)
    × Inv plain_list Q none (init_from_proc plain_list Q none kernel.fs names empty_registry)
init_from_proc-update_process_list_example =
    init_from_proc-update_process_list plain_list Q none kernel.fs names empty_registry different
      plain_list.visited-empty plain_list.staged-empty
