-- ===== src/ProcAcct/Tests.antt =====
-- Two processes; the kernel's messages are about the second one and about a process that is not listed.
use taskmonitor.Common.{
  any, stoi, ◌==◌, ok, arith, ℕ, ◌≡◌, refl, true, false, List, [], ◌∷◌, map, none, some, codes,
}
use taskmonitor.Bswinfra.Changes.{All}
use taskmonitor.Bswinfra.Plain.{plain_queue, plain_list}
use taskmonitor.Messages.{Clock}
use taskmonitor.Messages.Acct.{blank_acct}
use taskmonitor.Source.{new_data_source, slow}
use taskmonitor.ProcEntry.{ProcFs, blank_info}
use taskmonitor.ProcRegistry.{
  Registry, Request, is_blacklisted, write, add_proc_entry, last_with, get_proc_entry,
  new_context_entry,
}
use taskmonitor.ProcRegistry.Invariant.{Inv}
use taskmonitor.ProcRegistry.History.{Op, adds, times, answers, run, run-Inv}
use taskmonitor.ProcRegistry.Requests.{send_acct, collect_proc_acct}
use taskmonitor.ProcEntry.Update.{closed, update_proc_acct}
use taskmonitor.ProcRegistry.Updates.{Kernel, update, after_entry}
use taskmonitor.ProcRegistry.Waiting.{Waits}
use taskmonitor.ProcAcct.Unheard.{run-update_proc_acct}
use taskmonitor.ProcAcct.{TaskStats, acct_of, Reply, parsed, unparsed, success, receive}
use taskmonitor.ProcAcct.Averages.{IsAverage, acct_of-IsAverage}
use taskmonitor.ProcAcct.Answers.{latest, acct_with, Shows, receive-collect}

abbrev two_processes : ProcFs
two_processes = record {
  status = λ pid. some (codes "Name: sh" ∷ []);
  stat = λ pid. some (
      codes
        "1 (sh) S 1 7 7 0 0 0 0 0 0 0 20 30 0 0 0 0 0 0 0 0 0 0 0 0 0 0 0 0 0 0 0 0 0 0 0 0 0 0 0 0 0 0 0 0 0 0 0 0 0");
  as_root = false;
  context_of = λ pid. 40;
}

no_requests : (plain_queue Request 8).Queue
unfolding plain_queue
no_requests = []

abbrev empty_registry : Registry plain_list.Elements (plain_queue Request 8).Queue
empty_registry = record {
  base = new_data_source;
  proc_list = plain_list.empty;
  context_list = plain_list.empty;
  queue = no_requests;
  entries = λ r. record {
    base = new_data_source;
    info = blank_info [];
    pid = 0;
    acct = blank_acct;
    last_update_time = 0;
    update_proc_acct_pending = true;
  };
  contexts = λ r. new_context_entry 0 [];
  fresh = 0;
}

abbrev registry : Registry plain_list.Elements (plain_queue Request 8).Queue
registry =
    run plain_list (plain_queue Request 8) none (adds two_processes 1 ∷ adds two_processes 9 ∷ [])
      empty_registry

registry-Inv : Inv plain_list (plain_queue Request 8) none registry
registry-Inv =
    run-Inv plain_list (plain_queue Request 8) none
      (adds two_processes 1 ∷ adds two_processes 9 ∷ []) empty_registry plain_list.visited-empty
      plain_list.staged-empty

abbrev stats : ℕ → ℕ → TaskStats
stats pid time = record {
  ac_comm = codes "sh";
  ac_uid = 0;
  ac_gid = 0;
  ac_pid = pid;
  ac_ppid = 1;
  ac_utime = time;
  ac_stime = 2;
  cpu_count = 0;
  cpu_run_real_total = 0;
  cpu_run_virtual_total = 0;
  cpu_delay_total = 0;
  coremem = 0;
  virtmem = 0;
  hiwater_rss = 0;
  hiwater_vm = 0;
  nvcsw = 0;
  nivcsw = 0;
  blkio_count = 0;
  blkio_delay_total = 0;
  read_bytes = 0;
  write_bytes = 0;
  read_char = 0;
  write_char = 0;
  read_syscalls = 0;
  write_syscalls = 0;
  swapin_count = 0;
  swapin_delay_total = 0;
  freepages_count = 0;
  freepages_delay_total = 0;
  thrashing_count = 0;
  thrashing_delay_total = 0;
}

abbrev replies : List Reply
replies =
    parsed (some (stats 9 10)) none
    ∷ unparsed
    ∷ parsed none (some (stats 4 7))
    ∷ parsed (some (stats 9 30)) none
    ∷ []

abbrev noon : Clock
noon = record { realtime = 43200; monotonic = 60 }

receive-collect_example :
    let u = (receive plain_list (plain_queue Request 8) replies success registry).0 in
    (u.proc_list ≡ registry.proc_list)
    × All
        (Shows plain_list (plain_queue Request 8) replies registry u)
        (plain_list.visited registry.proc_list)
    × (collect_proc_acct plain_list (plain_queue Request 8) true noon 3 u
        ≡ map
            (λ r.
              send_acct noon 3
                (acct_with (latest (registry.entries r).pid replies) (registry.entries r).acct))
            (plain_list.visited registry.proc_list))
receive-collect_example =
    receive-collect plain_list (plain_queue Request 8) replies success noon 3 registry
      registry-Inv.distinct

last_wins : latest 9 replies ≡ some (stats 9 30)
unfolding latest
last_wins = refl

abbrev waited : TaskStats
waited = record (stats 9 10) {
  cpu_delay_total = 7500000;
  cpu_count = 2;
  cpu_run_virtual_total = 123;
  blkio_delay_total = 999999;
}

acct_of-IsAverage_example :
    IsAverage waited.cpu_delay_total waited.cpu_count (acct_of waited).cpu.cpu_delay_average
    × IsAverage waited.blkio_delay_total waited.blkio_count (acct_of waited).io.blkio_delay_average
    × IsAverage waited.swapin_delay_total waited.swapin_count
        (acct_of waited).swp.swapin_delay_average
    × IsAverage waited.freepages_delay_total waited.freepages_count
        (acct_of waited).reclaim.freepages_delay_average
    × IsAverage waited.thrashing_delay_total waited.thrashing_count
        (acct_of waited).thrashing.thrashing_delay_average
    × ((acct_of waited).cpu.cpu_delay_total ≡ waited.cpu_run_virtual_total)
acct_of-IsAverage_example = acct_of-IsAverage waited

-- A listed process that waits; the slow lane's timer, and answers about others.
abbrev waiting_registry : Registry plain_list.Elements (plain_queue Request 8).Queue
waiting_registry = record empty_registry {
  proc_list = plain_list.append plain_list.empty 0 true;
  entries = λ r. record {
    base = new_data_source;
    info = blank_info (codes "sh");
    pid = 9;
    acct = blank_acct;
    last_update_time = 0;
    update_proc_acct_pending = true;
  };
  fresh = 1;
}

waiting_registry-Waits : Waits plain_list (plain_queue Request 8) none 0 9 waiting_registry
waiting_registry-Waits = record { known = omega arith; of_pid = refl; waits = refl }

abbrev kernel : Kernel
kernel = record {
  fs = two_processes;
  directories = codes "9" ∷ [];
  reading_of = λ pid. record {
    stat_line = none;
    steady_clock = 5000;
    smaps_rollup = none;
    fd_directory = closed;
  };
  collect_fd = false;
  list_follows_events = false;
  accounting = some (record { collectors = 1; accepts = λ pid. true });
}

abbrev quiet_ops : List Op
quiet_ops =
    times kernel slow
    ∷ answers (parsed (some (stats 4 7)) none ∷ unparsed ∷ []) success
    ∷ adds two_processes 9
    ∷ []

waiting_registry-Inv : Inv plain_list (plain_queue Request 8) none waiting_registry
unfolding plain_list is_blacklisted
waiting_registry-Inv = record {
  distinct = (refl, tt);
  clean = (refl, tt);
  known = (omega arith, tt);
  waiting = ([], refl);
}

-- The entry is still listed.
still_listed :
    any
      (λ x. x == 0)
      (plain_list.visited
        (run plain_list (plain_queue Request 8) none quiet_ops waiting_registry).proc_list)
    ≡ true
unfolding run receive plain_list plain_queue get_proc_entry add_proc_entry last_with update stoi
    after_entry update_proc_acct write
still_listed = refl

run-update_proc_acct_example :
    let t = run plain_list (plain_queue Request 8) none quiet_ops waiting_registry in
    (get_proc_entry plain_list (plain_queue Request 8) 9 t ≡ some 0)
    × (update_proc_acct 1 true (t.entries 0) ≡ (t.entries 0, ok true))
run-update_proc_acct_example =
    run-update_proc_acct plain_list (plain_queue Request 8) none 0 9 quiet_ops waiting_registry 1
      true (tt, ((refl, (refl, tt)), (tt, tt))) waiting_registry-Inv waiting_registry-Waits
      still_listed
