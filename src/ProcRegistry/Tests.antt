-- ===== src/ProcRegistry/Tests.antt =====
-- A small system: the processes 1 (init), 2 (a kernel thread) and 7 (a shell), and a blacklist
-- with kernel threads. The sequence lists init and the shell only.
use taskmonitor.Common.{
  ℕ, ◌≡◌, refl, true, false, List, [], ◌∷◌, map, any, Option, none, some, ◌==◌, if◌then◌else◌,
  Bytes, codes, equal, has_prefix, contains, words, stoul,
}
use taskmonitor.Messages.Acct.{blank_acct}
use taskmonitor.Bswinfra.{AsyncQueue, Ref, apply}
use taskmonitor.Bswinfra.Plain.{plain_queue, plain_list}
use taskmonitor.Source.{new_data_source, set_update_interval}
use taskmonitor.ProcEntry.{
  ProcFs, ProcEntry, get_proc_name_for_pid, new_proc_entry, init_info_data, blank_info,
}
use taskmonitor.ProcRegistry.{
  ContextEntry, new_context_entry, reset_data, Request, Registry, write, Blacklist, is_blacklisted,
  get_proc_entry, add_context, add_entry, create_process_entry, add_proc_entry, upd_entry,
  upd_entries, commit_procs, upd_proc_entry, stage_removals, finish_removal, rem_proc_entry,
  has_pid,
}
use taskmonitor.ProcRegistry.Invariant.{Inv}
use taskmonitor.ProcRegistry.History.{Op, adds, updates, removes, run, run-Inv}
use taskmonitor.ProcRegistry.Removal.{add_proc_entry_lost, rem_proc_entry-get_proc_entry}
use taskmonitor.ProcRegistry.Contexts.{Widths, add_processes, collect_context_info}
use taskmonitor.ProcRegistry.Totals.{Adds}
use taskmonitor.ProcRegistry.ContextMessage.{tallied, collect_context_info-Adds}

abbrev status_lines : ℕ → Option (List Bytes)
status_lines pid =
    if pid == 1
    then some (codes "Name: init" ∷ [])
    else if pid == 2
    then some (codes "Name: kworker/0" ∷ [])
    else if pid == 7
    then some (codes "Name: sh" ∷ [])
    else none

abbrev stat_line : Bytes
stat_line =
    codes
      "7 (sh) S 1 7 7 0 0 0 0 0 0 0 20 30 0 0 0 0 0 0 0 0 0 0 0 0 0 0 0 0 0 0 0 0 0 0 0 0 0 0 0 0 0 0 0 0 0 0 0 0 0"

abbrev small_fs : ProcFs
small_fs = record {
  status = status_lines;
  stat = λ pid. some stat_line;
  as_root = true;
  context_of = λ pid. if pid == 1 then 40 else 41;
}

abbrev small_blacklist : Blacklist
small_blacklist = some (codes "kworker" ∷ [])

abbrev no_entry : ProcEntry
no_entry = record {
  base = new_data_source;
  info = blank_info [];
  pid = 0;
  last_update_time = 0;
  acct = blank_acct;
  update_proc_acct_pending = false;
}

abbrev Q : AsyncQueue Request
Q = plain_queue Request 8

abbrev Small : Type 0
Small = Registry plain_list.Elements (plain_queue Request 8).Queue

no_requests : (plain_queue Request 8).Queue
unfolding plain_queue
no_requests = []

abbrev empty_registry : Small
empty_registry = record {
  base = new_data_source;
  proc_list = plain_list.empty;
  context_list = plain_list.empty;
  queue = no_requests;
  entries = λ r. no_entry;
  contexts = λ r. new_context_entry 0 [];
  fresh = 0;
}

abbrev small_ops : List Op
small_ops =
    adds small_fs 1
    ∷ adds small_fs 2
    ∷ adds small_fs 7
    ∷ adds small_fs 7
    ∷ updates small_fs 7
    ∷ removes 1 false
    ∷ adds small_fs 1
    ∷ []

abbrev after_ops : Small
after_ops = run plain_list Q small_blacklist small_ops empty_registry

run-Inv_example : Inv plain_list Q small_blacklist after_ops
run-Inv_example =
    run-Inv plain_list Q small_blacklist small_ops empty_registry plain_list.visited-empty
      plain_list.staged-empty

-- The fact that the other tests start from.
small-Inv : Inv plain_list Q small_blacklist after_ops
small-Inv =
    run-Inv plain_list Q small_blacklist small_ops empty_registry plain_list.visited-empty
      plain_list.staged-empty

abbrev pids : List ℕ
pids = map (λ r. (after_ops.entries r).pid) (plain_list.visited after_ops.proc_list)

listed : pids ≡ 1 ∷ 7 ∷ []
unfolding plain_list plain_queue no_requests run add_proc_entry create_process_entry add_entry
    add_context upd_proc_entry upd_entries upd_entry commit_procs rem_proc_entry stage_removals
    finish_removal get_proc_name_for_pid new_proc_entry init_info_data blank_info words contains
    has_prefix stoul is_blacklisted write new_context_entry set_update_interval new_data_source
    apply equal
listed = refl

shell_listed :
    any (has_pid plain_list Q after_ops 7) (plain_list.visited after_ops.proc_list) ≡ true
unfolding plain_list plain_queue no_requests run add_proc_entry create_process_entry add_entry
    add_context upd_proc_entry upd_entries upd_entry commit_procs rem_proc_entry stage_removals
    finish_removal get_proc_name_for_pid new_proc_entry init_info_data blank_info words contains
    has_prefix stoul is_blacklisted write new_context_entry set_update_interval new_data_source
    apply equal
shell_listed = refl

add_proc_entry_lost_example :
    let t = rem_proc_entry plain_list Q 7 false after_ops in
    (add_proc_entry plain_list Q small_fs small_blacklist 7 t ≡ t)
    × (get_proc_entry plain_list Q 7
          (commit_procs plain_list Q (add_proc_entry plain_list Q small_fs small_blacklist 7 t))
        ≡ none)
add_proc_entry_lost_example =
    add_proc_entry_lost plain_list Q small_blacklist small_fs 7 after_ops small-Inv shell_listed

rem_proc_entry-get_proc_entry_example :
    get_proc_entry plain_list Q 7 (rem_proc_entry plain_list Q 7 true after_ops) ≡ none
rem_proc_entry-get_proc_entry_example =
    rem_proc_entry-get_proc_entry plain_list Q small_blacklist 7 after_ops small-Inv

abbrev small_widths : Widths
small_widths = record { time_bits = 64; percent_bits = 32; rss_bits = 64; pss_bits = 64 }

collect_context_info-Adds_example :
    ((collect_context_info plain_list Q small_widths
        (record { realtime = 5; monotonic = 3 })
        after_ops).1.payload
      ≡ map
          (λ r. tallied plain_list Q small_widths after_ops (after_ops.contexts r))
          (plain_list.visited after_ops.context_list))
    × ((r : Ref)
        → Adds small_widths after_ops.entries
            (plain_list.visited after_ops.proc_list)
            (reset_data (after_ops.contexts r))
            (tallied plain_list Q small_widths after_ops (after_ops.contexts r)))
collect_context_info-Adds_example =
    collect_context_info-Adds plain_list Q small_widths (record { realtime = 5; monotonic = 3 })
      after_ops

totals :
    map
      (λ (c : ContextEntry). c.total_cpu_time)
      (collect_context_info plain_list Q small_widths
        (record { realtime = 5; monotonic = 3 })
        after_ops).1.payload
    ≡ 50 ∷ 50 ∷ []
unfolding collect_context_info add_processes reset_data plain_list plain_queue no_requests run
    add_proc_entry create_process_entry add_entry add_context upd_proc_entry upd_entries upd_entry
    commit_procs rem_proc_entry stage_removals finish_removal get_proc_name_for_pid new_proc_entry
    init_info_data blank_info words contains has_prefix stoul is_blacklisted write new_context_entry
    set_update_interval new_data_source apply equal
totals = refl
