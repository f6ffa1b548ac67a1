-- ===== src/ProcEntry/Update.antt =====
-- The updates of source/ProcEntry.cpp: /proc/<pid>/stat, smaps_rollup and the open files. The clock
-- is steady: it is never before the last update.
use taskmonitor.Common.{
  ℕ, ◌+◌, ◌-◌, ◌*◌, ◌/◌, ◌%◌, ◌^◌, Bool, true, false, List, [], ◌∷◌, Option, none, some, ltb, ◌==◌,
  if◌then◌else◌, length, Bytes, codes, has_prefix, words, stoul, u64, Outcome, ok, throws, traps,
  runtime_error, M,
}
use taskmonitor.ProcEntry.{ProcInfo, ProcEntry, word_at}

-- The directory of open files: it cannot be opened, it cannot be read, or it has so many links.
pub data FdDirectory : Type 0 where
  closed unreadable : FdDirectory
  links : ℕ → FdDirectory

-- What the kernel shows of a process at an update: the first line of `stat`, the lines of
-- `smaps_rollup`, and the steady clock, in nanoseconds.
pub record Reading : Type 0 where
  pub stat_line : Option Bytes
  pub steady_clock : ℕ
  pub smaps_rollup : Option (List Bytes)
  pub fd_directory : FdDirectory

abbrev pub sum_of : Outcome ℕ → Outcome ℕ → Outcome ℕ
sum_of (ok a) (ok b) = ok ((a + b) % u64)
sum_of (ok a) (throws e) = throws e
sum_of (throws e) b = throws e
sum_of a b = traps

-- `newCPUTime`.
unfoldable pub new_cpu_time : List Bytes → Outcome ℕ
new_cpu_time ws =
    let offset = length ws - 52 in
    sum_of (stoul (word_at ws (13 + offset))) (stoul (word_at ws (14 + offset)))

abbrev pub duration_us : ℕ → ℕ → ℕ
duration_us now last = (now - last) / 1000

abbrev pub with_percent : ℕ → ℕ → ℕ → ProcEntry → ProcEntry
with_percent now time percent e = record e {
  last_update_time = now;
  info = record e.info { cpu_time = time; cpu_percent = percent };
}

-- The time is set before the division by the duration, which traps at zero.
unfoldable pub measure : ℕ → ℕ → M ProcEntry Bool
measure now time e =
    let us = duration_us now e.last_update_time in
    let grown = (time + u64 - e.info.cpu_time) % u64 in
    if e.last_update_time == 0
    then (with_percent now time 0 e, ok true)
    else if us == 0
    then (with_percent now time e.info.cpu_percent e, traps)
    else (with_percent now time (grown * 1000000 % u64 / us % 2 ^ 32) e, ok true)

abbrev pub measured : ℕ → Outcome ℕ → M ProcEntry Bool
measured now (ok time) e = measure now time e
measured now (throws x) e = (e, throws x)
measured now traps e = (e, traps)

abbrev pub read_stat_line : ℕ → Option Bytes → M ProcEntry Bool
read_stat_line now none e = (e, ok false)
read_stat_line now (some line) e =
    if ltb (length (words line)) 52
    then (e, throws runtime_error)
    else measured now (new_cpu_time (words line)) e

unfoldable pub read_proc_stat : Reading → M ProcEntry Bool
unfolding new_cpu_time measure
read_proc_stat g e = read_stat_line g.steady_clock g.stat_line e

pub data LineMemData : Type 0 where
  ign rss pss : LineMemData

unfoldable pub line_mem_data : Bytes → LineMemData
line_mem_data line =
    if has_prefix (codes "Rss:") line
    then rss
    else if has_prefix (codes "Pss:") line
    then pss
    else ign

abbrev pub set_mem : LineMemData → ℕ → ProcInfo → ProcInfo
set_mem ign v i = i
set_mem rss v i = record i { mem_rss = v }
set_mem pss v i = record i { mem_pss = v }

-- `complete` counts the lines that are still wanted.
abbrev pub after_mem : LineMemData → ℕ → Outcome ℕ → M ProcInfo Bool → M ProcInfo Bool
after_mem d complete (ok v) rest i =
    if complete == 1 then (set_mem d v i, ok true) else rest (set_mem d v i)
after_mem d complete (throws x) rest i = (i, throws x)
after_mem d complete traps rest i = (i, traps)

-- One line, with the rest of the loop without and with a wanted line counted.
abbrev pub read_mem_line :
    LineMemData → List Bytes → ℕ → M ProcInfo Bool → M ProcInfo Bool → M ProcInfo Bool
read_mem_line ign ws complete ignored rest i = ignored i
read_mem_line d ws complete ignored rest i =
    if ltb (length ws) 3 then (i, ok false) else after_mem d complete (stoul (word_at ws 1)) rest i

unfoldable pub read_mem_lines : ℕ → List Bytes → M ProcInfo Bool
unfolding line_mem_data
read_mem_lines complete [] i = (i, ok true)
read_mem_lines complete (line ∷ lines) i =
    read_mem_line (line_mem_data line) (words line) complete (read_mem_lines complete lines)
      (read_mem_lines (complete - 1) lines) i

abbrev pub in_info : ProcEntry → ProcInfo × Outcome Bool → ProcEntry × Outcome Bool
in_info e (i, o) = (record e { info = i }, o)

unfoldable pub read_proc_smaps_rollup : Option (List Bytes) → M ProcEntry Bool
unfolding read_mem_lines
read_proc_smaps_rollup none e = (e, ok false)
read_proc_smaps_rollup (some lines) e = in_info e (read_mem_lines 2 lines e.info)

-- An error on the way is caught, one of the opening is not.
unfoldable pub count_file_descriptors : FdDirectory → M ProcEntry Bool
count_file_descriptors closed e = (e, throws runtime_error)
count_file_descriptors unreadable e = (e, ok false)
count_file_descriptors (links n) e = (record e { info = record e.info { fd_count = n } }, ok true)

-- `if (!call()) return false;` before the rest.
abbrev pub unless_false : ProcEntry × Outcome Bool → M ProcEntry Bool → ProcEntry × Outcome Bool
unless_false (e, ok true) rest = rest e
unless_false (e, ok false) rest = (e, ok false)
unless_false (e, throws x) rest = (e, throws x)
unless_false (e, traps) rest = (e, traps)

-- `collect_fd` is the flag `gProcInfoFDCollect`.
unfoldable pub update_info_data : Bool → Reading → M ProcEntry Bool
unfolding read_proc_stat read_proc_smaps_rollup count_file_descriptors
update_info_data collect_fd g e = unless_false (read_proc_stat g e) (λ e.
    unless_false (read_proc_smaps_rollup g.smaps_rollup e)
      (λ e. if collect_fd then count_file_descriptors g.fd_directory e else (e, ok true)))

abbrev pub pending_set : Bool → ProcEntry → ProcEntry
pending_set b e = record e { base = record e.base { update_pending = b } }

-- An exception counts as a failure.
abbrev pub settled : ProcEntry × Outcome Bool → ProcEntry × Outcome Bool
settled (e, ok b) = (pending_set false e, ok b)
settled (e, throws x) = (pending_set false e, ok false)
settled (e, traps) = (e, traps)

-- `updateProcInfo`; its caller asks the registry to remove the entry where it returns `false`.
unfoldable pub update_proc_info : Bool → Reading → M ProcEntry Bool
unfolding update_info_data
update_proc_info collect_fd g e =
    if e.base.update_pending
    then (e, ok true)
    else settled (update_info_data collect_fd g (pending_set true e))

-- `updateProcAcct`, with the number of collectors that want accounting and whether the request is
-- accepted.
unfoldable pub update_proc_acct : ℕ → Bool → M ProcEntry Bool
update_proc_acct collectors accepted e =
    if collectors == 0
    then (e, ok true)
    else if e.update_proc_acct_pending
    then (e, ok true)
    else (record e { update_proc_acct_pending = true }, ok accepted)

-- `update()`: both.
unfoldable pub update_both : Bool → Reading → ℕ → Bool → M ProcEntry Bool
unfolding update_proc_info update_proc_acct
update_both collect_fd g collectors accepted e =
    unless_false (update_proc_info collect_fd g e) (update_proc_acct collectors accepted)
