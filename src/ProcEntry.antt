-- ===== src/ProcEntry.antt =====
-- source/ProcEntry.h, the construction of an entry in source/ProcEntry.cpp, and the names that
-- source/ProcRegistry.cpp and source/Helpers.cpp find for a process. What the kernel shows of the
-- processes is a `ProcFs`; `context_of` is libtkm's `getContextId`. Built without LXC support.
pub mod Update
pub mod Lines
pub mod Sampling
pub mod Percent
mod Tests
use taskmonitor.Common.{
  ℕ, ◌+◌, ◌-◌, ◌%◌, ◌^◌, Bool, false, List, [], ◌∷◌, ◌++◌, Option, none, some, ltb, ◌==◌,
  if◌then◌else◌, length, get_elem?, Bytes, codes, contains, words, stoul, u64, Outcome, ok, throws,
  traps, runtime_error,
}
use taskmonitor.Messages.Acct.{Acct, blank_acct}
use taskmonitor.Source.{DataSource, new_data_source}

-- `ProcInfoEntry`, the message of a process.
pub record ProcInfo : Type 0 where
  pub info_pid : ℕ
  pub ppid : ℕ
  pub comm : Bytes
  pub ctx_id : ℕ
  pub ctx_name : Bytes
  pub cpu_time : ℕ
  pub cpu_percent : ℕ
  pub mem_rss : ℕ
  pub mem_pss : ℕ
  pub fd_count : ℕ

pub record ProcEntry : Type 0 where
  pub base : DataSource
  pub info : ProcInfo
  pub pid : ℕ
  pub acct : Acct
  pub last_update_time : ℕ
  pub update_proc_acct_pending : Bool

-- The lines of /proc/<pid>/status and the first line of /proc/<pid>/stat, unless they cannot be
-- opened; whether the monitor runs as root.
pub record ProcFs : Type 0 where
  pub status : ℕ → Option (List Bytes)
  pub stat : ℕ → Option Bytes
  pub as_root : Bool
  pub context_of : ℕ → ℕ

-- The words behind the first, joined by single spaces.
join_words : Bytes → List Bytes → Bytes
join_words name [] = name
join_words name (w ∷ ws) = join_words (name ++ b' ' ∷ w) ws

name_of_words : List Bytes → Outcome Bytes
name_of_words [] = throws runtime_error
name_of_words (w ∷ []) = throws runtime_error
name_of_words (w ∷ name ∷ ws) = ok (join_words name ws)

-- `getProcNameForPID` looks at the first line only: each way through the loop's body leaves it.
name_of_lines : List Bytes → Outcome Bytes
name_of_lines [] = throws runtime_error
name_of_lines (line ∷ lines) =
    if contains (codes "Name") line then name_of_words (words line) else throws runtime_error

unfoldable pub get_proc_name_for_pid : ProcFs → ℕ → Outcome Bytes
unfolding name_of_lines name_of_words join_words
get_proc_name_for_pid fs pid = elim (fs.status pid) [
  | none ↦ throws runtime_error
  | some lines ↦ name_of_lines lines
]

-- `getContextName`.
unfoldable pub get_context_name : ProcFs → ℕ → Bytes
get_context_name fs ctx_id = if ctx_id == fs.context_of 1 then codes "root" else codes "unknown"

abbrev pub word_at : List Bytes → ℕ → Bytes
word_at ws i = elim (get_elem? ws i) [ none ↦ [] | some w ↦ w ]

-- Two numbers in turn.
both : Outcome ℕ → Outcome ℕ → (ℕ → ℕ → ProcInfo) → Outcome ProcInfo
both (throws e) b k = throws e
both traps b k = traps
both (ok x) (throws e) k = throws e
both (ok x) traps k = traps
both (ok x) (ok y) k = ok (k x y)

-- Four numbers in turn: the pid, the parent's, and the two parts of the processor time.
after_two : Outcome ProcInfo → (ProcInfo → Outcome ProcInfo) → Outcome ProcInfo
after_two (ok i) k = k i
after_two (throws e) k = throws e
after_two traps k = traps

-- The context is looked up by root only.
with_context : ProcFs → ℕ → ProcInfo → ProcInfo
with_context fs pid i =
    if fs.as_root
    then record i { ctx_id = fs.context_of pid; ctx_name = get_context_name fs (fs.context_of pid) }
    else record i { ctx_id = 0; ctx_name = codes "generic" }

-- The words of the line of `stat`; a name with spaces moves the later ones.
info_of_words : ProcFs → ℕ → ProcInfo → List Bytes → Outcome ProcInfo
unfolding both after_two with_context get_context_name
info_of_words fs pid i ws =
    let offset = length ws - 52 in
    if ltb (length ws) 52
    then throws runtime_error
    else after_two
        (both (stoul (word_at ws 0)) (stoul (word_at ws (3 + offset)))
          (λ p q. record i { info_pid = p % 2 ^ 32; ppid = q % 2 ^ 32 }))
        (λ j.
          both (stoul (word_at ws (13 + offset))) (stoul (word_at ws (14 + offset)))
            (λ u v. with_context fs pid (record j { cpu_time = (u + v) % u64 })))

-- `initInfoData`; an empty file has no first line.
unfoldable pub init_info_data : ProcFs → ℕ → ProcInfo → Outcome ProcInfo
unfolding info_of_words
init_info_data fs pid i = elim (fs.stat pid) [
  | none ↦ throws runtime_error
  | some line ↦ info_of_words fs pid i (words line)
]

unfoldable pub blank_info : Bytes → ProcInfo
blank_info name = record {
  info_pid = 0;
  ppid = 0;
  comm = name;
  ctx_id = 0;
  ctx_name = [];
  cpu_time = 0;
  cpu_percent = 0;
  mem_rss = 0;
  mem_pss = 0;
  fd_count = 0;
}

-- The constructor of `ProcEntry`.
unfoldable pub new_proc_entry : ProcFs → ℕ → Bytes → Outcome ProcEntry
new_proc_entry fs pid name = elim (init_info_data fs pid (blank_info name)) [
  | ok i ↦ ok (record {
    base = new_data_source;
    info = i;
    pid = pid;
    last_update_time = 0;
    acct = blank_acct;
    update_proc_acct_pending = false;
  })
  | throws e ↦ throws e
  | traps ↦ traps
]
