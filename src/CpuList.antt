-- ===== src/CpuList.antt =====
-- `SysProcStat` of source/SysProcStat.cpp: /proc/stat as a source, with one entry for each
-- processor. A new entry is updated before it is listed; its first update cannot trap, so the order
-- is not seen.
pub mod Processors
pub mod Figures
mod Tests
use taskmonitor.Common.{
  ℕ, zero, suc, ◌+◌, ◌-◌, ◌*◌, ◌%◌, Bool, true, false, List, [], ◌∷◌, ◌++◌, map, Option, none, some,
  leb, ltb, ◌==◌, ◌&&◌, if◌then◌else◌, length, get_elem?, Bytes, codes, equal, contains, is_space,
  is_digit, skip_spaces, sign_of, words, u64, Outcome, ok, throws, traps, runtime_error, M,
}
use taskmonitor.CpuStat.{
  CpuStatData, StatType, cpu, core, CpuMessage, CpuStat, new_cpu_stat, update_stats,
}
use taskmonitor.Keyed.{LineAct, stop, refuse, put, read_rows}
use taskmonitor.Messages.{Clock, Data, sys_proc_stat}
use taskmonitor.StartupData.{StartupData, add_cpu_data}

-- The text behind a first word: `%s` of `sscanf`.
unfoldable pub behind_word : Bytes → Bytes
behind_word [] = []
behind_word (c ∷ cs) = if is_space c then c ∷ cs else behind_word cs

-- The digits at the head of the text, after `v`, and what is behind them.
unfoldable pub scan_digits : Option ℕ → Bytes → Option ℕ × Bytes
scan_digits v [] = (v, [])
scan_digits v (c ∷ cs) =
    let first = scan_digits (some (c - b'0')) cs in
    elim (is_digit c) [
      | false ↦ (v, c ∷ cs)
      | true ↦ elim v [ none ↦ first | some n ↦ scan_digits (some (n * 10 + (c - b'0'))) cs ]
    ]

-- `%lu`: a number too large is the largest one, and a sign negates.
abbrev scanned : Bool → ℕ → ℕ
scanned negative n = if leb u64 n then u64 - 1 else if negative then (u64 - n) % u64 else n

-- At most `n` numbers, up to the first that is not there.
unfoldable pub scan_numbers : ℕ → Bytes → List ℕ
unfolding scan_digits
scan_numbers zero text = []
scan_numbers (suc n) text =
    let (negative, digits) = sign_of (skip_spaces text) in
    let (value, rest) = scan_digits none digits in
    let others = scan_numbers n rest in
    elim value [ none ↦ [] | some v ↦ scanned negative v ∷ others ]

abbrev number_at : List ℕ → ℕ → ℕ
number_at vs i = elim (get_elem? vs i) [ none ↦ 0 | some v ↦ v ]

abbrev data_of : List ℕ → CpuStatData
data_of vs = record {
  user_time = number_at vs 0;
  nice_time = number_at vs 1;
  system_time = number_at vs 2;
  idle_time = number_at vs 3;
  io_wait_time = number_at vs 4;
  irq_time = number_at vs 5;
  soft_irq_time = number_at vs 6;
  steal_time = number_at vs 7;
  guest_time = number_at vs 8;
  guest_nice_time = number_at vs 9;
}

-- An exception leaves the entry as it was.
abbrev pub changed : CpuStat → Outcome CpuStat → CpuStat × Outcome (Unit {0})
changed s (ok t) = (t, ok tt)
changed s (throws e) = (s, throws e)
changed s traps = (s, traps)

-- `entry->updateStats(data)`.
unfoldable pub update_cpu : CpuStatData → M CpuStat (Unit {0})
update_cpu d s = changed s (update_stats d s)

abbrev first_word : List Bytes → Bytes
first_word [] = []
first_word (w ∷ ws) = w

-- `cnt < 11` says that not all ten numbers were there.
put_cpu : Bytes → List ℕ → LineAct Bytes CpuStat
unfolding update_cpu
put_cpu name vs =
    if ltb (length vs) 10 then refuse else put name (new_cpu_stat name) (update_cpu (data_of vs))

unfoldable pub cpu_act : Bytes → LineAct Bytes CpuStat
unfolding put_cpu scan_numbers behind_word
cpu_act line =
    if contains (codes "cpu") line
    then put_cpu (first_word (words line)) (scan_numbers 10 (behind_word (skip_spaces line)))
    else stop

abbrev pub name_of : CpuStat → Bytes
name_of s = s.message.name

-- The message: the last entry of type `Cpu`, and the others in order.
pub record CpuMessages : Type 0 where
  pub all_cpus : Option CpuMessage
  pub cores : List CpuMessage

unfoldable pub stat_message : List CpuStat → Option CpuMessage → CpuMessages
stat_message [] last = record { all_cpus = last; cores = [] }
stat_message (s ∷ ss) last = elim s.stat_type [
  | cpu ↦ stat_message ss (some s.message)
  | core ↦ let rest = stat_message ss last in record rest { cores = s.message ∷ rest.cores }
]

pub record Manager (N P : Type 0) : Type 0 where
  pub cpus : List CpuStat
  pub startup : Option (StartupData CpuMessages N P)

module _ {N P : Type 0} where
  -- `StartupData` is told of the message, unless it is absent or expired.
  unfoldable pub add_startup_data : Clock → Manager N P → Manager N P
  unfolding stat_message
  add_startup_data now m = elim m.startup [
    | none ↦ m
    | some d ↦
        if d.expired
        then m
        else record m { startup = some (add_cpu_data now (stat_message m.cpus none) d) }
  ]

  pub after_rows : Clock → Manager N P → List CpuStat × Outcome Bool → Manager N P × Outcome Bool
  unfolding add_startup_data
  after_rows now m (ss, ok true) = (add_startup_data now (record m { cpus = ss }), ok true)
  after_rows now m (ss, ok false) = (record m { cpus = ss }, ok false)
  after_rows now m (ss, throws e) = (record m { cpus = ss }, throws e)
  after_rows now m (ss, traps) = (record m { cpus = ss }, traps)

  unfoldable pub do_update_stats : Option (List Bytes) → Clock → M (Manager N P) Bool
  unfolding cpu_act after_rows
  do_update_stats none now m = (m, throws runtime_error)
  do_update_stats (some lines) now m =
      after_rows now m (read_rows name_of equal cpu_act lines m.cpus)

  unfoldable pub do_collect : Clock → Manager N P → Data CpuMessages
  unfolding stat_message
  do_collect now m = record {
    what = sys_proc_stat;
    system_time_sec = now.realtime;
    monotonic_time_sec = now.monotonic;
    payload = stat_message m.cpus none;
  }
