-- ===== src/DiskStats.antt =====
-- source/SysProcDiskStats.cpp: /proc/diskstats as a source, with one entry for each device.
pub mod Devices
pub mod RoundTrip
mod Tests
use taskmonitor.Common.{
  ℕ, ◌%◌, ◌^◌, ◌≡◌, Bool, true, false, ◌&&◌, List, [], ◌∷◌, ◌++◌, Option, none, some, ltb, ◌==◌,
  if◌then◌else◌, length, get_elem?, Bytes, words, stoul, Outcome, ok, throws, traps, runtime_error,
  M, set_to, set_all,
}
use taskmonitor.Keyed.{LineAct, refuse, raise, put, read_rows}
use taskmonitor.Messages.{Clock, Data, sys_proc_disk_stats}

-- `DiskStatEntry`.
pub record DiskStat : Type 0 where
  pub node_major : ℕ
  pub node_minor : ℕ
  pub name : Bytes
  pub reads_completed : ℕ
  pub reads_merged : ℕ
  pub reads_spent_ms : ℕ
  pub writes_completed : ℕ
  pub writes_merged : ℕ
  pub writes_spent_ms : ℕ
  pub io_in_progress : ℕ
  pub io_spent_ms : ℕ
  pub io_weighted_ms : ℕ

unfoldable pub new_disk_stat : Bytes → ℕ → ℕ → DiskStat
new_disk_stat name major minor = record {
  node_major = major;
  node_minor = minor;
  name = name;
  reads_completed = 0;
  reads_merged = 0;
  reads_spent_ms = 0;
  writes_completed = 0;
  writes_merged = 0;
  writes_spent_ms = 0;
  io_in_progress = 0;
  io_spent_ms = 0;
  io_weighted_ms = 0;
}

-- The pair by which an entry is found.
abbrev pub device : DiskStat → ℕ × ℕ
device e = (e.node_major, e.node_minor)

abbrev pub same_device : ℕ × ℕ → ℕ × ℕ → Bool
same_device a b = (a.0 == b.0) && (a.1 == b.1)

abbrev pub word_at : List Bytes → ℕ → Bytes
word_at ws i = elim (get_elem? ws i) [ none ↦ [] | some w ↦ w ]

-- `updateDiskStatEntry`: the fields up to the first word that does not convert are written.
unfoldable pub update_disk_stat_entry : List Bytes → ℕ → ℕ → M DiskStat (Unit {0})
update_disk_stat_entry ws major minor e =
    set_all
      (set_to (stoul (word_at ws 3)) (λ v e. record e { reads_completed = v })
        ∷ set_to (stoul (word_at ws 4)) (λ v e. record e { reads_merged = v })
        ∷ set_to (stoul (word_at ws 6)) (λ v e. record e { reads_spent_ms = v })
        ∷ set_to (stoul (word_at ws 7)) (λ v e. record e { writes_completed = v })
        ∷ set_to (stoul (word_at ws 8)) (λ v e. record e { writes_merged = v })
        ∷ set_to (stoul (word_at ws 10)) (λ v e. record e { writes_spent_ms = v })
        ∷ set_to (stoul (word_at ws 11)) (λ v e. record e { io_in_progress = v })
        ∷ set_to (stoul (word_at ws 12)) (λ v e. record e { io_spent_ms = v })
        ∷ set_to (stoul (word_at ws 13)) (λ v e. record e { io_weighted_ms = v })
        ∷ [])
      (record e { node_major = major; node_minor = minor; name = word_at ws 2 })

-- The numbers of the device, cast to 32 bits.
put_device : List Bytes → Outcome ℕ → Outcome ℕ → LineAct (ℕ × ℕ) DiskStat
unfolding new_disk_stat update_disk_stat_entry
put_device ws (ok major) (ok minor) =
    let a = major % 2 ^ 32 in
    let b = minor % 2 ^ 32 in
    put (a, b) (new_disk_stat (word_at ws 2) a b) (update_disk_stat_entry ws a b)
put_device ws (ok major) (throws e) = raise e
put_device ws (throws e) b = raise e
put_device ws a b = refuse

-- What the loop's body makes of a line.
unfoldable pub disk_act : Bytes → LineAct (ℕ × ℕ) DiskStat
unfolding put_device
disk_act line =
    let ws = words line in
    if ltb (length ws) 20
    then refuse
    else put_device ws (stoul (word_at ws 0)) (stoul (word_at ws 1))

unfoldable pub do_update_stats : Option (List Bytes) → M (List DiskStat) Bool
unfolding disk_act
do_update_stats none es = (es, throws runtime_error)
do_update_stats (some lines) es = read_rows device same_device disk_act lines es

unfoldable pub do_collect : Clock → List DiskStat → Data (List DiskStat)
do_collect now es = record {
  what = sys_proc_disk_stats;
  system_time_sec = now.realtime;
  monotonic_time_sec = now.monotonic;
  payload = es;
}
