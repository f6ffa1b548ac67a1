-- ===== src/BuddyInfo.antt =====
-- source/SysProcBuddyInfo.cpp: /proc/buddyinfo as a source, with one entry for each zone of a node.
-- `jnk_hash` is libtkm's `jnkHsh`, by whose value an entry is found.
pub mod Zones
pub mod RoundTrip
mod Tests
use taskmonitor.Common.{
  ℕ, zero, suc, ◌+◌, Bool, not, List, [], ◌∷◌, ◌++◌, Option, none, some, ltb, ◌==◌, ◌&&◌,
  if◌then◌else◌, length, get_elem?, drop, Bytes, codes, equal, contains, words, Outcome, ok, throws,
  runtime_error, M, modify,
}
use taskmonitor.Keyed.{LineAct, skip, refuse, put, read_rows}
use taskmonitor.Messages.{Clock, Data, sys_proc_buddy_info}

-- `BuddyInfo`, the entry and its message.
pub record BuddyInfo : Type 0 where
  pub name : Bytes
  pub zone : Bytes
  pub content : Bytes
  pub hash : ℕ

-- The place of the word "zone", for the words from `cnt` on.
unfoldable pub zone_marker : ℕ → ℕ → List Bytes → ℕ
zone_marker cnt marker [] = marker
zone_marker cnt marker (w ∷ ws) =
    let here = zone_marker (suc cnt) cnt ws in
    let later = zone_marker (suc cnt) marker ws in
    if (marker == 0) && equal w (codes "zone") then here else later

-- `data += tokens[i] + " "`.
unfoldable pub joined : List Bytes → Bytes
joined [] = []
joined (w ∷ ws) = w ++ b' ' ∷ joined ws

-- The first `n` words without a space between them.
unfoldable pub run_together : ℕ → List Bytes → Bytes
run_together zero ws = []
run_together (suc n) [] = []
run_together (suc n) (w ∷ ws) = w ++ run_together n ws

-- `if (!s.empty()) s.pop_back()`.
unfoldable pub pop_back : Bytes → Bytes
pop_back [] = []
pop_back (c ∷ []) = []
pop_back (c ∷ d ∷ cs) = c ∷ pop_back (d ∷ cs)

abbrev zone_at : List Bytes → ℕ → Bytes
zone_at ws i = elim (get_elem? ws i) [ none ↦ [] | some w ↦ w ]

module _ (jnk_hash : Bytes → ℕ) where
  unfoldable pub new_buddy_info : Bytes → Bytes → BuddyInfo
  new_buddy_info name zone = record {
    name = name;
    zone = zone;
    content = [];
    hash = jnk_hash (name ++ zone);
  }

  unfoldable pub update_buddy_info_entry : Bytes → M BuddyInfo (Unit {0})
  update_buddy_info_entry counts = modify (λ e. record e { content = counts })

  -- A line with its words and the place of "zone": a name, the zone and the counts behind it.
  put_zone : List Bytes → ℕ → LineAct ℕ BuddyInfo
  unfolding new_buddy_info update_buddy_info_entry run_together pop_back joined
  put_zone ws marker =
      let name = pop_back (run_together marker ws) in
      let zone = zone_at ws (marker + 1) in
      if ltb (length ws) (marker + 3)
      then refuse
      else put (jnk_hash (name ++ zone)) (new_buddy_info name zone)
          (update_buddy_info_entry (joined (drop (marker + 2) ws)))

  unfoldable pub buddy_act : Bytes → LineAct ℕ BuddyInfo
  unfolding put_zone zone_marker
  buddy_act line =
      if contains (codes "zone") line
      then put_zone (words line) (zone_marker 0 0 (words line))
      else skip

  abbrev pub same_hash : ℕ → ℕ → Bool
  same_hash a b = a == b

  abbrev pub hash_of : BuddyInfo → ℕ
  hash_of e = e.hash

  unfoldable pub do_update_stats : Option (List Bytes) → M (List BuddyInfo) Bool
  unfolding buddy_act
  do_update_stats none es = (es, throws runtime_error)
  do_update_stats (some lines) es = read_rows hash_of same_hash buddy_act lines es

unfoldable pub do_collect : Clock → List BuddyInfo → Data (List BuddyInfo)
do_collect now es = record {
  what = sys_proc_buddy_info;
  system_time_sec = now.realtime;
  monotonic_time_sec = now.monotonic;
  payload = es;
}
