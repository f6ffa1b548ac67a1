-- ===== src/BuddyInfo/Zones.antt =====
-- The list of zones as a map from their hashes.
use taskmonitor.Common.{
  ℕ, ◌+◌, ◌≡◌, refl, Bool, true, List, Option, none, some, ltb, length, ==_iff, inl, inr,
  Bool-cases, Bytes, codes, contains, words, ok,
}
use taskmonitor.Keyed.View.{view, keys, Unique}
use taskmonitor.Keyed.Rows.{Lawful, read_map, read_rows-Unique, read_rows-view}
use taskmonitor.BuddyInfo.{
  BuddyInfo, hash_of, same_hash, new_buddy_info, update_buddy_info_entry, put_zone, buddy_act,
  do_update_stats,
}

module _ (jnk_hash : Bytes → ℕ) where
  abbrev key : BuddyInfo → ℕ
  key = hash_of jnk_hash

  abbrev same : ℕ → ℕ → Bool
  same = same_hash jnk_hash

  put_zone-Lawful :
      (ws : List Bytes) (marker : ℕ) → Lawful key same ==_iff (put_zone jnk_hash ws marker)
  unfolding put_zone new_buddy_info update_buddy_info_entry
  put_zone-Lawful ws marker = elim (Bool-cases (ltb (length ws) (marker + 3))) [
    | inl short ↦ rw short tt
    | inr long ↦ rw long (refl, λ e h. h)
  ]

  buddy_act-Lawful : (line : Bytes) → Lawful key same ==_iff (buddy_act jnk_hash line)
  unfolding buddy_act
  buddy_act-Lawful line = elim (Bool-cases (contains (codes "zone") line)) [
    | inl zone ↦ rw zone (put_zone-Lawful (words line) _)
    | inr other ↦ rw other tt
  ]

  -- No reading of /proc/buddyinfo, whether it succeeds or not, lists two entries with one hash.
  pub do_update_stats-Unique_hashes :
      (file : Option (List Bytes)) (es : List BuddyInfo)
      → Unique key same (keys key same es)
      → Unique key same (keys key same (do_update_stats jnk_hash file es).0)
  unfolding do_update_stats
  do_update_stats-Unique_hashes none es v = v
  do_update_stats-Unique_hashes (some lines) es v =
      read_rows-Unique key same ==_iff (buddy_act jnk_hash) buddy_act-Lawful lines es v

  -- A reading that succeeds does to the list of zones, as a map from hashes, what the lines do one
  -- after the other: each line with a zone updates the entry of its hash, or adds one, and no other.
  pub do_update_stats-zones :
      (lines : List Bytes) (es : List BuddyInfo)
      → (do_update_stats jnk_hash (some lines) es).1 ≡ ok true
      → view key same (do_update_stats jnk_hash (some lines) es).0
        ≡ read_map key same ==_iff (buddy_act jnk_hash) lines (view key same es)
  unfolding do_update_stats
  do_update_stats-zones lines es h =
      read_rows-view key same ==_iff (buddy_act jnk_hash) buddy_act-Lawful lines es h
