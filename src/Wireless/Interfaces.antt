-- ===== src/Wireless/Interfaces.antt =====
-- The list of interfaces as a map from their names.
use taskmonitor.Common.{
  ◌≡◌, refl, true, List, Option, none, some, ltb, length, inl, inr, Bool-cases, Bytes, equal,
  equal_iff, words, ok, set_all-keeps,
}
use taskmonitor.Keyed.View.{view, keys, Unique}
use taskmonitor.Keyed.Rows.{Lawful, read_map, read_rows-Unique, read_rows-view}
use taskmonitor.Wireless.{
  WlanInterface, name_of, new_wlan_interface, update_wlan_interface_entry, wireless_act,
  behind_header, do_update_stats,
}

update-name :
    (ws : List Bytes) (name : Bytes) (e : WlanInterface)
    → name_of e ≡ name
    → name_of (update_wlan_interface_entry ws e).0 ≡ name
unfolding update_wlan_interface_entry
update-name ws name e h =
    set_all-keeps (λ s. name_of s ≡ name) _ _
      (
        λ v s p. p,
        (
          λ v s p. p,
          (
            λ v s p. p,
            (λ v s p. p, (λ v s p. p, (λ v s p. p, (λ v s p. p, (λ v s p. p, (λ v s p. p, tt)))))),
          ),
        ),
      )
      h

wireless_act-Lawful : (line : Bytes) → Lawful name_of equal equal_iff (wireless_act line)
unfolding wireless_act new_wlan_interface
wireless_act-Lawful line = elim (Bool-cases (ltb (length (words line)) 11)) [
  | inl short ↦ rw short tt
  | inr long ↦ rw long (refl, λ e h. update-name (words line) _ e h)
]

-- No reading of /proc/net/wireless, whether it succeeds or not, lists an interface twice.
pub do_update_stats-Unique_names :
    (file : Option (List Bytes)) (es : List WlanInterface)
    → Unique name_of equal (keys name_of equal es)
    → Unique name_of equal (keys name_of equal (do_update_stats file es).0)
unfolding do_update_stats
do_update_stats-Unique_names none es v = v
do_update_stats-Unique_names (some lines) es v =
    read_rows-Unique name_of equal equal_iff wireless_act wireless_act-Lawful (behind_header lines)
      es v

-- A reading that succeeds does to the list of interfaces, as a map from names, what the lines behind
-- the header do one after the other: each updates the entry of its name, or adds one, and no other.
pub do_update_stats-interfaces :
    (lines : List Bytes) (es : List WlanInterface)
    → (do_update_stats (some lines) es).1 ≡ ok true
    → view name_of equal (do_update_stats (some lines) es).0
      ≡ read_map name_of equal equal_iff wireless_act (behind_header lines) (view name_of equal es)
unfolding do_update_stats
do_update_stats-interfaces lines es h =
    read_rows-view name_of equal equal_iff wireless_act wireless_act-Lawful (behind_header lines) es
      h
