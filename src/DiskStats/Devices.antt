-- ===== src/DiskStats/Devices.antt =====
-- The list of devices as a map.
use taskmonitor.Common.{
  ℕ, ◌≡◌, ◌↔◌, refl, true, List, Option, none, some, ltb, length, arith, inl, inr, Bool-cases,
  Bytes, words, Outcome, ok, throws, traps, set_all-keeps,
}
use taskmonitor.Keyed.View.{view, keys, Unique}
use taskmonitor.Keyed.Rows.{Lawful, read_map, read_rows-Unique, read_rows-view}
use taskmonitor.DiskStats.{
  DiskStat, new_disk_stat, device, same_device, update_disk_stat_entry, put_device, disk_act,
  do_update_stats,
}

pub same_device_iff : (a b : ℕ × ℕ) → (same_device a b ≡ true) ↔ (a ≡ b)
same_device_iff (a, c) (b, d) = ground arith

update-device :
    (ws : List Bytes) (a b : ℕ) (e : DiskStat) → device (update_disk_stat_entry ws a b e).0 ≡ (a, b)
unfolding update_disk_stat_entry
update-device ws a b e =
    set_all-keeps (λ s. device s ≡ (a, b)) _ _
      (
        λ v s p. p,
        (
          λ v s p. p,
          (
            λ v s p. p,
            (λ v s p. p, (λ v s p. p, (λ v s p. p, (λ v s p. p, (λ v s p. p, (λ v s p. p, tt)))))),
          ),
        ),
      )
      refl

put_device-Lawful :
    (ws : List Bytes) (x y : Outcome ℕ)
    → Lawful device same_device same_device_iff (put_device ws x y)
unfolding put_device new_disk_stat
put_device-Lawful ws (ok a) (ok b) = (refl, λ e h. update-device ws _ _ e)
put_device-Lawful ws (ok a) (throws e) = tt
put_device-Lawful ws (ok a) traps = tt
put_device-Lawful ws (throws e) y = tt
put_device-Lawful ws traps y = tt

disk_act-Lawful : (line : Bytes) → Lawful device same_device same_device_iff (disk_act line)
unfolding disk_act
disk_act-Lawful line = elim (Bool-cases (ltb (length (words line)) 20)) [
  | inl short ↦ rw short tt
  | inr long ↦ rw long (put_device-Lawful (words line) _ _)
]

-- No reading of /proc/diskstats, whether it succeeds or not, lists a device twice.
pub do_update_stats-Unique :
    (file : Option (List Bytes)) (es : List DiskStat)
    → Unique device same_device (keys device same_device es)
    → Unique device same_device (keys device same_device (do_update_stats file es).0)
unfolding do_update_stats
do_update_stats-Unique none es v = v
do_update_stats-Unique (some lines) es v =
    read_rows-Unique device same_device same_device_iff disk_act disk_act-Lawful lines es v

-- A reading that succeeds does to the list of devices, as a map from their numbers, what the lines
-- do one after the other: each updates the entry of its device, or adds one, and no other.
pub do_update_stats-view :
    (lines : List Bytes) (es : List DiskStat)
    → (do_update_stats (some lines) es).1 ≡ ok true
    → view device same_device (do_update_stats (some lines) es).0
      ≡ read_map device same_device same_device_iff disk_act lines (view device same_device es)
unfolding do_update_stats
do_update_stats-view lines es h =
    read_rows-view device same_device same_device_iff disk_act disk_act-Lawful lines es h
