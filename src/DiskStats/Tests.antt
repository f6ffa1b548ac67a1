-- ===== src/DiskStats/Tests.antt =====
-- Two devices, the first on two lines.
use taskmonitor.Common.{
  ◌≡◌, ◌≢◌, refl, arith, true, false, any, is_space, map, List, [], ◌∷◌, some, ok, Bytes, codes,
  words, stoul, set_all,
}
use taskmonitor.Common.Text.Spaced.{IsWord}
use taskmonitor.Keyed.{read_rows, row, upsert, visit}
use taskmonitor.Keyed.View.{view}
use taskmonitor.Keyed.Rows.{read_map}
use taskmonitor.DiskStats.{
  DiskStat, device, same_device, disk_act, do_update_stats, new_disk_stat, update_disk_stat_entry,
}
use taskmonitor.DiskStats.Devices.{same_device_iff, do_update_stats-view}
use taskmonitor.DiskStats.RoundTrip.{Fits, Unkept, IsPrinted, disk_line, do_update_stats-disk_line}

abbrev two_disks : List Bytes
two_disks =
    codes "8 0 sda 11 12 13 14 15 16 17 18 19 20 21 0 0 0 0 0 0"
    ∷ codes "8 1 sda1 1 2 3 4 5 6 7 8 9 10 11 0 0 0 0 0 0"
    ∷ codes "8 0 sda 31 32 33 34 35 36 37 38 39 40 41 0 0 0 0 0 0"
    ∷ []

reads : (do_update_stats (some two_disks) []).1 ≡ ok true
unfolding do_update_stats disk_act read_rows row upsert visit new_disk_stat update_disk_stat_entry
    words stoul set_all
reads = refl

do_update_stats-view_example :
    view device same_device (do_update_stats (some two_disks) []).0
    ≡ read_map device same_device same_device_iff disk_act two_disks (view device same_device [])
do_update_stats-view_example = do_update_stats-view two_disks [] reads

abbrev sda : DiskStat
sda = record {
  node_major = 8;
  node_minor = 0;
  name = codes "sda";
  reads_completed = 120045;
  reads_merged = 77;
  reads_spent_ms = 9001;
  writes_completed = 5;
  writes_merged = 0;
  writes_spent_ms = 3;
  io_in_progress = 1;
  io_spent_ms = 9004;
  io_weighted_ms = 9104;
}

abbrev sda1 : DiskStat
sda1 = record sda { node_minor = 1; name = codes "sda1"; reads_completed = 12 }

abbrev nothing_kept : DiskStat → Unkept
nothing_kept d = record {
  sectors_read = codes "8800";
  sectors_written = codes "16";
  behind = codes "0" ∷ codes "0" ∷ codes "0" ∷ codes "0" ∷ codes "12" ∷ codes "7" ∷ [];
}

digits-IsWord : (s : Bytes) → any is_space s ≡ false → s ≢ [] → IsWord s
digits-IsWord s h n = record { no_space = h; some_byte = n }

nothing_kept-IsPrinted : (d : DiskStat) → IsPrinted (nothing_kept d)
nothing_kept-IsPrinted d = record {
  sectors_read_word = digits-IsWord _ refl (λ e. cc);
  sectors_written_word = digits-IsWord _ refl (λ e. cc);
  behind_words = (
    digits-IsWord _ refl (λ e. cc),
    (
      digits-IsWord _ refl (λ e. cc),
      (
        digits-IsWord _ refl (λ e. cc),
        (
          digits-IsWord _ refl (λ e. cc),
          (digits-IsWord _ refl (λ e. cc), (digits-IsWord _ refl (λ e. cc), tt)),
        ),
      ),
    ),
  );
  behind_many = omega arith;
}

sda-Fits : Fits sda
sda-Fits = record {
  major_fits = omega arith;
  minor_fits = omega arith;
  name_word = digits-IsWord _ refl (λ e. cc);
  reads_completed_fits = omega arith;
  reads_merged_fits = omega arith;
  reads_spent_ms_fits = omega arith;
  writes_completed_fits = omega arith;
  writes_merged_fits = omega arith;
  writes_spent_ms_fits = omega arith;
  io_in_progress_fits = omega arith;
  io_spent_ms_fits = omega arith;
  io_weighted_ms_fits = omega arith;
}

sda1-Fits : Fits sda1
sda1-Fits = record {
  major_fits = omega arith;
  minor_fits = omega arith;
  name_word = digits-IsWord _ refl (λ e. cc);
  reads_completed_fits = omega arith;
  reads_merged_fits = omega arith;
  reads_spent_ms_fits = omega arith;
  writes_completed_fits = omega arith;
  writes_merged_fits = omega arith;
  writes_spent_ms_fits = omega arith;
  io_in_progress_fits = omega arith;
  io_spent_ms_fits = omega arith;
  io_weighted_ms_fits = omega arith;
}

do_update_stats-disk_line_example :
    do_update_stats (some (map (disk_line nothing_kept) (sda ∷ sda1 ∷ []))) []
    ≡ (sda ∷ sda1 ∷ [], ok true)
do_update_stats-disk_line_example =
    do_update_stats-disk_line nothing_kept (sda ∷ sda1 ∷ []) nothing_kept-IsPrinted
      (sda-Fits, (sda1-Fits, tt)) (refl, (refl, tt))
