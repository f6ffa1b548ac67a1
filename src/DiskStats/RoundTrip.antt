-- ===== src/DiskStats/RoundTrip.antt =====
-- The lines that the kernel prints for devices, and their reading.
use taskmonitor.Common.{
  ℕ, ◌%◌, ◌^◌, ◌<◌, ◌≤◌, ◌≡◌, refl, true, false, List, [], ◌∷◌, map, some, length, ltb, arith,
  Bytes, u64, ok, set_all,
}
use taskmonitor.Common.Text.Decimal.{decimal, stoul-decimal, decimal-IsWord}
use taskmonitor.Common.Text.Spaced.{IsWord, AllWords, spaced, words-spaced}
use taskmonitor.Keyed.Fresh.{Makes, NewKeys, AllMake, read_rows_fresh}
use taskmonitor.DiskStats.{
  DiskStat, new_disk_stat, device, same_device, update_disk_stat_entry, put_device, disk_act,
  do_update_stats,
}
use taskmonitor.DiskStats.Devices.{same_device_iff}

-- The numbers fit their fields.
pub record Fits (d : DiskStat) : Type 0 where
  pub major_fits : d.node_major < 2 ^ 32
  pub minor_fits : d.node_minor < 2 ^ 32
  pub name_word : IsWord d.name
  pub reads_completed_fits : d.reads_completed < u64
  pub reads_merged_fits : d.reads_merged < u64
  pub reads_spent_ms_fits : d.reads_spent_ms < u64
  pub writes_completed_fits : d.writes_completed < u64
  pub writes_merged_fits : d.writes_merged < u64
  pub writes_spent_ms_fits : d.writes_spent_ms < u64
  pub io_in_progress_fits : d.io_in_progress < u64
  pub io_spent_ms_fits : d.io_spent_ms < u64
  pub io_weighted_ms_fits : d.io_weighted_ms < u64

-- The columns that are not kept: the sectors read and written, and at least six behind.
pub record Unkept : Type 0 where
  pub sectors_read : Bytes
  pub sectors_written : Bytes
  pub behind : List Bytes

pub record IsPrinted (u : Unkept) : Type 0 where
  pub sectors_read_word : IsWord u.sectors_read
  pub sectors_written_word : IsWord u.sectors_written
  pub behind_words : AllWords u.behind
  pub behind_many : 6 ≤ length u.behind

abbrev columns : Unkept → DiskStat → List Bytes
columns u d =
    decimal d.node_major
    ∷ decimal d.node_minor
    ∷ d.name
    ∷ decimal d.reads_completed
    ∷ decimal d.reads_merged
    ∷ u.sectors_read
    ∷ decimal d.reads_spent_ms
    ∷ decimal d.writes_completed
    ∷ decimal d.writes_merged
    ∷ u.sectors_written
    ∷ decimal d.writes_spent_ms
    ∷ decimal d.io_in_progress
    ∷ decimal d.io_spent_ms
    ∷ decimal d.io_weighted_ms
    ∷ u.behind

-- A line of /proc/diskstats.
unfoldable pub disk_line : (DiskStat → Unkept) → DiskStat → Bytes
disk_line unkept d = spaced (columns (unkept d) d)

columns-AllWords : (u : Unkept) (d : DiskStat) → IsPrinted u → Fits d → AllWords (columns u d)
columns-AllWords u d p f =
    search
      (decimal-IsWord, f.name_word, p.sectors_read_word, p.sectors_written_word, p.behind_words)

updated_entry :
    (u : Unkept) (d e : DiskStat)
    → Fits d
    → update_disk_stat_entry (columns u d) d.node_major d.node_minor e ≡ (d, ok tt)
unfolding update_disk_stat_entry set_all
updated_entry u d e f =
    rw
      (
        stoul-decimal d.reads_completed f.reads_completed_fits,
        stoul-decimal d.reads_merged f.reads_merged_fits,
        stoul-decimal d.reads_spent_ms f.reads_spent_ms_fits,
        stoul-decimal d.writes_completed f.writes_completed_fits,
        stoul-decimal d.writes_merged f.writes_merged_fits,
        stoul-decimal d.writes_spent_ms f.writes_spent_ms_fits,
        stoul-decimal d.io_in_progress f.io_in_progress_fits,
        stoul-decimal d.io_spent_ms f.io_spent_ms_fits,
        stoul-decimal d.io_weighted_ms f.io_weighted_ms_fits,
      )
      refl

columns_many : (u : Unkept) (d : DiskStat) → IsPrinted u → ltb (length (columns u d)) 20 ≡ false
columns_many u d p = ground arith

disk_line-Makes :
    (unkept : DiskStat → Unkept) (d : DiskStat)
    → IsPrinted (unkept d)
    → Fits d
    → Makes device same_device same_device_iff (disk_act (disk_line unkept d)) d
unfolding disk_line disk_act put_device
disk_line-Makes unkept d p f =
    rw
      (
        words-spaced (columns (unkept d) d) (columns-AllWords (unkept d) d p f),
        columns_many (unkept d) d p,
        stoul-decimal d.node_major (omega arith),
        stoul-decimal d.node_minor (omega arith),
        narrow d.node_major f.major_fits,
        narrow d.node_minor f.minor_fits,
      )
      (record {
        fresh = new_disk_stat d.name d.node_major d.node_minor;
        update = update_disk_stat_entry (columns (unkept d) d) d.node_major d.node_minor;
        puts = refl;
        made = updated_entry (unkept d) d (new_disk_stat d.name d.node_major d.node_minor) f;
      })
  where
    narrow : (n : ℕ) → n < 2 ^ 32 → n % 2 ^ 32 ≡ n
    narrow n h = omega arith

-- Every device of a list.
abbrev pub AllFit : List DiskStat → Type 0
AllFit [] = Unit {0}
AllFit (d ∷ ds) = Fits d × AllFit ds

disk_lines-AllMake :
    (unkept : DiskStat → Unkept) (ds : List DiskStat)
    → ((d : DiskStat) → IsPrinted (unkept d))
    → AllFit ds
    → AllMake device same_device same_device_iff disk_act (disk_line unkept) ds
disk_lines-AllMake unkept [] p f = tt
disk_lines-AllMake unkept (d ∷ ds) p f =
    (disk_line-Makes unkept d (p d) f.0, disk_lines-AllMake unkept ds p f.1)

-- Round trip: where no device is listed twice, the numbers fit their fields, the names are words and
-- each line has six columns or more behind the last that is kept, a first reading of the lines that
-- are printed for a list of devices succeeds and lists exactly these, in order, with every number.
pub do_update_stats-disk_line :
    (unkept : DiskStat → Unkept) (ds : List DiskStat)
    → ((d : DiskStat) → IsPrinted (unkept d))
    → AllFit ds
    → NewKeys device same_device same_device_iff [] ds
    → do_update_stats (some (map (disk_line unkept) ds)) [] ≡ (ds, ok true)
unfolding do_update_stats
do_update_stats-disk_line unkept ds p f n =
    read_rows_fresh device same_device same_device_iff disk_act (disk_line unkept) ds []
      (disk_lines-AllMake unkept ds p f) n
