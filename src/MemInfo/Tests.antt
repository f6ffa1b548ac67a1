-- ===== src/MemInfo/Tests.antt =====
-- A small /proc/meminfo.
use taskmonitor.Common.{
  ◌==◌, if◌then◌else◌, ◌≡◌, ◌≢◌, ◌*◌, ◌/◌, ◌≤◌, refl, true, List, [], ◌∷◌, none, some, arith, Bytes,
  codes, has_prefix, words, stoul, ok,
}
use taskmonitor.LineTable.{classify}
use taskmonitor.LineTable.Apart.{Row, here, there}
use taskmonitor.LineTable.Reading.{Reports, Readable, end, foreign, field}
use taskmonitor.MemInfo.{
  mem_total, mem_available, swap_total, swap_free, LineData-discrete, line_table, MemInfo, Manager,
  Reading, set_percents, do_update_stats,
}
use taskmonitor.MemInfo.Percent.{set_percents_bounds, do_update_stats-Readable}

abbrev file_lines : List Bytes
file_lines =
    codes "MemTotal:       16000 kB"
    ∷ codes "Buffers:          77 kB"
    ∷ codes "MemAvailable:    4000 kB"
    ∷ []

abbrev old_info : MemInfo
old_info = record { fields = λ d. 0; mem_percent = 0; swap_percent = 0 }

abbrev manager : Manager (Unit {0}) (Unit {0})
manager = record { info = old_info; startup = none }

abbrev reading : Reading
reading = record { file = some file_lines; now = record { realtime = 100; monotonic = 10 } }

abbrev no_file : Reading
no_file = record { file = none; now = record { realtime = 100; monotonic = 10 } }

readable : Readable LineData-discrete line_table file_lines
unfolding classify line_table has_prefix words stoul
readable =
    field {v = 16000}
      (record {
        label = codes "MemTotal:";
        number = codes "16000";
        rest = codes "kB" ∷ [];
        splits = refl;
        converts = refl;
      })
      (foreign refl (
        field {v = 4000}
          (record {
            label = codes "MemAvailable:";
            number = codes "4000";
            rest = codes "kB" ∷ [];
            splits = refl;
            converts = refl;
          })
          end))

available-Row : Row (codes "MemAvailable:") mem_available line_table
unfolding line_table
available-Row = there (there here)

do_update_stats-Readable_example :
    let t = do_update_stats reading manager in
    (t.1 ≡ ok true)
    × Reports (codes "MemAvailable:") file_lines 0 (t.0.info.fields mem_available)
    × (t.0.info ≡ set_percents (record old_info { fields = t.0.info.fields }))
do_update_stats-Readable_example =
    do_update_stats-Readable reading manager file_lines (codes "MemAvailable:") mem_available refl
      readable available-Row

failed : (do_update_stats no_file manager).1 ≢ ok true
unfolding do_update_stats
failed = λ e. cc

abbrev half : MemInfo
half = record {
  fields = λ d. elim d [ mem_total ↦ 16000 | mem_available ↦ 8000 | _ ↦ 0 ];
  mem_percent = 0;
  swap_percent = 0;
}

set_percents_bounds_example :
    let n = set_percents half in
    (n.fields ≡ half.fields)
    × (n.mem_percent ≡ (
        if half.fields mem_total == 0
        then half.mem_percent
        else half.fields mem_available * 100 / half.fields mem_total))
    × (n.swap_percent ≡ (
        if half.fields swap_total == 0
        then half.swap_percent
        else half.fields swap_free * 100 / half.fields swap_total))
    × (n.mem_percent ≤ 100)
    × (n.swap_percent ≤ 100)
set_percents_bounds_example =
    set_percents_bounds half (omega arith) (omega arith) (omega arith) (omega arith) (omega arith)
      (omega arith)
