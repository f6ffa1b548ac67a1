-- ===== src/VmStat/Tests.antt =====
-- A small /proc/vmstat.
use taskmonitor.Common.{
  ◌≡◌, refl, true, List, [], ◌∷◌, some, Bytes, codes, has_prefix, words, stoul, ok,
}
use taskmonitor.LineTable.{classify, Fields}
use taskmonitor.LineTable.Apart.{Row, here, there}
use taskmonitor.LineTable.Reading.{Reports, Readable, end, foreign, field}
use taskmonitor.VmStat.{LineData, pgpgout, LineData-discrete, line_table, do_update_stats}
use taskmonitor.VmStat.Lines.{vm_stat-Readable}

abbrev file_lines : List Bytes
file_lines = codes "nr_free_pages 77" ∷ codes "pgpgin 120" ∷ codes "pgpgout 36" ∷ []

abbrev zeros : Fields LineData
zeros d = 0

readable : Readable LineData-discrete line_table file_lines
unfolding classify line_table has_prefix words stoul
readable = foreign refl (
    field {v = 120}
      (record {
        label = codes "pgpgin";
        number = codes "120";
        rest = [];
        splits = refl;
        converts = refl;
      })
      (field {v = 36}
        (record {
          label = codes "pgpgout";
          number = codes "36";
          rest = [];
          splits = refl;
          converts = refl;
        })
        end))

pgpgout-Row : Row (codes "pgpgout ") pgpgout line_table
unfolding line_table
pgpgout-Row = there here

vm_stat-Readable_example :
    let t = do_update_stats (some file_lines) zeros in
    (t.1 ≡ ok true) × Reports (codes "pgpgout ") file_lines 0 (t.0 pgpgout)
vm_stat-Readable_example =
    vm_stat-Readable file_lines zeros (codes "pgpgout ") pgpgout readable pgpgout-Row
