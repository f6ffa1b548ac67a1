-- ===== src/VmStat/Lines.antt =====
-- What a reading of /proc/vmstat leaves in the message.
use taskmonitor.Common.{◌≡◌, refl, true, has_prefix, List, some, Bytes, ok}
use taskmonitor.LineTable.{Fields}
use taskmonitor.LineTable.Apart.{Row, table_apart}
use taskmonitor.LineTable.Reading.{Reports, Readable, read_lines-Reports, read_lines-ok}
use taskmonitor.VmStat.{LineData, LineData-discrete, line_table, do_update_stats}

pub line_table_apart : table_apart LineData-discrete line_table ≡ true
unfolding table_apart LineData-discrete line_table has_prefix
line_table_apart = refl

-- A file in which every line is of no account or carries a number is read without an error, and
-- each of the 32 fields then holds the number on its last line, or its old value where the file
-- has no such line.
pub vm_stat-Readable :
    (lines : List Bytes) (f : Fields LineData) (p : Bytes) (d : LineData)
    → Readable LineData-discrete line_table lines
    → Row p d line_table
    → let t = do_update_stats (some lines) f in (t.1 ≡ ok true) × Reports p lines (f d) (t.0 d)
unfolding do_update_stats
vm_stat-Readable lines f p d h row =
    let fine = read_lines-ok LineData-discrete line_table f h in
    (fine, read_lines-Reports LineData-discrete line_table lines f row line_table_apart fine)
