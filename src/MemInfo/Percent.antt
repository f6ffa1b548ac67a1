-- ===== src/MemInfo/Percent.antt =====
-- What a reading of /proc/meminfo leaves in the message.
use taskmonitor.Common.{
  ◌==◌, if◌then◌else◌, ℕ, ◌≡◌, ◌≢◌, ◌*◌, ◌/◌, ◌≤◌, ◌<◌, refl, true, List, some, arith, has_prefix,
  u64, Bytes, ok, sym, ap, ◌∙◌,
}
use taskmonitor.Messages.{Clock}
use taskmonitor.LineTable.{Fields, read_lines}
use taskmonitor.LineTable.Apart.{Row, table_apart}
use taskmonitor.LineTable.Reading.{Reports, Readable, read_lines-Reports, read_lines-ok}
use taskmonitor.MemInfo.{
  LineData, mem_total, mem_available, swap_total, swap_free, LineData-discrete, line_table, MemInfo,
  Manager, Reading, set_percents, add_startup_data, do_update_stats,
}

pub line_table_apart : table_apart LineData-discrete line_table ≡ true
unfolding table_apart LineData-discrete line_table has_prefix
line_table_apart = refl

percent-le : (a t : ℕ) → 0 < t → a ≤ t → a * 100 / t ≤ 100
percent-le a t h k = grind arith

set_percents-fields : (m : MemInfo) → (set_percents m).fields ≡ m.fields
unfolding set_percents
set_percents-fields m = ground arith

-- Where the part is within the total and the total below 2^64 / 100, each figure becomes the part
-- in percent of the total, rounded down, or stays as it was where the total is zero. So it is at
-- most 100 if it was before. The other fields are kept.
pub set_percents_bounds :
    (m : MemInfo)
    → m.fields mem_available ≤ m.fields mem_total
    → m.fields swap_free ≤ m.fields swap_total
    → m.fields mem_total * 100 < u64
    → m.fields swap_total * 100 < u64
    → m.mem_percent ≤ 100
    → m.swap_percent ≤ 100
    → let n = set_percents m in
      (n.fields ≡ m.fields)
      × (n.mem_percent ≡ (
          if m.fields mem_total == 0
          then m.mem_percent
          else m.fields mem_available * 100 / m.fields mem_total))
      × (n.swap_percent ≡ (
          if m.fields swap_total == 0
          then m.swap_percent
          else m.fields swap_free * 100 / m.fields swap_total))
      × (n.mem_percent ≤ 100)
      × (n.swap_percent ≤ 100)
unfolding set_percents
set_percents_bounds m ha hs ta ts hm hw =
    let mem_le = percent-le (m.fields mem_available) (m.fields mem_total) in
    let swap_le = percent-le (m.fields swap_free) (m.fields swap_total) in
    (
      set_percents-fields m,
      ground (arith, mem_le),
      ground (arith, swap_le),
      ground (arith, mem_le),
      ground (arith, swap_le),
    )

module _ {C P : Type 0} where
  add_startup_data-info : (now : Clock) (m : Manager C P) → (add_startup_data now m).info ≡ m.info
  unfolding add_startup_data
  add_startup_data-info now m = ground arith

  -- The fields after the loop.
  abbrev fields_read : List Bytes → Manager C P → Fields LineData
  fields_read lines m = (read_lines LineData-discrete line_table lines m.info.fields).0

  lines_read :
      (r : Reading) (m : Manager C P) (lines : List Bytes)
      → r.file ≡ some lines
      → (read_lines LineData-discrete line_table lines m.info.fields).1 ≡ ok true
      → ((do_update_stats r m).1 ≡ ok true)
        × ((do_update_stats r m).0.info
            ≡ set_percents (record m.info { fields = fields_read lines m }))
  unfolding do_update_stats
  lines_read r m lines e h = ground (
    arith,
    add_startup_data-info r.now
        (record m { info = set_percents (record m.info { fields = fields_read lines m }) }),
  )

  -- A file in which every line is of no account or carries a number is read without an error:
  -- afterwards each field holds the number on its last line, or its old value where the file has
  -- no such line, and the percentages are computed from these fields.
  pub do_update_stats-Readable :
      (r : Reading) (m : Manager C P) (lines : List Bytes) (p : Bytes) (d : LineData)
      → r.file ≡ some lines
      → Readable LineData-discrete line_table lines
      → Row p d line_table
      → let t = do_update_stats r m in
        (t.1 ≡ ok true)
        × Reports p lines (m.info.fields d) (t.0.info.fields d)
        × (t.0.info ≡ set_percents (record m.info { fields = t.0.info.fields }))
  do_update_stats-Readable r m lines p d e h row =
      let fine = read_lines-ok LineData-discrete line_table m.info.fields h in
      let (done, info) = lines_read r m lines e fine in
      let kept =
        ap (λ (i : MemInfo). i.fields) info
        ∙ set_percents-fields (record m.info { fields = fields_read lines m }) in
      (
        done,
        rw kept (
            read_lines-Reports LineData-discrete line_table lines m.info.fields row line_table_apart
              fine),
        info ∙ ap (λ (f : Fields LineData). set_percents (record m.info { fields = f })) (sym kept),
      )

  -- A reading that does not succeed, by an unopened file, a line without a number or one that does
  -- not convert, leaves the percentages and the startup data alone.
  pub do_update_stats_failed :
      (r : Reading) (m : Manager C P)
      → (do_update_stats r m).1 ≢ ok true
      → let t = (do_update_stats r m).0 in
        (t.info.mem_percent ≡ m.info.mem_percent)
        × (t.info.swap_percent ≡ m.info.swap_percent)
        × (t.startup ≡ m.startup)
  unfolding do_update_stats
  do_update_stats_failed r m h = ground arith
