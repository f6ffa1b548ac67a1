-- ===== src/ProcEntry/Tests.antt =====
-- A process that is read twice.
use taskmonitor.Common.{
  ◌≡◌, ◌≢◌, ◌↔◌, refl, true, false, [], ◌∷◌, some, ok, traps, Bytes, codes, words, stoul, arith,
  ltb, length,
}
use taskmonitor.Messages.Acct.{blank_acct}
use taskmonitor.Source.{new_data_source}
use taskmonitor.ProcEntry.{ProcEntry, blank_info}
use taskmonitor.ProcEntry.Update.{
  Reading, links, measure, duration_us, with_percent, new_cpu_time, update_proc_info,
}
use taskmonitor.ProcEntry.Lines.{SameProcess}
use taskmonitor.ProcEntry.Sampling.{Settled, update_proc_info-Settled}
use taskmonitor.ProcEntry.Percent.{measure-percent, update_proc_info-traps_iff}

abbrev stat_text : Bytes
stat_text =
    codes
      "7 (sh) S 1 7 7 0 0 0 0 0 0 0 20 30 0 0 0 0 0 0 0 0 0 0 0 0 0 0 0 0 0 0 0 0 0 0 0 0 0 0 0 0 0 0 0 0 0 0 0 0 0"

abbrev shell : ProcEntry
shell = record {
  base = record {
    update_interval = 1000000;
    update_pending = false;
    update_lane = new_data_source.update_lane;
  };
  info = blank_info (codes "sh");
  pid = 7;
  last_update_time = 3000000;
  acct = blank_acct;
  update_proc_acct_pending = false;
}

abbrev reading : Reading
reading = record {
  stat_line = some stat_text;
  steady_clock = 5003000000;
  smaps_rollup = some (codes "Rss: 100 kB" ∷ codes "Pss: 60 kB" ∷ []);
  fd_directory = links 3;
}

update_proc_info-Settled_example :
    Settled (update_proc_info true reading shell)
    × SameProcess shell (update_proc_info true reading shell).0
update_proc_info-Settled_example = update_proc_info-Settled true reading shell refl

stat_time : new_cpu_time (words stat_text) ≡ ok 50
unfolding new_cpu_time words stoul
stat_time = refl

long_line : ltb (length (words stat_text)) 52 ≡ false
unfolding words
long_line = refl

update_proc_info-traps_iff_example :
    ((update_proc_info true reading shell).1 ≡ traps)
    ↔ ((shell.last_update_time ≢ 0) × (duration_us reading.steady_clock shell.last_update_time ≡ 0))
update_proc_info-traps_iff_example =
    update_proc_info-traps_iff true reading shell stat_text 50 refl refl long_line stat_time

measure-percent_example :
    measure 5003000000 50 shell ≡ (with_percent 5003000000 50 10 shell, ok true)
unfolding blank_info
measure-percent_example =
    measure-percent 5003000000 50 shell (omega arith) (omega arith) (omega arith) (omega arith)
      (omega arith) (omega arith)
