-- ===== src/CpuList/Tests.antt =====
-- Two lines of /proc/stat and one that is none of a processor.
use taskmonitor.Common.{
  ◌≡◌, refl, List, [], ◌∷◌, some, none, Bytes, codes, words, contains, has_prefix, equal, length,
  skip_spaces, sign_of,
}
use taskmonitor.Messages.{Clock}
use taskmonitor.Keyed.{read_rows, row, upsert, visit}
use taskmonitor.Keyed.Entries.{Every}
use taskmonitor.CpuStat.{new_cpu_stat, update_stats, cleared, get_total_time, add64}
use taskmonitor.CpuStat.Samples.{IsSummed}
use taskmonitor.CpuList.{
  name_of, cpu_act, update_cpu, Manager, add_startup_data, do_update_stats, behind_word,
  scan_digits, scan_numbers,
}
use taskmonitor.CpuList.Figures.{do_update_stats-IsSummed}

abbrev stat_lines : List Bytes
stat_lines =
    codes "cpu  10 0 5 100 2 0 0 0 0 0" ∷ codes "cpu0 10 0 5 100 2 0 0 0 0 0" ∷ codes "intr 5" ∷ []

abbrev no_cpus : Manager (Unit {0}) (Unit {0})
no_cpus = record { cpus = []; startup = none }

abbrev today : Clock
today = record { realtime = 8; monotonic = 3 }

do_update_stats-IsSummed_example :
    Every name_of equal IsSummed (do_update_stats (some stat_lines) today no_cpus).0.cpus
do_update_stats-IsSummed_example = do_update_stats-IsSummed (some stat_lines) today no_cpus tt

two_cpus : length (do_update_stats (some stat_lines) today no_cpus).0.cpus ≡ 2
unfolding do_update_stats cpu_act read_rows row upsert visit new_cpu_stat update_cpu update_stats
    cleared get_total_time add64 behind_word scan_digits scan_numbers words contains has_prefix
    equal add_startup_data skip_spaces sign_of
two_cpus = refl
