-- ===== src/CpuStat/Tests.antt =====
-- Samples of a processor: 1000 ticks, then 1100 of which 25 in programs, 10 in the kernel and 5
-- waiting, then figures that cannot be.
use taskmonitor.Common.{◌+◌, ◌-◌, ◌≤◌, ◌≡◌, ◌≢◌, ◌↔◌, refl, codes, ok, traps, arith}
use taskmonitor.CpuStat.{
  CpuStatData, CpuStat, new_cpu_stat, get_total_time, get_diff, get_percent, cleared, add64, sub64,
  take_sample, update_stats,
}
use taskmonitor.CpuStat.Counters.{Fits}
use taskmonitor.CpuStat.Samples.{percent, Verdict, update_stats-traps_iff, update_stats_verdict}
use taskmonitor.CpuStat.Growth.{Grown, share, update_stats-Grown}

abbrev before : CpuStatData
before = record {
  user_time = 300;
  nice_time = 0;
  system_time = 100;
  idle_time = 580;
  io_wait_time = 20;
  irq_time = 0;
  soft_irq_time = 0;
  steal_time = 0;
  guest_time = 0;
  guest_nice_time = 0;
}

abbrev after : CpuStatData
after = record before { user_time = 325; system_time = 110; idle_time = 640; io_wait_time = 25 }

-- The user time went back, so the difference wraps.
abbrev went_back : CpuStatData
went_back = record before { user_time = 250; idle_time = 700 }

abbrev started : CpuStat
started = record (new_cpu_stat (codes "cpu0")) { last = before }

before-Fits : Fits before
before-Fits = omega arith

after-Fits : Fits after
after-Fits = omega arith

grown : Grown after before
grown = omega arith

update_stats-traps_iff_example :
    (update_stats after started ≡ traps)
    ↔ ((get_total_time started.last ≢ 0) × (get_total_time after ≡ get_total_time started.last))
update_stats-traps_iff_example = update_stats-traps_iff after started after-Fits before-Fits

-- The same sample twice.
repeated_traps : update_stats before started ≡ traps
unfolding update_stats get_percent get_diff get_total_time add64 sub64 new_cpu_stat
repeated_traps = refl

update_stats-Grown_example :
    let usr = share after before (after.user_time - before.user_time) in
    let sys = share after before (after.system_time - before.system_time) in
    let iow = share after before (after.io_wait_time - before.io_wait_time) in
    (update_stats after started
      ≡ ok (record started {
        last = after;
        message = record started.message { usr = usr; sys = sys; iow = iow; all = usr + sys + iow };
      }))
    × (usr + sys + iow ≤ 100)
update_stats-Grown_example = update_stats-Grown after started grown

-- The figures of the accepted sample.
abbrev accepted : CpuStat
accepted = record started {
  last = after;
  message = record started.message { usr = 25; sys = 10; iow = 5; all = 40 };
}

accepts : update_stats after started ≡ ok accepted
unfolding update_stats take_sample get_percent get_diff get_total_time add64 sub64 new_cpu_stat
accepts = refl

-- The totals of both samples, and of their difference.
totals : (get_total_time before ≡ 1000) × (get_total_time (get_diff after before) ≡ 100)
unfolding get_total_time get_diff add64 sub64
totals = (refl, refl)

update_stats_verdict_example :
    let diff = get_diff after before in
    Verdict after
      (percent diff.user_time diff)
      (percent diff.system_time diff)
      (percent diff.io_wait_time diff)
      started
      (update_stats after started)
update_stats_verdict_example =
    update_stats_verdict after started (λ e. omega (arith, totals.0)) (λ e. omega (arith, totals.1))

abbrev refused : CpuStat
refused = record started { last = cleared }

refuses : update_stats went_back started ≡ ok refused
unfolding update_stats take_sample get_percent get_diff get_total_time add64 sub64 new_cpu_stat
    cleared
refuses = refl

refused_last : refused.last ≢ went_back
unfolding cleared
refused_last = λ e. cc

-- The idle time went back by 4294967206 ticks, and the user time forth by 4294967246.
abbrev idle_before : CpuStatData
idle_before = record cleared { idle_time = 4294968206 }

abbrev idle_after : CpuStatData
idle_after = record cleared { user_time = 4294967246; system_time = 60; idle_time = 1000 }

abbrev idle_went_back : CpuStat
idle_went_back = record started { last = idle_before }

-- The test passes though the figures are above 100.
passes :
    update_stats idle_after idle_went_back
    ≡ ok (record idle_went_back {
      last = idle_after;
      message = record started.message { usr = 4294967246; sys = 60; iow = 0; all = 10 };
    })
unfolding update_stats take_sample get_percent get_diff get_total_time add64 sub64 new_cpu_stat
    cleared
passes = refl
