-- ===== src/Session/LaneLists.antt =====
-- What a session tells its collector against the timers of the application.
use taskmonitor.Common.{
  ◌≡◌, refl, ap, Bool, ◌&&◌, List, [], ◌∷◌, ◌++◌, if◌then◌else◌, arith, Bytes, codes, equal, ok,
}
use taskmonitor.Bswinfra.{AsyncQueue}
use taskmonitor.Options.{get_for, enable_sys_proc_vm_stat}
use taskmonitor.Options.Intervals.{any_timeout-Converts}
use taskmonitor.Source.{fast, pace, slow}
use taskmonitor.Application.{
  sys_proc_stat, sys_proc_mem_info, sys_proc_pressure, sys_proc_disk_stats, sys_proc_buddy_info,
  sys_proc_wireless, sys_proc_vm_stat, data_sources, Call, update, update_on, on_timer,
}
use taskmonitor.Application.Timers.{on_timer-data_sources}
use taskmonitor.Session.{
  Ask, App, LaneSource, info_of_procs, info_of_contexts, proc_events, proc_accounts, source, Kind,
  Session, Moment, do_create_session, begin_session, fill_session, fast_sources, pace_sources,
  slow_sources,
}

-- The sources that a timer calls by `update()`.
abbrev pub updated : List Call → List LaneSource
updated [] = []
updated (update n ∷ cs) = source n ∷ updated cs
updated (update_on n lane ∷ cs) = updated cs

-- The pointers of the application are set as it creates its sources.
pub record IsStarted (exists : Bytes → Bool) (a : App) : Type 0 where
  pub stat : a.has_source sys_proc_stat ≡ exists (codes "/proc/stat")
  pub mem_info : a.has_source sys_proc_mem_info ≡ exists (codes "/proc/meminfo")
  pub pressure : a.has_source sys_proc_pressure ≡ exists (codes "/proc/pressure")
  pub disk_stats : a.has_source sys_proc_disk_stats ≡ exists (codes "/proc/diskstats")
  pub buddy_info : a.has_source sys_proc_buddy_info ≡ exists (codes "/proc/buddyinfo")
  pub wireless : a.has_source sys_proc_wireless ≡ exists (codes "/proc/net/wireless")
  pub vm_stat : a.has_source sys_proc_vm_stat ≡ (
      equal (get_for enable_sys_proc_vm_stat a.config) (codes "true")
      && exists (codes "/proc/vmstat"))

-- One optional name.
abbrev pub optional : Bool → LaneSource → List LaneSource
optional b x = if b then x ∷ [] else []

module _ (Q : AsyncQueue Ask) (exists : Bytes → Bool) (a : App) (v : IsStarted exists a) where
  fast_sources-updated :
      fast_sources Q a ≡ updated (on_timer fast (data_sources exists a.config a.lanes))
  unfolding fast_sources
  fast_sources-updated = rw ((on_timer-data_sources exists a.config a.lanes).0) (ground arith)

  pace_sources-updated :
      pace_sources Q a
      ≡ info_of_procs ∷ info_of_contexts ∷ optional a.has_proc_event proc_events
        ++ updated (on_timer pace (data_sources exists a.config a.lanes))
  unfolding pace_sources
  pace_sources-updated = rw ((on_timer-data_sources exists a.config a.lanes).1) (ground arith)

  slow_sources-updated :
      slow_sources Q a
      ≡ optional a.has_proc_acct proc_accounts
        ++ updated (on_timer slow (data_sources exists a.config a.lanes))
  unfolding slow_sources
  slow_sources-updated = rw ((on_timer-data_sources exists a.config a.lanes).2) (ground arith)

-- The conversion of the interval always succeeds.
pub do_create_session_done :
    (Q : AsyncQueue Ask) (kind : Kind) (hash_of : Bytes → Bytes) (a : App) (m : Moment)
    (s : Session Q.Queue)
    → do_create_session Q kind hash_of a m s ≡ (
      fill_session Q a (any_timeout-Converts a.config).number (begin_session Q kind hash_of m s),
      ok m.write_ok,
    )
unfolding do_create_session
do_create_session_done Q kind hash_of a m s =
    rw ((any_timeout-Converts a.config).converts, do_create_session)

-- Where the application's pointers are set as it creates its sources, a session request never
-- throws, and it names, on each lane, the sources that the timer of this
-- lane updates, in the timer's order, behind the process information and, where they are enabled,
-- the process events on the pace lane and the accounting on the slow lane. They are appended to
-- what the collector's message holds: a second request lists each source twice.
pub do_create_session-updated :
    (Q : AsyncQueue Ask) (kind : Kind) (hash_of : Bytes → Bytes) (exists : Bytes → Bool) (a : App)
    (m : Moment) (s : Session Q.Queue)
    → IsStarted exists a
    → let t = do_create_session Q kind hash_of a m s in
      let sources = data_sources exists a.config a.lanes in
      (t.1 ≡ ok m.write_ok)
      × (t.0.info.fast_lane_sources ≡ s.info.fast_lane_sources ++ updated (on_timer fast sources))
      × (t.0.info.pace_lane_sources
          ≡ s.info.pace_lane_sources
            ++ (info_of_procs ∷ info_of_contexts ∷ optional a.has_proc_event proc_events
                ++ updated (on_timer pace sources)))
      × (t.0.info.slow_lane_sources
          ≡ s.info.slow_lane_sources
            ++ (optional a.has_proc_acct proc_accounts ++ updated (on_timer slow sources)))
unfolding fill_session begin_session
do_create_session-updated Q kind hash_of exists a m s v =
    rw (do_create_session_done Q kind hash_of a m s) (
      refl,
      ap (λ l. s.info.fast_lane_sources ++ l) (fast_sources-updated Q exists a v),
      ap (λ l. s.info.pace_lane_sources ++ l) (pace_sources-updated Q exists a v),
      ap (λ l. s.info.slow_lane_sources ++ l) (slow_sources-updated Q exists a v),
    )
