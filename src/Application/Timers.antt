-- ===== src/Application/Timers.antt =====
-- The start of the application always finds its lane intervals, and each source is polled by the
-- timer of its lane.
use taskmonitor.Common.{
  ℕ, ◌≤◌, ◌≡◌, refl, Bool, true, false, ◌&&◌, List, [], ◌∷◌, if◌then◌else◌, Bytes, codes, equal, ok,
  arith, ◌||◌,
}
use taskmonitor.Options.{Config, get_for, enable_sys_proc_vm_stat}
use taskmonitor.Options.Intervals.{
  get_for-Converts, prod_fast, prod_pace, prod_slow, prof_fast, prof_pace, prof_slow,
}
use taskmonitor.Source.{UpdateLane, fast, pace, slow, any_lane, set_update_interval}
use taskmonitor.Application.{
  Lanes, lane_intervals, SourceName, proc_registry, sys_proc_stat, sys_proc_mem_info,
  sys_proc_pressure, sys_proc_disk_stats, sys_proc_buddy_info, sys_proc_wireless, sys_proc_vm_stat,
  Registered, registered, when, data_sources, Call, update, update_on, same_lane, on_timer,
}

-- Every interval is a second or more.
pub record AreSlow (l : Lanes) : Type 0 where
  pub fast_enough : 1000000 ≤ l.fast_lane_interval
  pub pace_enough : 1000000 ≤ l.pace_lane_interval
  pub slow_enough : 1000000 ≤ l.slow_lane_interval

-- Whatever the configuration holds, the three conversions succeed in both modes, and each lane's
-- interval is a second or more.
pub lane_intervals_total :
    (prof_mode : Bool) (c : Config) → (l : Lanes) × (lane_intervals prof_mode c ≡ ok l) × AreSlow l
unfolding lane_intervals
lane_intervals_total true c =
    let f = get_for-Converts c prof_fast in
    let p = get_for-Converts c prof_pace in
    let s = get_for-Converts c prof_slow in
    (
      record {
        fast_lane_interval = f.number;
        pace_lane_interval = p.number;
        slow_lane_interval = s.number;
      },
      rw (f.converts, p.converts, s.converts),
      record { fast_enough = f.enough; pace_enough = p.enough; slow_enough = s.enough },
    )
lane_intervals_total false c =
    let f = get_for-Converts c prod_fast in
    let p = get_for-Converts c prod_pace in
    let s = get_for-Converts c prod_slow in
    (
      record {
        fast_lane_interval = f.number;
        pace_lane_interval = p.number;
        slow_lane_interval = s.number;
      },
      rw (f.converts, p.converts, s.converts),
      record { fast_enough = f.enough; pace_enough = p.enough; slow_enough = s.enough },
    )

-- The interval of a lane; the process registry, on any lane, has that of the pace lane.
abbrev pub interval_of : Lanes → UpdateLane → ℕ
interval_of l fast = l.fast_lane_interval
interval_of l pace = l.pace_lane_interval
interval_of l slow = l.slow_lane_interval
interval_of l any_lane = l.pace_lane_interval

-- Each source has its lane's interval.
abbrev pub AreTimed : Lanes → List Registered → Type 0
AreTimed l [] = Unit {0}
AreTimed l (r ∷ rs) = (r.base.update_interval ≡ interval_of l r.base.update_lane) × AreTimed l rs

AreTimed-registered :
    (l : Lanes) (name : SourceName) (lane : UpdateLane) (rs : List Registered)
    → 1000000 ≤ interval_of l lane
    → AreTimed l rs
    → AreTimed l (registered name lane (interval_of l lane) ∷ rs)
unfolding registered set_update_interval
AreTimed-registered l name lane rs h t = (ground arith, t)

AreTimed-when :
    (l : Lanes) (b : Bool) (name : SourceName) (lane : UpdateLane) (rs : List Registered)
    → 1000000 ≤ interval_of l lane
    → AreTimed l rs
    → AreTimed l (when b (registered name lane (interval_of l lane)) rs)
unfolding when registered set_update_interval
AreTimed-when l true name lane rs h t = AreTimed-registered l name lane rs h t
AreTimed-when l false name lane rs h t = t

-- With intervals of a second or more, every source that is created has the interval of its lane:
-- none is refused by `setUpdateInterval`.
pub data_sources-AreTimed :
    (exists : Bytes → Bool) (c : Config) (l : Lanes)
    → AreSlow l
    → AreTimed l (data_sources exists c l)
unfolding data_sources
data_sources-AreTimed exists c l h = AreTimed-registered l proc_registry any_lane _ h.pace_enough (
    AreTimed-when l _ sys_proc_stat fast _ h.fast_enough (
      AreTimed-when l _ sys_proc_mem_info fast _ h.fast_enough (
        AreTimed-when l _ sys_proc_pressure pace _ h.pace_enough (
          AreTimed-when l _ sys_proc_disk_stats pace _ h.pace_enough (
            AreTimed-when l _ sys_proc_buddy_info slow _ h.slow_enough (
              AreTimed-when l _ sys_proc_wireless slow _ h.slow_enough
                (AreTimed-when l _ sys_proc_vm_stat slow [] h.slow_enough tt)))))))

-- `update()` of a source that is there.
abbrev pub called : Bool → SourceName → List Call → List Call
called present name rest = if present then update name ∷ rest else rest

on_timer-own :
    (lane : UpdateLane) (b : Bool) (name : SourceName) (n : ℕ) (rs : List Registered)
    → on_timer lane (when b (registered name lane n) rs) ≡ called b name (on_timer lane rs)
unfolding when on_timer registered set_update_interval
on_timer-own fast b name n rs = ground arith
on_timer-own pace b name n rs = ground arith
on_timer-own slow b name n rs = ground arith
on_timer-own any_lane b name n rs = ground arith

on_timer-other :
    (lane other : UpdateLane) (b : Bool) (name : SourceName) (n : ℕ) (rs : List Registered)
    → (same_lane other lane || same_lane other any_lane) ≡ false
    → on_timer lane (when b (registered name other n) rs) ≡ on_timer lane rs
unfolding when on_timer registered set_update_interval
on_timer-other lane other b name n rs h = ground arith

on_timer-registry :
    (lane : UpdateLane) (n : ℕ) (rs : List Registered)
    → same_lane any_lane lane ≡ false
    → on_timer lane (registered proc_registry any_lane n ∷ rs)
      ≡ update_on proc_registry lane ∷ on_timer lane rs
unfolding on_timer registered set_update_interval
on_timer-registry lane n rs h = ground arith

on_timer-nil : (lane : UpdateLane) → on_timer lane [] ≡ []
unfolding on_timer
on_timer-nil lane = refl

-- The timers share the sources out: each calls the registry with its lane, then those of its own
-- sources that are there, once each and in the order of their creation, and no other.
pub on_timer-data_sources :
    (exists : Bytes → Bool) (c : Config) (l : Lanes)
    → (on_timer fast (data_sources exists c l)
        ≡ update_on proc_registry fast
          ∷ called
              (exists (codes "/proc/stat"))
              sys_proc_stat
              (called (exists (codes "/proc/meminfo")) sys_proc_mem_info []))
      × (on_timer pace (data_sources exists c l)
          ≡ update_on proc_registry pace
            ∷ called
                (exists (codes "/proc/pressure"))
                sys_proc_pressure
                (called (exists (codes "/proc/diskstats")) sys_proc_disk_stats []))
      × (on_timer slow (data_sources exists c l)
          ≡ update_on proc_registry slow
            ∷ called (exists (codes "/proc/buddyinfo")) sys_proc_buddy_info (
                called (exists (codes "/proc/net/wireless")) sys_proc_wireless (
                  called
                    (equal (get_for enable_sys_proc_vm_stat c) (codes "true")
                      && exists (codes "/proc/vmstat"))
                    sys_proc_vm_stat
                    [])))
unfolding data_sources same_lane
on_timer-data_sources exists c l = (
  simp (
    on_timer-registry fast _ _ refl,
    on_timer-own,
    on_timer-nil,
    on_timer-other fast pace _ _ _ _ refl,
    on_timer-other fast slow _ _ _ _ refl,
  ),
  simp (
    on_timer-registry pace _ _ refl,
    on_timer-own,
    on_timer-nil,
    on_timer-other pace fast _ _ _ _ refl,
    on_timer-other pace slow _ _ _ _ refl,
  ),
  simp (
    on_timer-registry slow _ _ refl,
    on_timer-own,
    on_timer-nil,
    on_timer-other slow fast _ _ _ _ refl,
    on_timer-other slow pace _ _ _ _ refl,
  ),
)
