-- ===== src/Application.antt =====
-- source/Application.cpp: the runtime mode, the lane intervals, the data sources that are created,
-- and the calls that each lane's timer makes. `exists` is `fs::exists` on the running system.
pub mod Timers
mod Tests
use Prim.Native.String.{String}
use taskmonitor.Common.{
  ℕ, Bool, true, false, ◌&&◌, not, List, [], ◌∷◌, ◌++◌, Option, none, some, if◌then◌else◌, Bytes,
  codes, equal, has_prefix, stoul, Outcome, ok, throws, traps,
}
use taskmonitor.Options.{
  Key, Config, get_for, prof_mode_if_path, log_level, enable_sys_proc_vm_stat,
  prod_mode_fast_lane_int, prod_mode_pace_lane_int, prod_mode_slow_lane_int,
  prof_mode_fast_lane_int, prof_mode_pace_lane_int, prof_mode_slow_lane_int,
}
use taskmonitor.Source.{
  UpdateLane, fast, pace, slow, any_lane, DataSource, new_data_source, set_update_interval,
}

unfoldable pub is_prof_mode : (Bytes → Bool) → Config → Bool
is_prof_mode exists c =
    let prof_cond = get_for prof_mode_if_path c in
    not (equal prof_cond (codes "none")) && exists prof_cond

pub data LogLevel : Type 0 where
  verbose debug info notice warn error fatal : LogLevel

unfoldable pub log_level_of : Bytes → LogLevel
log_level_of s =
    if has_prefix (codes "debug") s
    then debug
    else if has_prefix (codes "info") s
    then info
    else if has_prefix (codes "notice") s
    then notice
    else if has_prefix (codes "warn") s
    then warn
    else if has_prefix (codes "error") s
    then error
    else if has_prefix (codes "fatal") s
    then fatal
    else verbose

pub record Lanes : Type 0 where
  pub fast_lane_interval : ℕ
  pub pace_lane_interval : ℕ
  pub slow_lane_interval : ℕ

-- The three conversions in turn; the first exception leaves the constructor.
convert_lanes : Outcome ℕ → Outcome ℕ → Outcome ℕ → Outcome Lanes
convert_lanes (ok f) (ok p) (ok s) =
    ok (record { fast_lane_interval = f; pace_lane_interval = p; slow_lane_interval = s })
convert_lanes (throws e) p s = throws e
convert_lanes traps p s = traps
convert_lanes (ok f) (throws e) s = throws e
convert_lanes (ok f) traps s = traps
convert_lanes (ok f) (ok p) (throws e) = throws e
convert_lanes (ok f) (ok p) traps = traps

unfoldable pub lane_intervals : Bool → Config → Outcome Lanes
unfolding convert_lanes
lane_intervals prof_mode c =
    if prof_mode
    then convert_lanes (stoul (get_for prof_mode_fast_lane_int c))
        (stoul (get_for prof_mode_pace_lane_int c)) (stoul (get_for prof_mode_slow_lane_int c))
    else convert_lanes (stoul (get_for prod_mode_fast_lane_int c))
        (stoul (get_for prod_mode_pace_lane_int c)) (stoul (get_for prod_mode_slow_lane_int c))

pub data SourceName : Type 0 where
  proc_registry sys_proc_stat sys_proc_mem_info sys_proc_pressure : SourceName
  sys_proc_disk_stats sys_proc_buddy_info sys_proc_wireless sys_proc_vm_stat : SourceName

pub record Registered : Type 0 where
  pub name : SourceName
  pub base : DataSource

-- `setUpdateLane`, `setUpdateInterval` and the append to the list of sources.
unfoldable pub registered : SourceName → UpdateLane → ℕ → Registered
registered name lane interval = record {
  name = name;
  base = set_update_interval interval (record new_data_source { update_lane = lane });
}

-- `if (present)` before the creation of a source; `rest` is created after it.
unfoldable pub when : Bool → Registered → List Registered → List Registered
when present r rest = if present then r ∷ rest else rest

-- The sources in the order of their creation, with the VM statistics built in.
unfoldable pub data_sources : (Bytes → Bool) → Config → Lanes → List Registered
data_sources exists c l =
    let vm_stat = equal (get_for enable_sys_proc_vm_stat c) (codes "true") in
    registered proc_registry any_lane l.pace_lane_interval
    ∷ when (exists (codes "/proc/stat")) (registered sys_proc_stat fast l.fast_lane_interval) (
        when (exists (codes "/proc/meminfo"))
          (registered sys_proc_mem_info fast l.fast_lane_interval)
          (when (exists (codes "/proc/pressure"))
            (registered sys_proc_pressure pace l.pace_lane_interval)
            (when (exists (codes "/proc/diskstats"))
              (registered sys_proc_disk_stats pace l.pace_lane_interval)
              (when (exists (codes "/proc/buddyinfo"))
                (registered sys_proc_buddy_info slow l.slow_lane_interval)
                (when (exists (codes "/proc/net/wireless"))
                  (registered sys_proc_wireless slow l.slow_lane_interval)
                  (when (vm_stat && exists (codes "/proc/vmstat"))
                    (registered sys_proc_vm_stat slow l.slow_lane_interval) []))))))

-- A call of a source by a timer: `update()`, or `update(lane)`.
pub data Call : Type 0 where
  update : SourceName → Call
  update_on : SourceName → UpdateLane → Call

unfoldable pub same_lane : UpdateLane → UpdateLane → Bool
same_lane fast fast = true
same_lane pace pace = true
same_lane slow slow = true
same_lane any_lane any_lane = true
same_lane _ _ = false

-- The body of a lane's timer: one visit of each source.
unfoldable pub on_timer : UpdateLane → List Registered → List Call
unfolding same_lane
on_timer lane [] = []
on_timer lane (r ∷ rs) =
    let rest = on_timer lane rs in
    if same_lane r.base.update_lane lane
    then update r.name ∷ rest
    else if same_lane r.base.update_lane any_lane
    then update_on r.name lane ∷ rest
    else rest
