-- ===== src/Application/Tests.antt =====
-- A system with /proc/stat and /proc/meminfo only, and no configuration file.
use taskmonitor.Common.{◌≡◌, Bool, ◌&&◌, ◌||◌, [], ◌∷◌, none, Bytes, codes, equal, arith}
use taskmonitor.Options.{get_for, enable_sys_proc_vm_stat}
use taskmonitor.Source.{fast, pace, slow}
use taskmonitor.Application.{
  Lanes, proc_registry, sys_proc_stat, sys_proc_mem_info, sys_proc_pressure, sys_proc_disk_stats,
  sys_proc_buddy_info, sys_proc_wireless, sys_proc_vm_stat, data_sources, update_on, on_timer,
}
use taskmonitor.Application.Timers.{AreSlow, called, on_timer-data_sources}

abbrev has_file : Bytes → Bool
has_file path = equal path (codes "/proc/stat") || equal path (codes "/proc/meminfo")

abbrev lanes : Lanes
lanes = record {
  fast_lane_interval = 1000000;
  pace_lane_interval = 5000000;
  slow_lane_interval = 10000000;
}

lanes_slow : AreSlow lanes
lanes_slow = omega arith

on_timer-data_sources_example :
    (on_timer fast (data_sources has_file none lanes)
      ≡ update_on proc_registry fast
        ∷ called
            (has_file (codes "/proc/stat"))
            sys_proc_stat
            (called (has_file (codes "/proc/meminfo")) sys_proc_mem_info []))
    × (on_timer pace (data_sources has_file none lanes)
        ≡ update_on proc_registry pace
          ∷ called
              (has_file (codes "/proc/pressure"))
              sys_proc_pressure
              (called (has_file (codes "/proc/diskstats")) sys_proc_disk_stats []))
    × (on_timer slow (data_sources has_file none lanes)
        ≡ update_on proc_registry slow
          ∷ called (has_file (codes "/proc/buddyinfo")) sys_proc_buddy_info (
              called (has_file (codes "/proc/net/wireless")) sys_proc_wireless (
                called
                  (equal (get_for enable_sys_proc_vm_stat none) (codes "true")
                    && has_file (codes "/proc/vmstat"))
                  sys_proc_vm_stat
                  [])))
on_timer-data_sources_example = on_timer-data_sources has_file none lanes
