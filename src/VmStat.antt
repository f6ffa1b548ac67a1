-- ===== src/VmStat.antt =====
-- source/SysProcVMStat.cpp: /proc/vmstat as a source. The message's numbers are held by the line
-- that each stands on; `std::stoul` has brought them to 64 bits.
pub mod Lines
mod Tests
use taskmonitor.Common.{
  ℕ, ◌≡◌, Bool, true, false, List, [], ◌∷◌, Option, none, some, Bytes, codes, Outcome, ok, throws,
  runtime_error, M,
}
use taskmonitor.LineTable.{Fields, read_lines}
use taskmonitor.Messages.{Clock, Data, sys_proc_vm_stat}

-- `LineData`, but for `unknown`.
pub data LineData : Type 0 where
  pgpgin pgpgout pswpin pswpout pgmajfault pgreuse : LineData
  pgsteal_kswapd pgsteal_direct pgsteal_khugepaged pgsteal_anon pgsteal_file pgscan_kswapd :
      LineData
  pgscan_direct pgscan_khugepaged pgscan_direct_throttle pgscan_anon pgscan_file oom_kill : LineData
  compact_stall compact_fail compact_success thp_fault_alloc thp_collapse_alloc
        thp_collapse_alloc_failed :
      LineData
  thp_file_alloc thp_file_mapped thp_split_page thp_split_page_failed thp_zero_page_alloc
        thp_zero_page_alloc_failed :
      LineData
  thp_swpout thp_swpout_fallback : LineData

pub LineData-discrete : Discrete LineData
LineData-discrete = hlevel

-- The tests of the `else if` chain, in order.
unfoldable pub line_table : List (Bytes × LineData)
line_table =
    (codes "pgpgin", pgpgin)
    ∷ (codes "pgpgout ", pgpgout)
    ∷ (codes "pswpin ", pswpin)
    ∷ (codes "pswpout ", pswpout)
    ∷ (codes "pgmajfault ", pgmajfault)
    ∷ (codes "pgreuse ", pgreuse)
    ∷ (codes "pgsteal_kswapd ", pgsteal_kswapd)
    ∷ (codes "pgsteal_direct ", pgsteal_direct)
    ∷ (codes "pgsteal_khugepaged ", pgsteal_khugepaged)
    ∷ (codes "pgsteal_anon ", pgsteal_anon)
    ∷ (codes "pgsteal_file ", pgsteal_file)
    ∷ (codes "pgscan_kswapd ", pgscan_kswapd)
    ∷ (codes "pgscan_direct ", pgscan_direct)
    ∷ (codes "pgscan_khugepaged ", pgscan_khugepaged)
    ∷ (codes "pgscan_direct_throttle ", pgscan_direct_throttle)
    ∷ (codes "pgscan_anon ", pgscan_anon)
    ∷ (codes "pgscan_file ", pgscan_file)
    ∷ (codes "oom_kill ", oom_kill)
    ∷ (codes "compact_stall ", compact_stall)
    ∷ (codes "compact_fail ", compact_fail)
    ∷ (codes "compact_success ", compact_success)
    ∷ (codes "thp_fault_alloc ", thp_fault_alloc)
    ∷ (codes "thp_collapse_alloc ", thp_collapse_alloc)
    ∷ (codes "thp_collapse_alloc_failed ", thp_collapse_alloc_failed)
    ∷ (codes "thp_file_alloc ", thp_file_alloc)
    ∷ (codes "thp_file_mapped ", thp_file_mapped)
    ∷ (codes "thp_split_page ", thp_split_page)
    ∷ (codes "thp_split_page_failed ", thp_split_page_failed)
    ∷ (codes "thp_zero_page_alloc ", thp_zero_page_alloc)
    ∷ (codes "thp_zero_page_alloc_failed ", thp_zero_page_alloc_failed)
    ∷ (codes "thp_swpout ", thp_swpout)
    ∷ (codes "thp_swpout_fallback ", thp_swpout_fallback)
    ∷ []

unfoldable pub do_update_stats : Option (List Bytes) → M (Fields LineData) Bool
do_update_stats none f = (f, throws runtime_error)
do_update_stats (some lines) f = read_lines LineData-discrete line_table lines f

unfoldable pub do_collect : Clock → Fields LineData → Data (Fields LineData)
do_collect now f = record {
  what = sys_proc_vm_stat;
  system_time_sec = now.realtime;
  monotonic_time_sec = now.monotonic;
  payload = f;
}
