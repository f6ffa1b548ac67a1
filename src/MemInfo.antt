-- ===== src/MemInfo.antt =====
-- source/SysProcMemInfo.cpp: /proc/meminfo as a source. The message's numbers are held by the line
-- that each stands on; `std::stoul` has brought them to 64 bits.
pub mod Percent
mod Tests
use taskmonitor.Common.{
  ℕ, ◌≡◌, Bool, true, false, List, [], ◌∷◌, Option, none, some, ltb, ◌*◌, ◌/◌, ◌%◌, ◌^◌,
  if◌then◌else◌, Bytes, codes, u64, Outcome, ok, throws, traps, runtime_error, M,
}
use taskmonitor.LineTable.{Fields, read_lines}
use taskmonitor.Messages.{Clock, Data, sys_proc_mem_info}
use taskmonitor.StartupData.{StartupData, add_mem_data}

-- `LineData`, but for `Unknown`.
pub data LineData : Type 0 where
  mem_total mem_free mem_available mem_cached active inactive slab kreclaimable : LineData
  sreclaimable sunreclaim kernel_stack swap_total swap_free swap_cached cma_total cma_free :
      LineData

pub LineData-discrete : Discrete LineData
LineData-discrete = hlevel

-- The tests of the `else if` chain, in order.
unfoldable pub line_table : List (Bytes × LineData)
line_table =
    (codes "MemTotal:", mem_total)
    ∷ (codes "MemFree:", mem_free)
    ∷ (codes "MemAvailable:", mem_available)
    ∷ (codes "Cached:", mem_cached)
    ∷ (codes "Active:", active)
    ∷ (codes "Inactive:", inactive)
    ∷ (codes "Slab:", slab)
    ∷ (codes "KReclaimable:", kreclaimable)
    ∷ (codes "SReclaimable:", sreclaimable)
    ∷ (codes "SUnreclaim:", sunreclaim)
    ∷ (codes "KernelStack:", kernel_stack)
    ∷ (codes "SwapTotal:", swap_total)
    ∷ (codes "SwapFree:", swap_free)
    ∷ (codes "SwapCached:", swap_cached)
    ∷ (codes "CmaTotal:", cma_total)
    ∷ (codes "CmaFree:", cma_free)
    ∷ []

-- The message of the source.
pub record MemInfo : Type 0 where
  pub fields : Fields LineData
  pub mem_percent : ℕ
  pub swap_percent : ℕ

-- The source's own state: its message, and the startup data if the application keeps them.
pub record Manager (C P : Type 0) : Type 0 where
  pub info : MemInfo
  pub startup : Option (StartupData C MemInfo P)

-- What a reading finds: the lines of the file, unless it cannot be opened, and the time.
pub record Reading : Type 0 where
  pub file : Option (List Bytes)
  pub now : Clock

-- Available memory and free swap, in percent of the total; a total of zero leaves the old figure.
unfoldable pub set_percents : MemInfo → MemInfo
set_percents m =
    let f = m.fields in
    let n =
      if ltb 0 (f mem_total)
      then record m { mem_percent = f mem_available * 100 % u64 / f mem_total % 2 ^ 32 }
      else m in
    if ltb 0 (f swap_total)
    then record n { swap_percent = f swap_free * 100 % u64 / f swap_total % 2 ^ 32 }
    else n

module _ {C P : Type 0} where
  -- `StartupData` is told of the message, unless it is absent or expired.
  unfoldable pub add_startup_data : Clock → Manager C P → Manager C P
  add_startup_data now m = elim m.startup [
    | none ↦ m
    | some d ↦ if d.expired then m else record m { startup = some (add_mem_data now m.info d) }
  ]

  -- After the loop: only a file that was read to its end goes on to the percentages.
  after_lines : Clock → Manager C P → Fields LineData × Outcome Bool → Manager C P × Outcome Bool
  after_lines now m (f, ok true) = (
    add_startup_data now (record m { info = set_percents (record m.info { fields = f }) }),
    ok true,
  )
  after_lines now m (f, ok false) = (record m { info = record m.info { fields = f } }, ok false)
  after_lines now m (f, throws e) = (record m { info = record m.info { fields = f } }, throws e)
  after_lines now m (f, traps) = (record m { info = record m.info { fields = f } }, traps)

  unfoldable pub do_update_stats : Reading → M (Manager C P) Bool
  unfolding after_lines
  do_update_stats r m = elim r.file [
    | none ↦ (m, throws runtime_error)
    | some lines ↦ after_lines r.now m (read_lines LineData-discrete line_table lines m.info.fields)
  ]

  unfoldable pub do_collect : Clock → Manager C P → Data MemInfo
  do_collect now m = record {
    what = sys_proc_mem_info;
    system_time_sec = now.realtime;
    monotonic_time_sec = now.monotonic;
    payload = m.info;
  }
