-- ===== src/Messages.antt =====
-- The data messages of source/ICollector.h and the clock that stamps them.
pub mod Acct
use taskmonitor.Common.{ℕ}

-- `Data::What`.
pub data What : Type 0 where
  proc_acct proc_info context_info proc_event sys_proc_stat sys_proc_mem_info : What
  sys_proc_pressure sys_proc_disk_stats sys_proc_buddy_info sys_proc_wireless sys_proc_vm_stat :
      What

-- The seconds of CLOCK_REALTIME and CLOCK_MONOTONIC.
pub record Clock : Type 0 where
  pub realtime : ℕ
  pub monotonic : ℕ

pub record Data (P : Type 0) : Type 0 where
  pub what : What
  pub system_time_sec : ℕ
  pub monotonic_time_sec : ℕ
  pub payload : P

-- A collector, by the identity of its object.
abbrev pub Collector : Type 0
Collector = ℕ

-- A call of `sendData`.
pub record Sent (P : Type 0) : Type 0 where
  pub collector : Collector
  pub message : Data P
