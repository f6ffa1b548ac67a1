-- ===== src/Messages/Acct.antt =====
-- `ProcAcct`, the message of a process's accounting, with its parts. Its fields hold every figure that
-- the kernel gives.
use taskmonitor.Common.{ℕ, Bytes, []}

pub record CpuAcct : Type 0 where
  pub cpu_count : ℕ
  pub cpu_run_real_total : ℕ
  pub cpu_run_virtual_total : ℕ
  pub cpu_delay_total : ℕ
  pub cpu_delay_average : ℕ

pub record MemAcct : Type 0 where
  pub coremem : ℕ
  pub virtmem : ℕ
  pub hiwater_rss : ℕ
  pub hiwater_vm : ℕ

pub record CtxAcct : Type 0 where
  pub nvcsw : ℕ
  pub nivcsw : ℕ

pub record IoAcct : Type 0 where
  pub blkio_count : ℕ
  pub blkio_delay_total : ℕ
  pub blkio_delay_average : ℕ
  pub read_bytes : ℕ
  pub write_bytes : ℕ
  pub read_char : ℕ
  pub write_char : ℕ
  pub read_syscalls : ℕ
  pub write_syscalls : ℕ

pub record SwpAcct : Type 0 where
  pub swapin_count : ℕ
  pub swapin_delay_total : ℕ
  pub swapin_delay_average : ℕ

pub record ReclaimAcct : Type 0 where
  pub freepages_count : ℕ
  pub freepages_delay_total : ℕ
  pub freepages_delay_average : ℕ

pub record ThrashingAcct : Type 0 where
  pub thrashing_count : ℕ
  pub thrashing_delay_total : ℕ
  pub thrashing_delay_average : ℕ

pub record Acct : Type 0 where
  pub ac_comm : Bytes
  pub ac_uid : ℕ
  pub ac_gid : ℕ
  pub ac_pid : ℕ
  pub ac_ppid : ℕ
  pub ac_utime : ℕ
  pub ac_stime : ℕ
  pub cpu : CpuAcct
  pub mem : MemAcct
  pub ctx : CtxAcct
  pub io : IoAcct
  pub swp : SwpAcct
  pub reclaim : ReclaimAcct
  pub thrashing : ThrashingAcct

-- A new message.
unfoldable pub blank_acct : Acct
blank_acct = record {
  ac_comm = [];
  ac_uid = 0;
  ac_gid = 0;
  ac_pid = 0;
  ac_ppid = 0;
  ac_utime = 0;
  ac_stime = 0;
  cpu = record {
    cpu_count = 0;
    cpu_run_real_total = 0;
    cpu_run_virtual_total = 0;
    cpu_delay_total = 0;
    cpu_delay_average = 0;
  };
  mem = record { coremem = 0; virtmem = 0; hiwater_rss = 0; hiwater_vm = 0 };
  ctx = record { nvcsw = 0; nivcsw = 0 };
  io = record {
    blkio_count = 0;
    blkio_delay_total = 0;
    blkio_delay_average = 0;
    read_bytes = 0;
    write_bytes = 0;
    read_char = 0;
    write_char = 0;
    read_syscalls = 0;
    write_syscalls = 0;
  };
  swp = record { swapin_count = 0; swapin_delay_total = 0; swapin_delay_average = 0 };
  reclaim = record { freepages_count = 0; freepages_delay_total = 0; freepages_delay_average = 0 };
  thrashing = record {
    thrashing_count = 0;
    thrashing_delay_total = 0;
    thrashing_delay_average = 0;
  };
}
