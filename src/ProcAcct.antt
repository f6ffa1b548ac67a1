-- ===== src/ProcAcct.antt =====
-- source/ProcAcct.cpp: the kernel's accounting of the processes. Netlink and `libnl` are its input:
-- what each request meets, and the messages that a wake-up hands to the callback. Built with version 9
-- or later of the kernel's statistics.
pub mod Averages
pub mod Answers
pub mod Keeping
pub mod Unheard
mod Tests
use taskmonitor.Common.{
  ℕ, ◌+◌, ◌/◌, ◌^◌, Bool, true, false, List, [], ◌∷◌, map, Option, none, some, ltb, ◌==◌,
  if◌then◌else◌, Bytes,
}
use taskmonitor.Bswinfra.{AsyncQueue, SafeList, Ref}
use taskmonitor.Messages.Acct.{Acct}
use taskmonitor.ProcEntry.{ProcEntry}
use taskmonitor.ProcRegistry.{Registry, Request, write, get_proc_entry}

-- `struct taskstats` of the kernel, as far as it is read.
pub record TaskStats : Type 0 where
  pub ac_comm : Bytes
  pub ac_uid : ℕ
  pub ac_gid : ℕ
  pub ac_pid : ℕ
  pub ac_ppid : ℕ
  pub ac_utime : ℕ
  pub ac_stime : ℕ
  pub cpu_count : ℕ
  pub cpu_run_real_total : ℕ
  pub cpu_run_virtual_total : ℕ
  pub cpu_delay_total : ℕ
  pub coremem : ℕ
  pub virtmem : ℕ
  pub hiwater_rss : ℕ
  pub hiwater_vm : ℕ
  pub nvcsw : ℕ
  pub nivcsw : ℕ
  pub blkio_count : ℕ
  pub blkio_delay_total : ℕ
  pub read_bytes : ℕ
  pub write_bytes : ℕ
  pub read_char : ℕ
  pub write_char : ℕ
  pub read_syscalls : ℕ
  pub write_syscalls : ℕ
  pub swapin_count : ℕ
  pub swapin_delay_total : ℕ
  pub freepages_count : ℕ
  pub freepages_delay_total : ℕ
  pub thrashing_count : ℕ
  pub thrashing_delay_total : ℕ

-- `average_ms`.
unfoldable pub average_ms : ℕ → ℕ → ℕ
average_ms t c = t / 1000000 / (if c == 0 then 1 else c)

-- The writes to the message, in the source's order. The processor's delay is set to the time that it ran.
unfoldable pub acct_of : TaskStats → Acct
unfolding average_ms
acct_of t = record {
  ac_comm = t.ac_comm;
  ac_uid = t.ac_uid;
  ac_gid = t.ac_gid;
  ac_pid = t.ac_pid;
  ac_ppid = t.ac_ppid;
  ac_utime = t.ac_utime;
  ac_stime = t.ac_stime;
  cpu = record {
    cpu_count = t.cpu_count;
    cpu_run_real_total = t.cpu_run_real_total;
    cpu_run_virtual_total = t.cpu_run_virtual_total;
    cpu_delay_total = t.cpu_run_virtual_total;
    cpu_delay_average = average_ms t.cpu_delay_total t.cpu_count;
  };
  mem = record {
    coremem = t.coremem;
    virtmem = t.virtmem;
    hiwater_rss = t.hiwater_rss;
    hiwater_vm = t.hiwater_vm;
  };
  ctx = record { nvcsw = t.nvcsw; nivcsw = t.nivcsw };
  io = record {
    blkio_count = t.blkio_count;
    blkio_delay_total = t.blkio_delay_total;
    blkio_delay_average = average_ms t.blkio_delay_total t.blkio_count;
    read_bytes = t.read_bytes;
    write_bytes = t.write_bytes;
    read_char = t.read_char;
    write_char = t.write_char;
    read_syscalls = t.read_syscalls;
    write_syscalls = t.write_syscalls;
  };
  swp = record {
    swapin_count = t.swapin_count;
    swapin_delay_total = t.swapin_delay_total;
    swapin_delay_average = average_ms t.swapin_delay_total t.swapin_count;
  };
  reclaim = record {
    freepages_count = t.freepages_count;
    freepages_delay_total = t.freepages_delay_total;
    freepages_delay_average = average_ms t.freepages_delay_total t.freepages_count;
  };
  thrashing = record {
    thrashing_count = t.thrashing_count;
    thrashing_delay_total = t.thrashing_delay_total;
    thrashing_delay_average = average_ms t.thrashing_delay_total t.thrashing_count;
  };
}

-- A message of the kernel: one that cannot be parsed, or the statistics behind its attributes for a
-- process and for a thread group.
pub data Reply : Type 0 where
  unparsed : Reply
  parsed : (aggr_pid tgid : Option TaskStats) → Reply

-- The result of `nl_recvmsgs_default`.
pub data NlResult : Type 0 where
  success nle_again nle_busy nle_obj_notfound other_error : NlResult

-- What a request meets.
pub record NlSend : Type 0 where
  pub alloc_ok : Bool
  pub put_ok : Bool
  pub attr_ok : Bool
  pub send_ok : Bool

unfoldable pub request_task_acct : NlSend → Bool
request_task_acct n =
    if n.alloc_ok
    then (if n.put_ok then (if n.attr_ok then n.send_ok else false) else false)
    else false

-- The entry's message and its flag.
abbrev pub accounted : TaskStats → ProcEntry → ProcEntry
accounted t e = record e { acct = acct_of t; update_proc_acct_pending = false }

unfoldable pub goes_on : NlResult → Bool
goes_on success = true
goes_on nle_again = true
goes_on nle_busy = true
goes_on nle_obj_notfound = true
goes_on other_error = false

module _ (L : SafeList) (Q : AsyncQueue Request) where
  open L use {Elements, visited}
  open Q use {Queue}

  abbrev pub write_accounted :
      TaskStats → Option Ref → Registry Elements Queue → Registry Elements Queue
  write_accounted t none s = s
  write_accounted t (some r) s = record s {
    entries = write r (accounted t (s.entries r)) s.entries;
  }

  -- A 32-bit pid whose upper bit is set is negative as an `int`, and no entry has it.
  unfoldable pub process_delay_acct : TaskStats → Registry Elements Queue → Registry Elements Queue
  unfolding acct_of
  process_delay_acct t s =
      write_accounted t (if ltb t.ac_pid (2 ^ 31) then get_proc_entry L Q t.ac_pid s else none) s

  -- The callback of a message; `false` stands for -1.
  unfoldable pub callback_statistics_message :
      Reply → Registry Elements Queue → Registry Elements Queue × Bool
  unfolding process_delay_acct
  callback_statistics_message unparsed s = (s, false)
  callback_statistics_message (parsed (some t) tgid) s = (process_delay_acct t s, true)
  callback_statistics_message (parsed none (some t)) s = (process_delay_acct t s, true)
  callback_statistics_message (parsed none none) s = (s, false)

  -- The callback of the messages in turn.
  unfoldable pub handed : List Reply → Registry Elements Queue → Registry Elements Queue
  unfolding callback_statistics_message
  handed [] s = s
  handed (m ∷ ms) s = handed ms (callback_statistics_message m s).0

  -- The event's callback, with the messages that are handed over and the result; its `false` takes the
  -- source out of the event loop.
  unfoldable pub receive :
      List Reply → NlResult → Registry Elements Queue → Registry Elements Queue × Bool
  unfolding handed goes_on
  receive ms result s = (handed ms s, goes_on result)
