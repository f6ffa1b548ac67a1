-- ===== src/ProcEvent.antt =====
-- source/ProcEvent.cpp: the process events of the kernel, which arrive on a netlink socket. `K` is
-- the queue of the state manager. A counter has 64 bits.
pub mod Calls
mod Tests
use taskmonitor.Common.{
  ℕ, ◌+◌, ◌%◌, u64, Bool, true, false, ◌&&◌, List, [], ◌∷◌, ◌==◌, if◌then◌else◌, codes, equal,
}
use taskmonitor.Bswinfra.{AsyncQueue, SafeList}
use taskmonitor.Messages.{Clock, Data, proc_event}
use taskmonitor.Options.{Config, get_for, update_on_proc_event}
use taskmonitor.ProcEntry.{ProcFs}
use taskmonitor.ProcRegistry
use taskmonitor.ProcRegistry.{Registry, Blacklist, add_proc_entry, upd_proc_entry, rem_proc_entry}
use taskmonitor.StateManager
use taskmonitor.StateManager.{update_process_list}

-- `proc_event`, with the pids that the listener reads.
pub data KernelEvent : Type 0 where
  started uid gid other : KernelEvent
  fork : (child_pid child_tgid : ℕ) → KernelEvent
  exec : (process_pid : ℕ) → KernelEvent
  exit : (process_pid process_tgid : ℕ) → KernelEvent

-- What `recv` returns: nothing, an error, the error `ENOBUFS`, or an event.
pub data Received : Type 0 where
  nothing failed no_buffer_space : Received
  event : KernelEvent → Received

-- The message `ProcEvent`.
pub record EventCounts : Type 0 where
  pub fork_count : ℕ
  pub exec_count : ℕ
  pub uid_count : ℕ
  pub gid_count : ℕ
  pub exit_count : ℕ

pub record Listener (Elements Queue ManagerQueue : Type 0) : Type 0 where
  pub event_data : EventCounts
  pub registry : Registry Elements Queue
  pub manager_queue : ManagerQueue

-- The option `UpdateOnProcEvent`.
unfoldable pub updates_on_event : Config → Bool
updates_on_event c = equal (get_for update_on_proc_event c) (codes "true")

-- The finalizer of the socket, which stops the application where nothing else follows the list of
-- processes.
unfoldable pub stops_on_loss : Config → Bool
unfolding updates_on_event
stops_on_loss c = updates_on_event c

-- The counter of the event.
unfoldable pub counted : KernelEvent → EventCounts → EventCounts
counted started d = d
counted other d = d
counted uid d = record d { uid_count = (d.uid_count + 1) % u64 }
counted gid d = record d { gid_count = (d.gid_count + 1) % u64 }
counted (fork pid tgid) d = record d { fork_count = (d.fork_count + 1) % u64 }
counted (exec pid) d = record d { exec_count = (d.exec_count + 1) % u64 }
counted (exit pid tgid) d = record d { exit_count = (d.exit_count + 1) % u64 }

unfoldable pub do_collect : {A B C : Type 0} → Clock → Listener A B C → Data EventCounts
do_collect now s = record {
  what = proc_event;
  system_time_sec = now.realtime;
  monotonic_time_sec = now.monotonic;
  payload = s.event_data;
}

module _ (L : SafeList) (Q : AsyncQueue ProcRegistry.Request) (K : AsyncQueue StateManager.Request)
    (blacklist : Blacklist) (update_on : Bool) where
  open L use {Elements}
  open Q use {Queue}

  abbrev pub Service : Type 0
  Service = Listener Elements Queue K.Queue

  -- A thread's fork or exit has a pid that is not its group's, and does not change the registry.
  unfoldable pub call_registry :
      ProcFs → KernelEvent → Registry Elements Queue → Registry Elements Queue
  call_registry fs (fork pid tgid) r =
      if (pid == tgid) && update_on then add_proc_entry L Q fs blacklist tgid r else r
  call_registry fs (exec pid) r = if update_on then upd_proc_entry L Q fs blacklist pid r else r
  call_registry fs (exit pid tgid) r =
      if (pid == tgid) && update_on then rem_proc_entry L Q pid true r else r
  call_registry fs e r = r

  -- The callback of the socket; at `false` it is removed from the event loop.
  unfoldable pub receive : ProcFs → Received → Service → Service × Bool
  unfolding call_registry counted
  receive fs nothing s = (s, true)
  receive fs failed s = (s, false)
  receive fs no_buffer_space s =
      (record s { manager_queue = (K.push s.manager_queue update_process_list).0 }, true)
  receive fs (event e) s = (
    record s { event_data = counted e s.event_data; registry = call_registry fs e s.registry },
    true,
  )

  -- The loop over the events until the callback is removed.
  unfoldable pub receives : List (ProcFs × Received) → Service → Service
  unfolding receive
  receives [] s = s
  receives ((fs, r) ∷ rs) s =
      let (t, on) = receive fs r s in let later = receives rs t in if on then later else t
