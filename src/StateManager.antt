-- ===== src/StateManager.antt =====
-- source/StateManager.cpp: the active collectors, the timer that removes idle ones, and the wake
-- lock of the system. Built with the wake lock. The finalizers of source/TCPCollector.cpp and
-- source/UDSCollector.cpp ask for removals, too.
pub mod WakeLock
pub mod Idle
pub mod Settles
mod Tests
use taskmonitor.Common.{
  ℕ, ◌+◌, ◌-◌, ◌%◌, u64, Bool, true, false, ◌&&◌, not, List, [], ◌∷◌, ◌++◌, any, ltb, if◌then◌else◌,
  codes, equal, none, some,
}
use taskmonitor.Bswinfra.{AsyncQueue, SafeList, Ref}
use taskmonitor.Options.{Config, get_for, tcp_active_wake_lock}
use taskmonitor.Session.{Kind, tcp, uds}

-- A removal says whether the collector's event source goes, too.
pub data Request : Type 0 where
  monitor_collector : Ref → Request
  remove_collector : Ref → (with_event_source : Bool) → Request
  update_wake_lock update_process_list : Request

-- What the manager does to the system: it writes the lock's name to a file of /sys/power, or
-- removes an event source, or asks the registry to read the list of processes.
pub data Effect : Type 0 where
  lock unlock refresh_processes : Effect
  remove_event_source : Ref → Effect

pub record Manager (Elements Queue : Type 0) : Type 0 where
  pub active : Elements
  pub queue : Queue
  pub active_wake_lock : Bool
  pub effects : List Effect

-- What stays while the service runs: the type of each collector, the option and the files.
pub record System : Type 0 where
  pub kind_of : Ref → Kind
  pub wake_lock_enabled : Bool
  pub has_lock_file : Bool
  pub has_unlock_file : Bool
  pub has_registry : Bool

-- The option `TCPActiveWakeLock`.
unfoldable pub wake_lock_option : Config → Bool
wake_lock_option c = equal (get_for tcp_active_wake_lock c) (codes "true")

abbrev pub is_tcp : Kind → Bool
is_tcp tcp = true
is_tcp uds = false

-- The duration, compared as an unsigned number.
abbrev pub elapsed : ℕ → ℕ → ℕ
elapsed now last = (now + u64 - last) % u64

module _ (L : SafeList) (Q : AsyncQueue Request) (y : System) where
  open L use {Elements, visited, append, remove}
  open Q use {Queue, push}

  unfoldable pub push_request : Request → Manager Elements Queue → Manager Elements Queue
  push_request r s = record s { queue = (push s.queue r).0 }

  -- The wake lock follows the collectors over TCP only.
  unfoldable pub ask_for_wake_lock : Ref → Manager Elements Queue → Manager Elements Queue
  unfolding push_request
  ask_for_wake_lock c s = if is_tcp (y.kind_of c) then push_request update_wake_lock s else s

  unfoldable pub do_monitor_collector : Ref → Manager Elements Queue → Manager Elements Queue
  unfolding ask_for_wake_lock
  do_monitor_collector c s = ask_for_wake_lock c (record s { active = append s.active c true })

  unfoldable pub do_remove_collector : Ref → Bool → Manager Elements Queue → Manager Elements Queue
  unfolding ask_for_wake_lock
  do_remove_collector c with_event_source s =
      let t =
        if with_event_source
        then record s { effects = s.effects ++ remove_event_source c ∷ [] }
        else s in
      ask_for_wake_lock c (record t { active = remove s.active c true })

  abbrev pub have_tcp_collector : Manager Elements Queue → Bool
  have_tcp_collector s = any (λ c. is_tcp (y.kind_of c)) (visited s.active)

  -- The two halves of `doUpdateWakeLock`.
  unfoldable pub take_lock : Bool → Manager Elements Queue → Manager Elements Queue
  take_lock have s =
      if have && not s.active_wake_lock && y.has_lock_file
      then record s { effects = s.effects ++ lock ∷ []; active_wake_lock = true }
      else s

  unfoldable pub release_lock : Bool → Manager Elements Queue → Manager Elements Queue
  release_lock have s =
      if not have && s.active_wake_lock && y.has_unlock_file
      then record s { effects = s.effects ++ unlock ∷ []; active_wake_lock = false }
      else s

  unfoldable pub do_update_wake_lock : Manager Elements Queue → Manager Elements Queue
  unfolding take_lock release_lock
  do_update_wake_lock s =
      let have = have_tcp_collector s in
      if y.wake_lock_enabled then release_lock have (take_lock have s) else s

  unfoldable pub do_update_process_list : Manager Elements Queue → Manager Elements Queue
  do_update_process_list s =
      if y.has_registry then record s { effects = s.effects ++ refresh_processes ∷ [] } else s

  -- Every case returns `true`.
  unfoldable pub request_handler : Request → Manager Elements Queue → Manager Elements Queue
  unfolding do_monitor_collector do_remove_collector do_update_wake_lock do_update_process_list
  request_handler (monitor_collector c) s = do_monitor_collector c s
  request_handler (remove_collector c with_event_source) s =
      do_remove_collector c with_event_source s
  request_handler update_wake_lock s = do_update_wake_lock s
  request_handler update_process_list s = do_update_process_list s

  -- The event loop hands the oldest request to the handler.
  unfoldable pub dispatch : Manager Elements Queue → Manager Elements Queue
  dispatch s = elim (Q.take s.queue) [
    | none ↦ s
    | some (r, q) ↦ request_handler r (record s { queue = q })
  ]

  -- The loop of the collectors' timer: `idle` is `durationUs` against the timeout.
  unfoldable pub remove_idle :
      (Ref → Bool) → List Ref → Manager Elements Queue → Manager Elements Queue
  unfolding push_request
  remove_idle idle [] s = s
  remove_idle idle (c ∷ cs) s =
      remove_idle idle cs (if idle c then push_request (remove_collector c true) s else s)

  unfoldable pub on_collectors_timer :
      ℕ → ℕ → (Ref → ℕ) → Manager Elements Queue → Manager Elements Queue
  unfolding remove_idle
  on_collectors_timer timeout now last_update_time s =
      remove_idle (λ c. ltb timeout (elapsed now (last_update_time c))) (visited s.active) s

  -- The finalizer of a collector.
  unfoldable pub finalize : Ref → Manager Elements Queue → Manager Elements Queue
  unfolding push_request
  finalize c s = push_request (remove_collector c false) s
