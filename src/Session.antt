-- ===== src/Session.antt =====
-- source/ICollector.h, source/TCPCollector.cpp and source/UDSCollector.cpp: the connection of a
-- collector. Built with process events, accounting, startup data and VM statistics. `hash_of` is
-- the text of libtkm's `jnkHsh`.
pub mod Routes
pub mod LaneLists
pub mod Receive
mod Tests
use taskmonitor.Common.{
  ℕ, zero, suc, ◌+◌, ◌-◌, ◌/◌, ◌%◌, ltb, Bool, true, false, List, [], ◌∷◌, ◌++◌, if◌then◌else◌,
  Bytes, stoul, Outcome, ok, throws, traps, M, pure,
}
use taskmonitor.Bswinfra.{AsyncQueue}
use taskmonitor.Messages.{Collector}
use taskmonitor.Options.{Config, get_for, collector_inactive_timeout}
use taskmonitor.Application.{
  Lanes, SourceName, proc_registry, sys_proc_stat, sys_proc_mem_info, sys_proc_pressure,
  sys_proc_disk_stats, sys_proc_buddy_info, sys_proc_wireless, sys_proc_vm_stat,
}

-- `ICollector::Type`.
pub data Kind : Type 0 where
  tcp uds : Kind

-- `Request_Type` of a collector's message.
pub data RequestType : Type 0 where
  create_session get_startup_data get_proc_acct get_proc_info get_context_info : RequestType
  get_proc_event_stats get_sys_proc_mem_info get_sys_proc_disk_stats : RequestType
  get_sys_proc_stat get_sys_proc_pressure get_sys_proc_buddy_info : RequestType
  get_sys_proc_wireless get_sys_proc_vm_stat keep_alive unknown_type : RequestType

-- `SessionInfo_DataSource`.
pub data LaneSource : Type 0 where
  info_of_procs info_of_contexts proc_events proc_accounts : LaneSource
  source : SourceName → LaneSource

pub record SessionInfo : Type 0 where
  pub hash : Bytes
  pub core_count : ℕ
  pub keep_alive_interval : ℕ
  pub lanes : Lanes
  pub fast_lane_sources : List LaneSource
  pub pace_lane_sources : List LaneSource
  pub slow_lane_sources : List LaneSource

-- The objects with a request queue.
pub data Target : Type 0 where
  to_startup_data to_proc_event : Target
  to_source : SourceName → Target

pub data Action : Type 0 where
  collect collect_proc_acct collect_proc_info collect_context_info : Action

-- A request, with its collector.
pub record Ask : Type 0 where
  pub action : Action
  pub collector : Collector

-- What `App()` holds: the options, the lanes' intervals and the pointers that are not null.
pub record App : Type 0 where
  pub config : Config
  pub lanes : Lanes
  pub has_source : SourceName → Bool
  pub has_startup_data : Bool
  pub has_proc_event : Bool
  pub has_proc_acct : Bool

-- The collector's own state and the queues that it pushes to.
pub record Session (Queue : Type 0) : Type 0 where
  pub self : Collector
  pub id : Bytes
  pub info : SessionInfo
  pub last_update_time : ℕ
  pub closed : Bool
  pub written : List SessionInfo
  pub queues : Target → Queue

-- What the system answers while a message is handled: the time, a random number of 31 bits, the
-- number of processors, and the result of `writeEnvelope`.
pub record Moment : Type 0 where
  pub now : ℕ
  pub random : ℕ
  pub cores : ℕ
  pub write_ok : Bool

-- A result of `readEnvelope`; a message has its origin and its type.
pub data Read : Type 0 where
  again read_error end_of_file : Read
  message : (from_collector : Bool) → RequestType → Moment → Read

pub Target-discrete : Discrete Target
Target-discrete = hlevel

-- A hexadecimal digit of `%lX`, over TCP, and of `%lx`, over a Unix domain socket.
unfoldable pub hex_digit : Kind → ℕ → ℕ
hex_digit tcp d = if ltb d 10 then b'0' + d else b'A' + (d - 10)
hex_digit uds d = if ltb d 10 then b'0' + d else b'a' + (d - 10)

-- The last `f` digits, without leading zeros; a number of 64 bits has at most 16.
unfoldable pub hex_text : ℕ → Kind → ℕ → Bytes
unfolding hex_digit
hex_text zero kind n = []
hex_text (suc f) kind n =
    let high = hex_text f kind (n / 16) in
    let low = hex_digit kind (n % 16) in if ltb n 16 then low ∷ [] else high ++ low ∷ []

module _ (Q : AsyncQueue Ask) where
  open Q use {Queue, push}

  unfoldable pub push_to : Target → Action → M (Session Queue) Bool
  push_to t a s =
      let (q, status) = push (s.queues t) (record { action = a; collector = s.self }) in
      (
        record s { queues = λ u. elim (Target-discrete u t) [ yes _ ↦ q | no _ ↦ s.queues u ] },
        ok status,
      )

  -- `if (App()->get...() != nullptr) return ...->pushRequest(rq); return true;`
  unfoldable pub push_if : Bool → Target → Action → M (Session Queue) Bool
  unfolding push_to
  push_if present t a s = if present then push_to t a s else (s, ok true)

  -- The sources that `doCreateSession` adds to each lane.
  unfoldable pub add_if : Bool → LaneSource → List LaneSource → List LaneSource
  add_if present x rest = if present then x ∷ rest else rest

  unfoldable pub fast_sources : App → List LaneSource
  unfolding add_if
  fast_sources a =
      add_if (a.has_source sys_proc_stat) (source sys_proc_stat)
        (add_if (a.has_source sys_proc_mem_info) (source sys_proc_mem_info) [])

  unfoldable pub pace_sources : App → List LaneSource
  unfolding add_if
  pace_sources a =
      info_of_procs
      ∷ info_of_contexts
      ∷ add_if a.has_proc_event proc_events (
          add_if (a.has_source sys_proc_pressure) (source sys_proc_pressure)
            (add_if (a.has_source sys_proc_disk_stats) (source sys_proc_disk_stats) []))

  unfoldable pub slow_sources : App → List LaneSource
  unfolding add_if
  slow_sources a = add_if a.has_proc_acct proc_accounts (
      add_if (a.has_source sys_proc_buddy_info) (source sys_proc_buddy_info) (
        add_if (a.has_source sys_proc_wireless) (source sys_proc_wireless)
          (add_if (a.has_source sys_proc_vm_stat) (source sys_proc_vm_stat) [])))

  -- The fields before the conversion of the interval, which may throw.
  unfoldable pub begin_session : Kind → (Bytes → Bytes) → Moment → Session Queue → Session Queue
  unfolding hex_text
  begin_session kind hash_of m s =
      let id = hash_of (s.id ++ hex_text 16 kind m.random) in
      record s { id = id; info = record s.info { hash = id; core_count = m.cores } }

  -- The `add_*` calls append to the message that the collector keeps.
  unfoldable pub fill_session : App → ℕ → Session Queue → Session Queue
  unfolding fast_sources pace_sources slow_sources
  fill_session a interval s =
      let i = record s.info {
        keep_alive_interval = interval;
        lanes = a.lanes;
        fast_lane_sources = s.info.fast_lane_sources ++ fast_sources a;
        pace_lane_sources = s.info.pace_lane_sources ++ pace_sources a;
        slow_lane_sources = s.info.slow_lane_sources ++ slow_sources a;
      } in
      record s { info = i; written = s.written ++ i ∷ [] }

  unfoldable pub do_create_session : Kind → (Bytes → Bytes) → App → Moment → M (Session Queue) Bool
  unfolding begin_session fill_session
  do_create_session kind hash_of a m s =
      let t = begin_session kind hash_of m s in
      elim (stoul (get_for collector_inactive_timeout a.config))
        as (λ _. Session Queue × Outcome Bool) [
          | ok interval ↦ (fill_session a interval t, ok m.write_ok)
          | throws e ↦ (t, throws e)
          | traps ↦ (t, traps)
        ]

  -- The cases of the `switch`. `UDSCollector` has none for the startup data.
  unfoldable pub handle :
      Kind → (Bytes → Bytes) → App → RequestType → Moment → M (Session Queue) Bool
  unfolding do_create_session push_if push_to
  handle kind hash_of a create_session m = do_create_session kind hash_of a m
  handle tcp hash_of a get_startup_data m = push_if a.has_startup_data to_startup_data collect
  handle uds hash_of a get_startup_data m = pure false
  handle kind hash_of a get_proc_acct m =
      push_if a.has_proc_acct (to_source proc_registry) collect_proc_acct
  handle kind hash_of a get_proc_info m = push_to (to_source proc_registry) collect_proc_info
  handle kind hash_of a get_context_info m = push_to (to_source proc_registry) collect_context_info
  handle kind hash_of a get_proc_event_stats m = push_if a.has_proc_event to_proc_event collect
  handle kind hash_of a get_sys_proc_mem_info m =
      push_if (a.has_source sys_proc_mem_info) (to_source sys_proc_mem_info) collect
  handle kind hash_of a get_sys_proc_disk_stats m =
      push_if (a.has_source sys_proc_disk_stats) (to_source sys_proc_disk_stats) collect
  handle kind hash_of a get_sys_proc_stat m =
      push_if (a.has_source sys_proc_stat) (to_source sys_proc_stat) collect
  handle kind hash_of a get_sys_proc_pressure m =
      push_if (a.has_source sys_proc_pressure) (to_source sys_proc_pressure) collect
  handle kind hash_of a get_sys_proc_buddy_info m =
      push_if (a.has_source sys_proc_buddy_info) (to_source sys_proc_buddy_info) collect
  handle kind hash_of a get_sys_proc_wireless m =
      push_if (a.has_source sys_proc_wireless) (to_source sys_proc_wireless) collect
  handle kind hash_of a get_sys_proc_vm_stat m =
      push_if (a.has_source sys_proc_vm_stat) (to_source sys_proc_vm_stat) collect
  handle kind hash_of a keep_alive m = pure true
  handle kind hash_of a unknown_type m = pure false

  -- The end of a round: a success is dated, and the loop goes on.
  resume :
      Moment → M (Session Queue) Bool → Session Queue × Outcome Bool → Session Queue × Outcome Bool
  resume m rest (s, ok true) = rest (record s { last_update_time = m.now })
  resume m rest (s, ok false) = (s, ok false)
  resume m rest (s, throws e) = (s, throws e)
  resume m rest (s, traps) = (s, traps)

  -- The callback of the connection's events: it reads while `status` holds. The reader answers in
  -- the order of the list, and then that there is no more.
  unfoldable pub receive : Kind → (Bytes → Bytes) → App → List Read → M (Session Queue) Bool
  unfolding handle resume
  receive kind hash_of a [] s = (s, ok true)
  receive kind hash_of a (again ∷ rs) s = (s, ok true)
  receive kind hash_of a (read_error ∷ rs) s = (s, ok false)
  receive kind hash_of a (end_of_file ∷ rs) s = (s, ok false)
  receive kind hash_of a (message false r m ∷ rs) s = (record s { closed = true }, ok false)
  receive kind hash_of a (message true r m ∷ rs) s =
      resume m (receive kind hash_of a rs) (handle kind hash_of a r m s)
