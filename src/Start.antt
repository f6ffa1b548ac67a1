-- ===== src/Start.antt =====
-- The constructor of source/Application.cpp: the servers, the services and the data sources that it
-- creates, in its order. Sockets, the host lookup and the netlink calls are inputs.
pub mod Pointers
pub mod Sizes
mod Tests
use taskmonitor.Common.{
  ℕ, Bool, true, false, ◌&&◌, not, List, [], ◌∷◌, any, Option, none, some, ◌==◌, if◌then◌else◌,
  Bytes, codes, equal, Outcome, ok, throws, traps, runtime_error, stoul,
}
use taskmonitor.Options.{
  Key, Config, get_for, log_level, enable_tcp_server, enable_uds_server, enable_proc_event,
  enable_proc_acct, enable_startup_data, self_lower_priority, startup_data_cleanup_time,
  collector_inactive_timeout,
}
use taskmonitor.Application.{
  is_prof_mode, LogLevel, log_level_of, Lanes, lane_intervals, SourceName, proc_registry,
  sys_proc_stat, sys_proc_mem_info, sys_proc_pressure, sys_proc_disk_stats, sys_proc_buddy_info,
  sys_proc_wireless, sys_proc_vm_stat, Registered, data_sources,
}
use taskmonitor.Netlink.{EventSocket, NlOpen, open_proc_event, open_proc_acct}
use taskmonitor.Session.{App}
use taskmonitor.Servers.{TcpServer, bind_and_listen, UdsPath, uds_start}

-- What the constructor meets.
pub record World (Address : Type 0) : Type 0 where
  pub exists : Bytes → Bool
  pub tcp_socket : Bool
  pub host_by_name : Bytes → Option Address
  pub bind_ok : Option Address → ℕ → Bool
  pub listen_ok : Bool
  pub uds_socket : Bool
  pub uds_path : UdsPath
  pub event_socket : EventSocket
  pub nl_open : NlOpen

-- A server, and whether its event source was added.
pub record Service (S : Type 0) : Type 0 where
  pub server : S
  pub in_loop : Bool

pub record Started (Address : Type 0) : Type 0 where
  pub app : App
  pub level : LogLevel
  pub tcp_server : Option (Service (TcpServer Address))
  pub uds_server : Option (Service Bool)
  pub sources : List Registered
  pub cleanup : Option ℕ
  pub collector_timeout : ℕ
  pub lowered : Bool

abbrev pub is_on : Key → Config → Bool
is_on k c = equal (get_for k c) (codes "true")

abbrev pub and_then : {A B : Type 0} → Outcome A → (A → Outcome B) → Outcome B
and_then (ok a) f = f a
and_then (throws e) f = throws e
and_then traps f = traps

-- An exception of a server's start is caught, and the server stays out of the loop.
abbrev pub caught : {S : Type 0} → S × Outcome (Unit {0}) → Outcome (Option (Service S))
caught (s, ok u) = ok (some (record { server = s; in_loop = true }))
caught (s, throws e) = ok (some (record { server = s; in_loop = false }))
caught (s, traps) = traps

-- An object whose constructor may throw, if it is asked for.
abbrev pub built : Outcome (Unit {0}) → Outcome Bool
built (ok u) = ok true
built (throws e) = throws e
built traps = traps

abbrev pub optional_service : Bool → Outcome (Unit {0}) → Outcome Bool
optional_service wanted o = if wanted then built o else ok false

-- The startup data's time until it is dropped, if it is asked for.
abbrev pub time_of : Outcome ℕ → Outcome (Option ℕ)
time_of (ok n) = ok (some n)
time_of (throws e) = throws e
time_of traps = traps

abbrev pub optional_time : Bool → Outcome ℕ → Outcome (Option ℕ)
optional_time wanted o = if wanted then time_of o else ok none

abbrev pub index : SourceName → ℕ
index proc_registry = 0
index sys_proc_stat = 1
index sys_proc_mem_info = 2
index sys_proc_pressure = 3
index sys_proc_disk_stats = 4
index sys_proc_buddy_info = 5
index sys_proc_wireless = 6
index sys_proc_vm_stat = 7

-- A source's pointer is set where it is created.
unfoldable pub is_created : List Registered → SourceName → Bool
is_created rs n = any (λ (r : Registered). index r.name == index n) rs

module _ {Address : Type 0} where
  abbrev pub new_tcp_server : TcpServer Address
  new_tcp_server = record { address = none; port = 0; ready = false; bound = false }

  unfoldable pub start_tcp_server :
      World Address → Config → Bool → Outcome (Option (Service (TcpServer Address)))
  start_tcp_server w c prof_mode =
      if is_on enable_tcp_server c && prof_mode
      then if w.tcp_socket
        then caught (bind_and_listen w.host_by_name w.bind_ok w.listen_ok c new_tcp_server)
        else throws runtime_error
      else ok none

  unfoldable pub start_uds_server : World Address → Config → Outcome (Option (Service Bool))
  start_uds_server w c =
      if is_on enable_uds_server c
      then if w.uds_socket then caught (uds_start w.uds_path false) else throws runtime_error
      else ok none

  -- The application behind its constructors.
  unfoldable pub assembled :
      World Address
      → Config
      → Bool
      → Lanes
      → Option (Service (TcpServer Address))
      → Option (Service Bool)
      → (proc_event proc_acct : Bool) → Option ℕ
      → (collector_timeout : ℕ) → Started Address
  unfolding is_created
  assembled w c prof_mode lanes tcp_server uds_server proc_event proc_acct cleanup
        collector_timeout =
      let sources = data_sources w.exists c lanes in
      record {
        app = record {
          config = c;
          lanes = lanes;
          has_source = is_created sources;
          has_startup_data = is_on enable_startup_data c && prof_mode;
          has_proc_event = proc_event;
          has_proc_acct = proc_acct;
        };
        level = log_level_of (get_for log_level c);
        tcp_server = tcp_server;
        uds_server = uds_server;
        sources = sources;
        cleanup = cleanup;
        collector_timeout = collector_timeout;
        lowered = not prof_mode && is_on self_lower_priority c;
      }

  -- The constructor behind the runtime mode and the conversion of the intervals.
  unfoldable pub start_with : World Address → Config → Bool → Lanes → Outcome (Started Address)
  unfolding start_tcp_server start_uds_server assembled
  start_with w c prof_mode lanes = and_then (start_tcp_server w c prof_mode) (λ tcp_server.
      and_then (start_uds_server w c) (λ uds_server.
        and_then (optional_service (is_on enable_proc_event c) (open_proc_event w.event_socket c))
          (λ proc_event.
            and_then
              (optional_service (is_on enable_proc_acct c && prof_mode)
                (open_proc_acct w.nl_open c))
              (λ proc_acct.
                and_then
                  (optional_time (is_on enable_startup_data c && prof_mode)
                    (stoul (get_for startup_data_cleanup_time c)))
                  (λ cleanup.
                    and_then (stoul (get_for collector_inactive_timeout c)) (λ collector_timeout.
                      ok (
                        assembled w c prof_mode lanes tcp_server uds_server proc_event proc_acct
                          cleanup collector_timeout)))))))

  unfoldable pub start : World Address → Config → Outcome (Started Address)
  unfolding start_with
  start w c =
      let prof_mode = is_prof_mode w.exists c in
      and_then (lane_intervals prof_mode c) (start_with w c prof_mode)
