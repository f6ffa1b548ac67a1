-- ===== src/Options.antt =====
-- source/Options.h, source/Options.cpp and the values of source/Defaults.h.in that it reads. The
-- configuration file is bswinfra's `KeyFile`: the values of its properties by section and name, or
-- no file where parsing failed.
pub mod Intervals
mod Tests
use Prim.Native.String.{String}
use taskmonitor.Common.{
  ℕ, Bool, true, false, Option, none, some, ltb, if◌then◌else◌, Bytes, codes, stoul, Outcome, ok,
  throws, traps,
}

pub data Key : Type 0 where
  runtime_directory log_level containers_path rx_buffer_size : Key
  tx_buffer_size msg_buffer_size prod_mode_fast_lane_int prod_mode_pace_lane_int : Key
  prod_mode_slow_lane_int prof_mode_fast_lane_int prof_mode_pace_lane_int prof_mode_slow_lane_int :
      Key
  prof_mode_if_path self_lower_priority read_proc_at_init enable_proc_event : Key
  enable_proc_acct enable_tcp_server enable_uds_server enable_startup_data : Key
  enable_proc_fd_count enable_sys_proc_vm_stat update_on_proc_event startup_data_cleanup_time : Key
  tcp_server_address tcp_server_port uds_server_socket_path collector_inactive_timeout : Key
  uds_monitor_collector_inactivity tcp_active_wake_lock : Key

-- `tkmDefaults.getFor`.
unfoldable pub default_for : Key → Bytes
default_for runtime_directory = codes "/run/taskmonitor"
default_for log_level = codes "info"
default_for containers_path = codes "/var/lib/lxc"
default_for rx_buffer_size = codes "524288"
default_for tx_buffer_size = codes "524288"
default_for msg_buffer_size = codes "1048576"
default_for prod_mode_fast_lane_int = codes "10000000"
default_for prod_mode_pace_lane_int = codes "30000000"
default_for prod_mode_slow_lane_int = codes "60000000"
default_for prof_mode_fast_lane_int = codes "1000000"
default_for prof_mode_pace_lane_int = codes "5000000"
default_for prof_mode_slow_lane_int = codes "10000000"
default_for prof_mode_if_path = codes "none"
default_for self_lower_priority = codes "true"
default_for read_proc_at_init = codes "true"
default_for enable_proc_event = codes "true"
default_for enable_proc_acct = codes "true"
default_for enable_tcp_server = codes "true"
default_for enable_uds_server = codes "false"
default_for enable_startup_data = codes "false"
default_for enable_proc_fd_count = codes "false"
default_for enable_sys_proc_vm_stat = codes "false"
default_for update_on_proc_event = codes "true"
default_for startup_data_cleanup_time = codes "60000000"
default_for tcp_server_address = codes "localhost"
default_for tcp_server_port = codes "3357"
default_for uds_server_socket_path = codes "/run/taskmonitor/taskmonitor.sock"
default_for collector_inactive_timeout = codes "10000000"
default_for uds_monitor_collector_inactivity = codes "false"
default_for tcp_active_wake_lock = codes "false"

-- `getPropertyValue(section, -1, name)`.
abbrev pub KeyFile : Type 0
KeyFile = String → String → Option Bytes

-- `m_configFile`.
abbrev pub Config : Type 0
Config = Option KeyFile

abbrev value_or : Option Bytes → Bytes → Bytes
value_or none d = d
value_or (some v) d = v

-- A case of `getFor` that returns the property, or the default.
unfoldable pub plain_value : Config → String → String → Bytes → Bytes
plain_value none section name d = d
plain_value (some file) section name d = value_or (file section name) d

-- The value, if it converts to at least the limit; an exception falls back on the default, too.
abbrev at_least : ℕ → Bytes → Bytes → Outcome ℕ → Bytes
at_least limit d v (ok interval) = if ltb interval limit then d else v
at_least limit d v (throws e) = d
at_least limit d v traps = d

-- A case of `getFor` that checks an interval.
unfoldable pub interval_value : Config → String → String → ℕ → Bytes → Bytes
interval_value none section name limit d = d
interval_value (some file) section name limit d =
    let v = value_or (file section name) d in at_least limit d v (stoul v)

-- Every key has a case, so the exception at the end of `getFor` is not reached.
unfoldable pub get_for : Key → Config → Bytes
unfolding default_for plain_value interval_value
get_for runtime_directory config =
    plain_value config "monitor" "RuntimeDirectory" (default_for runtime_directory)
get_for log_level config = plain_value config "monitor" "LogLevel" (default_for log_level)
get_for containers_path config =
    plain_value config "monitor" "ContainersPath" (default_for containers_path)
get_for rx_buffer_size config =
    plain_value config "monitor" "RxBufferSize" (default_for rx_buffer_size)
get_for tx_buffer_size config =
    plain_value config "monitor" "TxBufferSize" (default_for tx_buffer_size)
get_for msg_buffer_size config =
    plain_value config "monitor" "MsgBufferSize" (default_for msg_buffer_size)
get_for prod_mode_fast_lane_int config =
    interval_value config "production-mode" "FastLaneInterval" 1000000
      (default_for prod_mode_fast_lane_int)
get_for prod_mode_pace_lane_int config =
    interval_value config "production-mode" "PaceLaneInterval" 1000000
      (default_for prod_mode_pace_lane_int)
get_for prod_mode_slow_lane_int config =
    interval_value config "production-mode" "SlowLaneInterval" 1000000
      (default_for prod_mode_slow_lane_int)
get_for prof_mode_fast_lane_int config =
    interval_value config "profiling-mode" "FastLaneInterval" 1000000
      (default_for prof_mode_fast_lane_int)
get_for prof_mode_pace_lane_int config =
    interval_value config "profiling-mode" "PaceLaneInterval" 1000000
      (default_for prof_mode_pace_lane_int)
get_for prof_mode_slow_lane_int config =
    interval_value config "profiling-mode" "SlowLaneInterval" 1000000
      (default_for prof_mode_slow_lane_int)
get_for prof_mode_if_path config =
    plain_value config "monitor" "ProfModeIfPath" (default_for prof_mode_if_path)
get_for self_lower_priority config =
    plain_value config "monitor" "SelfLowerPriority" (default_for self_lower_priority)
get_for read_proc_at_init config =
    plain_value config "monitor" "ReadProcAtInit" (default_for read_proc_at_init)
get_for enable_proc_event config =
    plain_value config "monitor" "EnableProcEvent" (default_for enable_proc_event)
get_for enable_proc_acct config =
    plain_value config "monitor" "EnableProcAcct" (default_for enable_proc_acct)
get_for enable_tcp_server config =
    plain_value config "monitor" "EnableTCPServer" (default_for enable_tcp_server)
get_for enable_uds_server config =
    plain_value config "monitor" "EnableUDSServer" (default_for enable_uds_server)
get_for enable_startup_data config =
    plain_value config "monitor" "EnableStartupData" (default_for enable_startup_data)
get_for enable_proc_fd_count config =
    plain_value config "monitor" "EnableProcFDCount" (default_for enable_proc_fd_count)
get_for enable_sys_proc_vm_stat config =
    plain_value config "monitor" "EnableSysProcVMStat" (default_for enable_sys_proc_vm_stat)
get_for update_on_proc_event config =
    plain_value config "monitor" "UpdateOnProcEvent" (default_for update_on_proc_event)
get_for startup_data_cleanup_time config =
    interval_value config "profiling-mode" "StartupDataCleanupTime" 1000000
      (default_for startup_data_cleanup_time)
get_for tcp_server_address config =
    plain_value config "tcpserver" "ServerAddress" (default_for tcp_server_address)
get_for tcp_server_port config =
    plain_value config "tcpserver" "ServerPort" (default_for tcp_server_port)
get_for uds_server_socket_path config =
    plain_value config "udsserver" "SocketPath" (default_for uds_server_socket_path)
get_for collector_inactive_timeout none = default_for prof_mode_fast_lane_int
get_for collector_inactive_timeout (some file) =
    interval_value (some file) "monitor" "CollectorInactiveTimeout" 3000000
      (default_for collector_inactive_timeout)
get_for uds_monitor_collector_inactivity config =
    plain_value config "udsserver" "MonitorCollectorInactivity"
      (default_for uds_monitor_collector_inactivity)
get_for tcp_active_wake_lock config =
    plain_value config "tcpserver" "ActiveWakeLock" (default_for tcp_active_wake_lock)
