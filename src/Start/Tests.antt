-- ===== src/Start/Tests.antt =====
-- A system with every path and a file that names one for the profiling mode, and a file with a buffer
-- size that does not convert. The TCP server cannot bind.
use taskmonitor.Common.{
  stoi, stol, ℕ, ◌≡◌, refl, true, false, Option, none, some, Bytes, codes, equal, if◌then◌else◌, ok,
}
use taskmonitor.Options.{KeyFile, plain_value, get_for, default_for}
use taskmonitor.Application.{is_prof_mode}
use taskmonitor.Start.Sizes.{sizes_convert}
use taskmonitor.Servers.{configured_address}
use taskmonitor.Start.{World, Started, start}
use taskmonitor.Start.Pointers.{IsHealthy, IsRight, start-IsRight}

abbrev found : Bytes → Option ℕ
found name = some 1

abbrev host : World ℕ
host = record {
  exists = λ path. true;
  tcp_socket = true;
  host_by_name = found;
  bind_ok = λ a port. false;
  listen_ok = true;
  uds_socket = true;
  uds_path = record { exists = true; removed = false; bind_ok = true; listen_ok = true };
  event_socket = record {
    opened = true;
    receive_buffer_set = true;
    send_buffer_set = true;
    bound = true;
  };
  nl_open = record {
    allocated = true;
    connected = true;
    nonblocking = true;
    has_fd = true;
    buffers_set = true;
    message_buffer_set = true;
    family_resolved = true;
    callback_set = true;
  };
}

-- The path of the condition for the profiling mode.
abbrev profiling : KeyFile
profiling section name =
    if equal (codes name) (codes "ProfModeIfPath") then some (codes "/proc") else none

host-IsHealthy : IsHealthy host (some profiling)
unfolding configured_address get_for plain_value default_for equal
host-IsHealthy = record {
  tcp_opens = refl;
  uds_opens = refl;
  event_opens = record {
    opened = refl;
    receive_buffer_set = refl;
    send_buffer_set = refl;
    bound = refl;
  };
  acct_opens = record {
    allocated = refl;
    connected = refl;
    nonblocking = refl;
    has_fd = refl;
    buffers_set = refl;
    message_buffer_set = refl;
    family_resolved = refl;
    callback_set = refl;
  };
  address = some 1;
  resolves = refl;
}

start-IsRight_example :
    (t : Started ℕ) × (start host (some profiling) ≡ ok t) × IsRight host (some profiling) t
unfolding get_for plain_value default_for equal stoi stol is_prof_mode
start-IsRight_example = start-IsRight host (some profiling) host-IsHealthy

-- A configuration with a buffer size that is no number.
abbrev no_size : KeyFile
no_size section name =
    if equal (codes name) (codes "RxBufferSize") then some (codes "abc") else none

no_size-not_converted : sizes_convert false (some no_size) ≡ false
unfolding get_for plain_value default_for equal stoi stol
no_size-not_converted = refl
