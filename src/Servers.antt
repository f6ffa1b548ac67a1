-- ===== src/Servers.antt =====
-- source/TCPServer.cpp, source/UDSServer.cpp, the constructors and finalizers of the collectors, and the
-- counter in source/Application.h. Sockets, the host lookup and the file system are inputs.
pub mod Counter
pub mod Listening
mod Tests
use taskmonitor.Common.{
  ℕ, suc, ◌+◌, ◌-◌, ◌%◌, ◌^◌, Bool, true, false, List, [], ◌∷◌, ◌++◌, Option, none, some, ◌==◌,
  if◌then◌else◌, Bytes, codes, equal, ℤ, pos, negsuc, stoi, Outcome, ok, throws, traps,
  runtime_error, M,
}
use taskmonitor.Bswinfra.{AsyncQueue, Ref, erase_ref}
use taskmonitor.Options.{
  Config, get_for, default_for, tcp_server_address, tcp_server_port,
  uds_monitor_collector_inactivity,
}
use taskmonitor.Session.{Kind, tcp, uds}
use taskmonitor.StateManager.{Request, monitor_collector, remove_collector}

-- The connections: the collectors whose event source is in the loop, their kinds, the 16-bit counter of
-- those that want accounting, the descriptors that a server closed, and the state manager's queue.
pub record Connections (Queue : Type 0) : Type 0 where
  pub live : List Ref
  pub kind_of : Ref → Kind
  pub fresh : Ref
  pub counter : ℕ
  pub closed : List ℕ
  pub queue : Queue

-- What `accept` and `readCollectorDescriptor` answer.
pub data Accepted : Type 0 where
  would_block accept_error : Accepted
  client : (fd : ℕ) (descriptor_read : Bool) → Accepted

abbrev pub with_kind : Ref → Kind → (Ref → Kind) → Ref → Kind
with_kind r k kinds x = if x == r then k else kinds x

module _ (Q : AsyncQueue Request) where
  open Q use {Queue, push}

  unfoldable pub inc_proc_acct_collector_counter : Connections Queue → Connections Queue
  inc_proc_acct_collector_counter s = record s { counter = (s.counter + 1) % 2 ^ 16 }

  unfoldable pub dec_proc_acct_collector_counter : Connections Queue → Connections Queue
  dec_proc_acct_collector_counter s = record s { counter = (s.counter + 65535) % 2 ^ 16 }

  -- The object and its event source.
  unfoldable pub new_collector : Kind → Connections Queue → Connections Queue
  unfolding inc_proc_acct_collector_counter
  new_collector tcp s = inc_proc_acct_collector_counter (record s {
    live = s.live ++ s.fresh ∷ [];
    kind_of = with_kind s.fresh tcp s.kind_of;
    fresh = suc s.fresh;
  })
  new_collector uds s = record s {
    live = s.live ++ s.fresh ∷ [];
    kind_of = with_kind s.fresh uds s.kind_of;
    fresh = suc s.fresh;
  }

  abbrev pub ask_to_monitor : Ref → Connections Queue → Connections Queue
  ask_to_monitor c s = record s { queue = (push s.queue (monitor_collector c)).0 }

  -- The callback of `TCPServer`; `false` takes the server out of the event loop.
  unfoldable pub tcp_accept : Accepted → Connections Queue → Connections Queue × Bool
  unfolding new_collector
  tcp_accept would_block s = (s, true)
  tcp_accept accept_error s = (s, false)
  tcp_accept (client fd false) s = (record s { closed = s.closed ++ fd ∷ [] }, true)
  tcp_accept (client fd true) s = (ask_to_monitor s.fresh (new_collector tcp s), true)

  -- The callback of `UDSServer`: a collector is monitored only if the option asks for it.
  unfoldable pub uds_accept : Config → Accepted → Connections Queue → Connections Queue × Bool
  unfolding new_collector
  uds_accept c would_block s = (s, true)
  uds_accept c accept_error s = (s, false)
  uds_accept c (client fd false) s = (record s { closed = s.closed ++ fd ∷ [] }, true)
  uds_accept c (client fd true) s = (
    if equal (get_for uds_monitor_collector_inactivity c) (codes "true")
        then ask_to_monitor s.fresh (new_collector uds s)
        else new_collector uds s,
    true,
  )

  -- The finalizer, which the event loop calls as it takes the source out.
  abbrev pub finalized : Kind → Connections Queue → Connections Queue
  finalized tcp s = dec_proc_acct_collector_counter s
  finalized uds s = s

  unfoldable pub end_connection : Ref → Connections Queue → Connections Queue
  unfolding dec_proc_acct_collector_counter
  end_connection c s =
      finalized (s.kind_of c) (record s {
        live = erase_ref c s.live;
        queue = (push s.queue (remove_collector c false)).0;
      })

-- `static_cast<uint16_t>`.
unfoldable pub port_of : ℤ → ℕ
port_of (pos n) = n % 2 ^ 16
port_of (negsuc n) = (65535 - n % 2 ^ 16) % 2 ^ 16

pub record TcpServer (Address : Type 0) : Type 0 where
  pub address : Option Address
  pub port : ℕ
  pub ready : Bool
  pub bound : Bool

abbrev pub or_default : Outcome ℤ → Outcome ℤ
or_default (ok z) = ok z
or_default (throws e) = stoi (default_for tcp_server_port)
or_default traps = traps

-- The port of the configuration, or the default one where it does not convert.
unfoldable pub configured_port : Config → Outcome ℤ
configured_port c = or_default (stoi (get_for tcp_server_port c))

abbrev pub resolved : {Address : Type 0} → Option Address → Outcome (Option Address)
resolved none = traps
resolved (some a) = ok (some a)

-- The address `any` is `none`. A name that is not found makes the source read through a null pointer.
unfoldable pub configured_address :
    {Address : Type 0} → (Bytes → Option Address) → Config → Outcome (Option Address)
configured_address host_by_name c =
    let name = get_for tcp_server_address c in
    if equal name (codes "any") then ok none else resolved (host_by_name name)

-- `bind` and `listen`, for an address and a port.
abbrev pub bound_to :
    {Address : Type 0} → (Option Address → ℕ → Bool) → Bool → M (TcpServer Address) (Unit {0})
bound_to bind_ok listen_ok s =
    if bind_ok s.address s.port
    then if listen_ok
      then (record s { ready = true; bound = true }, ok tt)
      else (record s { ready = true }, throws runtime_error)
    else (s, throws runtime_error)

abbrev pub with_port :
    {Address : Type 0}
    → Outcome ℤ
    → M (TcpServer Address) (Unit {0})
    → M (TcpServer Address) (Unit {0})
with_port (ok z) rest s = rest (record s { port = port_of z })
with_port (throws e) rest s = (s, throws e)
with_port traps rest s = (s, traps)

abbrev pub with_address :
    {Address : Type 0}
    → Outcome (Option Address)
    → M (TcpServer Address) (Unit {0})
    → M (TcpServer Address) (Unit {0})
with_address (ok a) rest s = rest (record s { address = a })
with_address (throws e) rest s = (s, throws e)
with_address traps rest s = (s, traps)

unfoldable pub bind_and_listen :
    {Address : Type 0}
    → (Bytes → Option Address)
    → (Option Address → ℕ → Bool)
    → Bool
    → Config
    → M (TcpServer Address) (Unit {0})
unfolding configured_port configured_address port_of
bind_and_listen host_by_name bind_ok listen_ok c s =
    if s.bound
    then (s, ok tt)
    else with_address (configured_address host_by_name c)
        (with_port (configured_port c) (bound_to bind_ok listen_ok)) s

-- What `UDSServer::start` meets at the path of its socket.
pub record UdsPath : Type 0 where
  pub exists : Bool
  pub removed : Bool
  pub bind_ok : Bool
  pub listen_ok : Bool

-- Its result, and whether the server is ready for events.
unfoldable pub uds_start : UdsPath → Bool → Bool × Outcome (Unit {0})
uds_start p ready =
    let bound =
      if p.bind_ok
      then if p.listen_ok then (true, ok tt) else (true, throws runtime_error)
      else (ready, throws runtime_error) in
    if p.exists then (if p.removed then bound else (ready, throws runtime_error)) else bound
