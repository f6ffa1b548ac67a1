-- ===== src/Servers/Listening.antt =====
-- The TCP server's socket.
use taskmonitor.Common.{
  ℕ, ◌^◌, ◌<◌, ◌≡◌, ◌≢◌, refl, Bool, false, ◌&&◌, ◌||◌, Option, arith, if◌then◌else◌, inl, inr,
  Bool-cases, Bytes, ℤ, pos, negsuc, stoi, stoi-traps, Outcome, ok, throws, traps, runtime_error,
}
use taskmonitor.Options.{Config, get_for, default_for, tcp_server_port}
use taskmonitor.Servers.{
  TcpServer, port_of, or_default, configured_port, configured_address, bound_to, bind_and_listen,
}

-- The option's number as a 16-bit one, or the default where the option is no number.
abbrev pub IsPortOf : Outcome ℤ → ℕ → Type 0
IsPortOf (ok z) p = p ≡ port_of z
IsPortOf (throws e) p = p ≡ 3357
IsPortOf traps p = ⊥

port_of-lt : (z : ℤ) → port_of z < 2 ^ 16
unfolding port_of
port_of-lt (pos n) = omega arith
port_of-lt (negsuc n) = omega arith

record Port (option : Outcome ℤ) : Type 0 where
  pub number : ℤ
  pub converts : or_default option ≡ ok number
  pub right : IsPortOf option (port_of number)

default-Port : Port (throws runtime_error)
unfolding default_for stoi port_of
default-Port = record { number = pos 3357; converts = refl; right = refl }

port_lem : (option : Outcome ℤ) → option ≢ traps → Port option
port_lem (ok z) h = record { number = z; converts = refl; right = refl }
port_lem (throws e) h = record {
  number = default-Port.number;
  converts = default-Port.converts;
  right = default-Port.right;
}
port_lem traps h = absurd (h refl)

bound_to_lem :
    {Address : Type 0} (bind_ok : Option Address → ℕ → Bool) (listen_ok : Bool)
    (s : TcpServer Address)
    → s.bound ≡ false
    → bound_to bind_ok listen_ok s ≡ (
      record s {
        ready = s.ready || bind_ok s.address s.port;
        bound = bind_ok s.address s.port && listen_ok;
      },
      if bind_ok s.address s.port && listen_ok then ok tt else throws runtime_error,
    )
bound_to_lem bind_ok listen_ok s u = elim (Bool-cases (bind_ok s.address s.port)) [
  | inl y ↦ elim (Bool-cases listen_ok) [
    | inl z ↦ ground (arith, y, z, u)
    | inr z ↦ ground (arith, y, z, u)
  ]
  | inr n ↦ ground (arith, n, u)
]

-- Where no earlier call succeeded and the configured address is `any` or resolves: the call never ends
-- by a conversion. It tries the option's port modulo 2^16, or 3357 where the option is no number, and
-- succeeds, with the server bound, if and only if the system lets it bind and listen there; otherwise it
-- throws a `runtime_error` and the server stays unbound. It is ready for events once it is bound, also
-- where listening fails.
pub bind_and_listen-IsPortOf :
    {Address : Type 0} (host_by_name : Bytes → Option Address) (bind_ok : Option Address → ℕ → Bool)
    (listen_ok : Bool) (c : Config) (s : TcpServer Address) (a : Option Address)
    → s.bound ≡ false
    → configured_address host_by_name c ≡ ok a
    → (p : ℕ) × IsPortOf (stoi (get_for tcp_server_port c)) p
      × (p < 2 ^ 16)
      × (bind_and_listen host_by_name bind_ok listen_ok c s ≡ (
        record s {
          address = a;
          port = p;
          ready = s.ready || bind_ok a p;
          bound = bind_ok a p && listen_ok;
        },
        if bind_ok a p && listen_ok then ok tt else throws runtime_error,
      ))
unfolding bind_and_listen configured_port
bind_and_listen-IsPortOf host_by_name bind_ok listen_ok c s a unbound found =
    let q = port_lem (stoi (get_for tcp_server_port c)) (stoi-traps (get_for tcp_server_port c)) in
    (
      port_of q.number,
      q.right,
      port_of-lt q.number,
      rw (unbound, found, q.converts)
          (bound_to_lem bind_ok listen_ok
            (record s { address = a; port = port_of q.number; bound = false }) refl),
    )
