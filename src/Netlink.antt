-- ===== src/Netlink.antt =====
-- The constructors of source/ProcEvent.cpp and source/ProcAcct.cpp: the sizes of the buffers in the
-- configuration, and the calls of the system and of libnl, each of which may fail.
use taskmonitor.Common.{
  Bool, List, [], ◌∷◌, if◌then◌else◌, ℤ, stoi, stol, Outcome, ok, throws, traps, runtime_error,
}
use taskmonitor.Options.{Config, get_for, rx_buffer_size, tx_buffer_size, msg_buffer_size}

-- The socket of `ProcEvent`.
pub record EventSocket : Type 0 where
  pub opened : Bool
  pub receive_buffer_set : Bool
  pub send_buffer_set : Bool
  pub bound : Bool

-- The socket of `ProcAcct`.
pub record NlOpen : Type 0 where
  pub allocated : Bool
  pub connected : Bool
  pub nonblocking : Bool
  pub has_fd : Bool
  pub buffers_set : Bool
  pub message_buffer_set : Bool
  pub family_resolved : Bool
  pub callback_set : Bool

-- The calls in turn; the first that fails throws.
unfoldable pub all_done : List Bool → Outcome (Unit {0})
all_done [] = ok tt
all_done (done ∷ rest) = if done then all_done rest else throws runtime_error

-- A conversion; its exception becomes another.
abbrev pub with_size : Outcome ℤ → Outcome (Unit {0}) → Outcome (Unit {0})
with_size (ok z) rest = rest
with_size (throws e) rest = throws runtime_error
with_size traps rest = traps

unfoldable pub open_proc_event : EventSocket → Config → Outcome (Unit {0})
unfolding all_done
open_proc_event n c = with_size (stoi (get_for tx_buffer_size c)) (
    with_size (stoi (get_for rx_buffer_size c))
      (all_done (n.opened ∷ n.receive_buffer_set ∷ n.send_buffer_set ∷ n.bound ∷ [])))

unfoldable pub open_proc_acct : NlOpen → Config → Outcome (Unit {0})
unfolding all_done
open_proc_acct n c = with_size (stol (get_for msg_buffer_size c)) (
    with_size (stol (get_for tx_buffer_size c)) (
      with_size (stol (get_for rx_buffer_size c)) (
        all_done (
          n.allocated ∷ n.connected ∷ n.nonblocking ∷ n.has_fd ∷ n.buffers_set
          ∷ n.message_buffer_set ∷ n.family_resolved ∷ n.callback_set ∷ []))))
