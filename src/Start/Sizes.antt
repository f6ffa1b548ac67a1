-- ===== src/Start/Sizes.antt =====
-- The sizes of the buffers in the configuration, which the constructors of source/ProcEvent.cpp and
-- source/ProcAcct.cpp convert before they open their sockets.
use taskmonitor.Common.{
  ◌≡◌, ◌≢◌, refl, Bool, true, false, ◌&&◌, if◌then◌else◌, ℤ, stoi, stol, stoi-traps, stol-traps,
  Outcome, ok, throws, traps, runtime_error,
}
use taskmonitor.Options.{
  Config, get_for, rx_buffer_size, tx_buffer_size, msg_buffer_size, enable_proc_event,
  enable_proc_acct,
}
use taskmonitor.Netlink.{EventSocket, NlOpen, all_done, with_size, open_proc_event, open_proc_acct}
use taskmonitor.Start.{is_on, optional_service}

-- Every call for the socket of `ProcEvent` succeeds.
pub record EventOpens (n : EventSocket) : Type 0 where
  pub opened : n.opened ≡ true
  pub receive_buffer_set : n.receive_buffer_set ≡ true
  pub send_buffer_set : n.send_buffer_set ≡ true
  pub bound : n.bound ≡ true

-- Every call for the socket of `ProcAcct` succeeds.
pub record AcctOpens (n : NlOpen) : Type 0 where
  pub allocated : n.allocated ≡ true
  pub connected : n.connected ≡ true
  pub nonblocking : n.nonblocking ≡ true
  pub has_fd : n.has_fd ≡ true
  pub buffers_set : n.buffers_set ≡ true
  pub message_buffer_set : n.message_buffer_set ≡ true
  pub family_resolved : n.family_resolved ≡ true
  pub callback_set : n.callback_set ≡ true

-- The conversion does not throw.
abbrev pub converts : Outcome ℤ → Bool
converts (ok z) = true
converts (throws e) = false
converts traps = false

-- TxBufferSize and RxBufferSize are an `int`.
abbrev pub event_sizes_convert : Config → Bool
event_sizes_convert c =
    converts (stoi (get_for tx_buffer_size c)) && converts (stoi (get_for rx_buffer_size c))

-- MsgBufferSize, TxBufferSize and RxBufferSize are a `long`.
abbrev pub acct_sizes_convert : Config → Bool
acct_sizes_convert c =
    converts (stol (get_for msg_buffer_size c))
    && (converts (stol (get_for tx_buffer_size c)) && converts (stol (get_for rx_buffer_size c)))

-- The sizes convert for each of the two services that the options ask for.
abbrev pub sizes_convert : Bool → Config → Bool
sizes_convert prof_mode c =
    (if is_on enable_proc_event c then event_sizes_convert c else true)
    && (if is_on enable_proc_acct c && prof_mode then acct_sizes_convert c else true)

-- A value, or the exception.
abbrev pub unless : {A : Type 0} → Bool → A → Outcome A
unless done a = if done then ok a else throws runtime_error

with_size_lem :
    (o : Outcome ℤ) (b : Bool) → o ≢ traps → with_size o (unless b tt) ≡ unless (converts o && b) tt
with_size_lem (ok z) b h = refl
with_size_lem (throws e) b h = refl
with_size_lem traps b h = absurd (h refl)

last_size_lem : (o : Outcome ℤ) → o ≢ traps → with_size o (ok tt) ≡ unless (converts o) tt
last_size_lem (ok z) h = refl
last_size_lem (throws e) h = refl
last_size_lem traps h = absurd (h refl)

open_proc_event_lem :
    (n : EventSocket) (c : Config)
    → EventOpens n
    → open_proc_event n c ≡ unless (event_sizes_convert c) tt
unfolding open_proc_event all_done
open_proc_event_lem n c h =
    rw
      (
        h.opened,
        h.receive_buffer_set,
        h.send_buffer_set,
        h.bound,
        last_size_lem (stoi (get_for rx_buffer_size c)) (stoi-traps _),
      )
      (with_size_lem (stoi (get_for tx_buffer_size c)) _ (stoi-traps _))

open_proc_acct_lem :
    (n : NlOpen) (c : Config) → AcctOpens n → open_proc_acct n c ≡ unless (acct_sizes_convert c) tt
unfolding open_proc_acct all_done
open_proc_acct_lem n c h =
    rw
      (
        h.allocated,
        h.connected,
        h.nonblocking,
        h.has_fd,
        h.buffers_set,
        h.message_buffer_set,
        h.family_resolved,
        h.callback_set,
        last_size_lem (stol (get_for rx_buffer_size c)) (stol-traps _),
        with_size_lem (stol (get_for tx_buffer_size c)) (converts (stol (get_for rx_buffer_size c)))
            (stol-traps _),
      )
      (with_size_lem (stol (get_for msg_buffer_size c)) _ (stol-traps _))

optional_service_lem :
    (wanted : Bool) (o : Outcome (Unit {0})) (b : Bool)
    → o ≡ unless b tt
    → optional_service wanted o ≡ unless (if wanted then b else true) wanted
optional_service_lem true o true h = rw h refl
optional_service_lem true o false h = rw h refl
optional_service_lem false o b h = refl

pub event_service_lem :
    (n : EventSocket) (c : Config)
    → EventOpens n
    → optional_service (is_on enable_proc_event c) (open_proc_event n c)
      ≡ unless
          (if is_on enable_proc_event c then event_sizes_convert c else true)
          (is_on enable_proc_event c)
event_service_lem n c h =
    optional_service_lem (is_on enable_proc_event c) (open_proc_event n c) (event_sizes_convert c)
      (open_proc_event_lem n c h)

pub acct_service_lem :
    (n : NlOpen) (c : Config) (prof_mode : Bool)
    → AcctOpens n
    → optional_service (is_on enable_proc_acct c && prof_mode) (open_proc_acct n c)
      ≡ unless
          (if is_on enable_proc_acct c && prof_mode then acct_sizes_convert c else true)
          (is_on enable_proc_acct c && prof_mode)
acct_service_lem n c prof_mode h =
    optional_service_lem (is_on enable_proc_acct c && prof_mode) (open_proc_acct n c)
      (acct_sizes_convert c) (open_proc_acct_lem n c h)
