-- ===== src/Servers/Tests.antt =====
-- A collector over each kind of socket; the one over TCP comes, and goes again.
use taskmonitor.Common.{
  ℕ, Option, ◌<◌, ◌^◌, ◌&&◌, ◌||◌, stoi, throws, runtime_error, ◌≡◌, refl, arith, true, false, [],
  none, some, ok, Bytes, codes, equal, if◌then◌else◌, ◌==◌,
}
use taskmonitor.Bswinfra.Plain.{plain_queue}
use taskmonitor.Messages.Acct.{blank_acct}
use taskmonitor.Options.{get_for, default_for, tcp_server_port}
use taskmonitor.ProcEntry.{ProcEntry, blank_info}
use taskmonitor.ProcEntry.Update.{update_proc_acct}
use taskmonitor.Session.{uds}
use taskmonitor.Source.{new_data_source}
use taskmonitor.StateManager.{Request}
use taskmonitor.Servers.{
  Connections, TcpServer, configured_address, bind_and_listen, client, tcp_accept, uds_accept,
  end_connection, new_collector, inc_proc_acct_collector_counter, dec_proc_acct_collector_counter,
}
use taskmonitor.Servers.Listening.{IsPortOf, bind_and_listen-IsPortOf}
use taskmonitor.Servers.Counter.{
  count, tcp_live, Reachable, starts, steps, by_tcp, by_uds, counter-update_proc_acct,
}

no_asks : (plain_queue Request 8).Queue
unfolding plain_queue
no_asks = []

abbrev nobody : Connections (plain_queue Request 8).Queue
nobody = record {
  live = [];
  kind_of = λ r. uds;
  fresh = 0;
  counter = 0;
  closed = [];
  queue = no_asks;
}

abbrev one_of_each : Connections (plain_queue Request 8).Queue
one_of_each =
    (uds_accept (plain_queue Request 8) none (client 12 true)
      (tcp_accept (plain_queue Request 8) (client 11 true)
        (tcp_accept (plain_queue Request 8) (client 10 false) nobody).0).0).0

one_of_each-Reachable : Reachable (plain_queue Request 8) none one_of_each
one_of_each-Reachable =
    steps
      (steps (steps (starts nobody refl refl) (by_tcp (client 10 false))) (by_tcp (client 11 true)))
      (by_uds (client 12 true))

abbrev process : ProcEntry
process = record {
  base = new_data_source;
  info = blank_info (codes "sh");
  pid = 7;
  acct = blank_acct;
  last_update_time = 0;
  update_proc_acct_pending = false;
}

one_tcp : tcp_live (plain_queue Request 8) none one_of_each ≡ 1
unfolding equal get_for count tcp_accept uds_accept new_collector inc_proc_acct_collector_counter
one_tcp = refl

counter-update_proc_acct_example :
    (one_of_each.counter ≡ tcp_live (plain_queue Request 8) none one_of_each)
    × (update_proc_acct one_of_each.counter true process ≡ (
        if tcp_live (plain_queue Request 8) none one_of_each == 0
        then (process, ok true)
        else if process.update_proc_acct_pending
        then (process, ok true)
        else (record process { update_proc_acct_pending = true }, ok true)))
counter-update_proc_acct_example =
    counter-update_proc_acct (plain_queue Request 8) none true process one_of_each-Reachable
      (omega (arith, one_tcp))

none_left : (end_connection (plain_queue Request 8) 0 one_of_each).counter ≡ 0
unfolding equal get_for end_connection tcp_accept uds_accept new_collector
    inc_proc_acct_collector_counter dec_proc_acct_collector_counter
none_left = refl

-- The default address resolves; the port is taken.
abbrev unbound : TcpServer ℕ
unbound = record { address = none; port = 0; ready = false; bound = false }

abbrev localhost : Bytes → Option ℕ
localhost name = some 1

local_address : configured_address localhost none ≡ ok (some 1)
unfolding configured_address get_for default_for equal
local_address = refl

bind_and_listen-IsPortOf_example :
    (p : ℕ) × IsPortOf (stoi (get_for tcp_server_port none)) p
    × (p < 2 ^ 16)
    × (bind_and_listen localhost (λ a n. false) true none unbound ≡ (
      record unbound {
        address = some 1;
        port = p;
        ready = unbound.ready || false;
        bound = false && true;
      },
      if false && true then ok tt else throws runtime_error,
    ))
bind_and_listen-IsPortOf_example =
    bind_and_listen-IsPortOf localhost (λ a n. false) true none unbound (some 1) refl local_address
