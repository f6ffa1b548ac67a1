-- ===== src/Session/Tests.antt =====
-- A collector that asks for a session and for data, and no configuration file.
use taskmonitor.Common.{
  ◌≡◌, refl, Bool, true, false, List, [], ◌∷◌, ◌++◌, none, ok, Bytes, codes, equal, ◌||◌, stoul,
}
use taskmonitor.Bswinfra.{AsyncQueue}
use taskmonitor.Bswinfra.Plain.{plain_queue}
use taskmonitor.Options.{get_for, default_for}
use taskmonitor.Source.{fast, pace, slow}
use taskmonitor.Application.{SourceName, sys_proc_stat, sys_proc_mem_info, data_sources, on_timer}
use taskmonitor.Session.{
  tcp, uds, create_session, get_sys_proc_mem_info, keep_alive, source, info_of_procs,
  info_of_contexts, proc_events, proc_accounts, to_source, collect, Ask, App, Session, Moment, Read,
  message, do_create_session, handle, receive, hex_text, fill_session, begin_session, fast_sources,
  pace_sources, slow_sources, add_if,
}
use taskmonitor.Session.Routes.{Answers, handle-Answers}
use taskmonitor.Session.LaneLists.{updated, optional, IsStarted, do_create_session-updated}
use taskmonitor.Session.Receive.{Returns, receive-Returns}

abbrev Q : AsyncQueue Ask
Q = plain_queue Ask 1

abbrev has_file : Bytes → Bool
has_file path = equal path (codes "/proc/stat") || equal path (codes "/proc/meminfo")

abbrev has_source : SourceName → Bool
has_source sys_proc_stat = true
has_source sys_proc_mem_info = true
has_source _ = false

abbrev app : App
app = record {
  config = none;
  lanes = record {
    fast_lane_interval = 1000000;
    pace_lane_interval = 5000000;
    slow_lane_interval = 10000000;
  };
  has_source = has_source;
  has_startup_data = false;
  has_proc_event = true;
  has_proc_acct = true;
}

app-IsStarted : IsStarted has_file app
unfolding equal get_for default_for
app-IsStarted = record {
  stat = refl;
  mem_info = refl;
  pressure = refl;
  disk_stats = refl;
  buddy_info = refl;
  wireless = refl;
  vm_stat = refl;
}

no_asks : (plain_queue Ask 1).Queue
unfolding plain_queue
no_asks = []

abbrev new_session : Session (plain_queue Ask 1).Queue
new_session = record {
  self = 4;
  id = [];
  info = record {
    hash = [];
    core_count = 0;
    keep_alive_interval = 0;
    lanes = app.lanes;
    fast_lane_sources = [];
    pace_lane_sources = [];
    slow_lane_sources = [];
  };
  last_update_time = 0;
  closed = false;
  written = [];
  queues = λ t. no_asks;
}

abbrev now : Moment
now = record { now = 9; random = 2748; cores = 4; write_ok = true }

abbrev same_text : Bytes → Bytes
same_text s = s

handle-Answers_example :
    Answers Q
      (true, to_source sys_proc_mem_info, collect)
      new_session
      (handle Q tcp same_text app get_sys_proc_mem_info now new_session)
handle-Answers_example = handle-Answers Q same_text app get_sys_proc_mem_info now new_session refl

do_create_session-updated_example :
    let t = do_create_session Q tcp same_text app now new_session in
    let sources = data_sources has_file none app.lanes in
    (t.1 ≡ ok true)
    × (t.0.info.fast_lane_sources ≡ [] ++ updated (on_timer fast sources))
    × (t.0.info.pace_lane_sources
        ≡ []
          ++ (info_of_procs ∷ info_of_contexts ∷ optional true proc_events
              ++ updated (on_timer pace sources)))
    × (t.0.info.slow_lane_sources
        ≡ [] ++ (optional true proc_accounts ++ updated (on_timer slow sources)))
do_create_session-updated_example =
    do_create_session-updated Q tcp same_text has_file app now new_session app-IsStarted

abbrev three_messages : List Read
three_messages =
    message true create_session now
    ∷ message true get_sys_proc_mem_info now
    ∷ message true keep_alive now
    ∷ []

-- The number's text on each connection.
random_texts :
    (hex_text 16 tcp 2748 ≡ codes "ABC")
    × (hex_text 16 uds 2748 ≡ codes "abc")
    × (hex_text 16 tcp 0 ≡ codes "0")
unfolding hex_text
random_texts = (refl, refl, refl)

receive-Returns_example :
    Returns Q same_text app (receive Q tcp same_text app three_messages new_session)
receive-Returns_example = receive-Returns Q same_text app tcp three_messages new_session

-- A second request for a session lists the sources of the fast lane twice.
listed_twice :
    (do_create_session Q tcp same_text app now
      (do_create_session Q tcp same_text app now new_session).0).0.info.fast_lane_sources
    ≡ source sys_proc_stat
      ∷ source sys_proc_mem_info
      ∷ source sys_proc_stat
      ∷ source sys_proc_mem_info
      ∷ []
unfolding do_create_session begin_session fill_session fast_sources pace_sources slow_sources add_if
    get_for default_for stoul equal
listed_twice = refl
