-- ===== src/Source/Tests.antt =====
-- A source of one number whose file may be missing, and a queue of at most eight requests.
use taskmonitor.Common.{
  ◌≡◌, ◌≢◌, refl, ℕ, Bool, true, List, [], ◌∷◌, Option, none, some, ok, throws, runtime_error, M,
}
use taskmonitor.Bswinfra.{AsyncQueue}
use taskmonitor.Bswinfra.Plain.{plain_queue}
use taskmonitor.Messages.{Clock, Data, sys_proc_stat}
use taskmonitor.Source.{
  Request, Source, new_data_source, update, dispatch, request_handler, push_request,
}
use taskmonitor.Source.Pending.{IsScheduled, IsStuck}
use taskmonitor.Source.History.{
  Event, ticks, asks, delivers, step, run, IsRegular, none_left, next, run-IsScheduled,
  dispatch_throws-run-IsStuck,
}

abbrev read_number : Option ℕ → M ℕ Bool
read_number none s = (s, throws runtime_error)
read_number (some n) s = (n, ok true)

abbrev number_message : Clock → ℕ → Data ℕ
number_message now n = record {
  what = sys_proc_stat;
  system_time_sec = now.realtime;
  monotonic_time_sec = now.monotonic;
  payload = n;
}

abbrev noon : Clock
noon = record { realtime = 43200; monotonic = 60 }

abbrev small_queue : AsyncQueue Request
small_queue = plain_queue Request 8

abbrev NumberSource : Type 0
NumberSource = Source ℕ ℕ (plain_queue Request 8).Queue

empty_queue : (plain_queue Request 8).Queue
unfolding plain_queue
empty_queue = []

abbrev idle_source : NumberSource
idle_source = record { base = new_data_source; stats = 0; queue = empty_queue; sent = [] }

idle-IsScheduled : IsScheduled small_queue read_number number_message idle_source
unfolding plain_queue empty_queue new_data_source
idle-IsScheduled = record { pending = λ h. cc; idle = λ h. refl }

abbrev regular_events : List (Event (Option ℕ))
regular_events = ticks ∷ asks 3 ∷ delivers (some 7) noon ∷ []

regular : IsRegular small_queue read_number number_message regular_events idle_source
unfolding plain_queue empty_queue new_data_source step update dispatch request_handler push_request
regular = next {b = true} refl (next {b = true} refl (next {b = true} refl none_left))

run-IsScheduled_example :
    IsScheduled small_queue read_number number_message
      (run small_queue read_number number_message regular_events idle_source)
run-IsScheduled_example =
    run-IsScheduled small_queue read_number number_message regular idle-IsScheduled

-- A reading that was asked for.
abbrev asked : NumberSource
asked = (update small_queue read_number number_message idle_source).0

asked-IsScheduled : IsScheduled small_queue read_number number_message asked
unfolding plain_queue empty_queue new_data_source update push_request
asked-IsScheduled = record { pending = λ h. refl; idle = λ h. cc }

file_missing :
    (b : Bool) → (dispatch small_queue read_number number_message none noon asked).1 ≢ ok b
unfolding plain_queue empty_queue new_data_source update push_request dispatch request_handler
file_missing b = λ e. cc

dispatch_throws-run-IsStuck_example :
    let t =
      run small_queue read_number number_message regular_events
        (dispatch small_queue read_number number_message none noon asked).0 in
    IsStuck small_queue read_number number_message t
    × (update small_queue read_number number_message t ≡ (t, true))
dispatch_throws-run-IsStuck_example =
    dispatch_throws-run-IsStuck small_queue read_number number_message none noon asked
      asked-IsScheduled file_missing regular_events
