-- ===== src/StateManager/Tests.antt =====
-- Two collectors: 0 over TCP and 1 over a local socket. Both arrive; the first is idle and removed.
use taskmonitor.Common.{◌≡◌, refl, true, false, List, [], ◌∷◌, ◌==◌, if◌then◌else◌}
use taskmonitor.Bswinfra.{AsyncQueue, apply}
use taskmonitor.Bswinfra.Plain.{open_queue, plain_list}
use taskmonitor.Session.{tcp, uds}
use taskmonitor.StateManager.{
  Request, lock, unlock, remove_event_source, Manager, System, on_collectors_timer, request_handler,
  dispatch, push_request, do_monitor_collector, do_remove_collector, ask_for_wake_lock,
  do_update_wake_lock, take_lock, release_lock, remove_idle,
}
use taskmonitor.StateManager.WakeLock.{Follows}
use taskmonitor.StateManager.Settles.{
  Event, timer, arrives, delivers, weight, run, deliver, run-Follows,
}

abbrev Q : AsyncQueue Request
Q = open_queue Request

abbrev two_kinds : System
two_kinds = record {
  kind_of = λ c. if c == 0 then tcp else uds;
  wake_lock_enabled = true;
  has_lock_file = true;
  has_unlock_file = true;
  has_registry = true;
}

accepts : (q : Q.Queue) (r : Request) → (Q.push q r).1 ≡ true
unfolding open_queue
accepts q r = refl

no_waiting : (open_queue Request).Queue
unfolding open_queue
no_waiting = []

abbrev new_manager : Manager plain_list.Elements (open_queue Request).Queue
new_manager = record {
  active = plain_list.empty;
  queue = no_waiting;
  active_wake_lock = false;
  effects = [];
}

new_manager-Follows : Follows plain_list Q two_kinds accepts new_manager
unfolding plain_list
new_manager-Follows = record { settled = plain_list.staged-empty; lock_follows = λ h. refl }

abbrev both_arrive : List Event
both_arrive =
    arrives 0
    ∷ arrives 1
    ∷ delivers
    ∷ delivers
    ∷ delivers
    ∷ timer 5 20 (λ c. if c == 0 then 1 else 18)
    ∷ []

run-Follows_example :
    Follows plain_list Q two_kinds accepts
      (run plain_list Q two_kinds accepts both_arrive new_manager)
run-Follows_example =
    run-Follows plain_list Q two_kinds accepts refl refl refl both_arrive new_manager
      new_manager-Follows

abbrev settled_manager : Manager plain_list.Elements (open_queue Request).Queue
settled_manager =
    let s = run plain_list Q two_kinds accepts both_arrive new_manager in
    deliver plain_list Q two_kinds accepts (weight (Q.waiting s.queue)) s

-- The lock was taken and given back.
lock_and_unlock : settled_manager.effects ≡ lock ∷ remove_event_source 0 ∷ unlock ∷ []
unfolding run deliver plain_list open_queue no_waiting request_handler dispatch push_request
    do_monitor_collector do_remove_collector ask_for_wake_lock do_update_wake_lock take_lock
    release_lock remove_idle on_collectors_timer apply
lock_and_unlock = refl
