-- ===== src/StateManager/Settles.antt =====
-- Histories of the state manager, and the deliveries that empty its queue.
use taskmonitor.Common.{ℕ, zero, suc, ◌+◌, ◌≡◌, Bool, true, false, List, [], ◌∷◌, if◌then◌else◌}
use taskmonitor.Bswinfra.{AsyncQueue, SafeList, Ref}
use taskmonitor.StateManager.{
  Request, monitor_collector, remove_collector, update_wake_lock, update_process_list, Manager,
  System, push_request, dispatch, remove_idle, on_collectors_timer, finalize,
}
use taskmonitor.StateManager.WakeLock.{Follows, push_request-Follows, dispatch-Follows}

-- The timer with the time and the collectors' dates, a collector's arrival or end, a lost event of
-- the kernel, and a delivery.
pub data Event : Type 0 where
  timer : ℕ → ℕ → (Ref → ℕ) → Event
  arrives ends : Ref → Event
  overflows delivers : Event

-- The deliveries that a request leads to: a change of the collectors asks for the lock once more.
abbrev pub weight : List Request → ℕ
weight [] = 0
weight (monitor_collector c ∷ rs) = 2 + weight rs
weight (remove_collector c b ∷ rs) = 2 + weight rs
weight (update_wake_lock ∷ rs) = 1 + weight rs
weight (update_process_list ∷ rs) = 1 + weight rs

module _ (L : SafeList) (Q : AsyncQueue Request) (y : System)
    (accepts : (q : Q.Queue) (r : Request) → (Q.push q r).1 ≡ true) where
  open L use {Elements, visited}
  open Q use {Queue, push, waiting}

  unfoldable pub step : Event → Manager Elements Queue → Manager Elements Queue
  step (timer timeout now dates) s = on_collectors_timer L Q y timeout now dates s
  step (arrives c) s = push_request L Q y (monitor_collector c) s
  step (ends c) s = finalize L Q y c s
  step overflows s = push_request L Q y update_process_list s
  step delivers s = dispatch L Q y s

  unfoldable pub run : List Event → Manager Elements Queue → Manager Elements Queue
  unfolding step
  run [] s = s
  run (e ∷ es) s = run es (step e s)

  unfoldable pub deliver : ℕ → Manager Elements Queue → Manager Elements Queue
  deliver zero s = s
  deliver (suc n) s = deliver n (dispatch L Q y s)

  remove_idle-Follows :
      (idle : Ref → Bool) (cs : List Ref) (s : Manager Elements Queue)
      → Follows L Q y accepts s
      → Follows L Q y accepts (remove_idle L Q y idle cs s)
  unfolding remove_idle
  remove_idle-Follows idle [] s v = v
  remove_idle-Follows idle (c ∷ cs) s v = remove_idle-Follows idle cs _ (asked (idle c))
    where
      asked :
          (b : Bool)
          → Follows L Q y accepts (if b then push_request L Q y (remove_collector c true) s else s)
      asked true = push_request-Follows L Q y accepts (remove_collector c true) s v
      asked false = v

  module _ (enabled : y.wake_lock_enabled ≡ true) (lock_file : y.has_lock_file ≡ true)
      (unlock_file : y.has_unlock_file ≡ true) where
    step-Follows :
        (e : Event) (s : Manager Elements Queue)
        → Follows L Q y accepts s
        → Follows L Q y accepts (step e s)
    unfolding step on_collectors_timer finalize
    step-Follows (timer timeout now dates) s v = remove_idle-Follows _ (visited s.active) s v
    step-Follows (arrives c) s v = push_request-Follows L Q y accepts (monitor_collector c) s v
    step-Follows (ends c) s v = push_request-Follows L Q y accepts (remove_collector c false) s v
    step-Follows overflows s v = push_request-Follows L Q y accepts update_process_list s v
    step-Follows delivers s v = dispatch-Follows L Q y accepts enabled lock_file unlock_file s v

    -- Where the option is on, both files of the lock are there and the queue accepts every request:
    -- from a state in which nothing is staged and, if no request to update the lock waits, the lock
    -- is held exactly while a collector over TCP is active, every history leads to such a state.
    pub run-Follows :
        (es : List Event) (s : Manager Elements Queue)
        → Follows L Q y accepts s
        → Follows L Q y accepts (run es s)
    unfolding run
    run-Follows [] s v = v
    run-Follows (e ∷ es) s v = run-Follows es (step e s) (step-Follows e s v)
