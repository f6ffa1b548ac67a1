-- ===== src/Source/History.antt =====
-- Histories of a source: timer ticks, collectors' requests and deliveries in any order.
use taskmonitor.Common.{◌≡◌, ◌≢◌, Bool, true, List, [], ◌∷◌, Outcome, ok, M}
use taskmonitor.Bswinfra.{AsyncQueue}
use taskmonitor.Messages.{Clock, Data, Collector}
use taskmonitor.Source.{Request, collect_and_send, Source, push_request, update, dispatch}
use taskmonitor.Source.Pending.{
  IsScheduled, IsStuck, update-IsScheduled, update-IsStuck, push-IsScheduled, push-IsStuck,
  dispatch-Delivery, Delivery-IsScheduled, Delivery-IsStuck, Delivery-throws-IsStuck,
}

pub data Event (E : Type 0) : Type 0 where
  ticks : Event E
  asks : Collector → Event E
  delivers : E → Clock → Event E

module _ {S P E : Type 0} (Q : AsyncQueue Request) (do_update_stats : E → M S Bool)
    (do_collect : Clock → S → Data P) where
  open Q use {Queue}

  unfoldable pub step : Event E → Source S P Queue → Source S P Queue × Outcome Bool
  step ticks s = let (t, status) = update Q do_update_stats do_collect s in (t, ok status)
  step (asks c) s =
      let (t, status) = push_request Q do_update_stats do_collect (collect_and_send c) s in
      (t, ok status)
  step (delivers files now) s = dispatch Q do_update_stats do_collect files now s

  -- The event loop goes on after an exception.
  pub run : List (Event E) → Source S P Queue → Source S P Queue
  run [] s = s
  run (e ∷ es) s = run es (step e s).0

  -- No event of the history ends in an exception.
  pub data IsRegular : List (Event E) → Source S P Queue → Type 0 where
    none_left : {s : Source S P Queue} → IsRegular [] s
    next :
        {e : Event E} {es : List (Event E)} {s : Source S P Queue} {b : Bool}
        → (step e s).1 ≡ ok b
        → IsRegular es (step e s).0
        → IsRegular (e ∷ es) s

  step-IsScheduled :
      (e : Event E) (s : Source S P Queue) {b : Bool}
      → (step e s).1 ≡ ok b
      → IsScheduled Q do_update_stats do_collect s
      → IsScheduled Q do_update_stats do_collect (step e s).0
  unfolding step
  step-IsScheduled ticks s h v = update-IsScheduled Q do_update_stats do_collect s v
  step-IsScheduled (asks c) s h v = push-IsScheduled Q do_update_stats do_collect s c v
  step-IsScheduled (delivers files now) s h v =
      Delivery-IsScheduled Q do_update_stats do_collect
        (dispatch-Delivery Q do_update_stats do_collect files now s) h v

  -- Where one reading waits while the pending flag is set and none while it is clear, it stays so
  -- through every history without an exception.
  pub run-IsScheduled :
      {es : List (Event E)} {s : Source S P Queue}
      → IsRegular es s
      → IsScheduled Q do_update_stats do_collect s
      → IsScheduled Q do_update_stats do_collect (run es s)
  unfolding run
  run-IsScheduled none_left v = v
  run-IsScheduled (next {e} {s} h r) v = run-IsScheduled r (step-IsScheduled e s h v)

  step-IsStuck :
      (e : Event E) (s : Source S P Queue)
      → IsStuck Q do_update_stats do_collect s
      → IsStuck Q do_update_stats do_collect (step e s).0
  unfolding step
  step-IsStuck ticks s v = rw (update-IsStuck Q do_update_stats do_collect s v) v
  step-IsStuck (asks c) s v = push-IsStuck Q do_update_stats do_collect s c v
  step-IsStuck (delivers files now) s v =
      Delivery-IsStuck Q do_update_stats do_collect
        (dispatch-Delivery Q do_update_stats do_collect files now s) v

  run-IsStuck :
      (es : List (Event E)) (s : Source S P Queue)
      → IsStuck Q do_update_stats do_collect s
      → IsStuck Q do_update_stats do_collect (run es s)
  unfolding run
  run-IsStuck [] s v = v
  run-IsStuck (e ∷ es) s v = run-IsStuck es (step e s).0 (step-IsStuck e s v)

  -- Where one reading waits exactly while the flag is set and a delivery ends without a value, the
  -- source is stuck: whatever follows, the flag stays set, no reading waits, and `update` reports
  -- success without a request.
  pub dispatch_throws-run-IsStuck :
      (files : E) (now : Clock) (s : Source S P Queue)
      → IsScheduled Q do_update_stats do_collect s
      → ((b : Bool) → (dispatch Q do_update_stats do_collect files now s).1 ≢ ok b)
      → (es : List (Event E))
      → let t = run es (dispatch Q do_update_stats do_collect files now s).0 in
        IsStuck Q do_update_stats do_collect t × (update Q do_update_stats do_collect t ≡ (t, true))
  dispatch_throws-run-IsStuck files now s v h es =
      let stuck = run-IsStuck es (dispatch Q do_update_stats do_collect files now s).0 (
        Delivery-throws-IsStuck Q do_update_stats do_collect
          (dispatch-Delivery Q do_update_stats do_collect files now s) h v) in
      (stuck, update-IsStuck Q do_update_stats do_collect _ stuck)
