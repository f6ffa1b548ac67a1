-- ===== src/Source/Pending.antt =====
-- The pending flag against the requests that wait in the queue.
use taskmonitor.Common.{
  ℕ, suc, ◌+◌, ◌≡◌, ◌≢◌, refl, Bool, true, false, List, [], ◌∷◌, ◌++◌, inl, inr, arith, Outcome, ok,
  M, Option-cases, Bool-cases, ap, ◌∙◌,
}
use taskmonitor.Bswinfra.{AsyncQueue}
use taskmonitor.Messages.{Clock, Data, Collector}
use taskmonitor.Source.{
  Request, update_stats, collect_and_send, Source, push_request, update, request_handler, dispatch,
}

-- The requests for a reading among those that wait.
abbrev pub readings : List Request → ℕ
readings [] = 0
readings (update_stats ∷ rs) = suc (readings rs)
readings (collect_and_send c ∷ rs) = readings rs

pub readings-append : (rs us : List Request) → readings (rs ++ us) ≡ readings rs + readings us
readings-append [] us = omega arith
readings-append (update_stats ∷ rs) us = omega (arith, readings-append rs us)
readings-append (collect_and_send c ∷ rs) us = readings-append rs us

module _ {S P E : Type 0} (Q : AsyncQueue Request) (do_update_stats : E → M S Bool)
    (do_collect : Clock → S → Data P) where
  open Q use {Queue, waiting}

  -- One reading waits exactly while the flag is set.
  pub record IsScheduled (s : Source S P Queue) : Type 0 where
    pub pending : s.update_pending ≡ true → readings (waiting s.queue) ≡ 1
    pub idle : s.update_pending ≡ false → readings (waiting s.queue) ≡ 0

  -- The flag is set and no reading waits.
  pub record IsStuck (s : Source S P Queue) : Type 0 where
    pub flagged : s.update_pending ≡ true
    pub nothing_waits : readings (waiting s.queue) ≡ 0

  push_readings :
      (q : Queue) (r : Request)
      → ((Q.push q r).1 ≡ true
          → readings (waiting (Q.push q r).0) ≡ readings (waiting q) + readings (r ∷ []))
        × ((Q.push q r).1 ≡ false → readings (waiting (Q.push q r).0) ≡ readings (waiting q))
  push_readings q r = (
    λ h. ap readings (Q.push_accepted q r h) ∙ readings-append (waiting q) (r ∷ []),
    λ h. ap readings (Q.push_refused q r h),
  )

  pub update-IsScheduled :
      (s : Source S P Queue) → IsScheduled s → IsScheduled (update Q do_update_stats do_collect s).0
  unfolding update
  update-IsScheduled s v = ground (arith, push_readings s.queue update_stats)

  pub update-IsStuck :
      (s : Source S P Queue) → IsStuck s → update Q do_update_stats do_collect s ≡ (s, true)
  unfolding update
  update-IsStuck s v = ground arith

  pub push-IsScheduled :
      (s : Source S P Queue) (c : Collector)
      → IsScheduled s
      → IsScheduled (push_request Q do_update_stats do_collect (collect_and_send c) s).0
  unfolding push_request
  push-IsScheduled s c v = ground (arith, push_readings s.queue (collect_and_send c))

  pub push-IsStuck :
      (s : Source S P Queue) (c : Collector)
      → IsStuck s
      → IsStuck (push_request Q do_update_stats do_collect (collect_and_send c) s).0
  unfolding push_request
  push-IsStuck s c v = ground (
    arith,
    push_readings s.queue (collect_and_send c),
    Bool-cases (Q.push s.queue (collect_and_send c)).1,
  )

  -- The cases of a delivery: an idle queue, a reading, or an answer to a collector.
  pub data Delivery (files : E) (now : Clock) (s : Source S P Queue)
      : Source S P Queue × Outcome Bool → Type 0 where
    rest : Delivery files now s (s, ok true)
    reads :
        {q : Queue}
        → waiting s.queue ≡ update_stats ∷ waiting q
        → Delivery files now s (
            request_handler Q do_update_stats do_collect files now update_stats
              (record s { queue = q }))
    answers :
        {c : Collector} {q : Queue}
        → waiting s.queue ≡ collect_and_send c ∷ waiting q
        → Delivery files now s (
            request_handler Q do_update_stats do_collect files now
              (collect_and_send c)
              (record s { queue = q }))

  delivered :
      (files : E) (now : Clock) (s : Source S P Queue) (r : Request) (q : Queue)
      → waiting s.queue ≡ r ∷ waiting q
      → Delivery files now s
          (request_handler Q do_update_stats do_collect files now r (record s { queue = q }))
  delivered files now s update_stats q h = reads h
  delivered files now s (collect_and_send c) q h = answers h

  pub dispatch-Delivery :
      (files : E) (now : Clock) (s : Source S P Queue)
      → Delivery files now s (dispatch Q do_update_stats do_collect files now s)
  unfolding dispatch
  dispatch-Delivery files now s = elim (Option-cases (Q.take s.queue)) [
    | inl e ↦ rw (e, dispatch) rest
    | inr ((r, q), e) ↦ rw (e, dispatch) (delivered files now s r q (Q.take_some s.queue e))
  ]

  pub Delivery-IsScheduled :
      {files : E} {now : Clock} {s : Source S P Queue} {t : Source S P Queue × Outcome Bool}
      {b : Bool}
      → Delivery files now s t
      → t.1 ≡ ok b
      → IsScheduled s
      → IsScheduled t.0
  unfolding request_handler
  Delivery-IsScheduled rest h v = v
  Delivery-IsScheduled {files} {s} (reads w) h v = ground (arith, ap readings w)
  Delivery-IsScheduled {files} {s} (answers w) h v = ground (arith, ap readings w)

  pub Delivery-throws-IsStuck :
      {files : E} {now : Clock} {s : Source S P Queue} {t : Source S P Queue × Outcome Bool}
      → Delivery files now s t
      → ((b : Bool) → t.1 ≢ ok b)
      → IsScheduled s
      → IsStuck t.0
  unfolding request_handler
  Delivery-throws-IsStuck rest h v = absurd (h true refl)
  Delivery-throws-IsStuck {files} {s} (reads w) h v = ground (arith, ap readings w, h true, h false)
  Delivery-throws-IsStuck {files} {s} (answers w) h v = absurd (h true refl)

  pub Delivery-IsStuck :
      {files : E} {now : Clock} {s : Source S P Queue} {t : Source S P Queue × Outcome Bool}
      → Delivery files now s t
      → IsStuck s
      → IsStuck t.0
  unfolding request_handler
  Delivery-IsStuck rest v = v
  Delivery-IsStuck {files} {s} (reads w) v = ground (arith, ap readings w)
  Delivery-IsStuck {files} {s} (answers w) v = ground (arith, ap readings w)
