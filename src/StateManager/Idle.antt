-- ===== src/StateManager/Idle.antt =====
-- The timer against the dates of the collectors.
use mathlib.Core.List.{append-nil, append_assoc}
use taskmonitor.Common.{
  ℕ, ◌+◌, ◌-◌, ◌≤◌, ◌<◌, ◌≡◌, refl, sym, ap, ◌∙◌, Bool, true, false, List, [], ◌∷◌, ◌++◌,
  if◌then◌else◌, arith, u64, ltb,
}
use taskmonitor.Bswinfra.{AsyncQueue, SafeList, Ref}
use taskmonitor.StateManager.{
  Request, remove_collector, Manager, System, elapsed, push_request, remove_idle,
  on_collectors_timer,
}

-- A removal for each collector that passes a test.
abbrev pub removals_of : (Ref → Bool) → List Ref → List Request
removals_of idle [] = []
removals_of idle (c ∷ cs) =
    if idle c then remove_collector c true ∷ removals_of idle cs else removals_of idle cs

removals_of-same :
    (f g : Ref → Bool) (cs : List Ref)
    → ((c : Ref) → f c ≡ g c)
    → removals_of f cs ≡ removals_of g cs
removals_of-same f g [] h = refl
removals_of-same f g (c ∷ cs) h = rw (h c, removals_of-same f g cs h) refl

elapsed-late :
    (timeout now last : ℕ)
    → last ≤ now
    → now < u64
    → ltb timeout (elapsed now last) ≡ ltb (last + timeout) now
elapsed-late timeout now last h k =
    let e : elapsed now last ≡ now - last = omega arith in rw e (ground arith)

module _ (L : SafeList) (Q : AsyncQueue Request) (y : System)
    (accepts : (q : Q.Queue) (r : Request) → (Q.push q r).1 ≡ true) where
  open L use {Elements, visited}
  open Q use {Queue, push, waiting}

  remove_idle-waiting :
      (idle : Ref → Bool) (cs : List Ref) (s : Manager Elements Queue)
      → waiting (remove_idle L Q y idle cs s).queue ≡ waiting s.queue ++ removals_of idle cs
  unfolding remove_idle push_request
  remove_idle-waiting idle [] s = sym (append-nil (waiting s.queue))
  remove_idle-waiting idle (c ∷ cs) s = remove_idle-waiting idle cs _ ∙ asked (idle c)
    where
      asked :
          (b : Bool)
          → waiting (if b then push_request L Q y (remove_collector c true) s else s).queue
              ++ removals_of idle cs
            ≡ waiting s.queue
              ++ (if b then remove_collector c true ∷ removals_of idle cs else removals_of idle cs)
      asked true =
          rw
            (Q.push_accepted s.queue (remove_collector c true)
              (accepts s.queue (remove_collector c true)))
            (append_assoc (waiting s.queue) (remove_collector c true ∷ []) (removals_of idle cs))
      asked false = refl

  remove_idle-active :
      (idle : Ref → Bool) (cs : List Ref) (s : Manager Elements Queue)
      → (remove_idle L Q y idle cs s).active ≡ s.active
  unfolding remove_idle push_request
  remove_idle-active idle [] s = refl
  remove_idle-active idle (c ∷ cs) s = remove_idle-active idle cs _ ∙ ground arith

  -- Where the queue accepts every request and no date lies after the time of the timer, which is
  -- below 2^64 microseconds, the timer asks, behind the requests that wait, for the removal of each
  -- active collector that was heard more than the timeout ago and of no other, in the list's order.
  -- It removes none itself.
  pub on_collectors_timer-waiting :
      (timeout now : ℕ) (dates : Ref → ℕ) (s : Manager Elements Queue)
      → ((c : Ref) → dates c ≤ now)
      → now < u64
      → let t = on_collectors_timer L Q y timeout now dates s in
        (waiting t.queue
          ≡ waiting s.queue ++ removals_of (λ c. ltb (dates c + timeout) now) (visited s.active))
        × (t.active ≡ s.active)
  unfolding on_collectors_timer
  on_collectors_timer-waiting timeout now dates s h k = (
    remove_idle-waiting _ (visited s.active) s
        ∙ ap (λ rs. waiting s.queue ++ rs)
            (removals_of-same _ _ (visited s.active)
              (λ c. elapsed-late timeout now (dates c) (h c) k)),
    remove_idle-active _ (visited s.active) s,
  )
