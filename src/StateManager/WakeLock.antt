-- ===== src/StateManager/WakeLock.antt =====
-- The wake lock against the collectors over TCP.
use taskmonitor.Common.{
  ◌≡◌, refl, sym, ap, ◌∙◌, Bool, true, false, ◌||◌, List, [], ◌∷◌, ◌++◌, any, if◌then◌else◌, ◌==◌,
  inl, inr, arith, Bool-cases, Option-cases,
}
use taskmonitor.Bswinfra.{AsyncQueue, SafeList, Ref, erase_ref, apply}
use taskmonitor.StateManager.{
  Effect, Request, monitor_collector, remove_collector, update_wake_lock, update_process_list,
  Manager, System, is_tcp, push_request, ask_for_wake_lock, do_monitor_collector,
  do_remove_collector, have_tcp_collector, take_lock, release_lock, do_update_wake_lock,
  do_update_process_list, request_handler, dispatch,
}

abbrev pub is_wake : Request → Bool
is_wake update_wake_lock = true
is_wake _ = false

any_append : (rs us : List Request) → any is_wake (rs ++ us) ≡ (any is_wake rs || any is_wake us)
any_append [] us = refl
any_append (r ∷ rs) us = ground (arith, any_append rs us)

any-erase_ref :
    (test : Ref → Bool) (c : Ref) (xs : List Ref)
    → test c ≡ false
    → any test (erase_ref c xs) ≡ any test xs
unfolding erase_ref
any-erase_ref test c [] h = refl
any-erase_ref test c (x ∷ xs) h = elim (Bool-cases (x == c)) [
  | inl hit ↦ rw hit (ground (arith, any-erase_ref test c xs h))
  | inr miss ↦ rw miss (ground (arith, any-erase_ref test c xs h))
]

any_last :
    (test : Ref → Bool) (c : Ref) (xs : List Ref)
    → test c ≡ false
    → any test (xs ++ c ∷ []) ≡ any test xs
any_last test c [] h = ground arith
any_last test c (x ∷ xs) h = ground (arith, any_last test c xs h)

module _ (L : SafeList) (Q : AsyncQueue Request) (y : System)
    (accepts : (q : Q.Queue) (r : Request) → (Q.push q r).1 ≡ true) where
  open L use {Elements, visited, staged, append, remove, commit}
  open Q use {Queue, push, waiting}

  -- Nothing is staged, and the lock is held exactly while a collector over TCP is active, unless a
  -- request to see to it waits.
  pub record Follows (s : Manager Elements Queue) : Type 0 where
    pub settled : staged s.active ≡ []
    pub lock_follows :
        any is_wake (waiting s.queue) ≡ false → s.active_wake_lock ≡ have_tcp_collector L Q y s

  pub waiting-push_request :
      (r : Request) (s : Manager Elements Queue)
      → waiting (push_request L Q y r s).queue ≡ waiting s.queue ++ r ∷ []
  unfolding push_request
  waiting-push_request r s = Q.push_accepted s.queue r (accepts s.queue r)

  pub push_request-Follows :
      (r : Request) (s : Manager Elements Queue) → Follows s → Follows (push_request L Q y r s)
  unfolding push_request
  push_request-Follows r s v = record {
    settled = v.settled;
    lock_follows = λ h.
        v.lock_follows
          (ground (arith, waiting-push_request r s, any_append (waiting s.queue) (r ∷ [])));
  }

  -- The list changed by a collector that is not on TCP, or a request that follows the change.
  ask_for_wake_lock-Follows :
      (c : Ref) (s : Manager Elements Queue)
      → staged s.active ≡ []
      → (is_tcp (y.kind_of c) ≡ false
          → any is_wake (waiting s.queue) ≡ false
          → s.active_wake_lock ≡ have_tcp_collector L Q y s)
      → Follows (ask_for_wake_lock L Q y c s)
  unfolding ask_for_wake_lock push_request
  ask_for_wake_lock-Follows c s e h = elim (Bool-cases (is_tcp (y.kind_of c))) [
    | inl over_tcp ↦ rw over_tcp (record {
      settled = e;
      lock_follows = λ k. absurd (
          ground (
            arith,
            waiting-push_request update_wake_lock s,
            any_append (waiting s.queue) (update_wake_lock ∷ []),
          ));
    })
    | inr other ↦ rw other (record { settled = e; lock_follows = h other })
  ]

  appended :
      (l : Elements) (c : Ref) → staged l ≡ [] → visited (append l c true) ≡ visited l ++ c ∷ []
  unfolding apply
  appended l c e =
      rw (L.append_now l c, L.visited-commit, L.visited-append, L.staged-append, e) refl

  removed :
      (l : Elements) (c : Ref) → staged l ≡ [] → visited (remove l c true) ≡ erase_ref c (visited l)
  unfolding apply
  removed l c e = rw (L.remove_now l c, L.visited-commit, L.visited-remove, L.staged-remove, e) refl

  do_monitor_collector-Follows :
      (c : Ref) (s : Manager Elements Queue) → Follows s → Follows (do_monitor_collector L Q y c s)
  unfolding do_monitor_collector
  do_monitor_collector-Follows c s v =
      ask_for_wake_lock-Follows c (record s { active = append s.active c true })
        (rw (L.append_now s.active c) (L.staged-commit (append s.active c false)))
        (λ other h.
          v.lock_follows h
          ∙ sym (
              rw (appended s.active c v.settled)
                (any_last (λ x. is_tcp (y.kind_of x)) c (visited s.active) other)))

  without-Follows :
      (c : Ref) (s : Manager Elements Queue)
      → Follows s
      → Follows (ask_for_wake_lock L Q y c (record s { active = remove s.active c true }))
  without-Follows c s v =
      ask_for_wake_lock-Follows c (record s { active = remove s.active c true })
        (rw (L.remove_now s.active c) (L.staged-commit (remove s.active c false)))
        (λ other h.
          v.lock_follows h
          ∙ sym (
              rw (removed s.active c v.settled)
                (any-erase_ref (λ x. is_tcp (y.kind_of x)) c (visited s.active) other)))

  effects-Follows :
      (es : List Effect) (s : Manager Elements Queue)
      → Follows s
      → Follows (record s { effects = es })
  effects-Follows es s v = record { settled = v.settled; lock_follows = v.lock_follows }

  do_remove_collector-Follows :
      (c : Ref) (b : Bool) (s : Manager Elements Queue)
      → Follows s
      → Follows (do_remove_collector L Q y c b s)
  unfolding do_remove_collector
  do_remove_collector-Follows c true s v = without-Follows c _ (effects-Follows _ s v)
  do_remove_collector-Follows c false s v = without-Follows c s v

  effects_if-Follows :
      (b : Bool) (es : List Effect) (s : Manager Elements Queue)
      → Follows s
      → Follows (if b then record s { effects = es } else s)
  effects_if-Follows true es s v = effects-Follows es s v
  effects_if-Follows false es s v = v

  listed-Follows :
      (s : Manager Elements Queue) → Follows s → Follows (do_update_process_list L Q y s)
  unfolding do_update_process_list
  listed-Follows s v = effects_if-Follows y.has_registry _ s v

  -- With the option on and both files there, an update makes the lock right.
  module _ (enabled : y.wake_lock_enabled ≡ true) (lock_file : y.has_lock_file ≡ true)
      (unlock_file : y.has_unlock_file ≡ true) where
    do_update_wake_lock-right :
        (s : Manager Elements Queue)
        → (do_update_wake_lock L Q y s).active_wake_lock ≡ have_tcp_collector L Q y s
    unfolding do_update_wake_lock take_lock release_lock
    do_update_wake_lock-right s = elim (Bool-cases (have_tcp_collector L Q y s)) [
      | inl have ↦ rw have (ground arith)
      | inr gone ↦ rw gone (ground arith)
    ]

    do_update_wake_lock-active :
        (s : Manager Elements Queue) → (do_update_wake_lock L Q y s).active ≡ s.active
    unfolding do_update_wake_lock take_lock release_lock
    do_update_wake_lock-active s = ground arith

    do_update_wake_lock-queue :
        (s : Manager Elements Queue) → (do_update_wake_lock L Q y s).queue ≡ s.queue
    unfolding do_update_wake_lock take_lock release_lock
    do_update_wake_lock-queue s = ground arith

    request_handler-Follows :
        (r : Request) (s : Manager Elements Queue) (q : Queue)
        → waiting s.queue ≡ r ∷ waiting q
        → Follows s
        → Follows (request_handler L Q y r (record s { queue = q }))
    unfolding request_handler do_update_process_list
    request_handler-Follows (monitor_collector c) s q w v =
        do_monitor_collector-Follows c (record s { queue = q })
          (record { settled = v.settled; lock_follows = λ h. v.lock_follows (rw w h) })
    request_handler-Follows (remove_collector c b) s q w v =
        do_remove_collector-Follows c b (record s { queue = q })
          (record { settled = v.settled; lock_follows = λ h. v.lock_follows (rw w h) })
    request_handler-Follows update_wake_lock s q w v = record {
      settled = rw (do_update_wake_lock-active (record s { queue = q })) v.settled;
      lock_follows = λ h.
          do_update_wake_lock-right (record s { queue = q })
          ∙ sym (
              ap (λ l. any (λ c. is_tcp (y.kind_of c)) (visited l))
                (do_update_wake_lock-active (record s { queue = q })));
    }
    request_handler-Follows update_process_list s q w v =
        listed-Follows (record s { queue = q })
          (record { settled = v.settled; lock_follows = λ h. v.lock_follows (rw w h) })

    pub dispatch-Follows : (s : Manager Elements Queue) → Follows s → Follows (dispatch L Q y s)
    unfolding dispatch
    dispatch-Follows s v = elim (Option-cases (Q.take s.queue)) [
      | inl e ↦ rw (e, dispatch) v
      | inr ((r, q), e) ↦ rw (e, dispatch) (request_handler-Follows r s q (Q.take_some s.queue e) v)
    ]
