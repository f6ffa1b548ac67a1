-- ===== src/Session/Routes.antt =====
-- Where the requests of a collector go.
use taskmonitor.Common.{
  ◌≡◌, ◌≢◌, refl, ap, subst, Bool, true, false, ◌&&◌, ◌||◌, [], ◌∷◌, ◌++◌, if◌then◌else◌, arith,
  Bytes, Outcome, ok, Option, none, some,
}
use taskmonitor.Bswinfra.{AsyncQueue}
use taskmonitor.Application.{
  proc_registry, sys_proc_stat, sys_proc_mem_info, sys_proc_pressure, sys_proc_disk_stats,
  sys_proc_buddy_info, sys_proc_wireless, sys_proc_vm_stat,
}
use taskmonitor.Session.{
  tcp, RequestType, create_session, get_startup_data, get_proc_acct, get_proc_info,
  get_context_info, get_proc_event_stats, get_sys_proc_mem_info, get_sys_proc_disk_stats,
  get_sys_proc_stat, get_sys_proc_pressure, get_sys_proc_buddy_info, get_sys_proc_wireless,
  get_sys_proc_vm_stat, keep_alive, unknown_type, Target, to_startup_data, to_proc_event, to_source,
  Action, collect, collect_proc_acct, collect_proc_info, collect_context_info, Ask, App, Session,
  Moment, push_to, push_if, handle,
}

-- The queue that a request for data is for, if its source is there, and the action it asks for.
abbrev pub route : App → RequestType → Option (Bool × Target × Action)
route a get_startup_data = some (a.has_startup_data, to_startup_data, collect)
route a get_proc_acct = some (a.has_proc_acct, to_source proc_registry, collect_proc_acct)
route a get_proc_info = some (true, to_source proc_registry, collect_proc_info)
route a get_context_info = some (true, to_source proc_registry, collect_context_info)
route a get_proc_event_stats = some (a.has_proc_event, to_proc_event, collect)
route a get_sys_proc_mem_info =
    some (a.has_source sys_proc_mem_info, to_source sys_proc_mem_info, collect)
route a get_sys_proc_disk_stats =
    some (a.has_source sys_proc_disk_stats, to_source sys_proc_disk_stats, collect)
route a get_sys_proc_stat = some (a.has_source sys_proc_stat, to_source sys_proc_stat, collect)
route a get_sys_proc_pressure =
    some (a.has_source sys_proc_pressure, to_source sys_proc_pressure, collect)
route a get_sys_proc_buddy_info =
    some (a.has_source sys_proc_buddy_info, to_source sys_proc_buddy_info, collect)
route a get_sys_proc_wireless =
    some (a.has_source sys_proc_wireless, to_source sys_proc_wireless, collect)
route a get_sys_proc_vm_stat =
    some (a.has_source sys_proc_vm_stat, to_source sys_proc_vm_stat, collect)
route a _ = none

module _ (Q : AsyncQueue Ask) where
  open Q use {Queue, push, waiting}

  -- What one answered request leaves: the queue of an existing target has one more request of this
  -- collector behind those that wait, unless it refuses, and no other queue changes.
  pub record Routed (b : Bool) (t : Target) (act : Action) (s u : Session Queue) (status : Bool)
      : Type 0 where
    pub others : (x : Target) → x ≢ t → u.queues x ≡ s.queues x
    pub queued : waiting (u.queues t) ≡ (
        if b && status
        then waiting (s.queues t) ++ record { action = act; collector = s.self } ∷ []
        else waiting (s.queues t))
    pub goes_on : (b || status) ≡ true
    pub kept : (u.written ≡ s.written) × (u.info ≡ s.info)

  abbrev ask : Action → Session Queue → Ask
  ask act s = record { action = act; collector = s.self }

  push_to-Routed :
      (t : Target) (act : Action) (s : Session Queue)
      → Routed true t act s (push_to Q t act s).0 (push (s.queues t) (ask act s)).1
  unfolding push_to
  push_to-Routed t act s = record {
    others = λ x n. ground arith;
    queued =
        ground (
          arith,
          Q.push_accepted (s.queues t) (ask act s),
          Q.push_refused (s.queues t) (ask act s),
        );
    goes_on = refl;
    kept = (refl, refl);
  }

  -- A call that ends well, as the route says.
  abbrev pub Answers :
      Bool × Target × Action → Session Queue → Session Queue × Outcome Bool → Type 0
  Answers (b, t, act) s (u, o) = (status : Bool) × (o ≡ ok status) × Routed b t act s u status

  push_if-Answers :
      (x : Bool × Target × Action) (s : Session Queue) → Answers x s (push_if Q x.0 x.1 x.2 s)
  unfolding push_if push_to
  push_if-Answers (true, t, act) s =
      ((push (s.queues t) (ask act s)).1, refl, push_to-Routed t act s)
  push_if-Answers (false, t, act) s = (
    true,
    refl,
    record { others = λ x n. refl; queued = refl; goes_on = refl; kept = (refl, refl) },
  )

  chosen :
      (x : Bool × Target × Action) {y : Bool × Target × Action} (s : Session Queue)
      → some x ≡ some y
      → Answers y s (push_if Q x.0 x.1 x.2 s)
  chosen x {y} s h =
      subst (λ z. Answers z s (push_if Q x.0 x.1 x.2 s))
        (ap (λ o. elim o as (λ _. Bool × Target × Action) [ none ↦ x | some z ↦ z ]) h)
        (push_if-Answers x s)

  -- A request for data over TCP ends without an exception. Where its source is there, the source's
  -- queue has one more request, of this collector and behind those that wait, unless it refuses,
  -- and the answer is the queue's; where it is not there, nothing changes and the connection goes
  -- on. No other queue changes.
  pub handle-Answers :
      (hash_of : Bytes → Bytes) (a : App) (r : RequestType) (m : Moment) (s : Session Queue)
      {x : Bool × Target × Action}
      → route a r ≡ some x
      → Answers x s (handle Q tcp hash_of a r m s)
  unfolding handle push_if
  handle-Answers hash_of a get_startup_data m s h =
      chosen (a.has_startup_data, to_startup_data, collect) s h
  handle-Answers hash_of a get_proc_acct m s h =
      chosen (a.has_proc_acct, to_source proc_registry, collect_proc_acct) s h
  handle-Answers hash_of a get_proc_info m s h =
      chosen (true, to_source proc_registry, collect_proc_info) s h
  handle-Answers hash_of a get_context_info m s h =
      chosen (true, to_source proc_registry, collect_context_info) s h
  handle-Answers hash_of a get_proc_event_stats m s h =
      chosen (a.has_proc_event, to_proc_event, collect) s h
  handle-Answers hash_of a get_sys_proc_mem_info m s h =
      chosen (a.has_source sys_proc_mem_info, to_source sys_proc_mem_info, collect) s h
  handle-Answers hash_of a get_sys_proc_disk_stats m s h =
      chosen (a.has_source sys_proc_disk_stats, to_source sys_proc_disk_stats, collect) s h
  handle-Answers hash_of a get_sys_proc_stat m s h =
      chosen (a.has_source sys_proc_stat, to_source sys_proc_stat, collect) s h
  handle-Answers hash_of a get_sys_proc_pressure m s h =
      chosen (a.has_source sys_proc_pressure, to_source sys_proc_pressure, collect) s h
  handle-Answers hash_of a get_sys_proc_buddy_info m s h =
      chosen (a.has_source sys_proc_buddy_info, to_source sys_proc_buddy_info, collect) s h
  handle-Answers hash_of a get_sys_proc_wireless m s h =
      chosen (a.has_source sys_proc_wireless, to_source sys_proc_wireless, collect) s h
  handle-Answers hash_of a get_sys_proc_vm_stat m s h =
      chosen (a.has_source sys_proc_vm_stat, to_source sys_proc_vm_stat, collect) s h
  handle-Answers hash_of a create_session m s h = cc
  handle-Answers hash_of a keep_alive m s h = cc
  handle-Answers hash_of a unknown_type m s h = cc
