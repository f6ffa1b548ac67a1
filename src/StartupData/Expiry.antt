-- ===== src/StartupData/Expiry.antt =====
-- What is kept before the timer, and that nothing is kept after it.
use mathlib.Core.List.{map-append, append-nil, append_assoc}
use taskmonitor.Common.{true, false, List, [], ◌∷◌, ◌++◌, map, ◌≡◌, refl, sym, arith, ◌∙◌}
use taskmonitor.Messages.{
  Clock, Collector, Sent, What, sys_proc_stat, sys_proc_mem_info, sys_proc_pressure,
}
use taskmonitor.StartupData.{
  StartupData, Payload, cpu, mem, psi, new_startup_data, drop_data, add_cpu_data, add_mem_data,
  add_psi_data, collect_and_send, new_entry, send_entry,
}

pub data Event (C M P : Type 0) : Type 0 where
  cpu_read : Clock → C → Event C M P
  mem_read : Clock → M → Event C M P
  psi_read : Clock → P → Event C M P
  timer : Event C M P

map-grow :
    {A B : Type 0} (f : A → B) (xs : List A) (x : A) (ys : List B)
    → map f (xs ++ x ∷ []) ++ ys ≡ map f xs ++ f x ∷ ys
map-grow f xs x ys = simp (map-append, append_assoc)

module _ {C M P : Type 0} where
  pub step : Event C M P → StartupData C M P → StartupData C M P
  step (cpu_read now m) d = add_cpu_data now m d
  step (mem_read now m) d = add_mem_data now m d
  step (psi_read now m) d = add_psi_data now m d
  step timer d = drop_data d

  pub run : List (Event C M P) → StartupData C M P → StartupData C M P
  run [] d = d
  run (e ∷ es) d = run es (step e d)

  pub run-append :
      (es fs : List (Event C M P)) (d : StartupData C M P) → run (es ++ fs) d ≡ run fs (run es d)
  unfolding run
  run-append [] fs d = refl
  run-append (e ∷ es) fs d = run-append es fs (step e d)

  -- The timer has not fired.
  pub data IsEarly : List (Event C M P) → Type 0 where
    none_yet : IsEarly []
    cpu_first :
        {now : Clock} {m : C} {es : List (Event C M P)} → IsEarly es → IsEarly (cpu_read now m ∷ es)
    mem_first :
        {now : Clock} {m : M} {es : List (Event C M P)} → IsEarly es → IsEarly (mem_read now m ∷ es)
    psi_first :
        {now : Clock} {m : P} {es : List (Event C M P)} → IsEarly es → IsEarly (psi_read now m ∷ es)

  -- A message to the collector with the seconds of its reading.
  abbrev pub sent_to : Collector → What → Clock → Payload C M P → Sent (Payload C M P)
  sent_to c what now p = record {
    collector = c;
    message = record {
      what = what;
      system_time_sec = now.realtime;
      monotonic_time_sec = now.monotonic;
      payload = p;
    };
  }

  -- The messages for the readings of each kind, in order.
  abbrev pub cpu_messages : Collector → List (Event C M P) → List (Sent (Payload C M P))
  cpu_messages c [] = []
  cpu_messages c (cpu_read now m ∷ es) = sent_to c sys_proc_stat now (cpu m) ∷ cpu_messages c es
  cpu_messages c (mem_read now m ∷ es) = cpu_messages c es
  cpu_messages c (psi_read now m ∷ es) = cpu_messages c es
  cpu_messages c (timer ∷ es) = cpu_messages c es

  abbrev pub mem_messages : Collector → List (Event C M P) → List (Sent (Payload C M P))
  mem_messages c [] = []
  mem_messages c (cpu_read now m ∷ es) = mem_messages c es
  mem_messages c (mem_read now m ∷ es) = sent_to c sys_proc_mem_info now (mem m) ∷ mem_messages c es
  mem_messages c (psi_read now m ∷ es) = mem_messages c es
  mem_messages c (timer ∷ es) = mem_messages c es

  abbrev pub psi_messages : Collector → List (Event C M P) → List (Sent (Payload C M P))
  psi_messages c [] = []
  psi_messages c (cpu_read now m ∷ es) = psi_messages c es
  psi_messages c (mem_read now m ∷ es) = psi_messages c es
  psi_messages c (psi_read now m ∷ es) = sent_to c sys_proc_pressure now (psi m) ∷ psi_messages c es
  psi_messages c (timer ∷ es) = psi_messages c es

  record Collects (c : Collector) (es : List (Event C M P)) (d t : StartupData C M P) : Type 0 where
    live : t.expired ≡ false
    cpus :
        map (send_entry sys_proc_stat cpu c) t.cpu_list
        ≡ map (send_entry sys_proc_stat cpu c) d.cpu_list ++ cpu_messages c es
    mems :
        map (send_entry sys_proc_mem_info mem c) t.mem_list
        ≡ map (send_entry sys_proc_mem_info mem c) d.mem_list ++ mem_messages c es
    psis :
        map (send_entry sys_proc_pressure psi c) t.psi_list
        ≡ map (send_entry sys_proc_pressure psi c) d.psi_list ++ psi_messages c es

  add_cpu_early :
      (now : Clock) (m : C) (d : StartupData C M P)
      → d.expired ≡ false
      → add_cpu_data now m d ≡ record d { cpu_list = d.cpu_list ++ new_entry now m ∷ [] }
  unfolding add_cpu_data
  add_cpu_early now m d h = ground arith

  add_mem_early :
      (now : Clock) (m : M) (d : StartupData C M P)
      → d.expired ≡ false
      → add_mem_data now m d ≡ record d { mem_list = d.mem_list ++ new_entry now m ∷ [] }
  unfolding add_mem_data
  add_mem_early now m d h = ground arith

  add_psi_early :
      (now : Clock) (m : P) (d : StartupData C M P)
      → d.expired ≡ false
      → add_psi_data now m d ≡ record d { psi_list = d.psi_list ++ new_entry now m ∷ [] }
  unfolding add_psi_data
  add_psi_early now m d h = ground arith

  run-Collects :
      (c : Collector) {es : List (Event C M P)} (d : StartupData C M P)
      → IsEarly es
      → d.expired ≡ false
      → Collects c es d (run es d)
  unfolding run step new_entry send_entry
  run-Collects c d none_yet h = record {
    live = h;
    cpus = sym (append-nil _);
    mems = sym (append-nil _);
    psis = sym (append-nil _);
  }
  run-Collects c d (cpu_first {now} {m} {es} e) h =
      let r = run-Collects c (record d { cpu_list = d.cpu_list ++ new_entry now m ∷ [] }) e h in
      rw (add_cpu_early now m d h) (record {
        live = r.live;
        cpus = r.cpus ∙ map-grow _ d.cpu_list _ _;
        mems = r.mems;
        psis = r.psis;
      })
  run-Collects c d (mem_first {now} {m} {es} e) h =
      let r = run-Collects c (record d { mem_list = d.mem_list ++ new_entry now m ∷ [] }) e h in
      rw (add_mem_early now m d h) (record {
        live = r.live;
        cpus = r.cpus;
        mems = r.mems ∙ map-grow _ d.mem_list _ _;
        psis = r.psis;
      })
  run-Collects c d (psi_first {now} {m} {es} e) h =
      let r = run-Collects c (record d { psi_list = d.psi_list ++ new_entry now m ∷ [] }) e h in
      rw (add_psi_early now m d h) (record {
        live = r.live;
        cpus = r.cpus;
        mems = r.mems;
        psis = r.psis ∙ map-grow _ d.psi_list _ _;
      })

  -- Until the timer fires, a collector that asks is sent every reading of the three sources, each
  -- kind in the order of the readings and with the seconds at which it was read, first the CPU
  -- readings, then memory, then pressure.
  pub collect_and_send_early :
      (c : Collector) {es : List (Event C M P)}
      → IsEarly es
      → collect_and_send c (run es new_startup_data)
        ≡ (cpu_messages c es ++ (mem_messages c es ++ psi_messages c es), true)
  unfolding collect_and_send new_startup_data
  collect_and_send_early c {es} e =
      let r = run-Collects c new_startup_data e refl in
      rw r.live (ground (arith, r.cpus, r.mems, r.psis))

  -- After the timer the lists are empty and stay so.
  record IsDropped (d : StartupData C M P) : Type 0 where
    gone : d.expired ≡ true
    no_cpu : d.cpu_list ≡ []
    no_mem : d.mem_list ≡ []
    no_psi : d.psi_list ≡ []

  drop_data-IsDropped :
      (d : StartupData C M P) → (d.expired ≡ true → IsDropped d) → IsDropped (drop_data d)
  unfolding drop_data
  drop_data-IsDropped d h = ground arith

  step-IsDropped : (e : Event C M P) (d : StartupData C M P) → IsDropped d → IsDropped (step e d)
  unfolding step add_cpu_data add_mem_data add_psi_data drop_data
  step-IsDropped (cpu_read now m) d v = ground arith
  step-IsDropped (mem_read now m) d v = ground arith
  step-IsDropped (psi_read now m) d v = ground arith
  step-IsDropped timer d v = ground arith

  -- Either not expired, or dropped.
  abbrev IsSound : StartupData C M P → Type 0
  IsSound d = d.expired ≡ true → IsDropped d

  step-IsSound : (e : Event C M P) (d : StartupData C M P) → IsSound d → IsSound (step e d)
  unfolding step add_cpu_data add_mem_data add_psi_data drop_data
  step-IsSound (cpu_read now m) d v = ground arith
  step-IsSound (mem_read now m) d v = ground arith
  step-IsSound (psi_read now m) d v = ground arith
  step-IsSound timer d v = ground arith

  run-IsSound : (es : List (Event C M P)) (d : StartupData C M P) → IsSound d → IsSound (run es d)
  unfolding run
  run-IsSound [] d v = v
  run-IsSound (e ∷ es) d v = run-IsSound es (step e d) (step-IsSound e d v)

  run-IsDropped :
      (es : List (Event C M P)) (d : StartupData C M P) → IsDropped d → IsDropped (run es d)
  unfolding run
  run-IsDropped [] d v = v
  run-IsDropped (e ∷ es) d v = run-IsDropped es (step e d) (step-IsDropped e d v)

  -- Once the timer has fired, whatever was read before and is read after, nothing is kept and
  -- nothing is sent.
  pub collect_and_send_late :
      (c : Collector) (es fs : List (Event C M P))
      → let t = run (es ++ timer ∷ fs) new_startup_data in
        (t.cpu_list ≡ [])
        × (t.mem_list ≡ [])
        × (t.psi_list ≡ [])
        × (collect_and_send c t ≡ ([], true))
  unfolding collect_and_send new_startup_data
  collect_and_send_late c es fs =
      let early = run-IsSound es new_startup_data (λ h. cc) in
      let late =
        run-IsDropped fs (drop_data (run es new_startup_data))
          (drop_data-IsDropped (run es new_startup_data) early) in
      rw (run-append es (timer ∷ fs) new_startup_data)
        (unfold run step in (late.no_cpu, late.no_mem, late.no_psi, rw late.gone))
