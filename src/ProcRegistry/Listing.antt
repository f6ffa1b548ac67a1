-- ===== src/ProcRegistry/Listing.antt =====
-- The list that is read at the start.
use taskmonitor.Common.{
  ℕ, ◌<◌, ◌≡◌, ◌≢◌, refl, sym, ap, ◌∙◌, subst, true, false, List, [], ◌∷◌, any, Option, none, some,
  ◌==◌, arith, if◌then◌else◌, inl, inr, Bool-cases, Bytes, stoi, Outcome, ok, throws, traps,
}
use taskmonitor.Bswinfra.{AsyncQueue, SafeList, Ref}
use taskmonitor.Bswinfra.Changes.{All, All-Part, any-Part}
use taskmonitor.Source.{set_update_interval}
use taskmonitor.ProcEntry.{ProcInfo, ProcEntry, ProcFs, get_proc_name_for_pid, new_proc_entry}
use taskmonitor.ProcRegistry.{
  Registry, Request, Blacklist, is_blacklisted, add_context, add_entry, create_process_entry,
  add_proc_entry, has_pid,
}
use taskmonitor.ProcRegistry.Invariant.{
  Distinct, All-map, any-cong, any-append_other, pid_of, Inv, empty-Inv, visited-append_now,
}
use taskmonitor.ProcRegistry.Additions.{write-older, write-newest, pid_of-new}
use taskmonitor.ProcRegistry.Updates.{pid_of_name, add_named, update_process_list}
use taskmonitor.ProcRegistry.Walk.{add_named-Inv, update_process_list-Inv}
use taskmonitor.ProcRegistry.Requests.{init_named, init_pid, init_from_proc}

module _ (L : SafeList) (Q : AsyncQueue Request) (blacklist : Blacklist) where
  open L use {Elements, visited, staged, append}
  open Q use {Queue}

  abbrev pub Absent : ℕ → Registry Elements Queue → Type 0
  Absent k s = any (has_pid L Q s k) (visited s.proc_list) ≡ false

  appended-Absent :
      (k : ℕ) (s s' : Registry Elements Queue)
      → ((r : Ref) → r < s.fresh → s'.entries r ≡ s.entries r)
      → s'.proc_list ≡ append s.proc_list s.fresh true
      → (s'.entries s.fresh).pid ≢ k
      → Inv L Q blacklist s
      → Absent k s
      → Absent k s'
  appended-Absent k s s' older listed other v h =
      let (xs, eq, part) = visited-append_now L Q blacklist s.proc_list s.fresh v.waiting in
      let known_xs = All-Part (λ r. r < s.fresh) part v.known in
      let before : any (has_pid L Q s k) xs ≡ false = any-Part (has_pid L Q s k) part h in
      let pids : All (λ r. pid_of L Q blacklist s r ≡ pid_of L Q blacklist s' r) xs =
        All-map (λ r b. ap (λ (e : ProcEntry). e.pid) (sym (older r b))) xs known_xs in
      rw (listed, eq)
        (any-append_other (pid_of L Q blacklist s') k xs s.fresh
          (sym (any-cong (pid_of L Q blacklist s) (pid_of L Q blacklist s') k xs pids) ∙ before)
          other)

  add_context-Absent :
      (k : ℕ) (i : ProcInfo) (s : Registry Elements Queue)
      → Absent k s
      → Absent k (add_context L Q i s)
  unfolding add_context
  add_context-Absent k i s h =
      elim (Bool-cases (any (λ r. i.ctx_id == (s.contexts r).ctx_id) (visited s.context_list))) [
        | inl listed ↦ rw listed h
        | inr new ↦ rw new h
      ]

  module _ (k pid : ℕ) (name : Bytes) (fs : ProcFs) (other : pid ≢ k) (s : Registry Elements Queue)
      (v : Inv L Q blacklist s) (h : Absent k s) where
    made-Absent :
        (e : ProcEntry) → e.pid ≡ pid → Absent k (add_context L Q e.info (add_entry L Q e s))
    unfolding add_entry
    made-Absent e p =
        let f = record e { base = set_update_interval s.base.update_interval e.base } in
        add_context-Absent k e.info (add_entry L Q e s) (
          appended-Absent k s (add_entry L Q e s) (write-older L Q blacklist f s) refl
            (rw (write-newest L Q blacklist f s, p) other) v h)

    created-Absent :
        (o : Outcome ProcEntry)
        → new_proc_entry fs pid name ≡ o
        → Absent k (elim o as (λ _. Registry Elements Queue) [
          | ok e ↦ add_context L Q e.info (add_entry L Q e s)
          | throws x ↦ s
          | traps ↦ s
        ])
    created-Absent (ok e) q = made-Absent e (pid_of-new fs pid name q)
    created-Absent (throws x) q = h
    created-Absent traps q = h

    create_process_entry-Absent : Absent k (create_process_entry L Q fs pid name s)
    unfolding create_process_entry
    create_process_entry-Absent = created-Absent (new_proc_entry fs pid name) refl

  init_named-Absent :
      (k pid : ℕ) (fs : ProcFs) (o : Outcome Bytes) (s : Registry Elements Queue)
      → pid ≢ k
      → Inv L Q blacklist s
      → Absent k s
      → Absent k (init_named L Q blacklist fs pid o s)
  init_named-Absent k pid fs (throws x) s other v h = h
  init_named-Absent k pid fs traps s other v h = h
  init_named-Absent k pid fs (ok name) s other v h =
      elim (Bool-cases (is_blacklisted blacklist name)) [
        | inl banned ↦ rw banned h
        | inr allowed ↦ rw allowed (create_process_entry-Absent k pid name fs other s v h)
      ]

  named_alike :
      (fs : ProcFs) (pid : ℕ) (o : Outcome Bytes) (s : Registry Elements Queue)
      → init_named L Q blacklist fs pid o s ≡ elim o as (λ _. Registry Elements Queue) [
        | throws x ↦ s
        | traps ↦ s
        | ok name ↦
            if is_blacklisted blacklist name then s else create_process_entry L Q fs pid name s
      ]
  named_alike fs pid (throws x) s = refl
  named_alike fs pid traps s = refl
  named_alike fs pid (ok name) s = refl

  -- The numbers among the names.
  abbrev pub with_number : Option ℕ → List ℕ → List ℕ
  with_number none ks = ks
  with_number (some k) ks = k ∷ ks

  abbrev pub numbers : List Bytes → List ℕ
  numbers [] = []
  numbers (name ∷ names) = with_number (pid_of_name (stoi name)) (numbers names)

  -- Without the pid in the list, the two additions are one.
  init_pid-add_named :
      (fs : ProcFs) (o : Option ℕ) (ks : List ℕ) (s : Registry Elements Queue)
      → All (λ k. Absent k s) (with_number o ks)
      → init_pid L Q blacklist fs o s ≡ add_named L Q blacklist fs o s
  unfolding add_proc_entry
  init_pid-add_named fs none ks s h = refl
  init_pid-add_named fs (some pid) ks s h =
      rw h.0 (named_alike fs pid (get_proc_name_for_pid fs pid) s)

  -- The later pids are still not in it.
  init_pid-Absent :
      (fs : ProcFs) (o : Option ℕ) (ks : List ℕ) (s : Registry Elements Queue)
      → Distinct (λ k. k) (with_number o ks)
      → All (λ k. Absent k s) (with_number o ks)
      → Inv L Q blacklist s
      → All (λ k. Absent k (init_pid L Q blacklist fs o s)) ks
  init_pid-Absent fs none ks s d h v = h
  init_pid-Absent fs (some pid) [] s d h v = tt
  init_pid-Absent fs (some pid) (k ∷ ks) s d h v = (
    init_named-Absent k pid fs (get_proc_name_for_pid fs pid) s (ground (arith, d.0)) v h.1.0,
    init_pid-Absent fs (some pid) ks s (ground (arith, d.0), d.1.1) (h.0, h.1.1) v,
  )

  numbers_behind :
      (o : Option ℕ) (ks : List ℕ) → Distinct (λ k. k) (with_number o ks) → Distinct (λ k. k) ks
  numbers_behind none ks d = d
  numbers_behind (some k) ks d = d.1

  init-update :
      (fs : ProcFs) (names : List Bytes) (s : Registry Elements Queue)
      → Distinct (λ k. k) (numbers names)
      → All (λ k. Absent k s) (numbers names)
      → Inv L Q blacklist s
      → init_from_proc L Q blacklist fs names s ≡ update_process_list L Q blacklist fs names s
  unfolding init_from_proc update_process_list
  init-update fs [] s d h v = refl
  init-update fs (name ∷ names) s d h v =
      let o = pid_of_name (stoi name) in
      let same : init_pid L Q blacklist fs o s ≡ add_named L Q blacklist fs o s =
        init_pid-add_named fs o (numbers names) s h in
      init-update fs names (init_pid L Q blacklist fs o s) (numbers_behind o (numbers names) d)
        (init_pid-Absent fs o (numbers names) s d h v)
        (subst (Inv L Q blacklist) (sym same) (add_named-Inv L Q blacklist fs o s v))
      ∙ ap (update_process_list L Q blacklist fs names) same

  All-Absent :
      (s : Registry Elements Queue) (ks : List ℕ)
      → visited s.proc_list ≡ []
      → All (λ k. Absent k s) ks
  All-Absent s [] e = tt
  All-Absent s (k ∷ ks) e = (rw e refl, All-Absent s ks e)

  -- Where no two names under /proc are the same number, the reading at the start makes of an empty registry
  -- what the walk at a timer makes of it, though it looks for no duplicates: the listed pids differ, no
  -- listed name is blacklisted and only removals wait.
  pub init_from_proc-update_process_list :
      (fs : ProcFs) (names : List Bytes) (s : Registry Elements Queue)
      → Distinct (λ k. k) (numbers names)
      → visited s.proc_list ≡ []
      → staged s.proc_list ≡ []
      → (init_from_proc L Q blacklist fs names s ≡ update_process_list L Q blacklist fs names s)
        × Inv L Q blacklist (init_from_proc L Q blacklist fs names s)
  init_from_proc-update_process_list fs names s d e f =
      let v = empty-Inv L Q blacklist s e f in
      let same = init-update fs names s d (All-Absent s (numbers names) e) v in
      (
        same,
        subst (Inv L Q blacklist) (sym same) (update_process_list-Inv L Q blacklist fs names s v),
      )
