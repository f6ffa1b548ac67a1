-- ===== src/ProcRegistry/Additions.antt =====
-- Additions to the process registry keep its invariant.
use taskmonitor.Common.{
  ℕ, suc, ◌<◌, ◌≡◌, refl, sym, ap, ◌∙◌, true, false, List, [], ◌∷◌, ◌++◌, any, arith, ◌==◌,
  if◌then◌else◌, inl, inr, Bool-cases, Bytes, Outcome, ok, throws, traps,
}
use taskmonitor.Bswinfra.{AsyncQueue, SafeList, Ref}
use taskmonitor.Bswinfra.Changes.{Part, All, All-Part, All-append, any-Part}
use taskmonitor.Source.{set_update_interval}
use taskmonitor.ProcEntry.{
  ProcInfo, ProcEntry, ProcFs, get_proc_name_for_pid, new_proc_entry, init_info_data, blank_info,
}
use taskmonitor.ProcRegistry.{
  Registry, Request, write, Blacklist, is_blacklisted, add_context, add_entry, create_process_entry,
  add_proc_entry, has_pid,
}
use taskmonitor.ProcRegistry.Invariant.{
  Distinct, Distinct-Part, Distinct-append, Distinct-cong, any-cong, All-map, pid_of, Clean, Inv,
  visited-append_now,
}

-- A new entry carries the pid and the name it is made for.
pub pid_of-new :
    (fs : ProcFs) (pid : ℕ) (name : Bytes) {e : ProcEntry}
    → new_proc_entry fs pid name ≡ ok e
    → e.pid ≡ pid
unfolding new_proc_entry
pid_of-new fs pid name h = ground arith

comm_of-new :
    (fs : ProcFs) (pid : ℕ) (name : Bytes) {e : ProcEntry}
    → new_proc_entry fs pid name ≡ ok e
    → e.info.comm ≡ name
unfolding new_proc_entry init_info_data blank_info
comm_of-new fs pid name h = ground arith

module _ (L : SafeList) (Q : AsyncQueue Request) (blacklist : Blacklist) where
  open L use {Elements, visited, append}
  open Q use {Queue}

  add_context-Inv :
      (i : ProcInfo) (s : Registry Elements Queue)
      → Inv L Q blacklist s
      → Inv L Q blacklist (add_context L Q i s)
  unfolding add_context
  add_context-Inv i s v =
      elim (Bool-cases (any (λ r. i.ctx_id == (s.contexts r).ctx_id) (visited s.context_list))) [
        | inl listed ↦ rw listed v
        | inr new ↦ rw new (record {
          distinct = v.distinct;
          clean = v.clean;
          known = All-map (λ r k. ground arith) (visited s.proc_list) v.known;
          waiting = v.waiting;
        })
      ]

  -- What the store holds of the entries listed before.
  pub write-older :
      (e : ProcEntry) (s : Registry Elements Queue) (r : Ref)
      → r < s.fresh
      → write s.fresh e s.entries r ≡ s.entries r
  unfolding write
  write-older e s r k = ground arith

  pub write-newest :
      (e : ProcEntry) (s : Registry Elements Queue) → write s.fresh e s.entries s.fresh ≡ e
  unfolding write
  write-newest e s = ground arith

  -- An entry that is new and allowed goes to the end of what is left of the list.
  module _ (s s' : Registry Elements Queue)
      (older : (r : Ref) → r < s.fresh → s'.entries r ≡ s.entries r)
      (listed : s'.proc_list ≡ append s.proc_list s.fresh true) (next : s'.fresh ≡ suc s.fresh)
      (new : any (has_pid L Q s (s'.entries s.fresh).pid) (visited s.proc_list) ≡ false)
      (allowed : Clean L Q blacklist s' s.fresh) where
    older_pids :
        (xs : List Ref)
        → All (λ r. r < s.fresh) xs
        → All (λ r. pid_of L Q blacklist s r ≡ pid_of L Q blacklist s' r) xs
    older_pids xs k = All-map (λ r h. ap (λ e. e.pid) (sym (older r h))) xs k

    older-Clean :
        (xs : List Ref)
        → All (λ r. r < s.fresh) xs
        → All (Clean L Q blacklist s) xs
        → All (Clean L Q blacklist s') xs
    older-Clean [] k c = c
    older-Clean (x ∷ xs) k c = (rw (older x k.0) c.0, older-Clean xs k.1 c.1)

    Distinct-after :
        (xs : List Ref)
        → Part xs (visited s.proc_list)
        → Inv L Q blacklist s
        → Distinct (pid_of L Q blacklist s') (xs ++ s.fresh ∷ [])
    Distinct-after xs part v =
        let pids = older_pids xs (All-Part (λ r. r < s.fresh) part v.known) in
        Distinct-append (pid_of L Q blacklist s') xs s.fresh
          (sym (
              any-cong (pid_of L Q blacklist s) (pid_of L Q blacklist s') (s'.entries s.fresh).pid
                xs pids)
            ∙ any-Part (has_pid L Q s (s'.entries s.fresh).pid) part new)
          (Distinct-cong (pid_of L Q blacklist s) (pid_of L Q blacklist s') xs pids
            (Distinct-Part (pid_of L Q blacklist s) part v.distinct))

    appended-Inv : Inv L Q blacklist s → Inv L Q blacklist s'
    appended-Inv v =
        let (xs, eq, part) = visited-append_now L Q blacklist s.proc_list s.fresh v.waiting in
        let known_xs = All-Part (λ r. r < s.fresh) part v.known in
        record {
          distinct = rw (listed, eq) (Distinct-after xs part v);
          clean =
              rw (listed, eq)
                (All-append (Clean L Q blacklist s') xs
                  (older-Clean xs known_xs (All-Part (Clean L Q blacklist s) part v.clean))
                  allowed);
          known =
              rw (listed, eq, next)
                (All-append (λ r. r < suc s.fresh) xs (All-map (λ r k. omega arith) xs known_xs)
                  (omega arith));
          waiting = (
            [],
            rw (listed, L.append_now s.proc_list s.fresh)
                (L.staged-commit (append s.proc_list s.fresh false)),
          );
        }

  add_entry-Inv :
      (e : ProcEntry) (s : Registry Elements Queue)
      → any (has_pid L Q s e.pid) (visited s.proc_list) ≡ false
      → is_blacklisted blacklist e.info.comm ≡ false
      → Inv L Q blacklist s
      → Inv L Q blacklist (add_entry L Q e s)
  unfolding add_entry
  add_entry-Inv e s new allowed v =
      let newest =
        write-newest (record e { base = set_update_interval s.base.update_interval e.base }) s in
      appended-Inv s (add_entry L Q e s)
        (write-older (record e { base = set_update_interval s.base.update_interval e.base }) s) refl
        refl (rw newest new) (rw newest allowed) v

  -- Both halves, for what the constructor gives.
  made-Inv :
      (e : ProcEntry) (pid : ℕ) (name : Bytes) (s : Registry Elements Queue)
      → e.pid ≡ pid
      → e.info.comm ≡ name
      → any (has_pid L Q s pid) (visited s.proc_list) ≡ false
      → is_blacklisted blacklist name ≡ false
      → Inv L Q blacklist s
      → Inv L Q blacklist (add_context L Q e.info (add_entry L Q e s))
  made-Inv e pid name s p c new allowed v =
      add_context-Inv e.info (add_entry L Q e s) (add_entry-Inv e s (rw p new) (rw c allowed) v)

  module _ (fs : ProcFs) (pid : ℕ) (name : Bytes) (s : Registry Elements Queue)
      (new : any (has_pid L Q s pid) (visited s.proc_list) ≡ false)
      (allowed : is_blacklisted blacklist name ≡ false) (v : Inv L Q blacklist s) where
    created-Inv :
        (o : Outcome ProcEntry)
        → new_proc_entry fs pid name ≡ o
        → Inv L Q blacklist (elim o as (λ _. Registry Elements Queue) [
          | ok e ↦ add_context L Q e.info (add_entry L Q e s)
          | throws x ↦ s
          | traps ↦ s
        ])
    created-Inv (ok e) h =
        made-Inv e pid name s (pid_of-new fs pid name h) (comm_of-new fs pid name h) new allowed v
    created-Inv (throws x) h = v
    created-Inv traps h = v

    create_process_entry-Inv : Inv L Q blacklist (create_process_entry L Q fs pid name s)
    unfolding create_process_entry
    create_process_entry-Inv = created-Inv (new_proc_entry fs pid name) refl

  -- The name is read and allowed, or nothing happens.
  named-Inv :
      (fs : ProcFs) (pid : ℕ) (s : Registry Elements Queue) (o : Outcome Bytes)
      → any (has_pid L Q s pid) (visited s.proc_list) ≡ false
      → Inv L Q blacklist s
      → Inv L Q blacklist (elim o as (λ _. Registry Elements Queue) [
        | throws x ↦ s
        | traps ↦ s
        | ok name ↦
            if is_blacklisted blacklist name then s else create_process_entry L Q fs pid name s
      ])
  named-Inv fs pid s (throws x) new v = v
  named-Inv fs pid s traps new v = v
  named-Inv fs pid s (ok name) new v = elim (Bool-cases (is_blacklisted blacklist name)) [
    | inl banned ↦ rw banned v
    | inr allowed ↦ rw allowed (create_process_entry-Inv fs pid name s new allowed v)
  ]

  pub add_proc_entry-Inv :
      (fs : ProcFs) (pid : ℕ) (s : Registry Elements Queue)
      → Inv L Q blacklist s
      → Inv L Q blacklist (add_proc_entry L Q fs blacklist pid s)
  unfolding add_proc_entry
  add_proc_entry-Inv fs pid s v =
      elim (Bool-cases (any (has_pid L Q s pid) (visited s.proc_list))) [
        | inl found ↦ rw found v
        | inr new ↦ rw new (named-Inv fs pid s (get_proc_name_for_pid fs pid) new v)
      ]
