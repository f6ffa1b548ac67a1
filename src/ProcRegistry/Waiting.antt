-- ===== src/ProcRegistry/Waiting.antt =====
-- An entry that waits for the kernel's answer about its accounting.
use taskmonitor.Common.{
  ℕ, ◌<◌, ◌≡◌, refl, Bool, true, false, List, [], ◌∷◌, any, ◌==◌, arith, if◌then◌else◌, inl, inr,
  Bool-cases, Bytes, equal, Outcome, ok, throws, traps,
}
use taskmonitor.Bswinfra.{AsyncQueue, SafeList, Ref}
use taskmonitor.ProcEntry.{ProcInfo, ProcEntry, ProcFs, get_proc_name_for_pid, new_proc_entry}
use taskmonitor.ProcRegistry.{
  Registry, Request, write, Blacklist, is_blacklisted, add_context, add_entry, create_process_entry,
  add_proc_entry, has_pid, upd_entry, upd_entries, commit_procs, upd_proc_entry, finish_removal,
  rem_proc_entry, rem_proc_entry_named,
}

module _ (L : SafeList) (Q : AsyncQueue Request) (blacklist : Blacklist) (r : Ref) (pid : ℕ) where
  open L use {Elements, visited, remove}
  open Q use {Queue}

  pub record Waits (s : Registry Elements Queue) : Type 0 where
    pub known : r < s.fresh
    pub of_pid : (s.entries r).pid ≡ pid
    pub waits : (s.entries r).update_proc_acct_pending ≡ true

  -- A write that keeps the pid and the flag.
  pub written-Waits :
      (x : Ref) (e : ProcEntry) (s : Registry Elements Queue)
      → e.pid ≡ (s.entries x).pid
      → ((s.entries x).update_proc_acct_pending ≡ true → e.update_proc_acct_pending ≡ true)
      → Waits s
      → Waits (record s { entries = write x e s.entries })
  unfolding write
  written-Waits x e s p w v = elim (Bool-cases (r == x)) [
    | inl hit ↦ record {
      known = v.known;
      of_pid = ground (arith, hit, p, v.of_pid);
      waits = ground (arith, hit, w, v.waits);
    }
    | inr miss ↦ record { known = v.known; of_pid = rw miss v.of_pid; waits = rw miss v.waits }
  ]

  add_context-Waits :
      (i : ProcInfo) (s : Registry Elements Queue) → Waits s → Waits (add_context L Q i s)
  unfolding add_context
  add_context-Waits i s v =
      elim (Bool-cases (any (λ x. i.ctx_id == (s.contexts x).ctx_id) (visited s.context_list))) [
        | inl listed ↦ rw listed v
        | inr new ↦
            rw new (record { known = omega (arith, v.known); of_pid = v.of_pid; waits = v.waits })
      ]

  add_entry-Waits :
      (e : ProcEntry) (s : Registry Elements Queue) → Waits s → Waits (add_entry L Q e s)
  unfolding add_entry write
  add_entry-Waits e s v = record {
    known = omega (arith, v.known);
    of_pid = ground (arith, v.known, v.of_pid);
    waits = ground (arith, v.known, v.waits);
  }

  made-Waits :
      (o : Outcome ProcEntry) (s : Registry Elements Queue)
      → Waits s
      → Waits (elim o as (λ _. Registry Elements Queue) [
        | ok e ↦ add_context L Q e.info (add_entry L Q e s)
        | throws x ↦ s
        | traps ↦ s
      ])
  made-Waits (ok e) s v = add_context-Waits e.info (add_entry L Q e s) (add_entry-Waits e s v)
  made-Waits (throws x) s v = v
  made-Waits traps s v = v

  named-Waits :
      (fs : ProcFs) (k : ℕ) (o : Outcome Bytes) (s : Registry Elements Queue)
      → Waits s
      → Waits (elim o as (λ _. Registry Elements Queue) [
        | throws x ↦ s
        | traps ↦ s
        | ok name ↦
            if is_blacklisted blacklist name then s else create_process_entry L Q fs k name s
      ])
  unfolding create_process_entry
  named-Waits fs k (throws x) s v = v
  named-Waits fs k traps s v = v
  named-Waits fs k (ok name) s v = elim (Bool-cases (is_blacklisted blacklist name)) [
    | inl banned ↦ rw banned v
    | inr allowed ↦ rw allowed (made-Waits (new_proc_entry fs k name) s v)
  ]

  pub add_proc_entry-Waits :
      (fs : ProcFs) (k : ℕ) (s : Registry Elements Queue)
      → Waits s
      → Waits (add_proc_entry L Q fs blacklist k s)
  unfolding add_proc_entry
  add_proc_entry-Waits fs k s v = elim (Bool-cases (any (has_pid L Q s k) (visited s.proc_list))) [
    | inl found ↦ rw found v
    | inr new ↦ rw new (named-Waits fs k (get_proc_name_for_pid fs k) s v)
  ]

  renamed-Waits :
      (o : Outcome Bytes) (x : Ref) (s : Registry Elements Queue)
      → Waits s
      → Waits (elim o as (λ _. Registry Elements Queue) [
        | throws y ↦ s
        | traps ↦ s
        | ok name ↦
            let e = s.entries x in
            if equal e.info.comm name
            then s
            else if is_blacklisted blacklist name
            then record s { proc_list = remove s.proc_list x false }
            else record s {
              entries = write x (record e { info = record e.info { comm = name } }) s.entries;
            }
      ])
  renamed-Waits (throws y) x s v = v
  renamed-Waits traps x s v = v
  renamed-Waits (ok name) x s v = elim (Bool-cases (equal (s.entries x).info.comm name)) [
    | inl same ↦ rw same v
    | inr other ↦ elim (Bool-cases (is_blacklisted blacklist name)) [
      | inl banned ↦
          rw (other, banned) (record { known = v.known; of_pid = v.of_pid; waits = v.waits })
      | inr allowed ↦
          let e = s.entries x in
          rw (other, allowed)
            (written-Waits x (record e { info = record e.info { comm = name } }) s refl (λ h. h) v)
    ]
  ]

  upd_entry-Waits :
      (fs : ProcFs) (k : ℕ) (s : Registry Elements Queue) (x : Ref)
      → Waits s
      → Waits (upd_entry L Q fs blacklist k s x)
  unfolding upd_entry
  upd_entry-Waits fs k s x v = elim (Bool-cases (has_pid L Q s k x)) [
    | inl hit ↦ rw hit (renamed-Waits (get_proc_name_for_pid fs k) x s v)
    | inr miss ↦ rw miss v
  ]

  upd_entries-Waits :
      (fs : ProcFs) (k : ℕ) (xs : List Ref) (s : Registry Elements Queue)
      → Waits s
      → Waits (upd_entries L Q fs blacklist k xs s)
  unfolding upd_entries
  upd_entries-Waits fs k [] s v = v
  upd_entries-Waits fs k (x ∷ xs) s v =
      upd_entries-Waits fs k xs (upd_entry L Q fs blacklist k s x) (upd_entry-Waits fs k s x v)

  pub commit_procs-Waits : (s : Registry Elements Queue) → Waits s → Waits (commit_procs L Q s)
  unfolding commit_procs
  commit_procs-Waits s v = record { known = v.known; of_pid = v.of_pid; waits = v.waits }

  pub upd_proc_entry-Waits :
      (fs : ProcFs) (k : ℕ) (s : Registry Elements Queue)
      → Waits s
      → Waits (upd_proc_entry L Q fs blacklist k s)
  unfolding upd_proc_entry
  upd_proc_entry-Waits fs k s v =
      commit_procs-Waits _ (upd_entries-Waits fs k (visited s.proc_list) s v)

  finish_removal-Waits :
      (b : Bool) (s : Registry Elements Queue) → Waits s → Waits (finish_removal L Q b s)
  unfolding finish_removal
  finish_removal-Waits true s v = commit_procs-Waits s v
  finish_removal-Waits false s v = record { known = v.known; of_pid = v.of_pid; waits = v.waits }

  pub rem_proc_entry-Waits :
      (k : ℕ) (sync : Bool) (s : Registry Elements Queue)
      → Waits s
      → Waits (rem_proc_entry L Q k sync s)
  unfolding rem_proc_entry
  rem_proc_entry-Waits k sync s v =
      finish_removal-Waits sync _ (record { known = v.known; of_pid = v.of_pid; waits = v.waits })

  pub rem_proc_entry_named-Waits :
      (name : Bytes) (sync : Bool) (s : Registry Elements Queue)
      → Waits s
      → Waits (rem_proc_entry_named L Q name sync s)
  unfolding rem_proc_entry_named
  rem_proc_entry_named-Waits name sync s v =
      finish_removal-Waits sync _ (record { known = v.known; of_pid = v.of_pid; waits = v.waits })
