-- ===== src/ProcRegistry/Upkeep.antt =====
-- Updates, removals and commits keep the invariant of the process registry.
use taskmonitor.Common.{
  ℕ, ◌≡◌, refl, ◌∙◌, Bool, true, false, List, [], ◌∷◌, arith, ◌==◌, if◌then◌else◌, inl, inr,
  Bool-cases, Bytes, equal, Outcome, ok, throws, traps,
}
use taskmonitor.Bswinfra.{AsyncQueue, SafeList, Ref}
use taskmonitor.Bswinfra.Changes.{All}
use taskmonitor.ProcEntry.{ProcFs, get_proc_name_for_pid}
use taskmonitor.ProcRegistry.{
  Registry, Request, write, Blacklist, is_blacklisted, upd_entry, upd_entries, upd_proc_entry,
  stage_removals, finish_removal, rem_proc_entry, rem_proc_entry_named, has_pid,
}
use taskmonitor.ProcRegistry.Invariant.{
  Distinct-cong, All-map, pid_of, Clean, OnlyRemovals, Inv, commit_procs-Inv, remove-OnlyRemovals,
  remove-Inv,
}

module _ (L : SafeList) (Q : AsyncQueue Request) (blacklist : Blacklist) where
  open L use {Elements, visited, remove}
  open Q use {Queue, push}

  -- The entry `r` of `s` renamed.
  renamed : Ref → Bytes → Registry Elements Queue → Registry Elements Queue
  renamed r name s = record s {
    entries =
        write r (record (s.entries r) { info = record (s.entries r).info { comm = name } })
          s.entries;
  }

  pid_of-renamed :
      (r : Ref) (name : Bytes) (s : Registry Elements Queue) (x : Ref)
      → pid_of L Q blacklist s x ≡ pid_of L Q blacklist (renamed r name s) x
  unfolding renamed write
  pid_of-renamed r name s x = ground arith

  Clean-renamed :
      (r : Ref) (name : Bytes) (s : Registry Elements Queue) (x : Ref)
      → is_blacklisted blacklist name ≡ false
      → Clean L Q blacklist s x
      → Clean L Q blacklist (renamed r name s) x
  unfolding renamed write
  Clean-renamed r name s x allowed c = elim (Bool-cases (x == r)) [
    | inl hit ↦ rw hit allowed
    | inr miss ↦ rw miss c
  ]

  All-pids :
      (r : Ref) (name : Bytes) (s : Registry Elements Queue) (xs : List Ref)
      → All (λ x. pid_of L Q blacklist s x ≡ pid_of L Q blacklist (renamed r name s) x) xs
  All-pids r name s [] = tt
  All-pids r name s (x ∷ xs) = (pid_of-renamed r name s x, All-pids r name s xs)

  renamed-Inv :
      (r : Ref) (name : Bytes) (s : Registry Elements Queue)
      → is_blacklisted blacklist name ≡ false
      → Inv L Q blacklist s
      → Inv L Q blacklist (renamed r name s)
  unfolding renamed
  renamed-Inv r name s allowed v = record {
    distinct =
        Distinct-cong (pid_of L Q blacklist s) (pid_of L Q blacklist (renamed r name s))
          (visited s.proc_list) (All-pids r name s (visited s.proc_list)) v.distinct;
    clean = All-map (λ x. Clean-renamed r name s x allowed) (visited s.proc_list) v.clean;
    known = v.known;
    waiting = v.waiting;
  }

  -- The name that was read keeps the entry, removes it or renames it.
  reread-Inv :
      (r : Ref) (s : Registry Elements Queue) (o : Outcome Bytes)
      → Inv L Q blacklist s
      → Inv L Q blacklist (elim o as (λ _. Registry Elements Queue) [
        | throws x ↦ s
        | traps ↦ s
        | ok name ↦
            if equal (s.entries r).info.comm name
            then s
            else if is_blacklisted blacklist name
            then record s { proc_list = remove s.proc_list r false }
            else renamed r name s
      ])
  reread-Inv r s (throws x) v = v
  reread-Inv r s traps v = v
  reread-Inv r s (ok name) v = elim (Bool-cases (equal (s.entries r).info.comm name)) [
    | inl same ↦ rw same v
    | inr differs ↦ elim (Bool-cases (is_blacklisted blacklist name)) [
      | inl banned ↦ rw (differs, banned) (remove-Inv L Q blacklist s r v)
      | inr allowed ↦ rw (differs, allowed) (renamed-Inv r name s allowed v)
    ]
  ]

  upd_entry-Inv :
      (fs : ProcFs) (pid : ℕ) (s : Registry Elements Queue) (r : Ref)
      → Inv L Q blacklist s
      → Inv L Q blacklist (upd_entry L Q fs blacklist pid s r)
  unfolding upd_entry renamed
  upd_entry-Inv fs pid s r v = elim (Bool-cases (has_pid L Q s pid r)) [
    | inl hit ↦ rw hit (reread-Inv r s (get_proc_name_for_pid fs pid) v)
    | inr miss ↦ rw miss v
  ]

  upd_entries-Inv :
      (fs : ProcFs) (pid : ℕ) (rs : List Ref) (s : Registry Elements Queue)
      → Inv L Q blacklist s
      → Inv L Q blacklist (upd_entries L Q fs blacklist pid rs s)
  unfolding upd_entries
  upd_entries-Inv fs pid [] s v = v
  upd_entries-Inv fs pid (r ∷ rs) s v =
      upd_entries-Inv fs pid rs (upd_entry L Q fs blacklist pid s r) (upd_entry-Inv fs pid s r v)

  pub upd_proc_entry-Inv :
      (fs : ProcFs) (pid : ℕ) (s : Registry Elements Queue)
      → Inv L Q blacklist s
      → Inv L Q blacklist (upd_proc_entry L Q fs blacklist pid s)
  unfolding upd_proc_entry
  upd_proc_entry-Inv fs pid s v =
      commit_procs-Inv L Q blacklist (upd_entries L Q fs blacklist pid (visited s.proc_list) s)
        (upd_entries-Inv fs pid (visited s.proc_list) s v)

  pub visited-stage_removals :
      (test : Ref → Bool) (rs : List Ref) (l : Elements)
      → visited (stage_removals L Q test rs l) ≡ visited l
  unfolding stage_removals
  visited-stage_removals test [] l = refl
  visited-stage_removals test (r ∷ rs) l = elim (Bool-cases (test r)) [
    | inl hit ↦ rw hit (visited-stage_removals test rs (remove l r false) ∙ L.visited-remove l r)
    | inr miss ↦ rw miss (visited-stage_removals test rs l)
  ]

  stage_removals-OnlyRemovals :
      (test : Ref → Bool) (rs : List Ref) (l : Elements)
      → OnlyRemovals L Q blacklist l
      → OnlyRemovals L Q blacklist (stage_removals L Q test rs l)
  unfolding stage_removals
  stage_removals-OnlyRemovals test [] l w = w
  stage_removals-OnlyRemovals test (r ∷ rs) l w = elim (Bool-cases (test r)) [
    | inl hit ↦ rw hit (
        stage_removals-OnlyRemovals test rs (remove l r false)
          (remove-OnlyRemovals L Q blacklist l r w))
    | inr miss ↦ rw miss (stage_removals-OnlyRemovals test rs l w)
  ]

  staged-Inv :
      (test : Ref → Bool) (s : Registry Elements Queue)
      → Inv L Q blacklist s
      → Inv L Q blacklist
          (record s { proc_list = stage_removals L Q test (visited s.proc_list) s.proc_list })
  staged-Inv test s v =
      let same = visited-stage_removals test (visited s.proc_list) s.proc_list in
      record {
        distinct = rw same v.distinct;
        clean = rw same v.clean;
        known = rw same v.known;
        waiting = stage_removals-OnlyRemovals test (visited s.proc_list) s.proc_list v.waiting;
      }

  finish_removal-Inv :
      (sync : Bool) (s : Registry Elements Queue)
      → Inv L Q blacklist s
      → Inv L Q blacklist (finish_removal L Q sync s)
  unfolding finish_removal
  finish_removal-Inv true s v = commit_procs-Inv L Q blacklist s v
  finish_removal-Inv false s v = record {
    distinct = v.distinct;
    clean = v.clean;
    known = v.known;
    waiting = v.waiting;
  }

  pub rem_proc_entry-Inv :
      (pid : ℕ) (sync : Bool) (s : Registry Elements Queue)
      → Inv L Q blacklist s
      → Inv L Q blacklist (rem_proc_entry L Q pid sync s)
  unfolding rem_proc_entry
  rem_proc_entry-Inv pid sync s v = finish_removal-Inv sync _ (staged-Inv (has_pid L Q s pid) s v)

  pub rem_proc_entry_named-Inv :
      (name : Bytes) (sync : Bool) (s : Registry Elements Queue)
      → Inv L Q blacklist s
      → Inv L Q blacklist (rem_proc_entry_named L Q name sync s)
  unfolding rem_proc_entry_named
  rem_proc_entry_named-Inv name sync s v =
      finish_removal-Inv sync _ (staged-Inv (λ r. equal (s.entries r).info.comm name) s v)
