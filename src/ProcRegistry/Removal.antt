-- ===== src/ProcRegistry/Removal.antt =====
-- What is staged for removal is gone after the commit, and what is added in between is lost.
use taskmonitor.Common.{
  ℕ, ◌≡◌, refl, sym, ◌∙◌, Bool, true, false, List, [], ◌∷◌, ◌++◌, any, arith, ◌==◌, if◌then◌else◌,
  inl, inr, Bool-cases, none,
}
use mathlib.Core.List.{append_assoc, append-nil}
use taskmonitor.Bswinfra.{AsyncQueue, SafeList, Ref, rem, erase_ref, apply}
use taskmonitor.Bswinfra.Changes.{All, removals, removals-append}
use taskmonitor.ProcEntry.{ProcFs}
use taskmonitor.ProcRegistry.{
  Registry, Request, Blacklist, last_with, get_proc_entry, add_proc_entry, commit_procs,
  stage_removals, finish_removal, rem_proc_entry, has_pid,
}
use taskmonitor.ProcRegistry.Invariant.{All-map, Inv}
use taskmonitor.ProcRegistry.Upkeep.{visited-stage_removals}

-- The references that pass a test.
abbrev picked : (Ref → Bool) → List Ref → List Ref
picked test [] = []
picked test (r ∷ rs) = if test r then r ∷ picked test rs else picked test rs

module _ (test : Ref → Bool) where
  -- What passes the test is among the references to remove.
  abbrev Covered : List Ref → Ref → Type 0
  Covered rs x = test x ≡ true → any (λ r. x == r) rs ≡ true

  Covered-erase :
      (r : Ref) (rs xs : List Ref) → All (Covered (r ∷ rs)) xs → All (Covered rs) (erase_ref r xs)
  unfolding erase_ref
  Covered-erase r rs [] h = tt
  Covered-erase r rs (x ∷ xs) h = elim (Bool-cases (x == r)) [
    | inl hit ↦ rw hit (Covered-erase r rs xs h.1)
    | inr miss ↦ rw miss ((λ p. ground (arith, h.0 p)), Covered-erase r rs xs h.1)
  ]

  uncovered : (xs : List Ref) → All (Covered []) xs → any test xs ≡ false
  uncovered [] h = refl
  uncovered (x ∷ xs) h = ground (arith, uncovered xs h.1, h.0)

  any-apply-removals :
      (rs xs : List Ref) → All (Covered rs) xs → any test (apply (removals rs) xs) ≡ false
  unfolding apply
  any-apply-removals [] xs h = uncovered xs h
  any-apply-removals (r ∷ rs) xs h =
      any-apply-removals rs (erase_ref r xs) (Covered-erase r rs xs h)

  Covered-picked : (xs : List Ref) → All (Covered (picked test xs)) xs
  Covered-picked [] = tt
  Covered-picked (x ∷ xs) = elim (Bool-cases (test x)) [
    | inl hit ↦ ((λ p. ground arith), All-map (λ y c p. ground (arith, c p)) xs (Covered-picked xs))
    | inr miss ↦ (
      (λ p. absurd (ground arith)),
      All-map (λ y c p. ground (arith, c p)) xs (Covered-picked xs),
    )
  ]

  any-append_right :
      (x : Ref) (rs ts : List Ref)
      → any (λ r. x == r) ts ≡ true
      → any (λ r. x == r) (rs ++ ts) ≡ true
  any-append_right x [] ts h = h
  any-append_right x (r ∷ rs) ts h = ground (arith, any-append_right x rs ts)

  any-removed : (rs xs : List Ref) → any test (apply (removals (rs ++ picked test xs)) xs) ≡ false
  any-removed rs xs =
      any-apply-removals (rs ++ picked test xs) xs
        (All-map (λ y c p. any-append_right y rs (picked test xs) (c p)) xs (Covered-picked xs))

  last_with-none : (xs : List Ref) → any test xs ≡ false → last_with test none xs ≡ none
  unfolding last_with
  last_with-none [] h = refl
  last_with-none (x ∷ xs) h = ground (arith, last_with-none xs)

module _ (L : SafeList) (Q : AsyncQueue Request) (blacklist : Blacklist) where
  open L use {Elements, visited, staged, remove, commit}
  open Q use {Queue, push}

  staged-stage_removals :
      (test : Ref → Bool) (rs : List Ref) (l : Elements)
      → staged (stage_removals L Q test rs l) ≡ staged l ++ removals (picked test rs)
  unfolding stage_removals
  staged-stage_removals test [] l = sym (append-nil (staged l))
  staged-stage_removals test (r ∷ rs) l = elim (Bool-cases (test r)) [
    | inl hit ↦ rw hit (
        staged-stage_removals test rs (remove l r false)
        ∙ rw (L.staged-remove l r)
            (append_assoc (staged l) (rem r ∷ []) (removals (picked test rs))))
    | inr miss ↦ rw miss (staged-stage_removals test rs l)
  ]

  -- After the commit nothing that passed the test is left.
  stage_removals-gone :
      (test : Ref → Bool) (s : Registry Elements Queue)
      → Inv L Q blacklist s
      → any test (visited (commit (stage_removals L Q test (visited s.proc_list) s.proc_list)))
        ≡ false
  stage_removals-gone test s v =
      let (rs, e) = v.waiting in
      let all_staged : staged (stage_removals L Q test (visited s.proc_list) s.proc_list)
          ≡ removals (rs ++ picked test (visited s.proc_list)) =
        rw (
          staged-stage_removals test (visited s.proc_list) s.proc_list,
          e,
          removals-append rs (picked test (visited s.proc_list)),
        ) in
      rw
        (
          L.visited-commit (stage_removals L Q test (visited s.proc_list) s.proc_list),
          all_staged,
          visited-stage_removals L Q blacklist test (visited s.proc_list) s.proc_list,
        )
        (any-removed test rs (visited s.proc_list))

  -- From a state that keeps the invariant, a synchronous removal leaves no entry with the pid,
  -- whatever removals were staged before it.
  pub rem_proc_entry-get_proc_entry :
      (pid : ℕ) (s : Registry Elements Queue)
      → Inv L Q blacklist s
      → get_proc_entry L Q pid (rem_proc_entry L Q pid true s) ≡ none
  unfolding get_proc_entry rem_proc_entry finish_removal commit_procs
  rem_proc_entry-get_proc_entry pid s v =
      last_with-none (has_pid L Q s pid) _ (stage_removals-gone (has_pid L Q s pid) s v)

  add_proc_entry_found :
      (fs : ProcFs) (pid : ℕ) (s : Registry Elements Queue)
      → any (has_pid L Q s pid) (visited s.proc_list) ≡ true
      → add_proc_entry L Q fs blacklist pid s ≡ s
  unfolding add_proc_entry
  add_proc_entry_found fs pid s h = rw h

  -- From a state that keeps the invariant, between an asynchronous removal of a listed process and
  -- the commit it asks for, an addition of the pid changes nothing: after the commit the process is
  -- not listed, although its addition was the last call for it.
  pub add_proc_entry_lost :
      (fs : ProcFs) (pid : ℕ) (s : Registry Elements Queue)
      → Inv L Q blacklist s
      → any (has_pid L Q s pid) (visited s.proc_list) ≡ true
      → let t = rem_proc_entry L Q pid false s in
        (add_proc_entry L Q fs blacklist pid t ≡ t)
        × (get_proc_entry L Q pid (commit_procs L Q (add_proc_entry L Q fs blacklist pid t)) ≡ none)
  unfolding get_proc_entry rem_proc_entry finish_removal commit_procs
  add_proc_entry_lost fs pid s v h =
      let still = add_proc_entry_found fs pid (rem_proc_entry L Q pid false s) (
        rw
          (visited-stage_removals L Q blacklist (has_pid L Q s pid) (visited s.proc_list)
            s.proc_list)
          h) in
      (
        still,
        rw still
            (last_with-none (has_pid L Q s pid) _ (stage_removals-gone (has_pid L Q s pid) s v)),
      )
