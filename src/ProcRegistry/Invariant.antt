-- ===== src/ProcRegistry/Invariant.antt =====
-- The processes listed have pairwise different pids and names that are not blacklisted.
use taskmonitor.Common.{
  ℕ, ◌<◌, ◌≡◌, ◌≢◌, refl, sym, ◌∙◌, true, false, List, [], ◌∷◌, ◌++◌, any, arith, ◌==◌,
}
use taskmonitor.Bswinfra.{AsyncQueue, SafeList, Ref, apply}
use taskmonitor.Bswinfra.Changes.{
  Part, removals, removals-append, apply-removals-Part, apply-removals-add, All, All-Part, any-Part,
}
use taskmonitor.ProcRegistry.{Registry, Request, Blacklist, is_blacklisted, commit_procs}

-- The numbers of the references are pairwise different.
abbrev pub Distinct : (Ref → ℕ) → List Ref → Type 0
Distinct f [] = Unit {0}
Distinct f (r ∷ rs) = (any (λ t. f t == f r) rs ≡ false) × Distinct f rs

pub Distinct-Part : (f : Ref → ℕ) {xs ys : List Ref} → Part xs ys → Distinct f ys → Distinct f xs
Distinct-Part f Part.nothing d = d
Distinct-Part f (Part.drops p) d = Distinct-Part f p d.1
Distinct-Part f (Part.keeps {r} p) d = (any-Part (λ t. f t == f r) p d.0, Distinct-Part f p d.1)

pub any-append_other :
    (f : Ref → ℕ) (n : ℕ) (xs : List Ref) (r : Ref)
    → any (λ t. f t == n) xs ≡ false
    → f r ≢ n
    → any (λ t. f t == n) (xs ++ r ∷ []) ≡ false
any-append_other f n [] r h k = ground arith
any-append_other f n (x ∷ xs) r h k = ground (arith, any-append_other f n xs r)

pub Distinct-append :
    (f : Ref → ℕ) (xs : List Ref) (r : Ref)
    → any (λ t. f t == f r) xs ≡ false
    → Distinct f xs
    → Distinct f (xs ++ r ∷ [])
Distinct-append f [] r h d = (refl, tt)
Distinct-append f (x ∷ xs) r h d = (
  any-append_other f (f x) xs r d.0 (λ e. ground arith),
  Distinct-append f xs r (ground arith) d.1,
)

pub any-cong :
    (f g : Ref → ℕ) (n : ℕ) (xs : List Ref)
    → All (λ r. f r ≡ g r) xs
    → any (λ t. f t == n) xs ≡ any (λ t. g t == n) xs
any-cong f g n [] h = refl
any-cong f g n (x ∷ xs) h = rw (h.0, any-cong f g n xs h.1)

pub Distinct-cong :
    (f g : Ref → ℕ) (xs : List Ref) → All (λ r. f r ≡ g r) xs → Distinct f xs → Distinct g xs
Distinct-cong f g [] h d = d
Distinct-cong f g (x ∷ xs) h d =
    (rw (← h.0) (sym (any-cong f g (f x) xs h.1) ∙ d.0), Distinct-cong f g xs h.1 d.1)

module _ {P R : Ref → Type 0} (f : (r : Ref) → P r → R r) where
  pub All-map : (xs : List Ref) → All P xs → All R xs
  All-map [] h = h
  All-map (x ∷ xs) h = (f x h.0, All-map xs h.1)

module _ (L : SafeList) (Q : AsyncQueue Request) (blacklist : Blacklist) where
  open L use {Elements, visited, staged, append, remove, commit}
  open Q use {Queue}

  abbrev pub pid_of : Registry Elements Queue → Ref → ℕ
  pid_of s r = (s.entries r).pid

  abbrev pub Clean : Registry Elements Queue → Ref → Type 0
  Clean s r = is_blacklisted blacklist (s.entries r).info.comm ≡ false

  -- Only removals are staged.
  abbrev pub OnlyRemovals : Elements → Type 0
  OnlyRemovals l = (rs : List Ref) × (staged l ≡ removals rs)

  pub record Inv (s : Registry Elements Queue) : Type 0 where
    pub distinct : Distinct (pid_of s) (visited s.proc_list)
    pub clean : All (Clean s) (visited s.proc_list)
    pub known : All (λ r. r < s.fresh) (visited s.proc_list)
    pub waiting : OnlyRemovals s.proc_list

  pub commit-Part : (l : Elements) → OnlyRemovals l → Part (visited (commit l)) (visited l)
  commit-Part l (rs, e) = rw (L.visited-commit l, e) (apply-removals-Part rs (visited l))

  pub commit_procs-Inv : (s : Registry Elements Queue) → Inv s → Inv (commit_procs L Q s)
  unfolding commit_procs
  commit_procs-Inv s v =
      let part = commit-Part s.proc_list v.waiting in
      record {
        distinct = Distinct-Part (pid_of s) part v.distinct;
        clean = All-Part (Clean s) part v.clean;
        known = All-Part (λ r. r < s.fresh) part v.known;
        waiting = ([], L.staged-commit s.proc_list);
      }

  pub visited-append_now :
      (l : Elements) (r : Ref)
      → OnlyRemovals l
      → (xs : List Ref) × (visited (append l r true) ≡ xs ++ r ∷ []) × Part xs (visited l)
  visited-append_now l r (rs, e) = (
    apply (removals rs) (visited l),
    rw
        (
          L.append_now l r,
          L.visited-commit (append l r false),
          L.visited-append l r,
          L.staged-append l r,
          e,
        )
        (apply-removals-add rs (visited l) r),
    apply-removals-Part rs (visited l),
  )

  pub remove-OnlyRemovals :
      (l : Elements) (r : Ref) → OnlyRemovals l → OnlyRemovals (remove l r false)
  remove-OnlyRemovals l r (rs, e) =
      (rs ++ r ∷ [], L.staged-remove l r ∙ rw (e, removals-append rs (r ∷ [])))

  pub remove-Inv :
      (s : Registry Elements Queue) (r : Ref)
      → Inv s
      → Inv (record s { proc_list = remove s.proc_list r false })
  remove-Inv s r v = record {
    distinct = rw (L.visited-remove s.proc_list r) v.distinct;
    clean = rw (L.visited-remove s.proc_list r) v.clean;
    known = rw (L.visited-remove s.proc_list r) v.known;
    waiting = remove-OnlyRemovals s.proc_list r v.waiting;
  }

  pub empty-Inv :
      (s : Registry Elements Queue) → visited s.proc_list ≡ [] → staged s.proc_list ≡ [] → Inv s
  empty-Inv s e f = record {
    distinct = rw e tt;
    clean = rw e tt;
    known = rw e tt;
    waiting = ([], f);
  }
