-- ===== src/ProcRegistry/Lookup.antt =====
-- Looking an entry up by its pid.
use taskmonitor.Common.{
  ℕ, ◌≡◌, ◌≢◌, refl, sym, ap, ◌∙◌, subst, true, false, List, [], ◌∷◌, any, Option, none, some, ◌==◌,
  arith, if◌then◌else◌, inl, inr, Bool-cases, ==_iff,
}
use taskmonitor.Bswinfra.{AsyncQueue, SafeList, Ref}
use taskmonitor.Bswinfra.Changes.{All}
use taskmonitor.ProcRegistry.{Registry, Request, last_with, get_proc_entry}
use taskmonitor.ProcRegistry.Invariant.{Distinct, pid_of}

pub none_ne : {A : Type 0} {a : A} → Option.none ≢ some a
none_ne e = cc

module _ (f : Ref → ℕ) (n : ℕ) where
  -- None passes the test.
  last_with-none :
      (xs : List Ref) (ret : Option Ref)
      → any (λ r. f r == n) xs ≡ false
      → last_with (λ r. f r == n) ret xs ≡ ret
  unfolding last_with
  last_with-none [] ret h = refl
  last_with-none (x ∷ xs) ret h = ground (arith, last_with-none xs ret)

  abbrev pub Passes : Option Ref → Type 0
  Passes o = (y : Ref) → o ≡ some y → f y ≡ n

  pub last_with-Passes :
      (xs : List Ref) (ret : Option Ref) → Passes ret → Passes (last_with (λ r. f r == n) ret xs)
  unfolding last_with
  last_with-Passes [] ret h = h
  last_with-Passes (x ∷ xs) ret h = elim (Bool-cases (f x == n)) [
    | inl hit ↦ rw hit (last_with-Passes xs (some x) (λ y e. ground (arith, hit)))
    | inr miss ↦ rw miss (last_with-Passes xs ret h)
  ]

  -- The one that passes is found, and nothing else.
  abbrev pub Finds : Option Ref → Ref → Type 0
  Finds o x = if f x == n then (o ≡ some x) else (o ≢ some x)

  pub Finds-hit : (o : Option Ref) (x : Ref) → (f x == n) ≡ true → Finds o x → o ≡ some x
  Finds-hit o x e h = subst (λ b. if b then (o ≡ some x) else (o ≢ some x)) e h

  pub Finds-miss : (o : Option Ref) (x : Ref) → (f x == n) ≡ false → Finds o x → o ≢ some x
  Finds-miss o x e h = subst (λ b. if b then (o ≡ some x) else (o ≢ some x)) e h

  not_passing :
      (xs : List Ref) (o : Option Ref)
      → any (λ r. f r == n) xs ≡ false
      → Passes o
      → All (Finds o) xs
  not_passing [] o h k = tt
  not_passing (x ∷ xs) o h k = elim (Bool-cases (f x == n)) [
    | inl hit ↦ absurd (ground arith)
    | inr miss ↦ (rw miss (λ e. ground (arith, k x e, miss)), not_passing xs o (ground arith) k)
  ]

  last_with-Finds :
      (xs : List Ref) (ret : Option Ref)
      → Passes ret
      → Distinct f xs
      → All (Finds (last_with (λ r. f r == n) ret xs)) xs
  unfolding last_with
  last_with-Finds [] ret h d = tt
  last_with-Finds (x ∷ xs) ret h d = elim (Bool-cases (f x == n)) [
    | inl hit ↦
        let none_behind : any (λ r. f r == n) xs ≡ false =
          ap (λ k. any (λ r. f r == k) xs) (sym ((==_iff (f x) n).0 hit)) ∙ d.0 in
        let found : last_with (λ r. f r == n) ret (x ∷ xs) ≡ some x =
          rw hit (last_with-none xs (some x) none_behind) in
        subst (λ o. Finds o x × All (Finds o) xs) (sym found)
          (rw hit refl, not_passing xs (some x) none_behind (λ y e. ground (arith, hit)))
    | inr miss ↦
        let passed : last_with (λ r. f r == n) ret (x ∷ xs) ≡ last_with (λ r. f r == n) ret xs =
          rw miss refl in
        subst (λ o. Finds o x × All (Finds o) xs) (sym passed)
          (
            rw miss (λ e. ground (arith, last_with-Passes xs ret h x e, miss)),
            last_with-Finds xs ret h d.1,
          )
  ]

module _ (L : SafeList) (Q : AsyncQueue Request) where
  open L use {Elements, visited}
  open Q use {Queue}

  -- The entry with a pid is the one that is found, and no other.
  pub get_proc_entry-Finds :
      (pid : ℕ) (s : Registry Elements Queue)
      → Distinct (pid_of L Q none s) (visited s.proc_list)
      → All (Finds (pid_of L Q none s) pid (get_proc_entry L Q pid s)) (visited s.proc_list)
  unfolding get_proc_entry
  get_proc_entry-Finds pid s d =
      last_with-Finds (pid_of L Q none s) pid (visited s.proc_list) none (λ y e. absurd (none_ne e))
        d

  pub get_proc_entry-Passes :
      (pid : ℕ) (s : Registry Elements Queue)
      → Passes (pid_of L Q none s) pid (get_proc_entry L Q pid s)
  unfolding get_proc_entry
  get_proc_entry-Passes pid s =
      last_with-Passes (pid_of L Q none s) pid (visited s.proc_list) none
        (λ y e. absurd (none_ne e))
