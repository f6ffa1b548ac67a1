-- ===== src/Bswinfra/Changes.antt =====
-- Commits of lists in which only removals are staged, as in the process registry.
use taskmonitor.Common.{
  ◌≡◌, refl, ap, Bool, false, List, [], ◌∷◌, ◌++◌, any, arith, ◌==◌, inl, inr, Bool-cases,
}
use taskmonitor.Bswinfra.{Ref, Change, add, rem, erase_ref, apply}

-- The first list is the second one with elements left out.
pub data Part : List Ref → List Ref → Type 0 where
  nothing : Part [] []
  drops : {r : Ref} {xs ys : List Ref} → Part xs ys → Part xs (r ∷ ys)
  keeps : {r : Ref} {xs ys : List Ref} → Part xs ys → Part (r ∷ xs) (r ∷ ys)

pub Part-refl : (xs : List Ref) → Part xs xs
Part-refl [] = nothing
Part-refl (x ∷ xs) = keeps (Part-refl xs)

pub Part-trans : {xs ys zs : List Ref} → Part xs ys → Part ys zs → Part xs zs
Part-trans p nothing = p
Part-trans p (drops q) = drops (Part-trans p q)
Part-trans (drops p) (keeps q) = drops (Part-trans p q)
Part-trans (keeps p) (keeps q) = keeps (Part-trans p q)

erase_ref-Part : (r : Ref) (xs : List Ref) → Part (erase_ref r xs) xs
unfolding erase_ref
erase_ref-Part r [] = nothing
erase_ref-Part r (x ∷ xs) = elim (Bool-cases (x == r)) [
  | inl hit ↦ rw hit (drops (erase_ref-Part r xs))
  | inr miss ↦ rw miss (keeps (erase_ref-Part r xs))
]

-- The removals of the given references, in order.
abbrev pub removals : List Ref → List Change
removals [] = []
removals (r ∷ rs) = rem r ∷ removals rs

pub removals-append : (rs ts : List Ref) → removals (rs ++ ts) ≡ removals rs ++ removals ts
removals-append [] ts = refl
removals-append (r ∷ rs) ts = ap (◌∷◌ (rem r)) (removals-append rs ts)

pub apply-removals-Part : (rs xs : List Ref) → Part (apply (removals rs) xs) xs
unfolding apply
apply-removals-Part [] xs = Part-refl xs
apply-removals-Part (r ∷ rs) xs =
    Part-trans (apply-removals-Part rs (erase_ref r xs)) (erase_ref-Part r xs)

-- An addition after the removals goes to the end.
pub apply-removals-add :
    (rs xs : List Ref) (r : Ref)
    → apply (removals rs ++ add r ∷ []) xs ≡ apply (removals rs) xs ++ r ∷ []
unfolding apply
apply-removals-add [] xs r = refl
apply-removals-add (t ∷ rs) xs r = apply-removals-add rs (erase_ref t xs) r

module _ {κ} (P : Ref → Type κ) where
  abbrev pub All : List Ref → Type κ
  All [] = Unit {κ}
  All (r ∷ rs) = P r × All rs

  pub All-Part : {xs ys : List Ref} → Part xs ys → All ys → All xs
  All-Part nothing h = h
  All-Part (drops p) h = All-Part p h.1
  All-Part (keeps p) h = (h.0, All-Part p h.1)

  pub All-append : (xs : List Ref) {r : Ref} → All xs → P r → All (xs ++ r ∷ [])
  All-append [] h p = (p, tt)
  All-append (x ∷ xs) h p = (h.0, All-append xs h.1 p)

pub any-Part :
    (test : Ref → Bool) {xs ys : List Ref} → Part xs ys → any test ys ≡ false → any test xs ≡ false
any-Part test nothing h = h
any-Part test (drops {r} {xs} {ys} p) h = any-Part test p (ground arith)
any-Part test (keeps {r} {xs} {ys} p) h = ground (arith, any-Part test p)
