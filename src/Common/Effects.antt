-- ===== src/Common/Effects.antt =====
-- How a C++ call ends, and calls that change a state on the way. An exception or a trap keeps
-- the writes that were made before it.

use mathlib.Core.Path.{◌≡◌}
use mathlib.Core.List.{List, [], ◌∷◌}

pub data Exception : Type 0 where
  invalid_argument out_of_range runtime_error : Exception

-- `traps` is what ends the process: an integer division by zero, or a read of an object that is not
-- there.
pub data Outcome {ℓ} (A : Type ℓ) : Type ℓ where
  ok : A → Outcome A
  throws : Exception → Outcome A
  traps : Outcome A

pub ok-injective {ℓ} : {A : Type ℓ} {a b : A} → Outcome.ok a ≡ Outcome.ok b → a ≡ b
ok-injective h = cc

abbrev pub M : Type 0 → Type 0 → Type 0
M S A = S → S × Outcome A

abbrev pub and_then : {S A B : Type 0} → S → Outcome A → (A → M S B) → S × Outcome B
and_then s (ok a) f = f a s
and_then s (throws e) f = (s, throws e)
and_then s traps f = (s, traps)

infixl 5 ◌>>=◌ ◌>>◌
abbrev pub ◌>>=◌ : {S A B : Type 0} → M S A → (A → M S B) → M S B
◌>>=◌ m f s = and_then (m s).0 (m s).1 f

abbrev pub ◌>>◌ : {S B : Type 0} → M S (Unit {0}) → M S B → M S B
m >> k = m >>= λ _. k

abbrev pub pure : {S A : Type 0} → A → M S A
pure a s = (s, ok a)

-- A call that reads no state.
abbrev pub lift : {S A : Type 0} → Outcome A → M S A
lift o s = (s, o)

abbrev pub modify : {S : Type 0} → (S → S) → M S (Unit {0})
modify f s = (f s, ok tt)

-- A conversion and the field that its result goes to.
pub record Setter (S : Type 0) : Type 1 where
  pub Value : Type 0
  pub converted : Outcome Value
  pub written : Value → S → S

abbrev pub set_to : {S A : Type 0} → Outcome A → (A → S → S) → Setter S
set_to {A} o f = record { Value = A; converted = o; written = f }

-- The writes in turn; an exception of a conversion leaves the call.
abbrev pub write_one : {S A : Type 0} → Outcome A → (A → S → S) → M S (Unit {0}) → M S (Unit {0})
write_one (ok a) f rest s = rest (f a s)
write_one (throws e) f rest s = (s, throws e)
write_one traps f rest s = (s, traps)

unfoldable pub set_all : {S : Type 0} → List (Setter S) → M S (Unit {0})
set_all [] s = (s, ok tt)
set_all (x ∷ xs) s = write_one x.converted x.written (set_all xs) s

module _ {ℓ} {S : Type 0} (P : S → Type ℓ) where
  -- Every write keeps the predicate.
  abbrev pub Keep : List (Setter S) → Type ℓ
  Keep [] = Unit {ℓ}
  Keep (x ∷ xs) = ((a : x.Value) (s : S) → P s → P (x.written a s)) × Keep xs

  write_one-keeps :
      {A : Type 0} (o : Outcome A) (f : A → S → S) (rest : M S (Unit {0})) (s : S)
      → ((a : A) (t : S) → P t → P (f a t))
      → ((t : S) → P t → P (rest t).0)
      → P s
      → P (write_one o f rest s).0
  write_one-keeps (ok a) f rest s h g p = g (f a s) (h a s p)
  write_one-keeps (throws e) f rest s h g p = p
  write_one-keeps traps f rest s h g p = p

  -- Then so do all of them, however the call ends.
  pub set_all-keeps : (xs : List (Setter S)) (s : S) → Keep xs → P s → P (set_all xs s).0
  unfolding set_all
  set_all-keeps [] s h p = p
  set_all-keeps (x ∷ xs) s h p =
      write_one-keeps x.converted x.written (set_all xs) s h.0 (λ t q. set_all-keeps xs t h.1 q) p
