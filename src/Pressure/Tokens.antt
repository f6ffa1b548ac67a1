-- ===== src/Pressure/Tokens.antt =====
-- A key, an equals sign and a value.
use mathlib.Core.List.{append_assoc, append-nil}
use taskmonitor.Common.{
  ℕ, ◌≡◌, ◌≢◌, refl, ap, ◌∙◌, false, List, [], ◌∷◌, ◌++◌, any, ◌==◌, arith, Bytes,
}
use taskmonitor.Pressure.{push_next, tokenize_from, tokenize}

-- No such byte, and not empty.
pub record IsPart (ch : ℕ) (s : Bytes) : Type 0 where
  pub no_mark : any (λ c. c == ch) s ≡ false
  pub some_byte : s ≢ []

push_next_part : (s : Bytes) (rest : List Bytes) → s ≢ [] → push_next s rest ≡ s ∷ rest
push_next_part [] rest h = absurd (h refl)
push_next_part (c ∷ cs) rest h = refl

tokenize_from-append :
    (ch : ℕ) (next s rest : Bytes)
    → any (λ c. c == ch) s ≡ false
    → tokenize_from ch next (s ++ rest) ≡ tokenize_from ch (next ++ s) rest
unfolding tokenize_from
tokenize_from-append ch next [] rest h = rw (append-nil next) refl
tokenize_from-append ch next (c ∷ s) rest h =
    ground (arith, tokenize_from-append ch (next ++ c ∷ []) s rest, append_assoc next (c ∷ []) s)

tokenize_from-mark :
    (ch : ℕ) (next rest : Bytes)
    → tokenize_from ch next (ch ∷ rest) ≡ push_next next (tokenize_from ch [] rest)
unfolding tokenize_from
tokenize_from-mark ch next rest = ground arith

tokenize_from-end : (ch : ℕ) (next : Bytes) → tokenize_from ch next [] ≡ push_next next []
unfolding tokenize_from
tokenize_from-end ch next = refl

last_part : (ch : ℕ) (v : Bytes) → IsPart ch v → tokenize_from ch [] v ≡ v ∷ []
last_part ch v p =
    ap (tokenize_from ch []) (rw (append-nil v) refl)
    ∙ tokenize_from-append ch [] v [] p.no_mark
    ∙ tokenize_from-end ch v
    ∙ push_next_part v [] p.some_byte

-- The two parts are found.
pub tokenize_pair :
    (ch : ℕ) (k v : Bytes) → IsPart ch k → IsPart ch v → tokenize (k ++ ch ∷ v) ch ≡ k ∷ v ∷ []
unfolding tokenize
tokenize_pair ch k v p q =
    tokenize_from-append ch [] k (ch ∷ v) p.no_mark
    ∙ tokenize_from-mark ch k v
    ∙ push_next_part k _ p.some_byte
    ∙ ap (λ rest. k ∷ rest) (last_part ch v q)
