-- ===== src/Common/Text.antt =====
-- Text as bytes, with the calls of the C++ library that the sources make on it: the tests
-- `find` and `rfind(_, 0)` against `npos`, `stream >> word` and `std::stoul`.
pub mod Decimal
pub mod Spaced
use Prim.Native.Char.{code}
use Prim.Native.Nat.{ℕ, zero, suc, ◌+◌, ◌-◌, ◌*◌, ◌%◌, ◌^◌, ◌<◌}
use Prim.Native.String.{String}
use mathlib.Core.Path.{◌≡◌, refl}
use mathlib.Core.Logic.{◌↔◌, ◌≢◌}
use mathlib.Core.Bool.{Bool, true, false, ◌&&◌, ◌||◌}
use mathlib.Core.List.{List, [], ◌∷◌, ◌++◌}
use mathlib.Core.Option.{Option, none, some}
use native.Mathlib.Omega.{arith}
use taskmonitor.Common.Tests.{ltb, leb, ◌==◌, if◌then◌else◌}
use taskmonitor.Common.Effects.{Outcome, ok, throws, traps, invalid_argument, out_of_range}

abbrev pub Bytes : Type 0
Bytes = List ℕ

-- The code points of a text: its bytes, since every literal is ASCII.
abbrev pub codes : String → Bytes
codes String.[] = []
codes (String.◌∷◌ c s) = code c ∷ codes s

-- `a == b` on `std::string`.
unfoldable pub equal : Bytes → Bytes → Bool
equal [] [] = true
equal [] (d ∷ word) = false
equal (c ∷ text) [] = false
equal (c ∷ text) (d ∷ word) = c == d && equal text word

pub equal_iff : (text word : Bytes) → (equal text word ≡ true) ↔ (text ≡ word)
unfolding equal
equal_iff [] [] = ground arith
equal_iff [] (d ∷ word) = ground arith
equal_iff (c ∷ text) [] = ground arith
equal_iff (c ∷ text) (d ∷ word) = ground (arith, equal_iff text word)

-- `line.rfind(p, 0) != npos`.
unfoldable pub has_prefix : Bytes → Bytes → Bool
has_prefix [] line = true
has_prefix (x ∷ p) [] = false
has_prefix (x ∷ p) (y ∷ line) = x == y && has_prefix p line

-- `line.find(p) != npos`.
unfoldable pub contains : Bytes → Bytes → Bool
unfolding has_prefix
contains p [] = has_prefix p []
contains p (c ∷ line) = has_prefix p (c ∷ line) || contains p line

-- Two prefixes of one line are prefixes of one another.
pub has_prefix-has_prefix :
    (p q line : Bytes)
    → has_prefix p line ≡ true
    → has_prefix q line ≡ true
    → (has_prefix p q || has_prefix q p) ≡ true
unfolding has_prefix
has_prefix-has_prefix [] q line h k = refl
has_prefix-has_prefix (x ∷ p) [] line h k = refl
has_prefix-has_prefix (x ∷ p) (y ∷ q) [] h k = cc
has_prefix-has_prefix (x ∷ p) (y ∷ q) (c ∷ line) h k =
    ground (arith, has_prefix-has_prefix p q line)

-- `std::isspace` in the C locale.
abbrev pub is_space : ℕ → Bool
is_space c = c == b' ' || leb 9 c && leb c 13

abbrev flush : Bytes → List Bytes → List Bytes
flush [] rest = rest
flush (c ∷ cs) rest = (c ∷ cs) ∷ rest

words_from : Bytes → Bytes → List Bytes
words_from word [] = flush word []
words_from word (c ∷ cs) = elim (is_space c) [
  | true ↦ flush word (words_from [] cs)
  | false ↦ words_from (word ++ c ∷ []) cs
]

-- `while (stream >> buf) tokens.push_back(buf);`
unfoldable pub words : Bytes → List Bytes
unfolding words_from
words = words_from []

abbrev pub is_digit : ℕ → Bool
is_digit c = leb b'0' c && leb c b'9'

-- The digits at the head of the text, after `n`; `none` where there is none.
digits_from : Option ℕ → Bytes → Option ℕ
digits_from n [] = n
digits_from n (c ∷ cs) = elim (is_digit c) [
  | false ↦ n
  | true ↦ elim n [
    | none ↦ digits_from (some (c - b'0')) cs
    | some v ↦ digits_from (some (v * 10 + (c - b'0'))) cs
  ]
]

unfoldable pub skip_spaces : Bytes → Bytes
skip_spaces [] = []
skip_spaces (c ∷ cs) = if is_space c then skip_spaces cs else c ∷ cs

abbrev pub u64 : ℕ
u64 = 2 ^ 64

-- The sign, and the text after it.
unfoldable pub sign_of : Bytes → Bool × Bytes
sign_of [] = (false, [])
sign_of (c ∷ cs) =
    if c == b'-' then (true, cs) else if c == b'+' then (false, cs) else (false, c ∷ cs)

-- A magnitude of 64 bits, negated as an unsigned number.
to_unsigned : Bool → Option ℕ → Outcome ℕ
to_unsigned negative none = throws invalid_argument
to_unsigned negative (some v) =
    if ltb v u64 then ok (if negative then (u64 - v) % u64 else v) else throws out_of_range

-- `std::stoul` and `std::stoull` with a 64-bit `unsigned long`. Text after the digits is ignored.
unfoldable pub stoul : Bytes → Outcome ℕ
unfolding digits_from skip_spaces sign_of to_unsigned
stoul s =
    let (negative, rest) = sign_of (skip_spaces s) in to_unsigned negative (digits_from none rest)

to_unsigned-lt : (negative : Bool) (n : Option ℕ) {v : ℕ} → to_unsigned negative n ≡ ok v → v < u64
unfolding to_unsigned
to_unsigned-lt negative none h = cc
to_unsigned-lt negative (some w) h = ground arith

-- `int`, by its value.
pub data ℤ : Type 0 where
  pos negsuc : ℕ → ℤ

-- A magnitude of 31 bits; a negative one may be 2^31.
to_int : Bool → Option ℕ → Outcome ℤ
to_int negative none = throws invalid_argument
to_int negative (some zero) = ok (pos 0)
to_int negative (some (suc v)) =
    if ltb v (if negative then 2 ^ 31 else 2 ^ 31 - 1)
    then ok (if negative then negsuc v else pos (suc v))
    else throws out_of_range

-- `std::stoi`.
unfoldable pub stoi : Bytes → Outcome ℤ
unfolding digits_from skip_spaces sign_of to_int
stoi s = let (negative, rest) = sign_of (skip_spaces s) in to_int negative (digits_from none rest)

-- A magnitude of 63 bits; a negative one may be 2^63.
to_long : Bool → Option ℕ → Outcome ℤ
to_long negative none = throws invalid_argument
to_long negative (some zero) = ok (pos 0)
to_long negative (some (suc v)) =
    if ltb v (if negative then 2 ^ 63 else 2 ^ 63 - 1)
    then ok (if negative then negsuc v else pos (suc v))
    else throws out_of_range

-- `std::stol` with a 64-bit `long`.
unfoldable pub stol : Bytes → Outcome ℤ
unfolding digits_from skip_spaces sign_of to_long
stol s = let (negative, rest) = sign_of (skip_spaces s) in to_long negative (digits_from none rest)

-- What `stoul` returns fits 64 bits.
pub stoul-lt : (s : Bytes) {v : ℕ} → stoul s ≡ ok v → v < u64
unfolding stoul
stoul-lt s h =
    let (negative, rest) = sign_of (skip_spaces s) in
    to_unsigned-lt negative (digits_from none rest) h

stoul_kb : stoul (codes " 42 kB") ≡ ok 42
unfolding stoul
stoul_kb = refl

stoul_negative : stoul (codes "-1") ≡ ok (u64 - 1)
unfolding stoul
stoul_negative = refl

words_line : words (codes "MemTotal:   16 kB") ≡ codes "MemTotal:" ∷ codes "16" ∷ codes "kB" ∷ []
unfolding words
words_line = refl

stoi_negative : stoi (codes "-256") ≡ ok (negsuc 255)
unfolding stoi
stoi_negative = refl

to_unsigned-traps : (negative : Bool) (n : Option ℕ) → to_unsigned negative n ≢ traps
unfolding to_unsigned
to_unsigned-traps negative none h = cc
to_unsigned-traps negative (some w) h = ground arith

pub stoul-traps : (s : Bytes) → stoul s ≢ traps
unfolding stoul
stoul-traps s h =
    let (negative, rest) = sign_of (skip_spaces s) in
    to_unsigned-traps negative (digits_from none rest) h

to_int-traps : (negative : Bool) (n : Option ℕ) → to_int negative n ≢ traps
unfolding to_int
to_int-traps negative none h = cc
to_int-traps negative (some zero) h = cc
to_int-traps negative (some (suc v)) h = ground arith

pub stoi-traps : (s : Bytes) → stoi s ≢ traps
unfolding stoi
stoi-traps s h =
    let (negative, rest) = sign_of (skip_spaces s) in
    to_int-traps negative (digits_from none rest) h

to_long-traps : (negative : Bool) (n : Option ℕ) → to_long negative n ≢ traps
unfolding to_long
to_long-traps negative none h = cc
to_long-traps negative (some zero) h = cc
to_long-traps negative (some (suc v)) h = ground arith

pub stol-traps : (s : Bytes) → stol s ≢ traps
unfolding stol
stol-traps s h =
    let (negative, rest) = sign_of (skip_spaces s) in
    to_long-traps negative (digits_from none rest) h
