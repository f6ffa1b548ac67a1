-- ===== src/Common/Text/Decimal.antt =====
-- A number below 10^20 as decimal digits, one with a sign, and their conversion back.
use Prim.Native.Nat.{ℕ, zero, suc, ◌+◌, ◌-◌, ◌*◌, ◌/◌, ◌%◌, ◌^◌, ◌<◌}
use mathlib.Core.Path.{◌≡◌, refl, ap, ◌∙◌}
use mathlib.Core.Logic.{◌≢◌, inl, inr}
use mathlib.Core.Bool.{true, false}
use mathlib.Core.List.{[], ◌∷◌, ◌++◌}
use mathlib.Core.Option.{Option, none, some}
use native.Mathlib.Omega.{arith}
use taskmonitor.Common.Tests.{ltb, ◌==◌, if◌then◌else◌, Bool-cases}
use taskmonitor.Common.Lists.{any}
use taskmonitor.Common.Effects.{ok}
use taskmonitor.Common.Text.Spaced.{IsWord}
use taskmonitor.Common.Text.{
  Bytes, is_space, is_digit, digits_from, skip_spaces, sign_of, to_unsigned, stoul, u64, ℤ, pos,
  negsuc, to_int, stoi,
}

-- The last `f` digits, without leading zeros.
unfoldable pub numeral : ℕ → ℕ → Bytes
numeral zero n = []
numeral (suc f) n =
    let high = numeral f (n / 10) in
    let low = b'0' + n % 10 in if ltb n 10 then low ∷ [] else high ++ low ∷ []

abbrev pub decimal : ℕ → Bytes
decimal n = numeral 20 n

-- 10^f.
abbrev pub tens : ℕ → ℕ
tens zero = 1
tens (suc f) = 10 * tens f

abbrev AllDigits : Bytes → Type 0
AllDigits [] = Unit {0}
AllDigits (c ∷ cs) = (is_digit c ≡ true) × AllDigits cs

AllDigits-append : (s : Bytes) (c : ℕ) → AllDigits s → is_digit c ≡ true → AllDigits (s ++ c ∷ [])
AllDigits-append [] c h d = (d, tt)
AllDigits-append (x ∷ s) c h d = (h.0, AllDigits-append s c h.1 d)

low_digit : (n : ℕ) → is_digit (b'0' + n % 10) ≡ true
low_digit n = ground arith

pub numeral-AllDigits : (f n : ℕ) → AllDigits (numeral f n)
unfolding numeral
numeral-AllDigits zero n = tt
numeral-AllDigits (suc f) n = elim (Bool-cases (ltb n 10)) [
  | inl small ↦ rw small (low_digit n, tt)
  | inr large ↦
      rw large
        (AllDigits-append (numeral f (n / 10)) _ (numeral-AllDigits f (n / 10)) (low_digit n))
]

-- One more digit.
abbrev read_digit : Option ℕ → ℕ → ℕ
read_digit none c = c - b'0'
read_digit (some v) c = v * 10 + (c - b'0')

abbrev value : Option ℕ → Bytes → Option ℕ
value v [] = v
value v (c ∷ cs) = value (some (read_digit v c)) cs

digits_from-digit :
    (c : ℕ) (cs : Bytes) (v : Option ℕ)
    → is_digit c ≡ true
    → digits_from v (c ∷ cs) ≡ digits_from (some (read_digit v c)) cs
unfolding digits_from
digits_from-digit c cs none h = ground arith
digits_from-digit c cs (some n) h = ground arith

digits_from-value : (s : Bytes) (v : Option ℕ) → AllDigits s → digits_from v s ≡ value v s
unfolding digits_from
digits_from-value [] v h = refl
digits_from-value (c ∷ s) v h =
    digits_from-digit c s v h.0 ∙ digits_from-value s (some (read_digit v c)) h.1

value-append :
    (s : Bytes) (c : ℕ) (v : Option ℕ) → value v (s ++ c ∷ []) ≡ some (read_digit (value v s) c)
value-append [] c v = refl
value-append (x ∷ s) c v = value-append s c (some (read_digit v x))

value-numeral : (f n : ℕ) → 0 < f → n < tens f → value none (numeral f n) ≡ some n
unfolding numeral
value-numeral zero n p h = absurd (omega arith)
value-numeral (suc f) n p h = elim (Bool-cases (ltb n 10)) [
  | inl small ↦ rw small (ground arith)
  | inr large ↦ rw large (
      value-append (numeral f (n / 10)) (b'0' + n % 10) none
      ∙ rw (value-numeral f (n / 10) (rounds f h large) (omega arith)) (ap some (omega arith)))
]
  where
    rounds : (f : ℕ) → n < tens (suc f) → ltb n 10 ≡ false → 0 < f
    rounds zero h k = absurd (ground arith)
    rounds (suc f) h k = omega arith

append-ne-nil : (s : Bytes) (c : ℕ) → s ++ c ∷ [] ≢ []
append-ne-nil [] c h = cc
append-ne-nil (x ∷ s) c h = cc

pub numeral-ne-nil : (f n : ℕ) → 0 < f → numeral f n ≢ []
unfolding numeral
numeral-ne-nil zero n p = absurd (omega arith)
numeral-ne-nil (suc f) n p = elim (Bool-cases (ltb n 10)) [
  | inl small ↦ rw small (append-ne-nil [] (b'0' + n % 10))
  | inr large ↦ rw large (append-ne-nil (numeral f (n / 10)) (b'0' + n % 10))
]

-- Text that starts with a digit has no space and no sign before it.
bare : (c : ℕ) (cs : Bytes) → is_digit c ≡ true → sign_of (skip_spaces (c ∷ cs)) ≡ (false, c ∷ cs)
unfolding sign_of skip_spaces
bare c cs h = ground arith

to_unsigned-some : (n : ℕ) → n < u64 → to_unsigned false (some n) ≡ ok n
unfolding to_unsigned
to_unsigned-some n h = ground arith

stoul-digits :
    (s : Bytes) {n : ℕ} → s ≢ [] → AllDigits s → value none s ≡ some n → n < u64 → stoul s ≡ ok n
unfolding stoul
stoul-digits [] e d v h = absurd (e refl)
stoul-digits (c ∷ cs) {n} e d v h =
    rw (bare c cs d.0, digits_from-value (c ∷ cs) none d, v) (to_unsigned-some n h)

-- A number is read back from its digits.
pub stoul-decimal : (n : ℕ) → n < u64 → stoul (decimal n) ≡ ok n
stoul-decimal n h =
    stoul-digits (decimal n) (numeral-ne-nil 20 n (omega arith)) (numeral-AllDigits 20 n)
      (value-numeral 20 n (omega arith) (omega arith)) h

digits_no_space : (s : Bytes) → AllDigits s → any is_space s ≡ false
digits_no_space [] d = refl
digits_no_space (c ∷ cs) d = ground (arith, digits_no_space cs d.1)

pub decimal-IsWord : (n : ℕ) → IsWord (decimal n)
decimal-IsWord n = record {
  no_space = digits_no_space (decimal n) (numeral-AllDigits 20 n);
  some_byte = numeral-ne-nil 20 n (omega arith);
}

-- No other byte that is not a digit, either.
digits_no_mark :
    (ch : ℕ) (s : Bytes) → is_digit ch ≡ false → AllDigits s → any (λ c. c == ch) s ≡ false
digits_no_mark ch [] n d = refl
digits_no_mark ch (c ∷ cs) n d = ground (arith, digits_no_mark ch cs n d.1)

pub decimal_no_mark : (ch n : ℕ) → is_digit ch ≡ false → any (λ c. c == ch) (decimal n) ≡ false
decimal_no_mark ch n h = digits_no_mark ch (decimal n) h (numeral-AllDigits 20 n)

-- An `int` as the text that `%d` prints.
abbrev pub signed : ℤ → Bytes
signed (pos n) = decimal n
signed (negsuc n) = b'-' ∷ decimal (suc n)

-- 32 bits with a sign.
abbrev pub IsInt : ℤ → Type 0
IsInt (pos n) = n < 2 ^ 31
IsInt (negsuc n) = n < 2 ^ 31

to_int-pos : (n : ℕ) → n < 2 ^ 31 → to_int false (some n) ≡ ok (pos n)
unfolding to_int
to_int-pos zero h = refl
to_int-pos (suc n) h = ground arith

to_int-negsuc : (n : ℕ) → n < 2 ^ 31 → to_int true (some (suc n)) ≡ ok (negsuc n)
unfolding to_int
to_int-negsuc n h = ground arith

digits_from-decimal : (n : ℕ) → n < u64 → digits_from none (decimal n) ≡ some n
digits_from-decimal n h =
    digits_from-value (decimal n) none (numeral-AllDigits 20 n)
    ∙ value-numeral 20 n (omega arith) (omega arith)

bare_text : (s : Bytes) → s ≢ [] → AllDigits s → sign_of (skip_spaces s) ≡ (false, s)
bare_text [] e d = absurd (e refl)
bare_text (c ∷ cs) e d = bare c cs d.0

-- An `int` is read back from its text.
pub stoi-signed : (z : ℤ) → IsInt z → stoi (signed z) ≡ ok z
unfolding stoi
stoi-signed (pos n) h =
    rw
      (
        bare_text (decimal n) (numeral-ne-nil 20 n (omega arith)) (numeral-AllDigits 20 n),
        digits_from-decimal n (omega arith),
      )
      (to_int-pos n h)
stoi-signed (negsuc n) h = rw (digits_from-decimal (suc n) (omega arith)) (to_int-negsuc n h)

pub signed-IsWord : (z : ℤ) → IsWord (signed z)
signed-IsWord (pos n) = decimal-IsWord n
signed-IsWord (negsuc n) = record {
  no_space = ground (arith, (decimal-IsWord (suc n)).no_space);
  some_byte = λ e. cc;
}

pub signed_no_dot : (z : ℤ) → any (λ c. c == b'.') (signed z) ≡ false
signed_no_dot (pos n) = decimal_no_mark b'.' n refl
signed_no_dot (negsuc n) = ground (arith, decimal_no_mark b'.' (suc n) refl)
