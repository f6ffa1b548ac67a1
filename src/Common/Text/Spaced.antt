-- ===== src/Common/Text/Spaced.antt =====
-- Words with a space between them, and their reading.
use mathlib.Core.Path.{◌≡◌, refl, ap, ◌∙◌}
use mathlib.Core.Logic.{◌≢◌}
use mathlib.Core.Bool.{false}
use mathlib.Core.List.{List, [], ◌∷◌, ◌++◌, append_assoc, append-nil}
use native.Mathlib.Omega.{arith}
use taskmonitor.Common.Lists.{any}
use taskmonitor.Common.Text.{Bytes, is_space, flush, words_from, words}

-- No space, and not empty.
pub record IsWord (w : Bytes) : Type 0 where
  pub no_space : any is_space w ≡ false
  pub some_byte : w ≢ []

abbrev pub AllWords : List Bytes → Type 0
AllWords [] = Unit {0}
AllWords (w ∷ ws) = IsWord w × AllWords ws

-- The words with a space before each but the first.
abbrev pub spaced_behind : List Bytes → Bytes
spaced_behind [] = []
spaced_behind (w ∷ ws) = b' ' ∷ w ++ spaced_behind ws

abbrev pub spaced : List Bytes → Bytes
spaced [] = []
spaced (w ∷ ws) = w ++ spaced_behind ws

flush_word : (w : Bytes) (rest : List Bytes) → w ≢ [] → flush w rest ≡ w ∷ rest
flush_word [] rest h = absurd (h refl)
flush_word (c ∷ cs) rest h = refl

-- A word at the head of the text goes behind what was read of it.
words_from-append :
    (word w rest : Bytes)
    → any is_space w ≡ false
    → words_from word (w ++ rest) ≡ words_from (word ++ w) rest
unfolding words_from
words_from-append word [] rest h = rw (append-nil word) refl
words_from-append word (c ∷ w) rest h =
    ground (arith, words_from-append (word ++ c ∷ []) w rest, append_assoc word (c ∷ []) w)

words_from-spaced_behind :
    (w : Bytes) (ws : List Bytes) → w ≢ [] → AllWords ws → words_from w (spaced_behind ws) ≡ w ∷ ws
unfolding words_from
words_from-spaced_behind w [] h a = flush_word w [] h
words_from-spaced_behind w (v ∷ ws) h a =
    flush_word w _ h
    ∙ ap (λ rest. w ∷ rest)
        (words_from-append [] v (spaced_behind ws) a.0.no_space
          ∙ words_from-spaced_behind v ws a.0.some_byte a.1)

-- The words are read back.
pub words-spaced : (ws : List Bytes) → AllWords ws → words (spaced ws) ≡ ws
unfolding words words_from
words-spaced [] a = refl
words-spaced (w ∷ ws) a =
    words_from-append [] w (spaced_behind ws) a.0.no_space
    ∙ words_from-spaced_behind w ws a.0.some_byte a.1
