-- ===== src/LineTable/Reading.antt =====
-- What the loop leaves in the fields, against a description that looks at one field's prefix only.
use taskmonitor.Common.{
  ℕ, ◌≡◌, ◌≢◌, refl, sym, ap, ◌∙◌, subst, true, false, ◌⊎◌, inl, inr, List, [], ◌∷◌, none, some,
  arith, Option-cases, Bytes, has_prefix, words, stoul, Outcome, ok, throws, traps,
}
use taskmonitor.LineTable.{Fields, store, classify, store_word, read_line, read_lines}
use taskmonitor.LineTable.Apart.{Row, table_apart, classify-iff-has_prefix}

-- The line has a second word, and it converts to `v`.
pub record Carries (line : Bytes) (v : ℕ) : Type 0 where
  pub label : Bytes
  pub number : Bytes
  pub rest : List Bytes
  pub splits : words line ≡ label ∷ number ∷ rest
  pub converts : stoul number ≡ ok v

-- From the value `v`, the lines that begin with `p` bring the field to `w`: the last of them counts.
pub data Reports (p : Bytes) : List Bytes → ℕ → ℕ → Type 0 where
  end : {v w : ℕ} → v ≡ w → Reports p [] v w
  other :
      {line : Bytes} {lines : List Bytes} {v w : ℕ}
      → has_prefix p line ≡ false
      → Reports p lines v w
      → Reports p (line ∷ lines) v w
  own :
      {line : Bytes} {lines : List Bytes} {v u w : ℕ}
      → has_prefix p line ≡ true
      → Carries line u
      → Reports p lines u w
      → Reports p (line ∷ lines) v w

module _ {D : Type 0} (dec : Discrete D) where
  pub store_self : (d : D) (v : ℕ) (s : Fields D) → store dec d v s d ≡ v
  unfolding store
  store_self d v s = ground arith

  pub store_ne : (d e : D) (v : ℕ) (s : Fields D) → e ≢ d → store dec d v s e ≡ s e
  unfolding store
  store_ne d e v s h = ground arith

  -- A word that is stored without an error is the line's number.
  pub record Stored (d : D) (line : Bytes) (s t : Fields D) : Type 0 where
    pub value : ℕ
    pub carries : Carries line value
    pub stores : t ≡ store dec d value s

  store_word-Stored :
      (d : D) (line : Bytes) (ws : List Bytes) (s : Fields D)
      → words line ≡ ws
      → (store_word dec d ws s).1 ≡ ok true
      → Stored d line s (store_word dec d ws s).0
  unfolding store_word
  store_word-Stored d line [] s e h = cc
  store_word-Stored d line (t ∷ []) s e h = cc
  store_word-Stored d line (t ∷ u ∷ rest) s e h = converted (stoul u) refl
    where
      converted :
          (o : Outcome ℕ) → stoul u ≡ o → Stored d line s (store_word dec d (t ∷ u ∷ rest) s).0
      converted (ok v) c = record {
        value = v;
        carries = record { label = t; number = u; rest = rest; splits = e; converts = c };
        stores = rw c;
      }
      converted (throws x) c = absurd (ground arith)
      converted traps c = absurd (ground arith)

  -- A line that is read without an error is skipped, or stored in the field that it names.
  read_line-cases :
      (table : List (Bytes × D)) (line : Bytes) (s : Fields D)
      → (read_line dec table line s).1 ≡ ok true
      → ((classify table line ≡ none) × ((read_line dec table line s).0 ≡ s))
        ⊎ ((e : D) × (classify table line ≡ some e)
            × Stored e line s (read_line dec table line s).0)
  unfolding read_line
  read_line-cases table line s h = elim (Option-cases (classify table line)) [
    | inl c ↦ inl (c, rw (c, read_line))
    | inr (e, c) ↦
        inr (e, c, rw (c, read_line) (store_word-Stored e line (words line) s refl (ground arith)))
  ]

  read_lines-cons :
      (table : List (Bytes × D)) (line : Bytes) (lines : List Bytes) (s : Fields D)
      → (read_lines dec table (line ∷ lines) s).1 ≡ ok true
      → ((read_line dec table line s).1 ≡ ok true)
        × (read_lines dec table (line ∷ lines) s
            ≡ read_lines dec table lines (read_line dec table line s).0)
  unfolding read_lines
  read_lines-cons table line lines s h = ground arith

  Reports-cons :
      (table : List (Bytes × D)) {p : Bytes} {d : D} (line : Bytes) (lines : List Bytes)
      (s t : Fields D) (w : ℕ)
      → Row p d table
      → table_apart dec table ≡ true
      → ((classify table line ≡ none) × (t ≡ s))
        ⊎ ((e : D) × (classify table line ≡ some e) × Stored e line s t)
      → Reports p lines (t d) w
      → Reports p (line ∷ lines) (s d) w
  Reports-cons table {p} {d} line lines s t w m apart (inl (c, e)) r =
      other (ground (arith, classify-iff-has_prefix dec line m apart)) (rw e at r)
  Reports-cons table {p} {d} line lines s t w m apart (inr (e, c, st)) r = elim (dec e d) [
    | yes here ↦ own ((classify-iff-has_prefix dec line m apart).0 (c ∙ ap some here)) st.carries (
        subst (λ u. Reports p lines u w)
          (ap (λ f. f d) st.stores ∙ rw (← here) (store_self e st.value s)) r)
    | no away ↦ other (ground (arith, classify-iff-has_prefix dec line m apart)) (
        subst (λ u. Reports p lines u w)
          (ap (λ f. f d) st.stores ∙ store_ne e d st.value s (λ x. away (sym x))) r)
  ]

  -- A file that is read without a parse error and without an exception leaves in each field of
  -- the table the number of its last line there, or the old value where it has none.
  pub read_lines-Reports :
      (table : List (Bytes × D)) {p : Bytes} {d : D} (lines : List Bytes) (s : Fields D)
      → Row p d table
      → table_apart dec table ≡ true
      → (read_lines dec table lines s).1 ≡ ok true
      → Reports p lines (s d) ((read_lines dec table lines s).0 d)
  unfolding read_lines
  read_lines-Reports table [] s m apart h = end refl
  read_lines-Reports table {p} {d} (line ∷ lines) s m apart h =
      let (first, eq) = read_lines-cons table line lines s h in
      let t = (read_line dec table line s).0 in
      rw eq (
        Reports-cons table line lines s t _ m apart (read_line-cases table line s first)
          (read_lines-Reports table lines t m apart (rw eq at h)))

  -- No line stops the loop: each is of no account, or carries a number.
  pub data Readable (table : List (Bytes × D)) : List Bytes → Type 0 where
    end : Readable table []
    foreign :
        {line : Bytes} {lines : List Bytes}
        → classify table line ≡ none
        → Readable table lines
        → Readable table (line ∷ lines)
    field :
        {line : Bytes} {lines : List Bytes} {v : ℕ}
        → Carries line v
        → Readable table lines
        → Readable table (line ∷ lines)

  read_line_field :
      (table : List (Bytes × D)) (line : Bytes) (s : Fields D) {v : ℕ}
      → Carries line v
      → (read_line dec table line s).1 ≡ ok true
  unfolding read_line
  read_line_field table line s c = elim (Option-cases (classify table line)) [
    | inl e ↦ rw (e, read_line)
    | inr (d, e) ↦ rw (e, read_line) (rw (c.splits, store_word) (rw c.converts))
  ]

  read_lines_next :
      (table : List (Bytes × D)) (line : Bytes) (lines : List Bytes) (s : Fields D)
      → (read_line dec table line s).1 ≡ ok true
      → (read_lines dec table lines (read_line dec table line s).0).1 ≡ ok true
      → (read_lines dec table (line ∷ lines) s).1 ≡ ok true
  unfolding read_lines
  read_lines_next table line lines s h k = ground arith

  -- Every readable file is read to its end: the loop returns `true`, and throws nothing.
  pub read_lines-ok :
      (table : List (Bytes × D)) {lines : List Bytes} (s : Fields D)
      → Readable table lines
      → (read_lines dec table lines s).1 ≡ ok true
  unfolding read_lines
  read_lines-ok table s end = refl
  read_lines-ok table s (foreign {line} {lines} e r) =
      read_lines_next table line lines s (unfold read_line in rw (e, read_line))
        (read_lines-ok table _ r)
  read_lines-ok table s (field {line} {lines} c r) =
      read_lines_next table line lines s (read_line_field table line s c) (read_lines-ok table _ r)
