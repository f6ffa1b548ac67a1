-- ===== src/LineTable/Apart.antt =====
-- Tables of prefixes in which no line can be taken for another field.
use taskmonitor.Common.{
  ◌≡◌, ◌≢◌, ◌↔◌, Bool, true, false, ◌||◌, ◌&&◌, not, List, [], ◌∷◌, some, arith, Bytes, has_prefix,
  has_prefix-has_prefix,
}
use taskmonitor.LineTable.{classify}

module _ {D : Type 0} where
  -- The table names the field `d` by the prefix `p`.
  pub data Row (p : Bytes) (d : D) : List (Bytes × D) → Type 0 where
    here : {rest : List (Bytes × D)} → Row p d ((p, d) ∷ rest)
    there : {r : Bytes × D} {rest : List (Bytes × D)} → Row p d rest → Row p d (r ∷ rest)

module _ {D : Type 0} (dec : Discrete D) where
  abbrev pub same : D → D → Bool
  same d e = elim (dec d e) [ yes _ ↦ true | no _ ↦ false ]

  -- Neither prefix begins the other, and the fields differ.
  abbrev pub rows_apart : Bytes → D → Bytes → D → Bool
  rows_apart p d q e = not (has_prefix p q || has_prefix q p) && not (same d e)

  unfoldable pub row_apart : Bytes → D → List (Bytes × D) → Bool
  row_apart p d [] = true
  row_apart p d ((q, e) ∷ rest) = rows_apart p d q e && row_apart p d rest

  unfoldable pub table_apart : List (Bytes × D) → Bool
  unfolding row_apart
  table_apart [] = true
  table_apart ((p, d) ∷ rest) = row_apart p d rest && table_apart rest

  row_apart-Row :
      (p : Bytes) (d : D) {q : Bytes} {e : D} {rest : List (Bytes × D)}
      → Row q e rest
      → row_apart p d rest ≡ true
      → rows_apart p d q e ≡ true
  unfolding row_apart
  row_apart-Row p d here h = ground arith
  row_apart-Row p d (there {r = (q', e')} m) h = row_apart-Row p d m (ground arith)

  classify-row_apart :
      (p : Bytes) (d : D) (rest : List (Bytes × D)) (line : Bytes)
      → row_apart p d rest ≡ true
      → classify rest line ≢ some d
  unfolding row_apart classify
  classify-row_apart p d [] line h e = cc
  classify-row_apart p d ((q, x) ∷ rest) line h e = ground (arith, classify-row_apart p d rest line)

  named_of_prefix :
      (line : Bytes) {p : Bytes} {d : D} {table : List (Bytes × D)}
      → Row p d table
      → table_apart table ≡ true
      → has_prefix p line ≡ true
      → classify table line ≡ some d
  unfolding table_apart classify
  named_of_prefix line here h k = rw k
  named_of_prefix line {p} {d} (there {r = (q, e)} {rest = rest} m) h k =
      ground (arith, named_of_prefix line m, row_apart-Row q e m, has_prefix-has_prefix q p line)

  prefix_of_named :
      (line : Bytes) {p : Bytes} {d : D} {table : List (Bytes × D)}
      → Row p d table
      → table_apart table ≡ true
      → classify table line ≡ some d
      → has_prefix p line ≡ true
  unfolding table_apart classify
  prefix_of_named line {p} {d} (here {rest = rest}) h k =
      ground (arith, classify-row_apart p d rest line)
  prefix_of_named line {p} {d} (there {r = (q, e)} {rest = rest} m) h k =
      ground (arith, prefix_of_named line m, row_apart-Row q e m)

  -- In a table whose rows are apart, a line names a field exactly when its prefix fits.
  pub classify-iff-has_prefix :
      (line : Bytes) {p : Bytes} {d : D} {table : List (Bytes × D)}
      → Row p d table
      → table_apart table ≡ true
      → (classify table line ≡ some d) ↔ (has_prefix p line ≡ true)
  classify-iff-has_prefix line m h = (prefix_of_named line m h, named_of_prefix line m h)
