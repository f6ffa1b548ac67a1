-- ===== src/Keyed/Fresh.antt =====
-- Lines with new keys, one entry for each.
use mathlib.Core.List.{append_assoc, append-nil}
use taskmonitor.Common.{
  ◌≡◌, ◌↔◌, refl, ap, ◌∙◌, Bool, true, false, List, [], ◌∷◌, ◌++◌, map, any, arith, ok, M, Bytes,
}
use taskmonitor.Keyed.{LineAct, put, visit, upsert, row, read_rows}
use taskmonitor.Keyed.View.{keys}

module _ {K E : Type 0} (key : E → K) (same : K → K → Bool)
    (same_iff : (j k : K) → (same j k ≡ true) ↔ (j ≡ k)) where
  visit_fresh :
      (k : K) (update : M E (Unit {0})) (es : List E)
      → any (λ j. same j k) (keys key same es) ≡ false
      → visit key same k update es ≡ ((es, false), ok tt)
  unfolding visit
  visit_fresh k update [] h = refl
  visit_fresh k update (e ∷ es) h = ground (arith, visit_fresh k update es)

  upsert_fresh :
      (k : K) (fresh : E) (update : M E (Unit {0})) (es : List E) {e : E}
      → any (λ j. same j k) (keys key same es) ≡ false
      → update fresh ≡ (e, ok tt)
      → upsert key same k fresh update es ≡ (es ++ e ∷ [], ok tt)
  unfolding upsert
  upsert_fresh k fresh update es h u = rw (visit_fresh k update es h, u) refl

  -- A line's act makes the entry `e`.
  pub record Makes (a : LineAct K E) (e : E) : Type 0 where
    pub fresh : E
    pub update : M E (Unit {0})
    pub puts : a ≡ put (key e) fresh update
    pub made : update fresh ≡ (e, ok tt)

  -- No key of the one list stands in the other, and the first list is without repetition.
  abbrev pub NewKeys : List K → List E → Type 0
  NewKeys ks [] = Unit {0}
  NewKeys ks (e ∷ es) = (any (λ j. same j (key e)) ks ≡ false) × NewKeys (ks ++ key e ∷ []) es

  abbrev pub AllMake : (Bytes → LineAct K E) → (E → Bytes) → List E → Type 0
  AllMake act line [] = Unit {0}
  AllMake act line (e ∷ es) = Makes (act (line e)) e × AllMake act line es

  keys-append :
      (es : List E) (e : E) → keys key same (es ++ e ∷ []) ≡ keys key same es ++ key e ∷ []
  keys-append [] e = refl
  keys-append (x ∷ es) e = ap (λ ks. key x ∷ ks) (keys-append es e)

  -- The lines of new entries append the entries, in order.
  pub read_rows_fresh :
      (act : Bytes → LineAct K E) (line : E → Bytes) (ds es : List E)
      → AllMake act line ds
      → NewKeys (keys key same es) ds
      → read_rows key same act (map line ds) es ≡ (es ++ ds, ok true)
  unfolding read_rows row
  read_rows_fresh act line [] es m n = rw (append-nil es) refl
  read_rows_fresh act line (d ∷ ds) es m n =
      rw (m.0.puts, upsert_fresh (key d) m.0.fresh m.0.update es n.0 m.0.made)
        (read_rows_fresh act line ds (es ++ d ∷ []) m.1 (rw (keys-append es d) n.1)
          ∙ rw (append_assoc es (d ∷ []) ds) refl)

  -- Every line of a list makes its entry.
  abbrev pub AllMade : {P : Type 0} → (P → LineAct K E) → (P → E) → List P → Type 0
  AllMade act entry [] = Unit {0}
  AllMade act entry (p ∷ ps) = Makes (act p) (entry p) × AllMade act entry ps

  -- The lines of new entries append the entries, where a line is printed from more than its entry.
  pub read_rows_made :
      {P : Type 0} (act : Bytes → LineAct K E) (line : P → Bytes) (entry : P → E) (ps : List P)
      (es : List E)
      → AllMade (λ p. act (line p)) entry ps
      → NewKeys (keys key same es) (map entry ps)
      → read_rows key same act (map line ps) es ≡ (es ++ map entry ps, ok true)
  unfolding read_rows row
  read_rows_made act line entry [] es m n = rw (append-nil es) refl
  read_rows_made act line entry (p ∷ ps) es m n =
      rw (m.0.puts, upsert_fresh (key (entry p)) m.0.fresh m.0.update es n.0 m.0.made)
        (read_rows_made act line entry ps (es ++ entry p ∷ []) m.1
            (rw (keys-append es (entry p)) n.1)
          ∙ rw (append_assoc es (entry p ∷ []) (map entry ps)) refl)
