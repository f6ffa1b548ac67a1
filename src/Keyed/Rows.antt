-- ===== src/Keyed/Rows.antt =====
-- The loop over the lines against a map.
use mathlib.Core.Path.{fun_ext}
use taskmonitor.Common.{
  ◌≡◌, ◌↔◌, refl, ap, ◌∙◌, Bool, true, List, [], ◌∷◌, Option, Outcome, ok, throws, traps, M, Bytes,
}
use taskmonitor.Keyed.{LineAct, skip, stop, refuse, raise, put, upsert, next, row, read_rows}
use taskmonitor.Keyed.View.{view, keys, Unique, updated, upsert-Unique}
use taskmonitor.Keyed.Refines.{upsert-view}

module _ {K E : Type 0} (key : E → K) (same : K → K → Bool)
    (same_iff : (j k : K) → (same j k ≡ true) ↔ (j ≡ k)) where
  -- A new entry has the line's key, and an update keeps it, whether it succeeds or not.
  abbrev pub Lawful : LineAct K E → Type 0
  Lawful (put k fresh update) = (key fresh ≡ k) × ((e : E) → key e ≡ k → key (update e).0 ≡ k)
  Lawful _ = Unit {0}

  -- What one line does to a map, before the lines behind it.
  abbrev pub act_on : LineAct K E → ((K → Option E) → K → Option E) → (K → Option E) → K → Option E
  act_on skip rest f = rest f
  act_on (put k fresh update) rest f = rest (updated key same k fresh update f)
  act_on _ rest f = f

  -- The same loop on a map.
  abbrev pub read_map : (Bytes → LineAct K E) → List Bytes → (K → Option E) → K → Option E
  read_map act [] f = f
  read_map act (line ∷ lines) f = act_on (act line) (read_map act lines) f

  module _ (act : Bytes → LineAct K E) (lawful : (line : Bytes) → Lawful (act line)) where
    next-Unique :
        (x : List E × Outcome (Unit {0})) (rest : M (List E) Bool)
        → ((fs : List E)
            → Unique key same (keys key same fs)
            → Unique key same (keys key same (rest fs).0))
        → Unique key same (keys key same x.0)
        → Unique key same (keys key same (next key same x rest).0)
    next-Unique (fs, ok u) rest h v = h fs v
    next-Unique (fs, throws x) rest h v = v
    next-Unique (fs, traps) rest h v = v

    next_done :
        (x : List E × Outcome (Unit {0})) (rest : M (List E) Bool)
        → (next key same x rest).1 ≡ ok true
        → (x.1 ≡ ok tt)
          × ((rest x.0).1 ≡ ok true)
          × (view key same (next key same x rest).0 ≡ view key same (rest x.0).0)
    next_done (fs, ok u) rest e = (refl, e, refl)
    next_done (fs, throws x) rest e = cc
    next_done (fs, traps) rest e = cc

    row-Unique :
        (a : LineAct K E) (lines : List Bytes) (es : List E)
        → Lawful a
        → ((fs : List E)
            → Unique key same (keys key same fs)
            → Unique key same (keys key same (read_rows key same act lines fs).0))
        → Unique key same (keys key same es)
        → Unique key same (keys key same (row key same a (read_rows key same act lines) es).0)
    unfolding row
    row-Unique skip lines es l h v = h es v
    row-Unique stop lines es l h v = v
    row-Unique refuse lines es l h v = v
    row-Unique (raise x) lines es l h v = v
    row-Unique (put k fresh update) lines es l h v =
        next-Unique _ _ h (upsert-Unique key same same_iff k update l.1 fresh l.0 es v)

    -- Whatever the lines hold and however the reading ends, no key is listed twice.
    pub read_rows-Unique :
        (lines : List Bytes) (es : List E)
        → Unique key same (keys key same es)
        → Unique key same (keys key same (read_rows key same act lines es).0)
    unfolding read_rows
    read_rows-Unique [] es v = v
    read_rows-Unique (line ∷ lines) es v =
        row-Unique (act line) lines es (lawful line) (read_rows-Unique lines) v

    row-view :
        (a : LineAct K E) (lines : List Bytes) (es : List E)
        → Lawful a
        → ((fs : List E)
            → (read_rows key same act lines fs).1 ≡ ok true
            → view key same (read_rows key same act lines fs).0
              ≡ read_map act lines (view key same fs))
        → (row key same a (read_rows key same act lines) es).1 ≡ ok true
        → view key same (row key same a (read_rows key same act lines) es).0
          ≡ act_on a (read_map act lines) (view key same es)
    unfolding row
    row-view skip lines es l h e = h es e
    row-view stop lines es l h e = refl
    row-view refuse lines es l h e = cc
    row-view (raise x) lines es l h e = cc
    row-view (put k fresh update) lines es l h e =
        let (fine, rest, eq) =
          next_done (upsert key same k fresh update es) (read_rows key same act lines) e in
        eq
        ∙ h (upsert key same k fresh update es).0 rest
        ∙ ap (read_map act lines)
            (fun_ext (λ j. upsert-view key same same_iff k update l.1 fresh es j l.0 fine))

    -- A file that is read to its end, or to the line that ends the loop, does to the list, seen as a
    -- map from keys, what its lines do to the map one after the other: each updates the entry with
    -- its key, or adds one, and no other.
    pub read_rows-view :
        (lines : List Bytes) (es : List E)
        → (read_rows key same act lines es).1 ≡ ok true
        → view key same (read_rows key same act lines es).0 ≡ read_map act lines (view key same es)
    unfolding read_rows
    read_rows-view [] es e = refl
    read_rows-view (line ∷ lines) es e =
        row-view (act line) lines es (lawful line) (read_rows-view lines) e
