-- ===== src/Keyed/Entries.antt =====
-- What every listed entry keeps.
use taskmonitor.Common.{
  Bool, true, false, List, [], ◌∷◌, ◌++◌, inl, inr, Bool-cases, Outcome, ok, throws, traps, M,
  Bytes,
}
use taskmonitor.Keyed.{
  LineAct, skip, stop, refuse, raise, put, visit, upsert, hit, settle, next, row, read_rows,
}

module _ {K E : Type 0} (key : E → K) (same : K → K → Bool) (Q : E → Type 0) where
  abbrev pub Every : List E → Type 0
  Every [] = Unit {0}
  Every (e ∷ es) = Q e × Every es

  -- The entry that a line makes is right, and its update keeps an entry right.
  abbrev pub Sound : LineAct K E → Type 0
  Sound (put k fresh update) = Q fresh × ((e : E) → Q e → Q (update e).0)
  Sound _ = Unit {0}

  hit-Every :
      (p : E × Outcome (Unit {0})) (es : List E) (rest : (List E × Bool) × Outcome (Unit {0}))
      → Q p.0
      → Every es
      → Every rest.0.0
      → Every (hit key same p es rest).0.0
  hit-Every (e, ok u) es rest q v r = (q, r)
  hit-Every (e, throws x) es rest q v r = (q, v)
  hit-Every (e, traps) es rest q v r = (q, v)

  module _ (k : K) (update : M E (Unit {0})) (keeps : (e : E) → Q e → Q (update e).0) where
    visit-Every : (es : List E) → Every es → Every (visit key same k update es).0.0
    unfolding visit
    visit-Every [] v = tt
    visit-Every (e ∷ es) v = elim (Bool-cases (same (key e) k)) [
      | inl match ↦ rw match (
          hit-Every (update e) es (visit key same k update es) (keeps e v.0) v.1
            (visit-Every es v.1))
      | inr other ↦ rw other (v.0, visit-Every es v.1)
    ]

    Every-append : (es : List E) (e : E) → Every es → Q e → Every (es ++ e ∷ [])
    Every-append [] e v q = (q, tt)
    Every-append (x ∷ es) e v q = (v.0, Every-append es e v.1 q)

    settle-Every :
        (fresh : E) (x : (List E × Bool) × Outcome (Unit {0}))
        → Q fresh
        → Every x.0.0
        → Every (settle key same fresh update x).0
    settle-Every fresh ((es, true), ok u) q v = v
    settle-Every fresh ((es, false), ok u) q v = Every-append es (update fresh).0 v (keeps fresh q)
    settle-Every fresh ((es, found), throws x) q v = v
    settle-Every fresh ((es, found), traps) q v = v

    upsert-Every :
        (fresh : E) (es : List E) → Q fresh → Every es → Every (upsert key same k fresh update es).0
    unfolding upsert
    upsert-Every fresh es q v = settle-Every fresh (visit key same k update es) q (visit-Every es v)

  next-Every :
      (x : List E × Outcome (Unit {0})) (rest : M (List E) Bool)
      → ((fs : List E) → Every fs → Every (rest fs).0)
      → Every x.0
      → Every (next key same x rest).0
  next-Every (fs, ok u) rest h v = h fs v
  next-Every (fs, throws x) rest h v = v
  next-Every (fs, traps) rest h v = v

  row-Every :
      (a : LineAct K E) (rest : M (List E) Bool) (es : List E)
      → Sound a
      → ((fs : List E) → Every fs → Every (rest fs).0)
      → Every es
      → Every (row key same a rest es).0
  unfolding row
  row-Every skip rest es s h v = h es v
  row-Every stop rest es s h v = v
  row-Every refuse rest es s h v = v
  row-Every (raise x) rest es s h v = v
  row-Every (put k fresh update) rest es s h v =
      next-Every (upsert key same k fresh update es) rest h
        (upsert-Every k update s.1 fresh es s.0 v)

  -- However the reading ends, every entry is right.
  pub read_rows-Every :
      (act : Bytes → LineAct K E) (sound : (line : Bytes) → Sound (act line)) (lines : List Bytes)
      (es : List E)
      → Every es
      → Every (read_rows key same act lines es).0
  unfolding read_rows
  read_rows-Every act sound [] es v = v
  read_rows-Every act sound (line ∷ lines) es v =
      row-Every (act line) (read_rows key same act lines) es (sound line)
        (read_rows-Every act sound lines) v
