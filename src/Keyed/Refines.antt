-- ===== src/Keyed/Refines.antt =====
-- An update of the list is an update of the map.
use taskmonitor.Common.{
  ◌≡◌, ◌≢◌, ◌↔◌, refl, sym, ap, ◌∙◌, Bool, true, false, List, [], ◌∷◌, ◌++◌, any, if◌then◌else◌,
  inl, inr, arith, Bool-cases, Option-cases, Option, none, some, Outcome, ok, throws, traps, M,
}
use taskmonitor.Keyed.{visit, upsert, hit, miss, settle}
use taskmonitor.Keyed.View.{view, keys, updated, visit_missed, visit-keys}

module _ {K E : Type 0} (key : E → K) (same : K → K → Bool)
    (same_iff : (j k : K) → (same j k ≡ true) ↔ (j ≡ k)) (k : K) (update : M E (Unit {0}))
    (keeps : (e : E) → key e ≡ k → key (update e).0 ≡ k) where
  abbrev visited : List E → (List E × Bool) × Outcome (Unit {0})
  visited es = visit key same k update es

  abbrev changed : Option E → Option E
  changed none = none
  changed (some e) = some (update e).0

  same_self : (j : K) → same j j ≡ true
  same_self j = (same_iff j j).1 refl

  -- A key that is the entry's is not `k`, unless the entry's is.
  other_key : (i j : K) → same i k ≡ false → same i j ≡ true → same k j ≡ false
  other_key i j h e = elim (Bool-cases (same k j)) [
    | inl hit ↦
        absurd (ground (arith, (same_iff i k).1 ((same_iff i j).0 e ∙ sym ((same_iff k j).0 hit))))
    | inr miss ↦ miss
  ]

  view-hit :
      (e : E) (es : List E) (p : E × Outcome (Unit {0}))
      (rest : (List E × Bool) × Outcome (Unit {0})) (j : K)
      → (hit key same p es rest).1 ≡ ok tt
      → (rest.1 ≡ ok tt)
        × (view key same (hit key same p es rest).0.0 j
            ≡ (if same (key p.0) j then some p.0 else view key same rest.0.0 j))
  view-hit e es (e', ok u) ((rest, found), o) j h = (h, refl)
  view-hit e es (e', throws x) ((rest, found), o) j h = cc
  view-hit e es (e', traps) ((rest, found), o) j h = cc

  view-visit :
      (es : List E) (j : K)
      → (visited es).1 ≡ ok tt
      → view key same (visited es).0.0 j
        ≡ (if same k j then changed (view key same es j) else view key same es j)
  unfolding visit
  view-visit [] j h = ground arith
  view-visit (e ∷ es) j h = elim (Bool-cases (same (key e) k)) [
    | inl match ↦
        let at = (same_iff (key e) k).0 match in
        let (fine, now) = view-hit e es (update e) (visited es) j (rw match at h) in
        rw match (now ∙ rw (keeps e at, at, view-visit es j fine) (ground arith))
    | inr other ↦ elim (Bool-cases (same (key e) j)) [
      | inl this ↦ rw (other, this, other_key (key e) j other this) refl
      | inr that ↦ rw (other, that) (view-visit es j (rw other at h))
    ]
  ]

  -- Whether an entry was found.
  view_missed :
      (es : List E) → any (λ j. same j k) (keys key same es) ≡ false → view key same es k ≡ none
  view_missed [] h = refl
  view_missed (e ∷ es) h = ground (arith, view_missed es)

  found_view :
      (es : List E) → (visited es).1 ≡ ok tt → (visited es).0.1 ≡ true → view key same es k ≢ none
  unfolding visit
  found_view [] h f = cc
  found_view (e ∷ es) h f = elim (Bool-cases (same (key e) k)) [
    | inl match ↦ ground arith
    | inr other ↦ λ n. found_view es (rw other at h) (rw other at f) (ground arith)
  ]

  view-last :
      (es : List E) (e : E) (j : K)
      → key e ≡ k
      → view key same es k ≡ none
      → view key same (es ++ e ∷ []) j ≡ (if same k j then some e else view key same es j)
  view-last [] e j at n = rw at refl
  view-last (x ∷ es) e j at n = elim (Bool-cases (same (key x) k)) [
    | inl match ↦ absurd (ground arith)
    | inr other ↦ elim (Bool-cases (same (key x) j)) [
      | inl this ↦ rw (this, other_key (key x) j other this) refl
      | inr that ↦ rw that (view-last es e j at (ground arith))
    ]
  ]

  -- At the key itself the two descriptions agree, where there is an entry.
  changed-updated :
      (fresh : E) (es : List E) (j : K)
      → view key same es k ≢ none
      → (if same k j then changed (view key same es j) else view key same es j)
        ≡ updated key same k fresh update (view key same es) j
  changed-updated fresh es j n = elim (Bool-cases (same k j)) [
    | inr other ↦ rw other refl
    | inl hit ↦ elim (Option-cases (view key same es k)) [
      | inl e ↦ absurd (n e)
      | inr (e, h) ↦ rw (← (same_iff k j).0 hit, same_self k, h) refl
    ]
  ]

  settled :
      (fresh : E) (es : List E) (j : K) (x : (List E × Bool) × Outcome (Unit {0}))
      → key fresh ≡ k
      → visited es ≡ x
      → (settle key same fresh update x).1 ≡ ok tt
      → view key same (settle key same fresh update x).0 j
        ≡ updated key same k fresh update (view key same es) j
  settled fresh es j ((fs, true), ok u) at e h =
      ap (λ x. view key same x.0.0 j) (sym e)
      ∙ view-visit es j (rw e refl)
      ∙ changed-updated fresh es j (found_view es (rw e refl) (rw e refl))
  settled fresh es j ((fs, false), ok u) at e h =
      let gone = visit_missed key same same_iff k update keeps es (rw e refl) in
      let none_there = view_missed es gone in
      let same_keys : keys key same fs ≡ keys key same es =
        ap (λ x. keys key same x.0.0) (sym e) ∙ visit-keys key same same_iff k update keeps es in
      let before : view key same fs j
          ≡ (if same k j then changed (view key same es j) else view key same es j) =
        ap (λ x. view key same x.0.0 j) (sym e) ∙ view-visit es j (rw e refl) in
      view-last fs (update fresh).0 j (keeps fresh at) (view_missed fs (rw same_keys gone))
      ∙ ground (arith)
  settled fresh es j ((fs, found), throws x) at e h = cc
  settled fresh es j ((fs, found), traps) at e h = cc

  -- An update that succeeds changes the map at its key, to the update of the old entry or of the
  -- new one where there is none, and nowhere else.
  pub upsert-view :
      (fresh : E) (es : List E) (j : K)
      → key fresh ≡ k
      → (upsert key same k fresh update es).1 ≡ ok tt
      → view key same (upsert key same k fresh update es).0 j
        ≡ updated key same k fresh update (view key same es) j
  unfolding upsert
  upsert-view fresh es j at h = settled fresh es j (visited es) at refl h
