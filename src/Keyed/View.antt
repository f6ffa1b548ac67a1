-- ===== src/Keyed/View.antt =====
-- The list of entries as a map from keys.
use taskmonitor.Common.{
  ◌≡◌, ◌↔◌, refl, sym, ap, ◌∙◌, Bool, true, false, List, [], ◌∷◌, ◌++◌, map, any, if◌then◌else◌,
  inl, inr, arith, Bool-cases, Option, none, some, Outcome, ok, throws, traps, M,
}
use taskmonitor.Keyed.{visit, upsert, hit, miss, settle}

module _ {K E : Type 0} (key : E → K) (same : K → K → Bool) where
  -- The first entry with the key.
  abbrev pub view : List E → K → Option E
  view [] k = none
  view (e ∷ es) k = if same (key e) k then some e else view es k

  -- No key stands twice.
  abbrev pub Unique : List K → Type 0
  Unique [] = Unit {0}
  Unique (k ∷ ks) = (any (λ j. same j k) ks ≡ false) × Unique ks

  abbrev pub keys : List E → List K
  keys es = map key es

  -- The old entry, or the new one where there is none.
  abbrev pub entry_or : E → Option E → E
  entry_or fresh none = fresh
  entry_or fresh (some e) = e

  -- The map with one entry updated.
  abbrev pub updated : K → E → M E (Unit {0}) → (K → Option E) → K → Option E
  updated k fresh update f j = if same k j then some (update (entry_or fresh (f k))).0 else f j

  module _ (same_iff : (j k : K) → (same j k ≡ true) ↔ (j ≡ k)) (k : K) (update : M E (Unit {0}))
      (keeps : (e : E) → key e ≡ k → key (update e).0 ≡ k) where
    -- The pairs of a visit.
    abbrev visited : List E → (List E × Bool) × Outcome (Unit {0})
    visited es = visit key same k update es

    hit-keys :
        (e : E) (es : List E) (p : E × Outcome (Unit {0}))
        (rest : (List E × Bool) × Outcome (Unit {0}))
        → key p.0 ≡ key e
        → keys rest.0.0 ≡ keys es
        → keys (hit key same p es rest).0.0 ≡ keys (e ∷ es)
    hit-keys e es (e', ok u) rest h r = rw (h, r) refl
    hit-keys e es (e', throws x) rest h r = rw h refl
    hit-keys e es (e', traps) rest h r = rw h refl

    pub visit-keys : (es : List E) → keys (visited es).0.0 ≡ keys es
    unfolding visit
    visit-keys [] = refl
    visit-keys (e ∷ es) = elim (Bool-cases (same (key e) k)) [
      | inl match ↦
          let at = (same_iff (key e) k).0 match in
          rw match (hit-keys e es (update e) (visited es) (keeps e at ∙ sym at) (visit-keys es))
      | inr other ↦ rw other (ap (λ ks. key e ∷ ks) (visit-keys es))
    ]

    hit-found :
        (p : E × Outcome (Unit {0})) (es : List E) (rest : (List E × Bool) × Outcome (Unit {0}))
        → (hit key same p es rest).0.1 ≡ true
    hit-found (e', ok u) es rest = refl
    hit-found (e', throws x) es rest = refl
    hit-found (e', traps) es rest = refl

    -- Where nothing was found, no entry has the key.
    pub visit_missed :
        (es : List E) → (visited es).0.1 ≡ false → any (λ j. same j k) (keys es) ≡ false
    unfolding visit
    visit_missed [] h = refl
    visit_missed (e ∷ es) h = elim (Bool-cases (same (key e) k)) [
      | inl match ↦ absurd (ground (arith, hit-found (update e) es (visited es)))
      | inr other ↦ ground (arith, visit_missed es)
    ]

    any_other :
        (j : K) (ks : List K)
        → same k j ≡ false
        → any (λ i. same i j) ks ≡ false
        → any (λ i. same i j) (ks ++ k ∷ []) ≡ false
    any_other j [] h e = ground arith
    any_other j (i ∷ ks) h e = ground (arith, any_other j ks h)

    apart : (j : K) → same j k ≡ false → same k j ≡ false
    apart j h = elim (Bool-cases (same k j)) [
      | inl hit ↦ absurd (ground (arith, (same_iff j k).1 (sym ((same_iff k j).0 hit))))
      | inr miss ↦ miss
    ]

    Unique-append :
        (ks : List K) → any (λ j. same j k) ks ≡ false → Unique ks → Unique (ks ++ k ∷ [])
    Unique-append [] h u = (refl, tt)
    Unique-append (j ∷ ks) h u =
        (any_other j ks (apart j (ground arith)) u.0, Unique-append ks (ground arith) u.1)

    keys-append : (es : List E) (e : E) → keys (es ++ e ∷ []) ≡ keys es ++ key e ∷ []
    keys-append [] e = refl
    keys-append (x ∷ es) e = ap (λ ks. key x ∷ ks) (keys-append es e)

    module _ (fresh : E) (fresh_key : key fresh ≡ k) where
      settle-Unique :
          (x : (List E × Bool) × Outcome (Unit {0}))
          → Unique (keys x.0.0)
          → (x.0.1 ≡ false → any (λ j. same j k) (keys x.0.0) ≡ false)
          → Unique (keys (settle key same fresh update x).0)
      settle-Unique ((es, true), ok u) v h = v
      settle-Unique ((es, false), ok u) v h =
          rw (keys-append es (update fresh).0, keeps fresh fresh_key)
            (Unique-append (keys es) (h refl) v)
      settle-Unique ((es, found), throws x) v h = v
      settle-Unique ((es, found), traps) v h = v

      -- Every outcome keeps the keys apart.
      pub upsert-Unique :
          (es : List E) → Unique (keys es) → Unique (keys (upsert key same k fresh update es).0)
      unfolding upsert
      upsert-Unique es v =
          settle-Unique (visited es) (rw (visit-keys es) v)
            (λ h. rw (visit-keys es) (visit_missed es h))
