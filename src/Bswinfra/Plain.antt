-- ===== src/Bswinfra/Plain.antt =====
-- The interfaces filled by plain lists: a queue that accepts every request up to a limit, and a
-- list beside its staged changes.
use taskmonitor.Common.{
  ℕ, ◌≡◌, refl, Bool, true, false, List, [], ◌∷◌, ◌++◌, Option, none, some, arith, ltb, length,
  if◌then◌else◌,
}
use taskmonitor.Bswinfra.{AsyncQueue, SafeList, Ref, Change, add, rem, apply}

module _ {R : Type 0} (limit : ℕ) where
  pub push_below : List R → R → List R × Bool
  push_below q r = if ltb (length q) limit then (q ++ r ∷ [], true) else (q, false)

  pub push_below_accepted :
      (q : List R) (r : R) → (push_below q r).1 ≡ true → (push_below q r).0 ≡ q ++ r ∷ []
  unfolding push_below
  push_below_accepted q r h = ground arith

  pub push_below_refused :
      (q : List R) (r : R) → (push_below q r).1 ≡ false → (push_below q r).0 ≡ q
  unfolding push_below
  push_below_refused q r h = ground arith

module _ {R : Type 0} where
  pub take_front : List R → Option (R × List R)
  take_front [] = none
  take_front (r ∷ q) = some (r, q)

  pub take_front-none : (q : List R) → take_front q ≡ none → q ≡ []
  unfolding take_front
  take_front-none [] h = refl
  take_front-none (r ∷ q) h = cc

  pub take_front-some :
      (q : List R) {r : R} {q' : List R} → take_front q ≡ some (r, q') → q ≡ r ∷ q'
  unfolding take_front
  take_front-some [] h = cc
  take_front-some (r ∷ q) h = cc

unfoldable pub plain_queue : (R : Type 0) → ℕ → AsyncQueue R
unfolding push_below take_front
plain_queue R limit = record {
  Queue = List R;
  waiting = λ q. q;
  push = push_below limit;
  take = take_front;
  push_accepted = push_below_accepted limit;
  push_refused = push_below_refused limit;
  take_none = take_front-none;
  take_some = take_front-some;
}

-- A queue that never refuses.
unfoldable pub open_queue : (R : Type 0) → AsyncQueue R
unfolding take_front
open_queue R = record {
  Queue = List R;
  waiting = λ q. q;
  push = λ q r. (q ++ r ∷ [], true);
  take = take_front;
  push_accepted = λ q r h. refl;
  push_refused = λ q r h. cc;
  take_none = take_front-none;
  take_some = take_front-some;
}

pub record Staged : Type 0 where
  pub elements : List Ref
  pub changes : List Change

committed : Staged → Staged
unfolding apply
committed s = record { elements = apply s.changes s.elements; changes = [] }

commit_if : Bool → Staged → Staged
unfolding committed
commit_if now s = if now then committed s else s

unfoldable pub plain_list : SafeList
unfolding commit_if
plain_list = record {
  Elements = Staged;
  empty = record { elements = []; changes = [] };
  visited = λ s. s.elements;
  staged = λ s. s.changes;
  append = λ s r now. commit_if now (record s { changes = s.changes ++ add r ∷ [] });
  remove = λ s r now. commit_if now (record s { changes = s.changes ++ rem r ∷ [] });
  commit = committed;
  visited-empty = refl;
  staged-empty = refl;
  visited-append = λ s r. refl;
  staged-append = λ s r. refl;
  visited-remove = λ s r. refl;
  staged-remove = λ s r. refl;
  visited-commit = λ s. refl;
  staged-commit = λ s. refl;
  append_now = λ s r. refl;
  remove_now = λ s r. refl;
}
