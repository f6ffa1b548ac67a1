-- ===== src/Bswinfra.antt =====
-- What the sources use of the bswinfra submodule, whose code the repository does not hold: the
-- event queue and the list with staged changes, as interfaces with the laws that the sources
-- rely on. The child shows, by plain lists, that the laws can be met.
pub mod Plain
pub mod Changes
use taskmonitor.Common.{
  ℕ, ◌≡◌, Bool, true, false, List, [], ◌∷◌, ◌++◌, Option, none, some, ◌==◌, if◌then◌else◌,
}

-- `AsyncQueue<R>`: `push` is answered at once, and the event loop hands the requests over in the
-- order in which they were pushed.
pub record AsyncQueue (R : Type 0) : Type 1 where
  pub Queue : Type 0
  pub waiting : Queue → List R
  pub push : Queue → R → Queue × Bool
  pub take : Queue → Option (R × Queue)
  pub push_accepted :
      (q : Queue) (r : R) → (push q r).1 ≡ true → waiting (push q r).0 ≡ waiting q ++ r ∷ []
  pub push_refused : (q : Queue) (r : R) → (push q r).1 ≡ false → waiting (push q r).0 ≡ waiting q
  pub take_none : (q : Queue) → take q ≡ none → waiting q ≡ []
  pub take_some :
      (q : Queue) {r : R} {q' : Queue} → take q ≡ some (r, q') → waiting q ≡ r ∷ waiting q'

-- A `shared_ptr`, by the identity of what it points to.
abbrev pub Ref : Type 0
Ref = ℕ

-- A change that waits for a commit.
pub data Change : Type 0 where
  add rem : Ref → Change

unfoldable pub erase_ref : Ref → List Ref → List Ref
erase_ref r [] = []
erase_ref r (x ∷ xs) = if x == r then erase_ref r xs else x ∷ erase_ref r xs

-- The elements after the staged changes, oldest change first.
unfoldable pub apply : List Change → List Ref → List Ref
unfolding erase_ref
apply [] xs = xs
apply (add r ∷ cs) xs = apply cs (xs ++ r ∷ [])
apply (rem r ∷ cs) xs = apply cs (erase_ref r xs)

-- `SafeList<shared_ptr<T>>`: `foreach` visits the committed elements in order. `append` and
-- `remove` stage a change, and commit at once if the flag asks for it; a commit carries out all
-- that is staged.
pub record SafeList : Type 1 where
  pub Elements : Type 0
  pub empty : Elements
  pub visited : Elements → List Ref
  pub staged : Elements → List Change
  pub append : Elements → Ref → Bool → Elements
  pub remove : Elements → Ref → Bool → Elements
  pub commit : Elements → Elements
  pub visited-empty : visited empty ≡ []
  pub staged-empty : staged empty ≡ []
  pub visited-append : (l : Elements) (r : Ref) → visited (append l r false) ≡ visited l
  pub staged-append : (l : Elements) (r : Ref) → staged (append l r false) ≡ staged l ++ add r ∷ []
  pub visited-remove : (l : Elements) (r : Ref) → visited (remove l r false) ≡ visited l
  pub staged-remove : (l : Elements) (r : Ref) → staged (remove l r false) ≡ staged l ++ rem r ∷ []
  pub visited-commit : (l : Elements) → visited (commit l) ≡ apply (staged l) (visited l)
  pub staged-commit : (l : Elements) → staged (commit l) ≡ []
  pub append_now : (l : Elements) (r : Ref) → append l r true ≡ commit (append l r false)
  pub remove_now : (l : Elements) (r : Ref) → remove l r true ≡ commit (remove l r false)
