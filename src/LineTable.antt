-- ===== src/LineTable.antt =====
-- The reading loop that source/SysProcMemInfo.cpp and source/SysProcVMStat.cpp share: a line is
-- recognised by its prefix, its second word is stored, and the other lines are skipped.
pub mod Apart
pub mod Reading
use taskmonitor.Common.{
  ℕ, Bool, true, false, List, [], ◌∷◌, Option, none, some, ite, if◌then◌else◌, Bytes, has_prefix,
  words, stoul, M, ◌>>=◌, ◌>>◌, pure, lift, modify,
}

-- The fields of the message, by the line that each stands on.
abbrev pub Fields : Type 0 → Type 0
Fields D = D → ℕ

-- A write to one field.
unfoldable pub store : {D : Type 0} → Discrete D → D → ℕ → Fields D → Fields D
store dec d v s e = ite (dec e d) v (s e)

-- The field named by the first prefix that fits; `none` is `LineData::Unknown`.
unfoldable pub classify : {D : Type 0} → List (Bytes × D) → Bytes → Option D
classify [] line = none
classify ((p, d) ∷ rest) line = if has_prefix p line then some d else classify rest line

-- The second word of a recognised line: `false` where there is none, else it is converted.
unfoldable pub store_word : {D : Type 0} → Discrete D → D → List Bytes → M (Fields D) Bool
store_word dec d [] = pure false
store_word dec d (t ∷ []) = pure false
store_word dec d (t ∷ u ∷ rest) = do v ← lift (stoul u); modify (store dec d v); pure true

-- One round of the loop. `false` is the `return false` of a parse error.
unfoldable pub read_line : {D : Type 0} → Discrete D → List (Bytes × D) → Bytes → M (Fields D) Bool
unfolding store_word
read_line dec table line = elim (classify table line) [
  | none ↦ pure true
  | some d ↦ store_word dec d (words line)
]

unfoldable pub read_lines :
    {D : Type 0} → Discrete D → List (Bytes × D) → List Bytes → M (Fields D) Bool
read_lines dec table [] = pure true
read_lines dec table (line ∷ lines) = do
  parsed ← read_line dec table line
  let rest = read_lines dec table lines
  if parsed then rest else pure false
