-- ===== src/Keyed.antt =====
-- The loop that source/SysProcDiskStats.cpp, source/SysProcBuddyInfo.cpp,
-- source/SysProcWireless.cpp and source/SysProcStat.cpp share: each line of a file updates the
-- entries with its key, or adds one. An entry is added by `append` and `commit` to a list in which
-- nothing else is ever staged, which puts it at the end.
pub mod View
pub mod Refines
pub mod Rows
pub mod Entries
pub mod Fresh
use taskmonitor.Common.{
  Bool, true, false, List, [], ◌∷◌, ◌++◌, if◌then◌else◌, Bytes, Exception, Outcome, ok, throws,
  traps, M,
}

-- What the code before the update makes of a line.
pub data LineAct (K E : Type 0) : Type 0 where
  skip stop refuse : LineAct K E
  raise : Exception → LineAct K E
  put : K → (fresh : E) → (update : M E (Unit {0})) → LineAct K E

module _ {K E : Type 0} (key : E → K) (same : K → K → Bool) where
  -- A matching entry: an exception of its update leaves the loop.
  abbrev pub hit :
      E × Outcome (Unit {0})
      → List E
      → (List E × Bool) × Outcome (Unit {0})
      → (List E × Bool) × Outcome (Unit {0})
  hit (e, ok u) es ((rest, found), o) = ((e ∷ rest, true), o)
  hit (e, throws x) es rest = ((e ∷ es, true), throws x)
  hit (e, traps) es rest = ((e ∷ es, true), traps)

  abbrev pub miss : E → (List E × Bool) × Outcome (Unit {0}) → (List E × Bool) × Outcome (Unit {0})
  miss e ((rest, found), o) = ((e ∷ rest, found), o)

  -- The `foreach` over the entries, with `found`.
  unfoldable pub visit : K → M E (Unit {0}) → List E → (List E × Bool) × Outcome (Unit {0})
  visit k update [] = (([], false), ok tt)
  visit k update (e ∷ es) =
      let rest = visit k update es in if same (key e) k then hit (update e) es rest else miss e rest

  -- `if (!found)`: the new entry is listed and then updated.
  abbrev pub settle :
      E → M E (Unit {0}) → (List E × Bool) × Outcome (Unit {0}) → List E × Outcome (Unit {0})
  settle fresh update ((es, true), ok u) = (es, ok tt)
  settle fresh update ((es, false), ok u) = let (e, o) = update fresh in (es ++ e ∷ [], o)
  settle fresh update ((es, found), throws x) = (es, throws x)
  settle fresh update ((es, found), traps) = (es, traps)

  unfoldable pub upsert : K → E → M E (Unit {0}) → M (List E) (Unit {0})
  unfolding visit
  upsert k fresh update es = settle fresh update (visit k update es)

  abbrev pub next : List E × Outcome (Unit {0}) → M (List E) Bool → List E × Outcome Bool
  next (es, ok u) rest = rest es
  next (es, throws x) rest = (es, throws x)
  next (es, traps) rest = (es, traps)

  -- One round of the loop: `true` at a `break`, `false` at a parse error.
  unfoldable pub row : LineAct K E → M (List E) Bool → M (List E) Bool
  unfolding upsert
  row skip rest es = rest es
  row stop rest es = (es, ok true)
  row refuse rest es = (es, ok false)
  row (raise x) rest es = (es, throws x)
  row (put k fresh update) rest es = next (upsert k fresh update es) rest

  -- The loop over the lines.
  unfoldable pub read_rows : (Bytes → LineAct K E) → List Bytes → M (List E) Bool
  unfolding row
  read_rows act [] es = (es, ok true)
  read_rows act (line ∷ lines) es = row (act line) (read_rows act lines) es
