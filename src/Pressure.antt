-- ===== src/Pressure.antt =====
-- source/SysProcPressure.cpp: the files under /proc/pressure as a source, with one entry for each.
-- `F` stands for `float`, with `std::stof` and the zero of a new message. A line without words makes
-- the source read past its words, which is undefined; it is modelled as the end of the process.
pub mod Tokens
pub mod RoundTrip
mod Tests
use taskmonitor.Common.{
  ℕ, Bool, true, false, not, List, [], ◌∷◌, ◌++◌, Option, none, some, ◌==◌, if◌then◌else◌, Bytes,
  codes, equal, words, stoul, Outcome, ok, throws, traps, M,
}
use taskmonitor.Messages.{Clock, Data, sys_proc_pressure}
use taskmonitor.StartupData.{StartupData, add_psi_data}

-- `if (!next.empty()) result.push_back(next);`
abbrev pub push_next : Bytes → List Bytes → List Bytes
push_next [] rest = rest
push_next (c ∷ cs) rest = (c ∷ cs) ∷ rest

tokenize_from : ℕ → Bytes → Bytes → List Bytes
tokenize_from ch next [] = push_next next []
tokenize_from ch next (c ∷ cs) = elim (c == ch) [
  | true ↦ push_next next (tokenize_from ch [] cs)
  | false ↦ tokenize_from ch (next ++ c ∷ []) cs
]

unfoldable pub tokenize : Bytes → ℕ → List Bytes
unfolding tokenize_from
tokenize str ch = tokenize_from ch [] str

pub record Float : Type 1 where
  pub Value : Type 0
  pub zero_value : Value
  pub stof : Bytes → Outcome Value

-- `PSIData`.
pub record PsiData (F : Type 0) : Type 0 where
  pub avg10 : F
  pub avg60 : F
  pub avg300 : F
  pub total : ℕ

pub record PressureStat (F : Type 0) : Type 0 where
  pub name : Bytes
  pub data_some : PsiData F
  pub data_full : PsiData F

-- The message `SysProcPressure`.
pub record PsiMessage (F : Type 0) : Type 0 where
  pub cpu_some : PsiData F
  pub cpu_full : PsiData F
  pub mem_some : PsiData F
  pub mem_full : PsiData F
  pub io_some : PsiData F
  pub io_full : PsiData F

pub record Manager (F C N : Type 0) : Type 0 where
  pub entries : List (PressureStat F)
  pub psi_data : PsiMessage F
  pub startup : Option (StartupData C N (PsiMessage F))

-- A value into its field.
abbrev pub assign : {A D : Type 0} → Outcome A → (A → D) → Outcome D
assign (ok a) f = ok (f a)
assign (throws e) f = throws e
assign traps f = traps

module _ (float : Float) where
  open float use {Value, zero_value, stof}

  unfoldable pub no_data : PsiData Value
  no_data = record { avg10 = zero_value; avg60 = zero_value; avg300 = zero_value; total = 0 }

  unfoldable pub new_pressure_stat : Bytes → PressureStat Value
  new_pressure_stat name = record { name = name; data_some = no_data; data_full = no_data }

  unfoldable pub set_key : Bytes → Bytes → PsiData Value → Outcome (PsiData Value)
  set_key key val d =
      if equal key (codes "avg10")
      then assign (stof val) (λ v. record d { avg10 = v })
      else if equal key (codes "avg60")
      then assign (stof val) (λ v. record d { avg60 = v })
      else if equal key (codes "avg300")
      then assign (stof val) (λ v. record d { avg300 = v })
      else if equal key (codes "total")
      then assign (stoul val) (λ v. record d { total = v })
      else ok d

  -- `if (keyVal.size() == 2)`.
  abbrev pub set_pair : List Bytes → PsiData Value → Outcome (PsiData Value)
  set_pair (key ∷ val ∷ []) d = set_key key val d
  set_pair _ d = ok d

  abbrev pub then_read :
      Outcome (PsiData Value) → (PsiData Value → Outcome (PsiData Value)) → Outcome (PsiData Value)
  then_read (ok d) rest = rest d
  then_read (throws e) rest = throws e
  then_read traps rest = traps

  -- The loop over the words behind the first.
  unfoldable pub read_pairs : List Bytes → PsiData Value → Outcome (PsiData Value)
  unfolding set_key
  read_pairs [] d = ok d
  read_pairs (w ∷ ws) d = then_read (set_pair (tokenize w b'=') d) (read_pairs ws)

  -- The line's data goes to the field that its first word names.
  abbrev pub stored : Bytes → Outcome (PsiData Value) → M (PressureStat Value) (Unit {0})
  stored w (ok d) e = (
    if equal w (codes "some") then record e { data_some = d } else record e { data_full = d },
    ok tt,
  )
  stored w (throws x) e = (e, throws x)
  stored w traps e = (e, traps)

  unfoldable pub read_words : List Bytes → M (PressureStat Value) (Unit {0})
  unfolding read_pairs no_data
  read_words [] e = (e, traps)
  read_words (w ∷ ws) e = stored w (read_pairs ws no_data) e

  abbrev pub followed :
      PressureStat Value × Outcome (Unit {0})
      → M (PressureStat Value) (Unit {0})
      → PressureStat Value × Outcome (Unit {0})
  followed (e, ok u) rest = rest e
  followed (e, throws x) rest = (e, throws x)
  followed (e, traps) rest = (e, traps)

  unfoldable pub read_lines : List Bytes → M (PressureStat Value) (Unit {0})
  unfolding read_words
  read_lines [] e = (e, ok tt)
  read_lines (line ∷ lines) e = followed (read_words (words line) e) (read_lines lines)

  -- `PressureStat::updateStats`: a file that cannot be opened changes nothing.
  unfoldable pub update_stats : Option (List Bytes) → M (PressureStat Value) (Unit {0})
  unfolding read_lines
  update_stats none e = (e, ok tt)
  update_stats (some lines) e = read_lines lines e

  -- The entry's data into the message.
  unfoldable pub copy_entry : PressureStat Value → PsiMessage Value → PsiMessage Value
  copy_entry e m =
      if equal e.name (codes "cpu")
      then record m { cpu_some = e.data_some; cpu_full = e.data_full }
      else if equal e.name (codes "memory")
      then record m { mem_some = e.data_some; mem_full = e.data_full }
      else if equal e.name (codes "io")
      then record m { io_some = e.data_some; io_full = e.data_full }
      else m

  -- A visit, with the visits behind it.
  abbrev pub visited :
      PressureStat Value × Outcome (Unit {0})
      → List (PressureStat Value)
      → (PsiMessage Value → (List (PressureStat Value) × PsiMessage Value) × Outcome (Unit {0}))
      → PsiMessage Value
      → (List (PressureStat Value) × PsiMessage Value) × Outcome (Unit {0})
  visited (e, ok u) es rest m = let ((fs, n), o) = rest (copy_entry e m) in ((e ∷ fs, n), o)
  visited (e, throws x) es rest m = ((e ∷ es, m), throws x)
  visited (e, traps) es rest m = ((e ∷ es, m), traps)

  -- The `foreach` over the entries.
  unfoldable pub update_entries :
      (Bytes → Option (List Bytes))
      → List (PressureStat Value)
      → PsiMessage Value
      → (List (PressureStat Value) × PsiMessage Value) × Outcome (Unit {0})
  unfolding update_stats copy_entry
  update_entries file [] m = (([], m), ok tt)
  update_entries file (e ∷ es) m =
      visited (update_stats (file e.name) e) es (update_entries file es) m

  -- The constructor: an entry for each file that is there.
  abbrev pub add_if_exists :
      (Bytes → Bool) → Bytes → List (PressureStat Value) → List (PressureStat Value)
  add_if_exists exists name rest =
      if exists (codes "/proc/pressure/" ++ name) then new_pressure_stat name ∷ rest else rest

  module _ {C N : Type 0} where
    -- `StartupData` is told of the message, unless it is absent or expired.
    unfoldable pub add_startup_data : Clock → Manager Value C N → Manager Value C N
    add_startup_data now m = elim m.startup [
      | none ↦ m
      | some d ↦
          if d.expired then m else record m { startup = some (add_psi_data now m.psi_data d) }
    ]

    abbrev pub after_entries :
        Clock
        → Manager Value C N
        → (List (PressureStat Value) × PsiMessage Value) × Outcome (Unit {0})
        → Manager Value C N × Outcome Bool
    after_entries now m ((es, n), ok u) =
        (add_startup_data now (record m { entries = es; psi_data = n }), ok true)
    after_entries now m ((es, n), throws e) = (record m { entries = es; psi_data = n }, throws e)
    after_entries now m ((es, n), traps) = (record m { entries = es; psi_data = n }, traps)

    unfoldable pub do_update_stats :
        (Bytes → Option (List Bytes)) → Clock → M (Manager Value C N) Bool
    unfolding update_entries add_startup_data
    do_update_stats file now m = after_entries now m (update_entries file m.entries m.psi_data)

    unfoldable pub do_collect : Clock → Manager Value C N → Data (PsiMessage Value)
    do_collect now m = record {
      what = sys_proc_pressure;
      system_time_sec = now.realtime;
      monotonic_time_sec = now.monotonic;
      payload = m.psi_data;
    }

    unfoldable pub new_manager :
        (Bytes → Bool) → Option (StartupData C N (PsiMessage Value)) → Manager Value C N
    unfolding new_pressure_stat no_data
    new_manager exists startup = record {
      entries =
          add_if_exists exists (codes "cpu")
            (add_if_exists exists (codes "memory") (add_if_exists exists (codes "io") []));
      psi_data = record {
        cpu_some = no_data;
        cpu_full = no_data;
        mem_some = no_data;
        mem_full = no_data;
        io_some = no_data;
        io_full = no_data;
      };
      startup = startup;
    }
