-- ===== src/Pressure/RoundTrip.antt =====
-- What the kernel prints under /proc/pressure, and its reading. `show` is the kernel's print of a
-- figure, which `stof` reads back.
use taskmonitor.Common.{
  ℕ, ◌≡◌, ◌≢◌, ◌<◌, refl, ◌∙◌, Bool, true, false, ◌||◌, List, [], ◌∷◌, ◌++◌, Option, none, some,
  any, arith, Bytes, codes, equal, words, u64, is_space, ok, if◌then◌else◌,
}
use taskmonitor.Common.Text.Decimal.{decimal, stoul-decimal, decimal-IsWord, decimal_no_mark}
use taskmonitor.Common.Text.Spaced.{IsWord, AllWords, spaced, words-spaced}
use taskmonitor.Messages.{Clock}
use taskmonitor.StartupData.{StartupData}
use taskmonitor.Pressure.{
  Float, PsiData, PressureStat, PsiMessage, Manager, no_data, set_key, read_pairs, read_words,
  read_lines, update_stats, copy_entry, update_entries, add_startup_data, do_update_stats,
  do_collect,
}
use taskmonitor.Pressure.Tokens.{IsPart, tokenize_pair}

module _ (float : Float) (show : float.Value → Bytes)
    (shows : (x : float.Value) → float.stof (show x) ≡ ok x)
    (show_word : (x : float.Value) → IsWord (show x))
    (show_part : (x : float.Value) → IsPart b'=' (show x)) where
  open float use {Value}

  abbrev pair : Bytes → Bytes → Bytes
  pair k v = k ++ b'=' ∷ v

  abbrev psi_words : Bytes → PsiData Value → List Bytes
  psi_words kind d =
      kind
      ∷ pair (codes "avg10") (show d.avg10)
      ∷ pair (codes "avg60") (show d.avg60)
      ∷ pair (codes "avg300") (show d.avg300)
      ∷ pair (codes "total") (decimal d.total)
      ∷ []

  -- `some avg10=… avg60=… avg300=… total=…`
  unfoldable pub psi_line : Bytes → PsiData Value → Bytes
  psi_line kind d = spaced (psi_words kind d)

  any-append : (p : ℕ → Bool) (s t : Bytes) → any p (s ++ t) ≡ (any p s || any p t)
  any-append p [] t = refl
  any-append p (c ∷ s) t = ground (arith, any-append p s t)

  pair-ne-nil : (k v : Bytes) → pair k v ≢ []
  pair-ne-nil [] v e = cc
  pair-ne-nil (c ∷ k) v e = cc

  key-IsWord : (k v : Bytes) → IsWord k → IsWord v → IsWord (pair k v)
  key-IsWord k v p q = record {
    no_space = any-append is_space k (b'=' ∷ v) ∙ ground (arith, p.no_space, q.no_space);
    some_byte = pair-ne-nil k v;
  }

  avg10_key : IsPart b'=' (codes "avg10")
  avg10_key = record { no_mark = refl; some_byte = λ e. cc }

  avg60_key : IsPart b'=' (codes "avg60")
  avg60_key = record { no_mark = refl; some_byte = λ e. cc }

  avg300_key : IsPart b'=' (codes "avg300")
  avg300_key = record { no_mark = refl; some_byte = λ e. cc }

  total_key : IsPart b'=' (codes "total")
  total_key = record { no_mark = refl; some_byte = λ e. cc }

  decimal-IsPart : (n : ℕ) → IsPart b'=' (decimal n)
  decimal-IsPart n = record {
    no_mark = decimal_no_mark b'=' n refl;
    some_byte = (decimal-IsWord n).some_byte;
  }

  key_word : (k : Bytes) → any is_space k ≡ false → k ≢ [] → IsWord k
  key_word k h n = record { no_space = h; some_byte = n }

  psi_words-AllWords :
      (kind : Bytes) (d : PsiData Value) → IsWord kind → AllWords (psi_words kind d)
  psi_words-AllWords kind d h = (
    h,
    (
      key-IsWord (codes "avg10") _ (key_word _ refl avg10_key.some_byte) (show_word d.avg10),
      (
        key-IsWord (codes "avg60") _ (key_word _ refl avg60_key.some_byte) (show_word d.avg60),
        (
          key-IsWord (codes "avg300") _ (key_word _ refl avg300_key.some_byte) (show_word d.avg300),
          (
            key-IsWord (codes "total") _ (key_word _ refl total_key.some_byte)
                (decimal-IsWord d.total),
            tt,
          ),
        ),
      ),
    ),
  )

  read_pairs-psi :
      (d : PsiData Value)
      → d.total < u64
      → read_pairs float
          (pair (codes "avg10") (show d.avg10)
            ∷ pair (codes "avg60") (show d.avg60)
            ∷ pair (codes "avg300") (show d.avg300)
            ∷ pair (codes "total") (decimal d.total)
            ∷ [])
          (no_data float)
        ≡ ok d
  unfolding read_pairs set_key equal
  read_pairs-psi d h =
      rw
        (
          tokenize_pair b'=' (codes "avg10") (show d.avg10) avg10_key (show_part d.avg10),
          shows d.avg10,
          tokenize_pair b'=' (codes "avg60") (show d.avg60) avg60_key (show_part d.avg60),
          shows d.avg60,
          tokenize_pair b'=' (codes "avg300") (show d.avg300) avg300_key (show_part d.avg300),
          shows d.avg300,
          tokenize_pair b'=' (codes "total") (decimal d.total) total_key (decimal-IsPart d.total),
          stoul-decimal d.total h,
        )
        refl

  some_word : IsWord (codes "some")
  some_word = record { no_space = refl; some_byte = λ e. cc }

  full_word : IsWord (codes "full")
  full_word = record { no_space = refl; some_byte = λ e. cc }

  read_words-some :
      (d : PsiData Value) (e : PressureStat Value)
      → d.total < u64
      → read_words float (words (psi_line (codes "some") d)) e ≡ (record e { data_some = d }, ok tt)
  unfolding psi_line read_words equal
  read_words-some d e h =
      rw
        (
          words-spaced (psi_words (codes "some") d) (psi_words-AllWords (codes "some") d some_word),
          read_pairs-psi d h,
        )
        refl

  read_words-full :
      (d : PsiData Value) (e : PressureStat Value)
      → d.total < u64
      → read_words float (words (psi_line (codes "full") d)) e ≡ (record e { data_full = d }, ok tt)
  unfolding psi_line read_words equal
  read_words-full d e h =
      rw
        (
          words-spaced (psi_words (codes "full") d) (psi_words-AllWords (codes "full") d full_word),
          read_pairs-psi d h,
        )
        refl

  -- A file with both lines.
  unfoldable pub psi_file : PsiData Value → PsiData Value → List Bytes
  psi_file s f = psi_line (codes "some") s ∷ psi_line (codes "full") f ∷ []

  update_stats-psi_file :
      (s f : PsiData Value) (e : PressureStat Value)
      → s.total < u64
      → f.total < u64
      → update_stats float (some (psi_file s f)) e
        ≡ (record e { data_some = s; data_full = f }, ok tt)
  unfolding psi_file update_stats read_lines
  update_stats-psi_file s f e h k =
      rw (read_words-some s e h, read_words-full f (record e { data_some = s }) k) refl

  -- The files of a message.
  abbrev pub psi_files : PsiMessage Value → Bytes → Option (List Bytes)
  psi_files m name =
      if equal name (codes "cpu")
      then some (psi_file m.cpu_some m.cpu_full)
      else if equal name (codes "memory")
      then some (psi_file m.mem_some m.mem_full)
      else if equal name (codes "io")
      then some (psi_file m.io_some m.io_full)
      else none

  pub record Fits (m : PsiMessage Value) : Type 0 where
    pub cpu_some_fits : m.cpu_some.total < u64
    pub cpu_full_fits : m.cpu_full.total < u64
    pub mem_some_fits : m.mem_some.total < u64
    pub mem_full_fits : m.mem_full.total < u64
    pub io_some_fits : m.io_some.total < u64
    pub io_full_fits : m.io_full.total < u64

  abbrev entry : Bytes → PsiData Value → PsiData Value → PressureStat Value
  entry name s f = record { name = name; data_some = s; data_full = f }

  update_entries-psi_files :
      (m n : PsiMessage Value) (a b c a' b' c' : PsiData Value)
      → Fits m
      → update_entries float
          (psi_files m)
          (entry (codes "cpu") a a' ∷ entry (codes "memory") b b' ∷ entry (codes "io") c c' ∷ [])
          n
        ≡ (
          (
            entry (codes "cpu") m.cpu_some m.cpu_full
                ∷ entry (codes "memory") m.mem_some m.mem_full
                ∷ entry (codes "io") m.io_some m.io_full
                ∷ [],
            m,
          ),
          ok tt,
        )
  unfolding update_entries copy_entry equal
  update_entries-psi_files m n a b c a' b' c' f =
      rw
        (
          update_stats-psi_file m.cpu_some m.cpu_full (entry (codes "cpu") a a') f.cpu_some_fits
              f.cpu_full_fits,
          update_stats-psi_file m.mem_some m.mem_full (entry (codes "memory") b b') f.mem_some_fits
              f.mem_full_fits,
          update_stats-psi_file m.io_some m.io_full (entry (codes "io") c c') f.io_some_fits
              f.io_full_fits,
        )
        refl

  module _ {C N : Type 0} where
    -- The manager of all three files.
    abbrev pub managed :
        (n : PsiMessage Value) (a a' b b' c c' : PsiData Value)
        → Option (StartupData C N (PsiMessage Value))
        → Manager Value C N
    managed n a a' b b' c c' s = record {
      entries =
          entry (codes "cpu") a a' ∷ entry (codes "memory") b b' ∷ entry (codes "io") c c' ∷ [];
      psi_data = n;
      startup = s;
    }

    add_startup_data-psi_data :
        (now : Clock) (g : Manager Value C N) → (add_startup_data float now g).psi_data ≡ g.psi_data
    unfolding add_startup_data
    add_startup_data-psi_data now g = ground arith

    -- With the three files as the kernel prints a message of 64-bit totals, and whatever the entries and the
    -- message held before, the update succeeds, every entry and the message take the printed figures,
    -- the startup data is told of them, and the next collection sends exactly that message.
    pub do_update_stats-psi_files :
        (m n : PsiMessage Value) (a a' b b' c c' : PsiData Value)
        (s : Option (StartupData C N (PsiMessage Value))) (now later : Clock)
        → Fits m
        → let told =
            add_startup_data float now
              (managed m m.cpu_some m.cpu_full m.mem_some m.mem_full m.io_some m.io_full s) in
          (do_update_stats float (psi_files m) now (managed n a a' b b' c c' s) ≡ (told, ok true))
          × ((do_collect float later told).payload ≡ m)
    unfolding do_update_stats do_collect
    do_update_stats-psi_files m n a a' b b' c c' s now later f =
        (rw (update_entries-psi_files m n a b c a' b' c' f) refl, add_startup_data-psi_data now _)
