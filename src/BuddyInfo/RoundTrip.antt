-- ===== src/BuddyInfo/RoundTrip.antt =====
-- The lines that the kernel prints for the zones of its nodes, and their reading.
use mathlib.Core.List.{append-nil}
use taskmonitor.Common.{
  ◌≤◌, drop, ℕ, ◌+◌, ◌==◌, ◌≡◌, ◌≢◌, refl, ap, Bool, true, false, ◌||◌, List, [], ◌∷◌, ◌++◌, map,
  some, suc, any, ltb, length, arith, inl, inr, Bool-cases, Bytes, codes, equal, equal_iff, ==_iff,
  has_prefix, contains, is_space, words, ok,
}
use taskmonitor.Common.Text.Decimal.{decimal, decimal-IsWord, decimal_no_mark}
use taskmonitor.Common.Text.Spaced.{IsWord, AllWords, spaced, spaced_behind, words-spaced}
use taskmonitor.Keyed.{put}
use taskmonitor.Keyed.Fresh.{Makes, NewKeys, AllMade, read_rows_made}
use taskmonitor.BuddyInfo.{
  BuddyInfo, zone_marker, joined, run_together, pop_back, new_buddy_info, update_buddy_info_entry,
  put_zone, zone_at, buddy_act, hash_of, same_hash, do_update_stats,
}

-- A line of /proc/buddyinfo: the node, the zone's name, and the free blocks of each size.
pub record PrintedZone : Type 0 where
  pub node : ℕ
  pub zone : Bytes
  pub counts : List ℕ

-- The zone's name is a word, and there is a size.
pub record IsPrinted (z : PrintedZone) : Type 0 where
  pub zone_word : IsWord z.zone
  pub some_count : z.counts ≢ []

abbrev comma_behind : Bytes → Bytes
comma_behind s = s ++ b',' ∷ []

abbrev zone_words : PrintedZone → List Bytes
zone_words z =
    codes "Node" ∷ comma_behind (decimal z.node) ∷ codes "zone" ∷ z.zone ∷ map decimal z.counts

-- "Node 0, zone DMA 1 0 2".
unfoldable pub zone_line : PrintedZone → Bytes
zone_line z = spaced (zone_words z)

-- Each number with a space behind it.
abbrev pub counts_text : List ℕ → Bytes
counts_text [] = []
counts_text (n ∷ ns) = decimal n ++ b' ' ∷ counts_text ns

-- The entry that a line asks for: "Node0", the zone, its numbers, and the hash of the two names.
abbrev pub zone_entry : (Bytes → ℕ) → PrintedZone → BuddyInfo
zone_entry jnk_hash z = record {
  name = codes "Node" ++ decimal z.node;
  zone = z.zone;
  content = counts_text z.counts;
  hash = jnk_hash ((codes "Node" ++ decimal z.node) ++ z.zone);
}

any-append : (f : ℕ → Bool) (s t : Bytes) → any f (s ++ t) ≡ (any f s || any f t)
any-append f [] t = refl
any-append f (c ∷ s) t = ground (arith, any-append f s t)

append-ne-nil : (s : Bytes) (c : ℕ) → s ++ c ∷ [] ≢ []
append-ne-nil [] c h = cc
append-ne-nil (x ∷ s) c h = cc

-- A word with a mark behind it.
pub marked-IsWord : (s : Bytes) (c : ℕ) → IsWord s → is_space c ≡ false → IsWord (s ++ c ∷ [])
marked-IsWord s c w h = record {
  no_space = ground (arith, any-append is_space s (c ∷ []), w.no_space, h);
  some_byte = append-ne-nil s c;
}

pub pop_back-append : (s : Bytes) (c : ℕ) → pop_back (s ++ c ∷ []) ≡ s
unfolding pop_back
pop_back-append [] c = refl
pop_back-append (x ∷ []) c = refl
pop_back-append (x ∷ y ∷ s) c = ap (λ t. x ∷ t) (pop_back-append (y ∷ s) c)

-- A number with a comma is not the word of the marker.
number_not_zone : (n : ℕ) → equal (comma_behind (decimal n)) (codes "zone") ≡ false
number_not_zone n = elim (Bool-cases (equal (comma_behind (decimal n)) (codes "zone"))) [
  | inr differ ↦ differ
  | inl alike ↦ absurd (
      let same = (equal_iff (comma_behind (decimal n)) (codes "zone")).0 alike in
      let z = ap (λ s. any (λ c. c == b'z') s) same in
      ground (
        arith,
        z,
        any-append (λ c. c == b'z') (decimal n) (b',' ∷ []),
        decimal_no_mark b'z' n refl,
      ))
]

zone_marker_found : (k m : ℕ) (ws : List Bytes) → zone_marker k (suc m) ws ≡ suc m
unfolding zone_marker
zone_marker_found k m [] = refl
zone_marker_found k m (w ∷ ws) = ground (arith, zone_marker_found (suc k) m ws)

zone_words-marker : (z : PrintedZone) → zone_marker 0 0 (zone_words z) ≡ 2
unfolding zone_marker equal
zone_words-marker z =
    rw (number_not_zone z.node) (zone_marker_found 3 1 (z.zone ∷ map decimal z.counts))

has_prefix-append : (p s : Bytes) → has_prefix p (p ++ s) ≡ true
unfolding has_prefix
has_prefix-append [] s = refl
has_prefix-append (c ∷ p) s = ground (arith, has_prefix-append p s)

contains-behind : (p s t : Bytes) → contains p t ≡ true → contains p (s ++ t) ≡ true
unfolding contains
contains-behind p [] t h = h
contains-behind p (c ∷ s) t h = ground (arith, contains-behind p s t h)

contains-append : (p s : Bytes) → contains p (p ++ s) ≡ true
unfolding contains
contains-append [] [] = refl
contains-append [] (c ∷ s) = refl
contains-append (c ∷ p) s = ground (arith, has_prefix-append (c ∷ p) s)

contains-zone_line : (z : PrintedZone) → contains (codes "zone") (zone_line z) ≡ true
unfolding zone_line
contains-zone_line z = contains-behind (codes "zone") (codes "Node ") _ (
    contains-behind (codes "zone") (comma_behind (decimal z.node)) _ (
      contains-behind (codes "zone") (codes " ") _
        (contains-append (codes "zone") (spaced_behind (z.zone ∷ map decimal z.counts)))))

decimals-AllWords : (ns : List ℕ) → AllWords (map decimal ns)
decimals-AllWords [] = tt
decimals-AllWords (n ∷ ns) = (decimal-IsWord n, decimals-AllWords ns)

zone_words-AllWords : (z : PrintedZone) → IsPrinted z → AllWords (zone_words z)
zone_words-AllWords z p = (
  record { no_space = refl; some_byte = λ e. cc },
  (
    marked-IsWord (decimal z.node) b',' (decimal-IsWord z.node) refl,
    (record { no_space = refl; some_byte = λ e. cc }, (p.zone_word, decimals-AllWords z.counts)),
  ),
)

joined-decimals : (ns : List ℕ) → joined (map decimal ns) ≡ counts_text ns
unfolding joined
joined-decimals [] = refl
joined-decimals (n ∷ ns) = ap (λ t. decimal n ++ b' ' ∷ t) (joined-decimals ns)

-- The words before the marker, without the comma.
name_read :
    (z : PrintedZone) → pop_back (run_together 2 (zone_words z)) ≡ codes "Node" ++ decimal z.node
unfolding run_together
name_read z =
    rw (append-nil (comma_behind (decimal z.node)))
      (pop_back-append (codes "Node" ++ decimal z.node) b',')

many_decimals : (ns : List ℕ) → ns ≢ [] → 1 ≤ length (map decimal ns)
many_decimals [] h = absurd (h refl)
many_decimals (n ∷ ns) h = omega arith

many_words : (z : PrintedZone) → IsPrinted z → ltb (length (zone_words z)) 5 ≡ false
many_words z p = ground (arith, many_decimals z.counts p.some_count)

words-zone_line : (z : PrintedZone) → IsPrinted z → words (zone_line z) ≡ zone_words z
unfolding zone_line
words-zone_line z p = words-spaced (zone_words z) (zone_words-AllWords z p)

module _ (jnk_hash : Bytes → ℕ) where
  abbrev key : BuddyInfo → ℕ
  key = hash_of jnk_hash

  abbrev same : ℕ → ℕ → Bool
  same = same_hash jnk_hash

  put_zone-named :
      (ws : List Bytes) (marker : ℕ) {name : Bytes}
      → ltb (length ws) (marker + 3) ≡ false
      → pop_back (run_together marker ws) ≡ name
      → put_zone jnk_hash ws marker
        ≡ put
            (jnk_hash (name ++ zone_at ws (marker + 1)))
            (new_buddy_info jnk_hash name (zone_at ws (marker + 1)))
            (update_buddy_info_entry jnk_hash (joined (drop (marker + 2) ws)))
  unfolding put_zone
  put_zone-named ws marker h e = rw (h, e) refl

  zone_line-put :
      (z : PrintedZone)
      → IsPrinted z
      → buddy_act jnk_hash (zone_line z)
        ≡ put
            (jnk_hash ((codes "Node" ++ decimal z.node) ++ z.zone))
            (new_buddy_info jnk_hash (codes "Node" ++ decimal z.node) z.zone)
            (update_buddy_info_entry jnk_hash (joined (map decimal z.counts)))
  unfolding buddy_act
  zone_line-put z p =
      rw (contains-zone_line z, words-zone_line z p, zone_words-marker z)
        (put_zone-named (zone_words z) 2 (many_words z p) (name_read z))

  zone_line-Makes :
      (z : PrintedZone)
      → IsPrinted z
      → Makes key same ==_iff (buddy_act jnk_hash (zone_line z)) (zone_entry jnk_hash z)
  unfolding new_buddy_info update_buddy_info_entry
  zone_line-Makes z p = record {
    fresh = new_buddy_info jnk_hash (codes "Node" ++ decimal z.node) z.zone;
    update = update_buddy_info_entry jnk_hash (joined (map decimal z.counts));
    puts = zone_line-put z p;
    made = rw (joined-decimals z.counts) refl;
  }

  -- Every line of a list.
  abbrev pub AllPrinted : List PrintedZone → Type 0
  AllPrinted [] = Unit {0}
  AllPrinted (z ∷ zs) = IsPrinted z × AllPrinted zs

  zone_lines-AllMade :
      (zs : List PrintedZone)
      → AllPrinted zs
      → AllMade key same ==_iff (λ z. buddy_act jnk_hash (zone_line z)) (zone_entry jnk_hash) zs
  zone_lines-AllMade [] p = tt
  zone_lines-AllMade (z ∷ zs) p = (zone_line-Makes z p.0, zone_lines-AllMade zs p.1)

  -- Round trip: where each zone has a word as its name and at least one number, and no two of the hashes are
  -- alike, a first reading of the lines that are printed for a list of zones succeeds and lists exactly
  -- these, in order: the name "Node" with the node's number and without the comma, the zone, the text
  -- of its numbers with a space behind each, and the hash of name and zone.
  pub do_update_stats-zone_line :
      (zs : List PrintedZone)
      → AllPrinted zs
      → NewKeys key same ==_iff [] (map (zone_entry jnk_hash) zs)
      → do_update_stats jnk_hash (some (map zone_line zs)) []
        ≡ (map (zone_entry jnk_hash) zs, ok true)
  unfolding do_update_stats
  do_update_stats-zone_line zs p n =
      read_rows_made key same ==_iff (buddy_act jnk_hash) zone_line (zone_entry jnk_hash) zs []
        (zone_lines-AllMade zs p) n
