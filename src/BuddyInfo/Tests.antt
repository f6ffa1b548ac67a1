-- ===== src/BuddyInfo/Tests.antt =====
-- Two zones, with the length of a name as its hash.
use taskmonitor.Common.{
  ℕ, ◌≡◌, ◌≢◌, refl, true, false, any, is_space, map, List, [], ◌∷◌, some, ok, length, Bytes, codes,
  words, contains, has_prefix, equal,
}
use taskmonitor.Keyed.{read_rows, row, upsert, visit}
use taskmonitor.Common.Text.Decimal.{numeral}
use taskmonitor.Common.Text.Spaced.{IsWord}
use taskmonitor.BuddyInfo.{
  buddy_act, do_update_stats, new_buddy_info, update_buddy_info_entry, zone_marker, run_together,
  pop_back, joined,
}
use taskmonitor.BuddyInfo.RoundTrip.{PrintedZone, zone_line, zone_entry, do_update_stats-zone_line}

abbrev two_zones : List Bytes
two_zones = codes "Node 0, zone DMA 1 1 0" ∷ codes "Node 0, zone Normal 7 8 9" ∷ []

abbrev size_of : Bytes → ℕ
size_of s = length s

reads : (do_update_stats size_of (some two_zones) []).1 ≡ ok true
unfolding do_update_stats buddy_act read_rows row upsert visit new_buddy_info
    update_buddy_info_entry zone_marker run_together pop_back joined words contains has_prefix equal
reads = refl

abbrev dma : PrintedZone
dma = record { node = 0; zone = codes "DMA"; counts = 1 ∷ 0 ∷ 12 ∷ [] }

abbrev normal : PrintedZone
normal = record { node = 13; zone = codes "Normal"; counts = 7 ∷ 8 ∷ 90 ∷ [] }

word : (s : Bytes) → any is_space s ≡ false → s ≢ [] → IsWord s
word s h n = record { no_space = h; some_byte = n }

-- The line that stands for the second zone.
normal_line : zone_line normal ≡ codes "Node 13, zone Normal 7 8 90"
unfolding zone_line numeral
normal_line = refl

do_update_stats-zone_line_example :
    do_update_stats size_of (some (map zone_line (dma ∷ normal ∷ []))) []
    ≡ (map (zone_entry size_of) (dma ∷ normal ∷ []), ok true)
unfolding numeral
do_update_stats-zone_line_example =
    do_update_stats-zone_line size_of (dma ∷ normal ∷ [])
      (
        record { zone_word = word _ refl (λ e. cc); some_count = λ e. cc },
        (record { zone_word = word _ refl (λ e. cc); some_count = λ e. cc }, tt),
      )
      (refl, (refl, tt))
