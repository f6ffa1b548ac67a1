-- ===== src/Wireless/Tests.antt =====
-- The two lines of the header and one interface.
use taskmonitor.Common.{
  ◌≡◌, ◌≢◌, refl, arith, pos, negsuc, false, any, is_space, map, true, List, [], ◌∷◌, some, ok,
  Bytes, codes, words, stoul, stoi, equal, set_all,
}
use taskmonitor.BuddyInfo.{pop_back}
use taskmonitor.Keyed.{read_rows, row, upsert, visit}
use taskmonitor.Common.Text.Decimal.{numeral}
use taskmonitor.Common.Text.Spaced.{IsWord}
use taskmonitor.Wireless.{
  WlanInterface, wireless_act, behind_header, do_update_stats, new_wlan_interface,
  update_wlan_interface_entry, without_dot,
}
use taskmonitor.Wireless.RoundTrip.{Fits, Updated, wlan_line, do_update_stats-wlan_line}

abbrev one_interface : List Bytes
one_interface =
    codes "Inter-| sta-|   Quality"
    ∷ codes " face | tus | link level noise"
    ∷ codes "wlan0: 0000   54.  -56.  -256        0      0      0      0     14        0"
    ∷ []

reads : (do_update_stats (some one_interface) []).1 ≡ ok true
unfolding do_update_stats wireless_act behind_header read_rows row upsert visit new_wlan_interface
    update_wlan_interface_entry without_dot pop_back words stoul stoi equal set_all
reads = refl

abbrev wlan0 : WlanInterface
wlan0 = record {
  name = codes "wlan0";
  status = codes "0000";
  quality_link = pos 54;
  quality_level = negsuc 55;
  quality_noise = negsuc 255;
  discarded_nwid = 1;
  discarded_crypt = 2;
  discarded_frag = 3;
  discarded_retry = 4;
  discarded_misc = 14;
  missed_beacon = 6;
}

abbrev wlan1 : WlanInterface
wlan1 = record wlan0 { name = codes "wlan1"; quality_link = pos 0; missed_beacon = 70000 }

-- The noise of no interface was updated.
abbrev no_noise : WlanInterface → Updated
no_noise i = record { link = true; level = true; noise = false }

word : (s : Bytes) → any is_space s ≡ false → s ≢ [] → IsWord s
word s h n = record { no_space = h; some_byte = n }

wlan0-Fits : Fits wlan0
wlan0-Fits = record {
  name_word = word _ refl (λ e. cc);
  status_word = word _ refl (λ e. cc);
  link_fits = omega arith;
  level_fits = omega arith;
  noise_fits = omega arith;
  nwid_fits = omega arith;
  crypt_fits = omega arith;
  frag_fits = omega arith;
  retry_fits = omega arith;
  misc_fits = omega arith;
  beacon_fits = omega arith;
}

wlan1-Fits : Fits wlan1
wlan1-Fits = record {
  name_word = word _ refl (λ e. cc);
  status_word = word _ refl (λ e. cc);
  link_fits = omega arith;
  level_fits = omega arith;
  noise_fits = omega arith;
  nwid_fits = omega arith;
  crypt_fits = omega arith;
  frag_fits = omega arith;
  retry_fits = omega arith;
  misc_fits = omega arith;
  beacon_fits = omega arith;
}

-- The line that stands for the first interface.
wlan0_line : wlan_line no_noise wlan0 ≡ codes "wlan0: 0000 54. -56. -256 1 2 3 4 14 6"
unfolding wlan_line numeral
wlan0_line = refl

do_update_stats-wlan_line_example :
    do_update_stats
      (some (
        codes "Inter-| sta-|   Quality"
        ∷ codes " face | tus | link level noise"
        ∷ map (wlan_line no_noise) (wlan0 ∷ wlan1 ∷ [])))
      []
    ≡ (wlan0 ∷ wlan1 ∷ [], ok true)
unfolding equal
do_update_stats-wlan_line_example =
    do_update_stats-wlan_line (codes "Inter-| sta-|   Quality")
      (codes " face | tus | link level noise") no_noise (wlan0 ∷ wlan1 ∷ [])
      (wlan0-Fits, (wlan1-Fits, tt)) (refl, (refl, tt))
