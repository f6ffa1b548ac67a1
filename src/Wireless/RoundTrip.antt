-- ===== src/Wireless/RoundTrip.antt =====
-- The lines that the kernel prints for wireless interfaces, and their reading.
use taskmonitor.Common.{
  ℕ, ◌%◌, ◌^◌, ◌<◌, ◌≡◌, refl, ap, Bool, true, false, List, [], ◌∷◌, ◌++◌, map, some, any, ◌==◌,
  arith, Bytes, ℤ, stoi, equal, equal_iff, ok, set_all,
}
use taskmonitor.Common.Text.Decimal.{
  decimal, stoul-decimal, decimal-IsWord, signed, IsInt, stoi-signed, signed-IsWord, signed_no_dot,
}
use taskmonitor.Common.Text.Spaced.{IsWord, AllWords, spaced, words-spaced}
use taskmonitor.Keyed.Fresh.{Makes, NewKeys, AllMake, read_rows_fresh}
use taskmonitor.BuddyInfo.RoundTrip.{marked-IsWord, pop_back-append}
use taskmonitor.Wireless.{
  WlanInterface, new_wlan_interface, without_dot, update_wlan_interface_entry, wireless_act,
  name_of, do_update_stats,
}

-- The name and the status are words, and the numbers fit their fields.
pub record Fits (i : WlanInterface) : Type 0 where
  pub name_word : IsWord i.name
  pub status_word : IsWord i.status
  pub link_fits : IsInt i.quality_link
  pub level_fits : IsInt i.quality_level
  pub noise_fits : IsInt i.quality_noise
  pub nwid_fits : i.discarded_nwid < 2 ^ 32
  pub crypt_fits : i.discarded_crypt < 2 ^ 32
  pub frag_fits : i.discarded_frag < 2 ^ 32
  pub retry_fits : i.discarded_retry < 2 ^ 32
  pub misc_fits : i.discarded_misc < 2 ^ 32
  pub beacon_fits : i.missed_beacon < 2 ^ 32

-- Which of the three figures of the quality were updated: the kernel prints a dot behind those.
pub record Updated : Type 0 where
  pub link : Bool
  pub level : Bool
  pub noise : Bool

abbrev figure : Bool → ℤ → Bytes
figure true z = signed z ++ b'.' ∷ []
figure false z = signed z

abbrev columns : Updated → WlanInterface → List Bytes
columns u i =
    (i.name ++ b':' ∷ [])
    ∷ i.status
    ∷ figure u.link i.quality_link
    ∷ figure u.level i.quality_level
    ∷ figure u.noise i.quality_noise
    ∷ decimal i.discarded_nwid
    ∷ decimal i.discarded_crypt
    ∷ decimal i.discarded_frag
    ∷ decimal i.discarded_retry
    ∷ decimal i.discarded_misc
    ∷ decimal i.missed_beacon
    ∷ []

-- "wlan0: 0000 54. -56. -256 0 0 0 0 14 0".
unfoldable pub wlan_line : (WlanInterface → Updated) → WlanInterface → Bytes
wlan_line updated i = spaced (columns (updated i) i)

without_dot-append : (s : Bytes) → without_dot (s ++ b'.' ∷ []) ≡ s
unfolding without_dot
without_dot-append [] = refl
without_dot-append (c ∷ []) = refl
without_dot-append (c ∷ d ∷ s) = ap (λ t. c ∷ t) (without_dot-append (d ∷ s))

without_dot_itself : (s : Bytes) → any (λ c. c == b'.') s ≡ false → without_dot s ≡ s
unfolding without_dot
without_dot_itself [] h = refl
without_dot_itself (c ∷ []) h = ground arith
without_dot_itself (c ∷ d ∷ s) h = ap (λ t. c ∷ t) (without_dot_itself (d ∷ s) (ground (arith, h)))

without_dot-figure : (b : Bool) (z : ℤ) → without_dot (figure b z) ≡ signed z
without_dot-figure true z = without_dot-append (signed z)
without_dot-figure false z = without_dot_itself (signed z) (signed_no_dot z)

figure-IsWord : (b : Bool) (z : ℤ) → IsWord (figure b z)
figure-IsWord true z = marked-IsWord (signed z) b'.' (signed-IsWord z) refl
figure-IsWord false z = signed-IsWord z

columns-AllWords : (u : Updated) (i : WlanInterface) → Fits i → AllWords (columns u i)
columns-AllWords u i f = (
  marked-IsWord i.name b':' f.name_word refl,
  (
    f.status_word,
    (
      figure-IsWord u.link i.quality_link,
      (
        figure-IsWord u.level i.quality_level,
        (figure-IsWord u.noise i.quality_noise, search decimal-IsWord),
      ),
    ),
  ),
)

-- A figure of the quality, read.
figure-stoi : (b : Bool) (z : ℤ) → IsInt z → stoi (without_dot (figure b z)) ≡ ok z
figure-stoi b z h = rw (without_dot-figure b z) (stoi-signed z h)

narrow : (n : ℕ) → n < 2 ^ 32 → n % 2 ^ 32 ≡ n
narrow n h = omega arith

updated_entry :
    (u : Updated) (i : WlanInterface)
    → Fits i
    → update_wlan_interface_entry (columns u i) (new_wlan_interface i.name) ≡ (i, ok tt)
unfolding update_wlan_interface_entry set_all new_wlan_interface
updated_entry u i f =
    rw
      (
        figure-stoi u.link i.quality_link f.link_fits,
        figure-stoi u.level i.quality_level f.level_fits,
        figure-stoi u.noise i.quality_noise f.noise_fits,
        stoul-decimal i.discarded_nwid (omega (arith, f.nwid_fits)),
        stoul-decimal i.discarded_crypt (omega (arith, f.crypt_fits)),
        stoul-decimal i.discarded_frag (omega (arith, f.frag_fits)),
        stoul-decimal i.discarded_retry (omega (arith, f.retry_fits)),
        stoul-decimal i.discarded_misc (omega (arith, f.misc_fits)),
        stoul-decimal i.missed_beacon (omega (arith, f.beacon_fits)),
        narrow i.discarded_nwid f.nwid_fits,
        narrow i.discarded_crypt f.crypt_fits,
        narrow i.discarded_frag f.frag_fits,
        narrow i.discarded_retry f.retry_fits,
        narrow i.discarded_misc f.misc_fits,
        narrow i.missed_beacon f.beacon_fits,
      )
      refl

wlan_line-Makes :
    (updated : WlanInterface → Updated) (i : WlanInterface)
    → Fits i
    → Makes name_of equal equal_iff (wireless_act (wlan_line updated i)) i
unfolding wlan_line wireless_act
wlan_line-Makes updated i f =
    rw
      (
        words-spaced (columns (updated i) i) (columns-AllWords (updated i) i f),
        pop_back-append i.name b':',
      )
      (record {
        fresh = new_wlan_interface i.name;
        update = update_wlan_interface_entry (columns (updated i) i);
        puts = refl;
        made = updated_entry (updated i) i f;
      })

-- Every interface of a list.
abbrev pub AllFit : List WlanInterface → Type 0
AllFit [] = Unit {0}
AllFit (i ∷ is) = Fits i × AllFit is

wlan_lines-AllMake :
    (updated : WlanInterface → Updated) (is : List WlanInterface)
    → AllFit is
    → AllMake name_of equal equal_iff wireless_act (wlan_line updated) is
wlan_lines-AllMake updated [] f = tt
wlan_lines-AllMake updated (i ∷ is) f =
    (wlan_line-Makes updated i f.0, wlan_lines-AllMake updated is f.1)

-- Round trip: where no name is listed twice, names and statuses are words and the numbers fit their fields,
-- a first reading of two lines of a header, whatever they hold, and the lines that are printed for a
-- list of interfaces succeeds and lists exactly these, in order, with every number, whether or not the
-- figures of the quality have a dot behind them.
pub do_update_stats-wlan_line :
    (first second : Bytes) (updated : WlanInterface → Updated) (is : List WlanInterface)
    → AllFit is
    → NewKeys name_of equal equal_iff [] is
    → do_update_stats (some (first ∷ second ∷ map (wlan_line updated) is)) [] ≡ (is, ok true)
unfolding do_update_stats taskmonitor.Wireless.behind_header
do_update_stats-wlan_line first second updated is f n =
    read_rows_fresh name_of equal equal_iff wireless_act (wlan_line updated) is []
      (wlan_lines-AllMake updated is f) n
