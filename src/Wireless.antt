-- ===== src/Wireless.antt =====
-- source/SysProcWireless.cpp: /proc/net/wireless as a source, with one entry for each interface.
pub mod Interfaces
pub mod RoundTrip
mod Tests
use taskmonitor.Common.{
  ℕ, zero, suc, ◌%◌, ◌^◌, Bool, List, [], ◌∷◌, Option, none, some, ltb, ◌==◌, if◌then◌else◌, length,
  get_elem?, Bytes, equal, words, stoul, stoi, ℤ, pos, Outcome, ok, throws, runtime_error, M,
  set_to, set_all,
}
use taskmonitor.BuddyInfo.{pop_back}
use taskmonitor.Keyed.{LineAct, refuse, put, read_rows}
use taskmonitor.Messages.{Clock, Data, sys_proc_wireless}

-- `WlanInterface`.
pub record WlanInterface : Type 0 where
  pub name : Bytes
  pub status : Bytes
  pub quality_link : ℤ
  pub quality_level : ℤ
  pub quality_noise : ℤ
  pub discarded_nwid : ℕ
  pub discarded_crypt : ℕ
  pub discarded_frag : ℕ
  pub discarded_retry : ℕ
  pub discarded_misc : ℕ
  pub missed_beacon : ℕ

unfoldable pub new_wlan_interface : Bytes → WlanInterface
new_wlan_interface name = record {
  name = name;
  status = [];
  quality_link = pos 0;
  quality_level = pos 0;
  quality_noise = pos 0;
  discarded_nwid = 0;
  discarded_crypt = 0;
  discarded_frag = 0;
  discarded_retry = 0;
  discarded_misc = 0;
  missed_beacon = 0;
}

abbrev word_at : List Bytes → ℕ → Bytes
word_at ws i = elim (get_elem? ws i) [ none ↦ [] | some w ↦ w ]

-- `if (s.back() == '.') s.pop_back()`.
unfoldable pub without_dot : Bytes → Bytes
without_dot [] = []
without_dot (c ∷ []) = if c == b'.' then [] else c ∷ []
without_dot (c ∷ d ∷ cs) = c ∷ without_dot (d ∷ cs)

-- `updateWlanInterfaceEntry`: the fields up to the first word that does not convert are written.
unfoldable pub update_wlan_interface_entry : List Bytes → M WlanInterface (Unit {0})
unfolding without_dot
update_wlan_interface_entry ws e =
    set_all
      (set_to (stoi (without_dot (word_at ws 2))) (λ v e. record e { quality_link = v })
        ∷ set_to (stoi (without_dot (word_at ws 3))) (λ v e. record e { quality_level = v })
        ∷ set_to (stoi (without_dot (word_at ws 4))) (λ v e. record e { quality_noise = v })
        ∷ set_to (stoul (word_at ws 5)) (λ v e. record e { discarded_nwid = v % 2 ^ 32 })
        ∷ set_to (stoul (word_at ws 6)) (λ v e. record e { discarded_crypt = v % 2 ^ 32 })
        ∷ set_to (stoul (word_at ws 7)) (λ v e. record e { discarded_frag = v % 2 ^ 32 })
        ∷ set_to (stoul (word_at ws 8)) (λ v e. record e { discarded_retry = v % 2 ^ 32 })
        ∷ set_to (stoul (word_at ws 9)) (λ v e. record e { discarded_misc = v % 2 ^ 32 })
        ∷ set_to (stoul (word_at ws 10)) (λ v e. record e { missed_beacon = v % 2 ^ 32 })
        ∷ [])
      (record e { status = word_at ws 1 })

-- A line behind the header; the name stands before a colon.
unfoldable pub wireless_act : Bytes → LineAct Bytes WlanInterface
unfolding new_wlan_interface update_wlan_interface_entry pop_back
wireless_act line =
    let ws = words line in
    let name = pop_back (word_at ws 0) in
    if ltb (length ws) 11
    then refuse
    else put name (new_wlan_interface name) (update_wlan_interface_entry ws)

-- `if (lines++ < 2) continue;`
unfoldable pub behind_header : List Bytes → List Bytes
behind_header [] = []
behind_header (a ∷ []) = []
behind_header (a ∷ b ∷ lines) = lines

abbrev pub name_of : WlanInterface → Bytes
name_of e = e.name

unfoldable pub do_update_stats : Option (List Bytes) → M (List WlanInterface) Bool
unfolding wireless_act behind_header
do_update_stats none es = (es, throws runtime_error)
do_update_stats (some lines) es = read_rows name_of equal wireless_act (behind_header lines) es

unfoldable pub do_collect : Clock → List WlanInterface → Data (List WlanInterface)
do_collect now es = record {
  what = sys_proc_wireless;
  system_time_sec = now.realtime;
  monotonic_time_sec = now.monotonic;
  payload = es;
}
