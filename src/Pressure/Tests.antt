-- ===== src/Pressure/Tests.antt =====
-- A figure is 0.00 or 1.00.
use taskmonitor.Common.{
  ℕ, ◌≡◌, refl, arith, Bool, true, false, [], ◌∷◌, none, Bytes, codes, equal, ok,
}
use taskmonitor.Common.Text.Spaced.{IsWord}
use taskmonitor.Messages.{Clock}
use taskmonitor.Pressure.{
  Float, PsiData, PsiMessage, tokenize, do_update_stats, do_collect, new_manager, add_startup_data,
  no_data, new_pressure_stat,
}
use taskmonitor.Pressure.Tokens.{IsPart}
use taskmonitor.Pressure.RoundTrip.{Fits, managed, psi_files, do_update_stats-psi_files}

abbrev two_figures : Float
two_figures = record { Value = Bool; zero_value = false; stof = λ s. ok (equal s (codes "1.00")) }

abbrev shown : Bool → Bytes
shown true = codes "1.00"
shown false = codes "0.00"

shown-read : (x : Bool) → two_figures.stof (shown x) ≡ ok x
unfolding equal
shown-read true = refl
shown-read false = refl

shown-IsWord : (x : Bool) → IsWord (shown x)
shown-IsWord true = record { no_space = refl; some_byte = λ e. cc }
shown-IsWord false = record { no_space = refl; some_byte = λ e. cc }

shown-IsPart : (x : Bool) → IsPart b'=' (shown x)
shown-IsPart true = record { no_mark = refl; some_byte = λ e. cc }
shown-IsPart false = record { no_mark = refl; some_byte = λ e. cc }

abbrev figures : Bool → Bool → Bool → ℕ → PsiData Bool
figures a b c t = record { avg10 = a; avg60 = b; avg300 = c; total = t }

abbrev busy_disks : PsiMessage Bool
busy_disks = record {
  cpu_some = figures true false false 8128;
  cpu_full = figures false false false 0;
  mem_some = figures false true false 17;
  mem_full = figures false false true 4;
  io_some = figures true true true 4096000;
  io_full = figures true false true 2048;
}

abbrev nothing : PsiData Bool
nothing = figures false false false 0

abbrev idle_message : PsiMessage Bool
idle_message = record {
  cpu_some = nothing;
  cpu_full = nothing;
  mem_some = nothing;
  mem_full = nothing;
  io_some = nothing;
  io_full = nothing;
}

abbrev noon : Clock
noon = record { realtime = 43200; monotonic = 60 }

busy_disks-Fits : Fits two_figures shown shown-read shown-IsWord shown-IsPart busy_disks
busy_disks-Fits = record {
  cpu_some_fits = omega arith;
  cpu_full_fits = omega arith;
  mem_some_fits = omega arith;
  mem_full_fits = omega arith;
  io_some_fits = omega arith;
  io_full_fits = omega arith;
}

-- A new manager of a system with all three files is in that form.
new_is_managed :
    new_manager two_figures {C = Unit {0}} {N = Unit {0}} (λ path. true) none
    ≡ managed two_figures shown shown-read shown-IsWord shown-IsPart idle_message nothing nothing
        nothing nothing nothing nothing none
unfolding new_manager no_data new_pressure_stat
new_is_managed = refl

do_update_stats-psi_files_example :
    let told = add_startup_data two_figures noon (
      managed two_figures shown shown-read shown-IsWord shown-IsPart {C = Unit {0}} {N = Unit {0}}
        busy_disks busy_disks.cpu_some busy_disks.cpu_full busy_disks.mem_some busy_disks.mem_full
        busy_disks.io_some busy_disks.io_full none) in
    (do_update_stats two_figures
        (psi_files two_figures shown shown-read shown-IsWord shown-IsPart busy_disks)
        noon
        (managed two_figures shown shown-read shown-IsWord shown-IsPart idle_message nothing nothing
          nothing nothing nothing nothing none)
      ≡ (told, ok true))
    × ((do_collect two_figures noon told).payload ≡ busy_disks)
do_update_stats-psi_files_example =
    do_update_stats-psi_files two_figures shown shown-read shown-IsWord shown-IsPart busy_disks
      idle_message nothing nothing nothing nothing nothing nothing none noon noon busy_disks-Fits

parts : tokenize (codes "=avg10==0.12=") b'=' ≡ codes "avg10" ∷ codes "0.12" ∷ []
unfolding tokenize
parts = refl
