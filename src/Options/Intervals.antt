-- ===== src/Options/Intervals.antt =====
-- The intervals that the application converts at its start.
use Prim.Native.String.{String}
use taskmonitor.Common.{
  ℕ, ◌≤◌, ◌≡◌, ◌≢◌, refl, none, some, ltb, Bytes, stoul, Outcome, ok, throws, traps, arith,
  Bool-cases, inl, inr, ◌⊎◌,
}
use taskmonitor.Options.{
  Key, prod_mode_fast_lane_int, prod_mode_pace_lane_int, prod_mode_slow_lane_int,
  prof_mode_fast_lane_int, prof_mode_pace_lane_int, prof_mode_slow_lane_int,
  startup_data_cleanup_time, collector_inactive_timeout, default_for, KeyFile, Config, at_least,
  interval_value, get_for,
}

-- The text converts to a number of at least the limit.
pub record Converts (limit : ℕ) (v : Bytes) : Type 0 where
  pub number : ℕ
  pub converts : stoul v ≡ ok number
  pub enough : limit ≤ number

at_least-Converts :
    (limit : ℕ) (d v : Bytes) (o : Outcome ℕ)
    → stoul v ≡ o
    → Converts limit d
    → Converts limit (at_least limit d v o)
at_least-Converts limit d v (ok n) e h = elim (Bool-cases (ltb n limit)) [
  | inl low ↦ rw low h
  | inr high ↦ rw high (record { number = n; converts = e; enough = ground arith })
]
at_least-Converts limit d v (throws x) e h = h
at_least-Converts limit d v traps e h = h

-- Whatever the file holds, the value converts, if the default does.
interval_value-Converts :
    (c : Config) (section name : String) (limit : ℕ) (d : Bytes)
    → Converts limit d
    → Converts limit (interval_value c section name limit d)
unfolding interval_value
interval_value-Converts none section name limit d h = h
interval_value-Converts (some file) section name limit d h = at_least-Converts limit d _ _ refl h

pub data IsInterval : Key → Type 0 where
  prod_fast : IsInterval prod_mode_fast_lane_int
  prod_pace : IsInterval prod_mode_pace_lane_int
  prod_slow : IsInterval prod_mode_slow_lane_int
  prof_fast : IsInterval prof_mode_fast_lane_int
  prof_pace : IsInterval prof_mode_pace_lane_int
  prof_slow : IsInterval prof_mode_slow_lane_int
  cleanup : IsInterval startup_data_cleanup_time

default-Converts : {k : Key} → IsInterval k → Converts 1000000 (default_for k)
unfolding default_for stoul
default-Converts prod_fast = record { number = 10000000; converts = refl; enough = omega arith }
default-Converts prod_pace = record { number = 30000000; converts = refl; enough = omega arith }
default-Converts prod_slow = record { number = 60000000; converts = refl; enough = omega arith }
default-Converts prof_fast = record { number = 1000000; converts = refl; enough = omega arith }
default-Converts prof_pace = record { number = 5000000; converts = refl; enough = omega arith }
default-Converts prof_slow = record { number = 10000000; converts = refl; enough = omega arith }
default-Converts cleanup = record { number = 60000000; converts = refl; enough = omega arith }

-- Whatever the configuration holds, the six lane intervals and the cleanup time are texts that
-- convert without an exception, to a second or more.
pub get_for-Converts : {k : Key} (c : Config) → IsInterval k → Converts 1000000 (get_for k c)
unfolding get_for
get_for-Converts c prod_fast = interval_value-Converts c _ _ _ _ (default-Converts prod_fast)
get_for-Converts c prod_pace = interval_value-Converts c _ _ _ _ (default-Converts prod_pace)
get_for-Converts c prod_slow = interval_value-Converts c _ _ _ _ (default-Converts prod_slow)
get_for-Converts c prof_fast = interval_value-Converts c _ _ _ _ (default-Converts prof_fast)
get_for-Converts c prof_pace = interval_value-Converts c _ _ _ _ (default-Converts prof_pace)
get_for-Converts c prof_slow = interval_value-Converts c _ _ _ _ (default-Converts prof_slow)
get_for-Converts c cleanup = interval_value-Converts c _ _ _ _ (default-Converts cleanup)

timeout_default : Converts 3000000 (default_for collector_inactive_timeout)
unfolding default_for stoul
timeout_default = record { number = 10000000; converts = refl; enough = omega arith }

-- With a configuration file the inactivity timeout converts to three seconds or more.
pub get_for_timeout-Converts :
    (file : KeyFile) → Converts 3000000 (get_for collector_inactive_timeout (some file))
unfolding get_for
get_for_timeout-Converts file = interval_value-Converts (some file) _ _ _ _ timeout_default

-- In any configuration it converts to a second or more.
pub any_timeout-Converts : (c : Config) → Converts 1000000 (get_for collector_inactive_timeout c)
unfolding get_for
any_timeout-Converts none = default-Converts prof_fast
any_timeout-Converts (some file) =
    let h = get_for_timeout-Converts file in
    record { number = h.number; converts = h.converts; enough = omega (arith, h.enough) }

-- Without a file every key has its own default, but for the inactivity timeout: it has the default
-- of the profiling mode's fast lane, one second, and not its own, ten seconds.
pub get_for_without_file :
    (k : Key)
    → ((k ≢ collector_inactive_timeout) × (get_for k none ≡ default_for k))
      ⊎ ((k ≡ collector_inactive_timeout)
          × (get_for k none ≡ default_for prof_mode_fast_lane_int)
          × (stoul (get_for k none) ≡ ok 1000000)
          × (stoul (default_for k) ≡ ok 10000000))
unfolding get_for stoul
get_for_without_file collector_inactive_timeout = inr (refl, refl, refl, refl)
get_for_without_file _ = inl ((λ e. cc), refl)
