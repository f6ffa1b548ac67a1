-- ===== src/Options/Tests.antt =====
-- A configuration file that sets one interval too low and the timeout to no number.
use taskmonitor.Common.{◌≡◌, ◌≢◌, ◌⊎◌, refl, none, some, if◌then◌else◌, codes, equal, stoul, ok}
use taskmonitor.Options.{
  prod_mode_fast_lane_int, prof_mode_fast_lane_int, collector_inactive_timeout, default_for,
  KeyFile, interval_value, get_for,
}
use taskmonitor.Options.Intervals.{get_for_without_file}

abbrev small_file : KeyFile
small_file section name =
    if equal (codes name) (codes "FastLaneInterval")
    then some (codes "500")
    else if equal (codes name) (codes "CollectorInactiveTimeout")
    then some (codes "soon")
    else none

-- The low value is not taken.
low_refused : get_for prod_mode_fast_lane_int (some small_file) ≡ codes "10000000"
unfolding get_for interval_value default_for equal stoul
low_refused = refl

get_for_without_file_example :
    ((collector_inactive_timeout ≢ collector_inactive_timeout)
      × (get_for collector_inactive_timeout none ≡ default_for collector_inactive_timeout))
    ⊎ ((collector_inactive_timeout ≡ collector_inactive_timeout)
        × (get_for collector_inactive_timeout none ≡ default_for prof_mode_fast_lane_int)
        × (stoul (get_for collector_inactive_timeout none) ≡ ok 1000000)
        × (stoul (default_for collector_inactive_timeout) ≡ ok 10000000))
get_for_without_file_example = get_for_without_file collector_inactive_timeout
