-- ===== src/StartupData/Tests.antt =====
-- Three readings, and the timer between them. The messages are numbers.
use taskmonitor.Common.{ℕ, ◌+◌, ◌≡◌, true, List, [], ◌∷◌, ◌++◌}
use taskmonitor.Messages.{Clock}
use taskmonitor.StartupData.{new_startup_data, collect_and_send}
use taskmonitor.StartupData.Expiry.{
  Event, cpu_read, mem_read, timer, run, IsEarly, none_yet, cpu_first, mem_first, cpu_messages,
  mem_messages, psi_messages, collect_and_send_early, collect_and_send_late,
}

abbrev second : ℕ → Clock
second n = record { realtime = 1000 + n; monotonic = n }

abbrev readings : List (Event ℕ ℕ ℕ)
readings = cpu_read (second 1) 10 ∷ mem_read (second 1) 500 ∷ cpu_read (second 2) 12 ∷ []

readings-IsEarly : IsEarly readings
readings-IsEarly = cpu_first (mem_first (cpu_first none_yet))

collect_and_send_early_example :
    collect_and_send 3 (run readings new_startup_data)
    ≡ (cpu_messages 3 readings ++ (mem_messages 3 readings ++ psi_messages 3 readings), true)
collect_and_send_early_example = collect_and_send_early 3 readings-IsEarly

collect_and_send_late_example :
    let t = run (readings ++ timer ∷ readings) new_startup_data in
    (t.cpu_list ≡ []) × (t.mem_list ≡ []) × (t.psi_list ≡ []) × (collect_and_send 3 t ≡ ([], true))
collect_and_send_late_example = collect_and_send_late 3 readings readings
