-- ===== src/StartupData.antt =====
-- source/StartupData.h and source/StartupData.cpp: what is read before a timer drops the data is
-- kept for the collectors that ask for it. The messages of the three sources are the types C, M, P.
pub mod Expiry
mod Tests
use taskmonitor.Common.{Bool, true, false, List, [], ◌∷◌, ◌++◌, map, if◌then◌else◌, ℕ}
use taskmonitor.Messages.{
  Clock, What, sys_proc_stat, sys_proc_mem_info, sys_proc_pressure, Data, Collector, Sent,
}

-- `CPUStartupData`, `MEMStartupData` and `PSIStartupData`.
pub record StartupEntry (A : Type 0) : Type 0 where
  pub system_time : ℕ
  pub monotonic_time : ℕ
  pub message : A

unfoldable pub new_entry : {A : Type 0} → Clock → A → StartupEntry A
new_entry now a = record { system_time = now.realtime; monotonic_time = now.monotonic; message = a }

pub record StartupData (C M P : Type 0) : Type 0 where
  pub cpu_list : List (StartupEntry C)
  pub mem_list : List (StartupEntry M)
  pub psi_list : List (StartupEntry P)
  pub expired : Bool

-- `PackFrom` of one of the three messages.
pub data Payload (C M P : Type 0) : Type 0 where
  cpu : C → Payload C M P
  mem : M → Payload C M P
  psi : P → Payload C M P

module _ {C M P : Type 0} where
  unfoldable pub new_startup_data : StartupData C M P
  new_startup_data = record { cpu_list = []; mem_list = []; psi_list = []; expired = false }

  unfoldable pub drop_data : StartupData C M P → StartupData C M P
  drop_data d =
      if d.expired
      then d
      else record d { cpu_list = []; mem_list = []; psi_list = []; expired = true }

  unfoldable pub add_cpu_data : Clock → C → StartupData C M P → StartupData C M P
  unfolding new_entry
  add_cpu_data now m d =
      if d.expired then d else record d { cpu_list = d.cpu_list ++ new_entry now m ∷ [] }

  unfoldable pub add_mem_data : Clock → M → StartupData C M P → StartupData C M P
  unfolding new_entry
  add_mem_data now m d =
      if d.expired then d else record d { mem_list = d.mem_list ++ new_entry now m ∷ [] }

  unfoldable pub add_psi_data : Clock → P → StartupData C M P → StartupData C M P
  unfolding new_entry
  add_psi_data now m d =
      if d.expired then d else record d { psi_list = d.psi_list ++ new_entry now m ∷ [] }

  -- One call of `sendData`, in a loop over a list.
  send_entry :
      {A : Type 0} → What → (A → Payload C M P) → Collector → StartupEntry A → Sent (Payload C M P)
  send_entry what pack c e = record {
    collector = c;
    message = record {
      what = what;
      system_time_sec = e.system_time;
      monotonic_time_sec = e.monotonic_time;
      payload = pack e.message;
    };
  }

  -- The messages that `doCollectAndSend` sends, in order. It returns `true`.
  unfoldable pub collect_and_send :
      Collector → StartupData C M P → List (Sent (Payload C M P)) × Bool
  unfolding send_entry
  collect_and_send c d = if d.expired then ([], true) else (
    map (send_entry sys_proc_stat cpu c) d.cpu_list
        ++ (map (send_entry sys_proc_mem_info mem c) d.mem_list
            ++ map (send_entry sys_proc_pressure psi c) d.psi_list),
    true,
  )
