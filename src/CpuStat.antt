-- ===== src/CpuStat.antt =====
-- `CPUStatData` and `CPUStat` of source/SysProcStat.h, and `CPUStat::updateStats` of
-- source/SysProcStat.cpp. A counter is a `uint64_t`, a number below 2^64, with sums, differences
-- and products reduced modulo 2^64.
pub mod Counters
pub mod Samples
pub mod Growth
mod Tests
use taskmonitor.Common.{
  ℕ, ◌+◌, ◌-◌, ◌*◌, ◌/◌, ◌%◌, ◌^◌, Bool, true, false, leb, ◌==◌, if◌then◌else◌, Bytes, codes, equal,
  u64, Outcome, ok, throws, traps, Exception,
}

pub data DataField : Type 0 where
  user_time nice_time system_time idle_time io_wait_time : DataField
  irq_time soft_irq_time steal_time guest_time guest_nice_time : DataField

pub record CpuStatData : Type 0 where
  pub user_time : ℕ
  pub nice_time : ℕ
  pub system_time : ℕ
  pub idle_time : ℕ
  pub io_wait_time : ℕ
  pub irq_time : ℕ
  pub soft_irq_time : ℕ
  pub steal_time : ℕ
  pub guest_time : ℕ
  pub guest_nice_time : ℕ

unfoldable pub add64 : ℕ → ℕ → ℕ
add64 a b = (a + b) % u64

unfoldable pub sub64 : ℕ → ℕ → ℕ
sub64 a b = (a + u64 - b) % u64

unfoldable pub get_total_time : CpuStatData → ℕ
get_total_time d =
    add64
      (add64
        (add64
          (add64
            (add64
              (add64 (add64 (add64 (add64 d.user_time d.nice_time) d.system_time) d.idle_time)
                d.io_wait_time)
              d.irq_time)
            d.soft_irq_time)
          d.steal_time)
        d.guest_time)
      d.guest_nice_time

unfoldable pub get_diff : CpuStatData → CpuStatData → CpuStatData
get_diff d prev = record {
  user_time = sub64 d.user_time prev.user_time;
  nice_time = sub64 d.nice_time prev.nice_time;
  system_time = sub64 d.system_time prev.system_time;
  idle_time = sub64 d.idle_time prev.idle_time;
  io_wait_time = sub64 d.io_wait_time prev.io_wait_time;
  irq_time = sub64 d.irq_time prev.irq_time;
  soft_irq_time = sub64 d.soft_irq_time prev.soft_irq_time;
  steal_time = sub64 d.steal_time prev.steal_time;
  guest_time = sub64 d.guest_time prev.guest_time;
  guest_nice_time = sub64 d.guest_nice_time prev.guest_nice_time;
}

-- The state of `clear`, and of a new `CPUStatData`.
unfoldable pub cleared : CpuStatData
cleared = record {
  user_time = 0;
  nice_time = 0;
  system_time = 0;
  idle_time = 0;
  io_wait_time = 0;
  irq_time = 0;
  soft_irq_time = 0;
  steal_time = 0;
  guest_time = 0;
  guest_nice_time = 0;
}

abbrev pub field_of : DataField → CpuStatData → ℕ
field_of user_time d = d.user_time
field_of nice_time d = d.nice_time
field_of system_time d = d.system_time
field_of idle_time d = d.idle_time
field_of io_wait_time d = d.io_wait_time
field_of irq_time d = d.irq_time
field_of soft_irq_time d = d.soft_irq_time
field_of steal_time d = d.steal_time
field_of guest_time d = d.guest_time
field_of guest_nice_time d = d.guest_nice_time

-- An integer division, which traps at zero.
abbrev divide : ℕ → ℕ → Outcome ℕ
divide a b = if b == 0 then traps else ok (a / b)

unfoldable pub get_percent : DataField → CpuStatData → Outcome ℕ
get_percent field d = divide (field_of field d * 100 % u64) (get_total_time d)

pub data StatType : Type 0 where
  cpu core : StatType

-- The message of one processor; the percentages are 32 bits wide.
pub record CpuMessage : Type 0 where
  pub name : Bytes
  pub usr : ℕ
  pub sys : ℕ
  pub iow : ℕ
  pub all : ℕ

pub record CpuStat : Type 0 where
  pub message : CpuMessage
  pub stat_type : StatType
  pub last : CpuStatData

unfoldable pub new_cpu_stat : Bytes → CpuStat
new_cpu_stat name = record {
  message = record { name = name; usr = 0; sys = 0; iow = 0; all = 0 };
  stat_type = if equal name (codes "cpu") then cpu else core;
  last = cleared;
}

abbrev pub u32 : ℕ
u32 = 2 ^ 32

-- The test of the three percentages and what follows it. Their sum is reduced modulo 2^32.
unfoldable pub take_sample : CpuStatData → ℕ → ℕ → ℕ → CpuStat → CpuStat
take_sample d usr sys iow s =
    let sum = ((usr + sys) % u32 + iow) % u32 in
    if leb sum 100
    then record s {
      last = d;
      message = record s.message { usr = usr; sys = sys; iow = iow; all = sum };
    }
    else record s { last = cleared }

-- The three percentages, each cast to 32 bits, or the trap of the first division.
abbrev pub percents_of : CpuStatData → (ℕ → ℕ → ℕ → CpuStat) → Outcome CpuStat
percents_of diff k = elim (get_percent user_time diff) [
  | throws e ↦ throws e
  | traps ↦ traps
  | ok usr ↦ elim (get_percent system_time diff) [
    | throws e ↦ throws e
    | traps ↦ traps
    | ok sys ↦ elim (get_percent io_wait_time diff) [
      | throws e ↦ throws e
      | traps ↦ traps
      | ok iow ↦ ok (k (usr % u32) (sys % u32) (iow % u32))
    ]
  ]
]

unfoldable pub update_stats : CpuStatData → CpuStat → Outcome CpuStat
update_stats d s =
    if get_total_time s.last == 0
    then ok (record s { last = d })
    else percents_of (get_diff d s.last) (λ usr sys iow. take_sample d usr sys iow s)
