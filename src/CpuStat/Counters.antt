-- ===== src/CpuStat/Counters.antt =====
-- Totals and differences of the counters.
use taskmonitor.Common.{ℕ, ◌+◌, ◌-◌, ◌≤◌, ◌<◌, ◌≡◌, ◌↔◌, u64, arith}
use taskmonitor.CpuStat.{CpuStatData, add64, sub64, get_total_time, get_diff}

-- Every counter fits 64 bits.
pub record Fits (d : CpuStatData) : Type 0 where
  pub user_time_fits : d.user_time < u64
  pub nice_time_fits : d.nice_time < u64
  pub system_time_fits : d.system_time < u64
  pub idle_time_fits : d.idle_time < u64
  pub io_wait_time_fits : d.io_wait_time < u64
  pub irq_time_fits : d.irq_time < u64
  pub soft_irq_time_fits : d.soft_irq_time < u64
  pub steal_time_fits : d.steal_time < u64
  pub guest_time_fits : d.guest_time < u64
  pub guest_nice_time_fits : d.guest_nice_time < u64

-- The sum of the counters, not reduced.
abbrev pub exact_total : CpuStatData → ℕ
exact_total d =
    d.user_time + d.nice_time + d.system_time + d.idle_time + d.io_wait_time + d.irq_time
    + d.soft_irq_time + d.steal_time + d.guest_time + d.guest_nice_time

-- No counter went back.
pub record Grew (prev d : CpuStatData) : Type 0 where
  pub user_time_grew : prev.user_time ≤ d.user_time
  pub nice_time_grew : prev.nice_time ≤ d.nice_time
  pub system_time_grew : prev.system_time ≤ d.system_time
  pub idle_time_grew : prev.idle_time ≤ d.idle_time
  pub io_wait_time_grew : prev.io_wait_time ≤ d.io_wait_time
  pub irq_time_grew : prev.irq_time ≤ d.irq_time
  pub soft_irq_time_grew : prev.soft_irq_time ≤ d.soft_irq_time
  pub steal_time_grew : prev.steal_time ≤ d.steal_time
  pub guest_time_grew : prev.guest_time ≤ d.guest_time
  pub guest_nice_time_grew : prev.guest_nice_time ≤ d.guest_nice_time

add64-sub64 :
    (a b c d : ℕ)
    → a < u64
    → b < u64
    → c < u64
    → d < u64
    → add64 (sub64 a c) (sub64 b d) ≡ sub64 (add64 a b) (add64 c d)
unfolding add64 sub64
add64-sub64 a b c d ha hb hc hd = omega arith

add64-lt : (a b : ℕ) → add64 a b < u64
unfolding add64
add64-lt a b = omega arith

sub64-zero_iff : (a b : ℕ) → a < u64 → b < u64 → (sub64 a b ≡ 0) ↔ (a ≡ b)
unfolding sub64
sub64-zero_iff a b ha hb = (λ h. omega arith, λ h. omega arith)

pub sub64-of-le : (a b : ℕ) → a < u64 → b ≤ a → sub64 a b ≡ a - b
unfolding sub64
sub64-of-le a b ha h = omega arith

-- One more counter in a sum of differences.
differ :
    {x y z : ℕ} (a b : ℕ)
    → a < u64
    → b < u64
    → y < u64
    → z < u64
    → x ≡ sub64 y z
    → add64 x (sub64 a b) ≡ sub64 (add64 y a) (add64 z b)
differ {x} {y} {z} a b ha hb hy hz e = rw e (add64-sub64 y a z b hy ha hz hb)

-- For counters of 64 bits, the total of the differences is the difference of the totals modulo
-- 2^64, whatever has wrapped.
pub get_total_time-get_diff :
    (d p : CpuStatData)
    → Fits d
    → Fits p
    → get_total_time (get_diff d p) ≡ sub64 (get_total_time d) (get_total_time p)
unfolding get_total_time get_diff
get_total_time-get_diff d p f g =
    differ d.guest_nice_time p.guest_nice_time f.guest_nice_time_fits g.guest_nice_time_fits
      (add64-lt _ _) (add64-lt _ _)
      (differ d.guest_time p.guest_time f.guest_time_fits g.guest_time_fits (add64-lt _ _)
        (add64-lt _ _)
        (differ d.steal_time p.steal_time f.steal_time_fits g.steal_time_fits (add64-lt _ _)
          (add64-lt _ _)
          (differ d.soft_irq_time p.soft_irq_time f.soft_irq_time_fits g.soft_irq_time_fits
            (add64-lt _ _) (add64-lt _ _)
            (differ d.irq_time p.irq_time f.irq_time_fits g.irq_time_fits (add64-lt _ _)
              (add64-lt _ _)
              (differ d.io_wait_time p.io_wait_time f.io_wait_time_fits g.io_wait_time_fits
                (add64-lt _ _) (add64-lt _ _)
                (differ d.idle_time p.idle_time f.idle_time_fits g.idle_time_fits (add64-lt _ _)
                  (add64-lt _ _)
                  (differ d.system_time p.system_time f.system_time_fits g.system_time_fits
                    (add64-lt _ _) (add64-lt _ _)
                    (add64-sub64 d.user_time d.nice_time p.user_time p.nice_time f.user_time_fits
                      f.nice_time_fits g.user_time_fits g.nice_time_fits))))))))

get_total_time-lt : (d : CpuStatData) → get_total_time d < u64
unfolding get_total_time
get_total_time-lt d = add64-lt _ _

-- The total of the differences is zero exactly for equal totals.
pub diff-zero_iff :
    (d p : CpuStatData)
    → Fits d
    → Fits p
    → (get_total_time (get_diff d p) ≡ 0) ↔ (get_total_time d ≡ get_total_time p)
diff-zero_iff d p f g = rw (get_total_time-get_diff d p f g) (
    sub64-zero_iff (get_total_time d) (get_total_time p) (get_total_time-lt d)
      (get_total_time-lt p))

-- A total that fits is not reduced.
pub get_total_time-exact :
    (d : CpuStatData) → exact_total d < u64 → get_total_time d ≡ exact_total d
unfolding get_total_time add64
get_total_time-exact d h = omega arith

pub Fits-of_exact : (d : CpuStatData) → exact_total d < u64 → Fits d
Fits-of_exact d h = omega arith
