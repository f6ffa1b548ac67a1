-- ===== src/ProcRegistry/Totals.antt =====
-- The totals of the contexts are the sums over their processes.
use native.Mathlib.Nat.{mod-eq_of_lt, mod-lt, mod-add-mod}
use taskmonitor.Common.{
  ℕ, zero, suc, ◌+◌, ◌%◌, ◌^◌, ◌≡◌, ◌<◌, refl, sym, ap, ◌∙◌, Bool, true, ◌||◌, List, [], ◌∷◌, any,
  arith, ◌==◌, if◌then◌else◌, inl, inr, Bool-cases,
}
use taskmonitor.Bswinfra.{Ref}
use taskmonitor.ProcEntry.{ProcInfo, ProcEntry}
use taskmonitor.ProcRegistry.{ContextEntry}
use taskmonitor.ProcRegistry.Contexts.{Widths, add_process, add_processes}

-- The sum of a figure over the processes of a context.
abbrev pub sum_of : (ProcInfo → ℕ) → (Ref → ProcEntry) → ℕ → List Ref → ℕ
sum_of figure entries id [] = 0
sum_of figure entries id (p ∷ ps) =
    if id == (entries p).info.ctx_id
    then figure (entries p).info + sum_of figure entries id ps
    else sum_of figure entries id ps

pub pow_pos : (n : ℕ) → 0 < 2 ^ n
pow_pos zero = omega arith
pow_pos (suc n) = omega (arith, pow_pos n)

reduced-lt : (n b : ℕ) → n % 2 ^ b < 2 ^ b
reduced-lt n b = mod-lt n (pow_pos b)

-- One more addend of a sum that is reduced at each step.
reduced-step : (a x y m : ℕ) → ((a + x) % m + y) % m ≡ (a + (x + y)) % m
reduced-step a x y m = mod-add-mod (a + x) m y ∙ ap (λ n. n % m) (omega arith)

reduced-start : (a b : ℕ) → a < 2 ^ b → a ≡ (a + 0) % 2 ^ b
reduced-start a b h = sym (ap (λ n. n % 2 ^ b) (omega arith) ∙ mod-eq_of_lt h)

-- The totals fit their fields.
pub record Within (w : Widths) (c : ContextEntry) : Type 0 where
  pub time_fits : c.total_cpu_time < 2 ^ w.time_bits
  pub percent_fits : c.total_cpu_percent < 2 ^ w.percent_bits
  pub rss_fits : c.total_mem_rss < 2 ^ w.rss_bits
  pub pss_fits : c.total_mem_pss < 2 ^ w.pss_bits

-- The totals of `d` are those of `c` and the sums over the processes.
pub record Adds (w : Widths) (entries : Ref → ProcEntry) (ps : List Ref) (c d : ContextEntry)
    : Type 0 where
  pub same_id : d.ctx_id ≡ c.ctx_id
  pub same_name : d.ctx_name ≡ c.ctx_name
  pub time :
      d.total_cpu_time
      ≡ (c.total_cpu_time + sum_of (λ i. i.cpu_time) entries c.ctx_id ps) % 2 ^ w.time_bits
  pub percent :
      d.total_cpu_percent
      ≡ (c.total_cpu_percent + sum_of (λ i. i.cpu_percent) entries c.ctx_id ps) % 2 ^ w.percent_bits
  pub rss :
      d.total_mem_rss
      ≡ (c.total_mem_rss + sum_of (λ i. i.mem_rss) entries c.ctx_id ps) % 2 ^ w.rss_bits
  pub pss :
      d.total_mem_pss
      ≡ (c.total_mem_pss + sum_of (λ i. i.mem_pss) entries c.ctx_id ps) % 2 ^ w.pss_bits

module _ (w : Widths) (entries : Ref → ProcEntry) where
  add_process-Within : (i : ProcInfo) (c : ContextEntry) → Within w (add_process w i c)
  unfolding add_process
  add_process-Within i c = record {
    time_fits = reduced-lt _ w.time_bits;
    percent_fits = reduced-lt _ w.percent_bits;
    rss_fits = reduced-lt _ w.rss_bits;
    pss_fits = reduced-lt _ w.pss_bits;
  }

  pub add_processes-Adds :
      (ps : List Ref) (c : ContextEntry) (found : Bool)
      → Within w c
      → Adds w entries ps c (add_processes w entries ps c found).0
  unfolding add_processes add_process
  add_processes-Adds [] c found h = record {
    same_id = refl;
    same_name = refl;
    time = reduced-start c.total_cpu_time w.time_bits h.time_fits;
    percent = reduced-start c.total_cpu_percent w.percent_bits h.percent_fits;
    rss = reduced-start c.total_mem_rss w.rss_bits h.rss_fits;
    pss = reduced-start c.total_mem_pss w.pss_bits h.pss_fits;
  }
  add_processes-Adds (p ∷ ps) c found h = elim (Bool-cases (c.ctx_id == (entries p).info.ctx_id)) [
    | inl hit ↦
        let r =
          add_processes-Adds ps (add_process w (entries p).info c) true
            (add_process-Within (entries p).info c) in
        record {
          same_id = rw hit r.same_id;
          same_name = rw hit r.same_name;
          time = rw hit (r.time ∙ reduced-step c.total_cpu_time (entries p).info.cpu_time _ _);
          percent =
              rw hit
                (r.percent ∙ reduced-step c.total_cpu_percent (entries p).info.cpu_percent _ _);
          rss = rw hit (r.rss ∙ reduced-step c.total_mem_rss (entries p).info.mem_rss _ _);
          pss = rw hit (r.pss ∙ reduced-step c.total_mem_pss (entries p).info.mem_pss _ _);
        }
    | inr miss ↦
        let r = add_processes-Adds ps c found h in
        record {
          same_id = rw miss r.same_id;
          same_name = rw miss r.same_name;
          time = rw miss r.time;
          percent = rw miss r.percent;
          rss = rw miss r.rss;
          pss = rw miss r.pss;
        }
  ]

  -- `found` tells whether some process belongs to the context.
  add_processes-found :
      (ps : List Ref) (c : ContextEntry) (found : Bool)
      → (add_processes w entries ps c found).1
        ≡ (found || any (λ p. c.ctx_id == (entries p).info.ctx_id) ps)
  unfolding add_processes add_process
  add_processes-found [] c found = ground arith
  add_processes-found (p ∷ ps) c found = ground (
    arith,
    add_processes-found ps c found,
    add_processes-found ps (add_process w (entries p).info c) true,
  )
