-- ===== src/CpuStat/Samples.antt =====
-- What `updateStats` does with a sample: the first one, one that is accepted, one that is refused,
-- and the one that stops the process.
use taskmonitor.Common.{
  ℕ, ◌+◌, ◌*◌, ◌/◌, ◌%◌, ◌≤◌, ◌≡◌, ◌≢◌, ◌↔◌, inl, inr, refl, sym, ◌∙◌, ◌==◌, u64, ok, traps, arith,
  ok-injective, subst, Bool-cases, Outcome, leb, ltb, ◌<◌, ◌⊎◌,
}
use taskmonitor.CpuStat.{
  CpuStatData, CpuStat, get_total_time, get_diff, get_percent, cleared, take_sample, update_stats,
  u32, add64,
}
use taskmonitor.CpuStat.Counters.{Fits, diff-zero_iff}

-- `all` is at most 100. It is the sum of the three figures, or they sum to 2^32 or more, and it is what
-- is left of that in 32 bits.
pub record IsSummed (s : CpuStat) : Type 0 where
  pub all_le : s.message.all ≤ 100
  pub all_left : s.message.all ≡ (s.message.usr + s.message.sys + s.message.iow) % u32
  pub all_sum :
      (s.message.all ≡ s.message.usr + s.message.sys + s.message.iow)
      ⊎ (u32 ≤ s.message.usr + s.message.sys + s.message.iow)

take_sample-IsSummed :
    (d : CpuStatData) (usr sys iow : ℕ) (s : CpuStat)
    → IsSummed s
    → IsSummed (take_sample d usr sys iow s)
unfolding take_sample
take_sample-IsSummed d usr sys iow s v =
    elim (Bool-cases (leb (((usr + sys) % u32 + iow) % u32) 100)) [
      | inr refused ↦
          rw refused (record { all_le = v.all_le; all_left = v.all_left; all_sum = v.all_sum })
      | inl accepted ↦ rw accepted (record {
        all_le = ground arith;
        all_left = omega arith;
        all_sum = elim (Bool-cases (ltb (usr + sys + iow) u32)) [
          | inl small ↦ inl (ground arith)
          | inr big ↦ inr (ground arith)
        ];
      })
    ]

-- A counter's part of the total, as the code computes it.
abbrev pub percent : ℕ → CpuStatData → ℕ
percent counter diff = counter * 100 % u64 / get_total_time diff % u32

-- The sample of a difference that has a total.
abbrev pub sampled : CpuStatData → CpuStat → CpuStat
sampled d s =
    let diff = get_diff d s.last in
    take_sample d (percent diff.user_time diff) (percent diff.system_time diff)
      (percent diff.io_wait_time diff) s

-- The three ways of a sample: the first one, a trap of the divisions, or the test.
data Sampling (d : CpuStatData) (s : CpuStat) : Type 0 where
  first : get_total_time s.last ≡ 0 → update_stats d s ≡ ok (record s { last = d }) → Sampling d s
  divides_by_zero :
      get_total_time s.last ≢ 0
      → get_total_time (get_diff d s.last) ≡ 0
      → update_stats d s ≡ traps
      → Sampling d s
  tests :
      get_total_time s.last ≢ 0
      → get_total_time (get_diff d s.last) ≢ 0
      → update_stats d s ≡ ok (sampled d s)
      → Sampling d s

update_stats-Sampling : (d : CpuStatData) (s : CpuStat) → Sampling d s
unfolding update_stats get_percent
update_stats-Sampling d s = elim (Bool-cases (get_total_time s.last == 0)) [
  | inl a ↦ first (ground arith) (rw a)
  | inr a ↦ elim (Bool-cases (get_total_time (get_diff d s.last) == 0)) [
    | inl b ↦ divides_by_zero (ground arith) (ground arith) (ground arith)
    | inr b ↦ tests (ground arith) (ground arith) (ground arith)
  ]
]

-- For counters of 64 bits, a sample traps the process exactly when the total of the last sample is
-- not zero and the totals of both are equal.
pub update_stats-traps_iff :
    (d : CpuStatData) (s : CpuStat)
    → Fits d
    → Fits s.last
    → (update_stats d s ≡ traps)
      ↔ ((get_total_time s.last ≢ 0) × (get_total_time d ≡ get_total_time s.last))
update_stats-traps_iff d s f g =
    let same = diff-zero_iff d s.last f g in
    (
      λ h. elim (update_stats-Sampling d s) [
        | first _ e ↦ absurd (ground arith)
        | divides_by_zero a b e ↦ (a, same.0 b)
        | tests a b e ↦ absurd (ground arith)
      ],
      λ h. elim (update_stats-Sampling d s) [
        | first a e ↦ absurd (h.0 a)
        | divides_by_zero a b e ↦ e
        | tests a b e ↦ absurd (b (same.1 h.1))
      ],
    )

pub update_stats-IsSummed :
    (d : CpuStatData) (s : CpuStat) {t : CpuStat}
    → update_stats d s ≡ ok t
    → IsSummed s
    → IsSummed t
update_stats-IsSummed d s {t} h v = elim (update_stats-Sampling d s) [
  | first _ e ↦
      subst IsSummed (ok-injective (sym e ∙ h))
        (record { all_le = v.all_le; all_left = v.all_left; all_sum = v.all_sum })
  | divides_by_zero a b e ↦ absurd (ground arith)
  | tests a b e ↦ subst IsSummed (ok-injective (sym e ∙ h)) (take_sample-IsSummed d _ _ _ s v)
]

-- The verdict on a sample with three figures, by their sum.
pub data Verdict (d : CpuStatData) (usr sys iow : ℕ) (s : CpuStat) : Outcome CpuStat → Type 0 where
  accepted :
      {o : Outcome CpuStat}
      → usr + sys + iow ≤ 100
      → o
        ≡ ok (record s {
          last = d;
          message = record s.message { usr = usr; sys = sys; iow = iow; all = usr + sys + iow };
        })
      → Verdict d usr sys iow s o
  refused :
      {o : Outcome CpuStat}
      → 100 < usr + sys + iow
      → 100 < (usr + sys + iow) % u32
      → o ≡ ok (record s { last = cleared })
      → Verdict d usr sys iow s o
  wrapped :
      {o : Outcome CpuStat}
      → u32 ≤ usr + sys + iow
      → (usr + sys + iow) % u32 ≤ 100
      → o
        ≡ ok (record s {
          last = d;
          message = record s.message {
            usr = usr;
            sys = sys;
            iow = iow;
            all = (usr + sys + iow) % u32;
          };
        })
      → Verdict d usr sys iow s o

take_sample_refused :
    (d : CpuStatData) (usr sys iow : ℕ) (s : CpuStat)
    → (take_sample d usr sys iow s).last ≢ d
    → take_sample d usr sys iow s ≡ record s { last = cleared }
unfolding take_sample
take_sample_refused d usr sys iow s h = ground arith

update_stats-refused-last :
    (d : CpuStatData) (s : CpuStat) {t : CpuStat}
    → update_stats d s ≡ ok t
    → t.last ≢ d
    → t ≡ record s { last = cleared }
update_stats-refused-last d s {t} h n = elim (update_stats-Sampling d s) [
  | first _ e ↦ absurd (ground arith)
  | divides_by_zero a b e ↦ absurd (ground arith)
  | tests a b e ↦
      let same = ok-injective (sym h ∙ e) in same ∙ take_sample_refused d _ _ _ s (rw same at n)
]

-- After a sample that did not trap and did not become the last one, the figures are the old ones,
-- and the next sample, whatever it is, is only taken as the base of the one after it.
pub update_stats_after_refusal :
    (d : CpuStatData) (s : CpuStat) {t : CpuStat} (next : CpuStatData)
    → update_stats d s ≡ ok t
    → t.last ≢ d
    → (t.message ≡ s.message) × (update_stats next t ≡ ok (record s { last = next }))
unfolding update_stats get_total_time add64 cleared
update_stats_after_refusal d s {t} next h n =
    let e = update_stats-refused-last d s h n in (rw e, rw e)

-- With a sample before it and another total, a sample is tested.
pub update_stats_tests :
    (d : CpuStatData) (s : CpuStat)
    → get_total_time s.last ≢ 0
    → get_total_time (get_diff d s.last) ≢ 0
    → update_stats d s ≡ ok (sampled d s)
update_stats_tests d s h k = elim (update_stats-Sampling d s) [
  | first a e ↦ absurd (h a)
  | divides_by_zero a b e ↦ absurd (k b)
  | tests a b e ↦ e
]

take_sample_verdict :
    (d : CpuStatData) (usr sys iow : ℕ) (s : CpuStat)
    → Verdict d usr sys iow s (ok (take_sample d usr sys iow s))
unfolding take_sample
take_sample_verdict d usr sys iow s =
    let flat : ((usr + sys) % u32 + iow) % u32 ≡ (usr + sys + iow) % u32 = omega arith in
    rw flat (elim (Bool-cases (leb ((usr + sys + iow) % u32) 100)) [
      | inr over ↦ rw over (refused (ground arith) (ground arith) refl)
      | inl within ↦ rw within (elim (Bool-cases (ltb (usr + sys + iow) u32)) [
        | inl small ↦
            let same : (usr + sys + iow) % u32 ≡ usr + sys + iow = ground arith in
            accepted (ground arith) (rw same refl)
        | inr big ↦ wrapped (ground arith) (ground arith) refl
      ])
    ])

-- A sample with another total than the last one, which has one, is judged by the sum of its three
-- percentages of 32 bits each: up to 100 it is accepted and `all` is the sum, above 100 it is refused,
-- which leaves the figures and forgets the last sample, save for a sum of 2^32 or more that leaves at most
-- 100 in 32 bits: this one is accepted, with figures above 100 and `all` what is left.
pub update_stats_verdict :
    (d : CpuStatData) (s : CpuStat)
    → get_total_time s.last ≢ 0
    → get_total_time (get_diff d s.last) ≢ 0
    → let diff = get_diff d s.last in
      Verdict d
        (percent diff.user_time diff)
        (percent diff.system_time diff)
        (percent diff.io_wait_time diff)
        s
        (update_stats d s)
update_stats_verdict d s h k = rw (update_stats_tests d s h k) (take_sample_verdict d _ _ _ s)
