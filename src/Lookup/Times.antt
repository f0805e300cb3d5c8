-- ===== src/Lookup/Times.antt =====
-- The two lookups in `stts` against one description of the table: the time of a sample is the sum
-- of the durations before it.
use nginx_hls_module.Base.{
  ℕ, ◌+◌, ◌-◌, ◌*◌, ◌/◌, ◌%◌, ◌^◌, ◌≤◌, ◌<◌, ◌≡◌, ◌∙◌, ap, refl, sym, subst, List, [], ◌∷◌, ltb,
  leb, ◌==◌, if◌then◌else◌, All, arith, Bool-cases, inl, inr, lt→ltb, le→ltb, ltb→lt, ltb→le,
  leb→le, leb→lt, lt→leb, ==→eq,
}
use native.Mathlib.Nat.{mod-eq_of_lt}
use nginx_hls_module.Run.{ok}
use nginx_hls_module.Mp4.Tables.{Stts, SttsTable}
use nginx_hls_module.Lookup.{
  samples_up_to, get_sample_loop, stts_get_sample, get_time_loop, stts_get_time,
}

-- The number of samples, and the duration of all of them.
unfoldable pub total_samples : List SttsTable → ℕ
total_samples [] = 0
total_samples (r ∷ rs) = r.sample_count + total_samples rs

unfoldable pub total_time : List SttsTable → ℕ
total_time [] = 0
total_time (r ∷ rs) = r.sample_count * r.sample_duration + total_time rs

-- The sum of the durations of the first `n` samples.
unfoldable pub time_of : List SttsTable → ℕ → ℕ
time_of [] n = 0
time_of (r ∷ rs) n =
    if ltb n r.sample_count
    then n * r.sample_duration
    else r.sample_count * r.sample_duration + time_of rs (n - r.sample_count)

time_of-le : (t : List SttsTable) (n : ℕ) → time_of t n ≤ total_time t
unfolding time_of total_time
time_of-le [] n = omega arith
time_of-le (r ∷ rs) n = elim (Bool-cases (ltb n r.sample_count)) [
  | inl inside ↦ rw inside (let h = ltb→lt n r.sample_count inside in grind arith)
  | inr behind ↦ rw behind (omega (arith, time_of-le rs (n - r.sample_count)))
]

mul_mono_left : (a b d : ℕ) → a ≤ b → a * d ≤ b * d
mul_mono_left a b d h = grind arith

sub_add : (a b c : ℕ) → a - (b + c) ≡ a - b - c
sub_add a b c = omega arith

get_time_loop-time_of :
    (t : List SttsTable) (sample count ret : ℕ)
    → count ≤ sample
    → sample < count + total_samples t
    → count + total_samples t < 2 ^ 32
    → ret + total_time t < 2 ^ 64
    → get_time_loop t sample count ret ≡ ok (ret + time_of t (sample - count))
unfolding get_time_loop total_samples total_time time_of
get_time_loop-time_of [] sample count ret lo hi fits time = absurd (omega arith)
get_time_loop-time_of (r ∷ rs) sample count ret lo hi fits time =
    let c = r.sample_count in
    let d = r.sample_duration in
    let next : (count + c) % 2 ^ 32 ≡ count + c = mod-eq_of_lt (omega arith) in
    let passed : (ret + c * d) % 2 ^ 64 ≡ ret + c * d = mod-eq_of_lt (omega arith) in
    let left : (sample + 2 ^ 32 - count) % 2 ^ 32 ≡ sample - count = omega arith in
    elim (Bool-cases (ltb sample (count + c))) [
      | inl inside ↦
          let h = ltb→lt sample (count + c) inside in
          let part : (sample - count) * d ≤ c * d =
            mul_mono_left (sample - count) c d (omega arith) in
          rw (next, left)
            (rw (inside, lt→ltb (sample - count) c (omega arith))
              (ap ok (mod-eq_of_lt (omega arith))))
      | inr behind ↦
          let h = ltb→le sample (count + c) behind in
          rw (next, passed)
            (rw (behind, le→ltb (sample - count) c (omega arith))
              (get_time_loop-time_of rs sample (count + c) (ret + c * d) h (omega arith)
                  (omega arith) (omega arith)
                ∙ ap ok (rw (sub_add sample count c) (omega arith))))
    ]

-- The time of a sample that the table covers is the sum of the durations before it.
pub stts_get_time-time_of :
    (stts : Stts) (sample : ℕ)
    → sample < total_samples stts.table
    → total_samples stts.table < 2 ^ 32
    → total_time stts.table < 2 ^ 64
    → stts_get_time stts sample ≡ ok (time_of stts.table sample)
unfolding stts_get_time
stts_get_time-time_of stts sample h fits time =
    get_time_loop-time_of stts.table sample 0 0 (omega arith) (omega arith) (omega arith)
      (omega arith)
    ∙ ap ok (rw (sub_zero sample) (omega arith))
  where
    sub_zero : (n : ℕ) → n - 0 ≡ n
    sub_zero n = omega arith

-- Division that rounds up.
ceil-le : (x d k : ℕ) → 0 < d → (x + d - 1) / d ≤ k → x ≤ k * d
ceil-le x d k h e = grind arith

le-ceil : (x d k : ℕ) → 0 < d → x ≤ k * d → (x + d - 1) / d ≤ k
le-ceil x d k h e = grind arith

-- An answer `n` of the loop: it is in range, and it is at most the samples whose time is reached.
pub record Reaches (t : List SttsTable) (time : ℕ) (n : ℕ) : Type 0 where
  pub bounded : n ≤ total_samples t
  pub reached : (k : ℕ) → k ≤ total_samples t → n ≤ k → time ≤ time_of t k
  pub least : (k : ℕ) → time ≤ time_of t k → n ≤ k

abbrev pub HasDuration : SttsTable → Type 0
HasDuration r = (0 < r.sample_duration) × (r.sample_duration < 2 ^ 32)

inside-Reaches :
    (r : SttsTable) (rs : List SttsTable) (time n : ℕ)
    → 0 < r.sample_duration
    → n ≡ (time + r.sample_duration - 1) / r.sample_duration
    → time ≤ r.sample_count * r.sample_duration
    → Reaches (r ∷ rs) time n
unfolding total_samples time_of
inside-Reaches r rs time n pos e h =
    let c = r.sample_count in
    let d = r.sample_duration in
    let small : n ≤ c = rw e (le-ceil time d c pos h) in
    record {
      bounded = omega arith;
      reached = λ k bound le. elim (Bool-cases (ltb k c)) [
        | inl front ↦ rw front (ceil-le time d k pos (rw (sym e) le))
        | inr behind ↦ rw behind (omega arith)
      ];
      least = λ k. elim (Bool-cases (ltb k c)) [
        | inl front ↦ rw front (λ le. rw e (le-ceil time d k pos le))
        | inr behind ↦ λ le. omega (arith, ltb→le k c behind)
      ];
    }

behind-Reaches :
    (r : SttsTable) (rs : List SttsTable) (time n : ℕ)
    → r.sample_count * r.sample_duration < time
    → Reaches rs (time - r.sample_count * r.sample_duration) n
    → Reaches (r ∷ rs) time (r.sample_count + n)
unfolding total_samples time_of
behind-Reaches r rs time n h is =
    let c = r.sample_count in
    let d = r.sample_duration in
    record {
      bounded = omega (arith, is.bounded);
      reached = λ k bound le. elim (Bool-cases (ltb k c)) [
        | inl front ↦ absurd (omega (arith, ltb→lt k c front))
        | inr behind ↦ rw behind (omega (arith, is.reached (k - c) (omega arith) (omega arith)))
      ];
      least = λ k. elim (Bool-cases (ltb k c)) [
        | inl front ↦
            rw front
              λ le. absurd (omega (arith, mul_mono_left k c d (omega (arith, ltb→lt k c front))))
        | inr behind ↦
            rw behind λ le. omega (arith, ltb→le k c behind, is.least (k - c) (omega arith))
      ];
    }

add_shift : (a b n : ℕ) → a + b + n ≡ a + (b + n)
add_shift a b n = omega arith

samples_up_to-eq :
    (time count d : ℕ)
    → count ≤ time
    → time < 2 ^ 63
    → 0 < d
    → d < 2 ^ 32
    → samples_up_to time count d ≡ ok ((time - count + d - 1) / d % 2 ^ 32)
unfolding samples_up_to
samples_up_to-eq time count d le fits pos small =
    let left : ((time + 2 ^ 64 - count) % 2 ^ 64 + d + 2 ^ 64 - 1) % 2 ^ 64 ≡ time - count + d - 1 =
      omega arith in
    rw left (elim (Bool-cases (d == 0)) [
      | inl trap ↦ absurd (omega (arith, ==→eq d 0 trap))
      | inr fine ↦ rw fine refl
    ])

-- A row that ends before `time` hands on to the rows behind it.
get_sample_loop-behind :
    (r : SttsTable) (rs : List SttsTable) (time count ret : ℕ)
    → count + r.sample_count * r.sample_duration < time
    → count + r.sample_count * r.sample_duration < 2 ^ 63
    → ret + r.sample_count < 2 ^ 32
    → (n : ℕ) × (get_sample_loop rs time
          (count + r.sample_count * r.sample_duration)
          (ret + r.sample_count)
        ≡ ok (ret + r.sample_count + n))
      × Reaches rs (time - (count + r.sample_count * r.sample_duration)) n
    → (n : ℕ) × (get_sample_loop (r ∷ rs) time count ret ≡ ok (ret + n))
      × Reaches (r ∷ rs) (time - count) n
unfolding get_sample_loop
get_sample_loop-behind r rs time count ret h room fits (n, e, is) =
    let c = r.sample_count in
    let d = r.sample_duration in
    let swap : d * c ≡ c * d = grind arith in
    let next : (count + d * c) % 2 ^ 64 ≡ count + c * d = rw swap (mod-eq_of_lt (omega arith)) in
    let passed : (ret + c) % 2 ^ 32 ≡ ret + c = mod-eq_of_lt (omega arith) in
    (
      c + n,
      rw (next, passed) (rw (lt→leb time (count + c * d) h) (e ∙ ap ok (add_shift ret c n))),
      behind-Reaches r rs (time - count) n (omega arith)
          (subst (λ x. Reaches rs x n) (sub_add time count (c * d)) is),
    )

get_sample_loop-Reaches :
    (t : List SttsTable) (time count ret : ℕ)
    → All HasDuration t
    → count ≤ time
    → time ≤ count + total_time t
    → ret + total_samples t < 2 ^ 32
    → count + total_time t < 2 ^ 63
    → (n : ℕ) × (get_sample_loop t time count ret ≡ ok (ret + n)) × Reaches t (time - count) n
unfolding get_sample_loop total_samples total_time time_of
get_sample_loop-Reaches [] time count ret ds lo hi fits room = (
  0,
  ap ok (omega arith),
  record {
    bounded = omega arith;
    reached = λ k bound le. omega arith;
    least = λ k le. omega arith;
  },
)
get_sample_loop-Reaches (r ∷ rs) time count ret ds lo hi fits room =
    let c = r.sample_count in
    let d = r.sample_duration in
    let swap : d * c ≡ c * d = grind arith in
    let next : (count + d * c) % 2 ^ 64 ≡ count + c * d = rw swap (mod-eq_of_lt (omega arith)) in
    elim (Bool-cases (leb time (count + c * d))) [
      | inl inside ↦
          let h = leb→le time (count + c * d) inside in
          let x = (time - count + d - 1) / d in
          let small : x ≤ c = le-ceil (time - count) d c ds.0.0 (omega arith) in
          (
            x,
            rw next (
                rw inside (
                  rw (samples_up_to-eq time count d lo (omega arith) ds.0.0 ds.0.1)
                    (ap ok (omega arith)))),
            inside-Reaches r rs (time - count) x ds.0.0 refl (omega arith),
          )
      | inr behind ↦
          let h = leb→lt time (count + c * d) behind in
          get_sample_loop-behind r rs time count ret h (omega arith) (omega arith) (
            get_sample_loop-Reaches rs time (count + c * d) (ret + c) ds.1 (omega arith)
              (omega arith) (omega arith) (omega arith))
    ]

-- For a time up to the end of the table, the sample found is the first whose time is not before
-- it: its number is at most that of all samples, and a number of samples reaches the time just
-- when it is not below the one found. Each row has a duration of 32 bits other than 0.
pub stts_get_sample-Reaches :
    (stts : Stts) (time : ℕ)
    → All HasDuration stts.table
    → time ≤ total_time stts.table
    → total_samples stts.table < 2 ^ 32
    → total_time stts.table < 2 ^ 63
    → (n : ℕ) × (stts_get_sample stts time ≡ ok n) × Reaches stts.table time n
unfolding stts_get_sample
stts_get_sample-Reaches stts time ds h fits room = from_start (
    get_sample_loop-Reaches stts.table time 0 0 ds (omega arith) (omega arith) (omega arith)
      (omega arith))
  where
    minus_zero : (k : ℕ) → k - 0 ≡ k
    minus_zero k = omega arith

    zero_add : (k : ℕ) → 0 + k ≡ k
    zero_add k = omega arith

    from_start :
        (n : ℕ) × (get_sample_loop stts.table time 0 0 ≡ ok (0 + n))
          × Reaches stts.table (time - 0) n
        → (n : ℕ) × (get_sample_loop stts.table time 0 0 ≡ ok n) × Reaches stts.table time n
    from_start (n, e, is) =
        (n, e ∙ ap ok (zero_add n), subst (λ x. Reaches stts.table x n) (minus_zero time) is)
