-- ===== src/Index/Pts.antt =====
-- The times that `trak_build_index` gives to the samples, against the description of `stts`: every
-- sample gets the sum of the durations before it.
pub mod Overrun
use nginx_hls_module.Base.{
  ℕ, zero, suc, ◌+◌, ◌-◌, ◌*◌, ◌%◌, ◌^◌, ◌≤◌, ◌<◌, ◌≡◌, ◌≢◌, ◌∙◌, ap, refl, sym, subst, List, [],
  ◌∷◌, Option, none, some, Bool, true, false, ltb, if◌then◌else◌, arith, Bool-cases, inl, inr, ◌⊎◌,
  get_elem?, length, set, length-set, get_elem?-set_self, get_elem?-set_ne, get_elem?_total, lt→ltb,
  le→ltb, ltb→lt, ltb→le,
}
use native.Mathlib.Nat.{mod-eq_of_lt}
use nginx_hls_module.Run.{Run, ok, fault, ◌>>=◌}
use nginx_hls_module.Run.Returns
use nginx_hls_module.Run.Returns.{Returns, returns}
use nginx_hls_module.Mp4.Tables.{Stts, SttsTable, Sample}
use nginx_hls_module.Lookup.Times.{total_samples, total_time, time_of}
use nginx_hls_module.Index.{update, pts_row, pts_rows, calc_pts}

-- The sample with another time.
abbrev pub with_pts : ℕ → Option Sample → Option Sample
with_pts v none = none
with_pts v (some x) = some (record x { pts = v })

-- `ys` is `xs` with the times `f` from index `lo` up to `hi`.
pub record Timed (f : ℕ → ℕ) (lo hi : ℕ) (xs ys : List Sample) : Type 0 where
  pub long : length ys ≡ length xs
  pub inside : (i : ℕ) → lo ≤ i → i < hi → get_elem? ys i ≡ with_pts (f i) (get_elem? xs i)
  pub outside : (i : ℕ) → (i < lo) ⊎ (hi ≤ i) → get_elem? ys i ≡ get_elem? xs i

Timed-none : (f : ℕ → ℕ) (s : ℕ) (xs : List Sample) → Timed f s s xs xs
Timed-none f s xs = record {
  long = refl;
  inside = λ i lo hi. absurd (omega arith);
  outside = λ i h. refl;
}

update-Timed :
    (f : ℕ → ℕ) (s v : ℕ) (xs : List Sample)
    → s < length xs
    → v ≡ f s
    → Returns (Timed f s (s + 1) xs) (update xs s (λ x. record x { pts = v }))
unfolding update
update-Timed f s v xs h e =
    let (a, at) = get_elem?_total xs s h in
    rw (update, at)
      (returns (record {
        long = length-set xs s _;
        inside = λ i lo hi.
            let same : s ≡ i = omega arith in
            rw (sym same) (get_elem?-set_self xs s _ h ∙ (rw (at, e) refl));
        outside = λ i k. get_elem?-set_ne xs _ (apart i k);
      }))
  where
    apart : (i : ℕ) → (i < s) ⊎ (s + 1 ≤ i) → s ≢ i
    apart i (inl k) e = omega arith
    apart i (inr k) e = omega arith

Timed-trans :
    {f : ℕ → ℕ} {a b c : ℕ} {xs ys zs : List Sample}
    → a ≤ b
    → b ≤ c
    → Timed f a b xs ys
    → Timed f b c ys zs
    → Timed f a c xs zs
Timed-trans {f} {a} {b} {c} {xs} {ys} {zs} h k t u = record {
  long = u.long ∙ t.long;
  inside = λ i lo hi. elim (Bool-cases (ltb i b)) [
    | inl front ↦ u.outside i (inl (ltb→lt i b front)) ∙ t.inside i lo (ltb→lt i b front)
    | inr back ↦
        u.inside i (ltb→le i b back) hi ∙ ap (with_pts (f i)) (t.outside i (inr (ltb→le i b back)))
  ];
  outside = λ i. elim [
    | inl lo ↦ u.outside i (inl (omega arith)) ∙ t.outside i (inl lo)
    | inr hi ↦ u.outside i (inr hi) ∙ t.outside i (inr (omega arith))
  ];
}

pts_row-Timed :
    (f : ℕ → ℕ) (n d s pts : ℕ) (xs : List Sample)
    → s + n ≤ length xs
    → pts + n * d < 2 ^ 64
    → ((i : ℕ) → i < n → f (s + i) ≡ pts + i * d)
    → Returns
        (λ (s', pts', ys). (s' ≡ s + n) × (pts' ≡ pts + n * d) × Timed f s s' xs ys)
        (pts_row n d s pts xs)
unfolding pts_row
pts_row-Timed f zero d s pts xs room fits times =
    returns (omega arith, omega arith, Timed-none f s xs)
pts_row-Timed f (suc n) d s pts xs room fits times =
    Returns.bind (update-Timed f s pts xs (omega arith) first) λ ys t.
      let next : (pts + d) % 2 ^ 64 ≡ pts + d = mod-eq_of_lt (grind arith) in
      rw next (
        Returns.mono
          (pts_row-Timed f n d (s + 1) (pts + d) ys (omega (arith, t.long)) (grind arith) later)
          λ (s', pts', zs) (e, e', u).
            (omega (arith, e), grind (arith, e'), Timed-trans (omega arith) (omega (arith, e)) t u))
  where
    first : pts ≡ f s
    first = sym (ap f (sym (add_zero s)) ∙ times 0 (omega arith) ∙ zero_times)
      where
        add_zero : (k : ℕ) → k + 0 ≡ k
        add_zero k = omega arith

        zero_times : pts + 0 * d ≡ pts
        zero_times = omega arith

    later : (i : ℕ) → i < n → f (s + 1 + i) ≡ pts + d + i * d
    later i h = ap f (shift i) ∙ times (suc i) (omega arith) ∙ (grind arith)
      where
        shift : (i : ℕ) → s + 1 + i ≡ s + suc i
        shift i = omega arith

pts_rows-Timed :
    (f : ℕ → ℕ) (t : List SttsTable) (s pts : ℕ) (xs : List Sample)
    → s + total_samples t ≤ length xs
    → pts + total_time t < 2 ^ 64
    → ((i : ℕ) → i ≤ total_samples t → f (s + i) ≡ pts + time_of t i)
    → Returns
        (λ (s', pts', ys).
          (s' ≡ s + total_samples t) × (pts' ≡ pts + total_time t) × Timed f s s' xs ys)
        (pts_rows t s pts xs)
unfolding pts_rows total_samples total_time time_of
pts_rows-Timed f [] s pts xs room fits times = returns (omega arith, omega arith, Timed-none f s xs)
pts_rows-Timed f (r ∷ rs) s pts xs room fits times =
    let c = r.sample_count in
    let d = r.sample_duration in
    Returns.bind
      (pts_row-Timed f c d s pts xs (omega arith) (omega arith)
        λ i h. times i (omega arith) ∙ ap (λ x. pts + x) (rw (lt→ltb i c h) refl))
      λ (s', pts', ys) (e, e', t).
        Returns.mono
          (pts_rows-Timed f rs s' pts' ys (omega (arith, t.long, e)) (omega (arith, e'))
            λ i h. ap f (rw e (shift s c i)) ∙ times (c + i) (omega arith) ∙ behind i e')
          λ (s'', pts'', zs) (k, k', u). (
            omega (arith, e, k),
            omega (arith, e', k'),
            Timed-trans (omega (arith, e)) (omega (arith, k)) t u,
          )
  where
    shift : (a b i : ℕ) → a + b + i ≡ a + (b + i)
    shift a b i = omega arith

    behind :
        {pts' : ℕ} (i : ℕ)
        → pts' ≡ pts + r.sample_count * r.sample_duration
        → pts + time_of (r ∷ rs) (r.sample_count + i) ≡ pts' + time_of rs i
    behind i e =
        let left : r.sample_count + i - r.sample_count ≡ i = omega arith in
        rw (le→ltb (r.sample_count + i) r.sample_count (omega arith), left) (omega (arith, e))

-- All samples of the table take all its time.
time_of-total : (t : List SttsTable) → time_of t (total_samples t) ≡ total_time t
unfolding time_of total_samples total_time
time_of-total [] = refl
time_of-total (r ∷ rs) =
    let left : r.sample_count + total_samples rs - r.sample_count ≡ total_samples rs =
      omega arith in
    rw (le→ltb (r.sample_count + total_samples rs) r.sample_count (omega arith), left)
      (ap (λ x. r.sample_count * r.sample_duration + x) (time_of-total rs))

-- Where `stts` has fewer samples than the array, and its time has 64 bits, the array gets the
-- time of each of them, and behind them the time of the end; all else in it stays.
pub calc_pts-Timed :
    (stts : Stts) (samples : List Sample)
    → total_samples stts.table < length samples
    → total_time stts.table < 2 ^ 64
    → Returns
        (Timed (time_of stts.table) 0 (total_samples stts.table + 1) samples)
        (calc_pts stts samples)
unfolding calc_pts
calc_pts-Timed stts samples room fits =
    let t = stts.table in
    Returns.bind
      (pts_rows-Timed (time_of t) t 0 0 samples (omega arith) (omega arith)
        λ i h. ap (time_of t) (zero_add i) ∙ sym (zero_add (time_of t i)))
      λ (s, pts, ys) (e, e', u).
        Returns.mono
          (update-Timed (time_of t) s pts ys (omega (arith, u.long, e)) (last s pts e e'))
          λ zs w.
            subst (λ k. Timed (time_of t) 0 k samples zs) (end s e)
              (Timed-trans (omega arith) (omega arith) u w)
  where
    zero_add : (k : ℕ) → 0 + k ≡ k
    zero_add k = omega arith

    end : (s : ℕ) → s ≡ 0 + total_samples stts.table → s + 1 ≡ total_samples stts.table + 1
    end s e = omega arith

    last :
        (s pts : ℕ)
        → s ≡ 0 + total_samples stts.table
        → pts ≡ 0 + total_time stts.table
        → pts ≡ time_of stts.table s
    last s pts e e' =
        (e' ∙ zero_add _)
        ∙ sym (time_of-total stts.table)
        ∙ ap (time_of stts.table) (sym (e ∙ zero_add _))
