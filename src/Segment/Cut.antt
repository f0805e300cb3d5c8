-- ===== src/Segment/Cut.antt =====
-- The segment that `get_next` cuts off.
use nginx_hls_module.Base.{
  ℕ, zero, suc, ◌+◌, ◌-◌, ◌%◌, ◌^◌, ◌<◌, ◌≤◌, ◌≡◌, ◌≢◌, ◌∙◌, refl, subst, sym, ap, List, Bool, true,
  false, not, ◌&&◌, ◌||◌, ◌==◌, ==→eq, eq→==, Bool-cases, ◌⊎◌, inl, inr, Option, none, some,
  if◌then◌else◌, get_elem?, get_elem?_total, length, arith,
}
use mathlib.Core.Option.{some-injective}
use nginx_hls_module.Run.Returns.{Returns, returns, bind, mono}
use nginx_hls_module.Mp4.Headers.{Mdhd}
use nginx_hls_module.Mp4.Tables.{Sample}
use nginx_hls_module.Mp4.Tree.{Trak, Mdia}
use nginx_hls_module.Segment.{next_loop, get_next}

abbrev pub mark_of : Option Sample → ℕ
mark_of none = 0
mark_of (some x) = if x.is_smooth_ss then 1 else 0

-- The marked samples among `n` from a place on.
unfoldable pub marks : List Sample → ℕ → ℕ → ℕ
marks samples p zero = 0
marks samples p (suc n) = mark_of (get_elem? samples p) + marks samples (p + 1) n

-- A marked sample at a place.
abbrev pub Marked : List Sample → ℕ → Type 0
Marked samples p = (x : Sample) × (get_elem? samples p ≡ some x) × (x.is_smooth_ss ≡ true)

mark_at : List Sample → ℕ → ℕ
mark_at samples p = mark_of (get_elem? samples p)

mark_at-eq :
    (samples : List Sample) (p : ℕ) (x : Sample) (b : Bool)
    → get_elem? samples p ≡ some x
    → x.is_smooth_ss ≡ b
    → mark_at samples p ≡ (if b then 1 else 0)
unfolding mark_at
mark_at-eq samples p x b found e = ap mark_of found ∙ ap (λ c. if c then 1 else 0) e

pub marks-step :
    (samples : List Sample) (p n : ℕ) (x : Sample) (b : Bool)
    → get_elem? samples p ≡ some x
    → x.is_smooth_ss ≡ b
    → marks samples p (suc n) ≡ (if b then 1 else 0) + marks samples (p + 1) n
unfolding marks
marks-step samples p n x b found e =
    ap (λ k. k + marks samples (p + 1) n) (ap mark_of found ∙ ap (λ c. if c then 1 else 0) e)

module _ (reaches : ℕ → ℕ → ℕ → Bool) (samples : List Sample)
    (start timescale seconds last_chunk : ℕ) where
  -- A marked sample ends the segment, behind `i` others: without a count by its time, and else where
  -- the count is reached.
  abbrev pub Cuts : Sample → ℕ → Type 0
  Cuts x i =
      ((last_chunk ≡ 0) × (reaches ((x.pts + (2 ^ 64 - start)) % 2 ^ 64) timescale seconds ≡ true))
      ⊎ ((last_chunk ≢ 0) × (i ≡ last_chunk))

  -- No marked sample that ends the segment is at a place.
  abbrev pub Uncut : ℕ → ℕ → Type 0
  Uncut p i = (m : Marked samples p) → Cuts m.0 i → ⊥

  -- Where the loop stops: not behind `last`; at `last` or at the first marked sample that ends the
  -- segment; `i` counts the marked samples that it passes.
  pub record Stops (from last i0 : ℕ) (r : ℕ × ℕ) : Type 0 where
    pub steps : ℕ
    pub place : r.0 ≡ from + steps
    pub inside : r.0 ≤ last
    pub counts : r.1 ≡ i0 + marks samples from steps
    pub passed : (k : ℕ) → k < steps → Uncut (from + k) (i0 + marks samples from k)
    pub ends : (r.0 ≡ last) ⊎ ((m : Marked samples r.0) × Cuts m.0 r.1)

  -- The test of the loop.
  abbrev stops : Sample → ℕ → Bool
  stops x i =
      (last_chunk == 0) && reaches ((x.pts + (2 ^ 64 - start)) % 2 ^ 64) timescale seconds
      || not (last_chunk == 0) && (last_chunk == i)

  stops-Cuts : (x : Sample) (i : ℕ) → stops x i ≡ true → Cuts x i
  stops-Cuts x i e = elim (Bool-cases (last_chunk == 0)) [
    | inl unset ↦ inl (==→eq last_chunk 0 unset, ground arith)
    | inr set ↦
        let apart : last_chunk ≢ 0 = λ zero_count. ground arith in
        inr (apart, sym (==→eq last_chunk i (rw set at e)))
  ]

  Cuts-stops : (x : Sample) (i : ℕ) → Cuts x i → stops x i ≡ true
  Cuts-stops x i (inl (unset, long)) = rw (unset, long) refl
  Cuts-stops x i (inr (set, reached)) =
      let given : (last_chunk == 0) ≡ false = ground arith in
      rw (given, eq→== last_chunk i (sym reached)) refl

  stops-Uncut :
      (p i : ℕ) (x : Sample) → get_elem? samples p ≡ some x → stops x i ≡ false → Uncut p i
  stops-Uncut p i x found on (y, at_p, marked) cuts =
      let same : y ≡ x = some-injective y x (sym at_p ∙ found) in
      let stopped = Cuts-stops x i (subst (λ t. Cuts t i) same cuts) in cc

  unmarked-Uncut :
      (p i : ℕ) (x : Sample) → get_elem? samples p ≡ some x → x.is_smooth_ss ≡ false → Uncut p i
  unmarked-Uncut p i x found unmarked (y, at_p, marked) cuts =
      let same : y ≡ x = some-injective y x (sym at_p ∙ found) in cc

  -- A sample that the loop passes.
  pass :
      (next left i j : ℕ) {r : ℕ × ℕ}
      → Uncut next i
      → j ≡ i + mark_at samples next
      → Stops (next + 1) (next + 1 + left) j r
      → Stops next (next + suc left) i r
  unfolding marks mark_at
  pass next left i j {r} here e s =
      let same : next + 1 + left ≡ next + suc left = omega arith in
      record {
        steps = suc s.steps;
        place = omega (arith, s.place);
        inside = omega (arith, s.inside);
        counts = omega (arith, s.counts, e);
        passed = passed;
        ends = elim s.ends [ inl at_last ↦ inl (at_last ∙ same) | inr marked ↦ inr marked ];
      }
    where
      passed : (k : ℕ) → k < suc s.steps → Uncut (next + k) (i + marks samples next k)
      passed zero low =
          let p : next ≡ next + 0 = omega arith in
          let c : i ≡ i + 0 = omega arith in
          subst (λ n. Uncut n (i + 0)) p (subst (Uncut next) c here)
      passed (suc k) low =
          let p : next + 1 + k ≡ next + suc k = omega arith in
          let c : j + marks samples (next + 1) k ≡ i + marks samples next (suc k) =
            omega (arith, e) in
          subst (λ n. Uncut n (i + marks samples next (suc k))) p
            (subst (Uncut (next + 1 + k)) c (s.passed k (omega arith)))

  pub next_loop-Stops :
      (left next i : ℕ)
      → next + left < length samples
      → i + left < 2 ^ 32
      → Returns
          (Stops next (next + left) i)
          (next_loop reaches left samples start timescale seconds last_chunk next i)
  unfolding next_loop marks
  next_loop-Stops zero next i inside small = returns (record {
    steps = 0;
    place = omega arith;
    inside = omega arith;
    counts = omega arith;
    passed = λ k low. absurd (omega arith);
    ends = inl (omega arith);
  })
  next_loop-Stops (suc left) next i inside small =
      let (x, found) = get_elem?_total samples next (omega arith) in
      elim (Bool-cases x.is_smooth_ss) [
        | inr unmarked ↦
            let none_here : i ≡ i + mark_at samples next =
              omega (arith, mark_at-eq samples next x false found unmarked) in
            rw (found, unmarked)
              (mono (next_loop-Stops left (next + 1) i (omega arith) (omega arith))
                (λ r s. pass next left i i (unmarked-Uncut next i x found unmarked) none_here s))
        | inl marked ↦ elim (Bool-cases (stops x i)) [
          | inl here ↦
              rw (found, marked, here)
                (returns (record {
                  steps = 0;
                  place = omega arith;
                  inside = omega arith;
                  counts = omega arith;
                  passed = λ k low. absurd (omega arith);
                  ends = inr ((x, found, marked), stops-Cuts x i here);
                }))
          | inr on ↦
              let one_here : (i + 1) % 2 ^ 32 ≡ i + mark_at samples next =
                omega (arith, mark_at-eq samples next x true found marked) in
              rw (found, marked, on)
                (mono
                  (next_loop-Stops left (next + 1) ((i + 1) % 2 ^ 32) (omega arith) (omega arith))
                  (λ r s.
                    pass next left i ((i + 1) % 2 ^ 32) (stops-Uncut next i x found on) one_here s))
        ]
      ]

-- For a sample in front of `last`, in a track with its media header and an entry behind its samples,
-- less than 2^32: `get_next` stops behind the sample, at `last` or at a marked sample that ends the
-- segment, and passes none that does. Where it was given 0, a sample ends the segment whose time is
-- far enough from the first one's, and the result is the number of marked samples passed; where it
-- was given a count, a sample does behind so many marked samples, and the result is that count.
pub get_next-Stops :
    (reaches : ℕ → ℕ → ℕ → Bool) (trak : Trak) (mdia : Mdia) (mdhd : Mdhd) (first : Sample)
    (sample last seconds last_chunk : ℕ)
    → trak.mdia ≡ some mdia
    → mdia.mdhd ≡ some mdhd
    → get_elem? trak.samples sample ≡ some first
    → sample < last
    → last < length trak.samples
    → last < 2 ^ 32
    → Returns
        (λ r.
          (i : ℕ) × Stops reaches trak.samples first.pts mdhd.timescale seconds last_chunk
            (sample + 1)
            last
            0
            (r.0, i)
          × (r.1 ≡ (if last_chunk == 0 then i else last_chunk)))
        (get_next reaches trak sample last seconds last_chunk)
unfolding get_next
get_next-Stops reaches trak mdia mdhd first sample last seconds last_chunk e1 e2 found before inside
      small =
    let ne : (sample == last) ≡ false = ground arith in
    let all : sample + 1 + (last - (sample + 1)) ≡ last = omega arith in
    rw (ne, e1, e2, found)
      (bind
        (next_loop-Stops reaches trak.samples first.pts mdhd.timescale seconds last_chunk
          (last - (sample + 1)) (sample + 1) 0 (omega arith) (omega arith))
        (λ r s. returns (r.1, (rw all at s), refl)))
