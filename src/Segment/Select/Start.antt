-- ===== src/Segment/Select/Start.antt =====
-- Where a segment starts in a track.
use nginx_hls_module.Base.{
  ℕ, zero, suc, ◌+◌, ◌-◌, ◌%◌, ◌^◌, ◌<◌, ◌≤◌, ◌≡◌, List, Bool, true, false, ◌&&◌, ◌==◌, ==→eq,
  Bool-cases, inl, inr, Option, none, some, if◌then◌else◌, get_elem?, get_elem?_total, length,
  arith,
}
use native.Mathlib.Nat.{add-zero}
use nginx_hls_module.Run.Returns.{Returns, returns, mono}
use nginx_hls_module.Mp4.Tables.{Sample}
use nginx_hls_module.Segment.Cut.{marks, marks-step, Marked}
use nginx_hls_module.Segment.Select.{find_start}

-- A place, which is that of the marked sample with a number.
pub record Starts (samples : List Sample) (from last i number : ℕ) (place : ℕ) : Type 0 where
  pub steps : ℕ
  pub at : place ≡ from + steps
  pub inside : place < last
  pub marked : Marked samples place
  pub numbered : i + marks samples from steps ≡ number

-- The marked sample with the number, and none where the track has not so many.
pub Found : List Sample → ℕ → ℕ → ℕ → ℕ → Option ℕ → Type 0
Found samples from last i number none = i + marks samples from (last - from) ≤ number
Found samples from last i number (some place) = Starts samples from last i number place

-- A sample that the loop goes past.
go_past :
    (samples : List Sample) (place left i number : ℕ) (x : Sample) (b : Bool) (r : Option ℕ)
    → get_elem? samples place ≡ some x
    → x.is_smooth_ss ≡ b
    → Found samples (place + 1) (place + 1 + left) (i + (if b then 1 else 0)) number r
    → Found samples place (place + suc left) i number r
unfolding Found
go_past samples place left i number x b none found e h =
    let same : place + suc left - place ≡ suc left = omega arith in
    let here = marks-step samples place left x b found e in
    let rest : place + 1 + left - (place + 1) ≡ left = omega arith in
    let h' = rw rest at h in rw same (omega (arith, here, h'))
go_past samples place left i number x b (some p) found e s = record {
  steps = suc s.steps;
  at = omega (arith, s.at);
  inside = omega (arith, s.inside);
  marked = s.marked;
  numbered = omega (arith, s.numbered, marks-step samples place s.steps x b found e);
}

-- In a track whose samples count, the place where a segment starts is that of the marked sample
-- with the number asked for, and there is none only where no more than so many are marked.
pub find_start-Found :
    (left : ℕ) (samples : List Sample) (sound : Bool) (fragment_start place i : ℕ)
    → place + left ≤ length samples
    → i + left < 2 ^ 32
    → i ≤ fragment_start
    → Returns
        (Found samples place (place + left) i fragment_start)
        (find_start left samples sound true fragment_start place i)
unfolding find_start Found marks
find_start-Found zero samples sound fragment_start place i inside small low =
    let same : place + 0 - place ≡ 0 = omega arith in returns (rw same (omega arith))
find_start-Found (suc left) samples sound fragment_start place i inside small low =
    let (x, found) = get_elem?_total samples place (omega arith) in
    let on = find_start-Found left samples sound fragment_start (place + 1) in
    let counts : (sound && false) ≡ false = ground arith in
    elim (Bool-cases x.is_smooth_ss) [
      | inr unmarked ↦
          rw (found, unmarked)
            (mono (on i (omega arith) (omega arith) low) (λ r h.
              go_past samples place left i fragment_start x false r found unmarked
                (rw (add-zero i) h)))
      | inl marked ↦ elim (Bool-cases (fragment_start == i)) [
        | inl here ↦
            rw (found, marked, counts, here)
              (returns (record {
                steps = 0;
                at = omega arith;
                inside = omega arith;
                marked = (x, found, marked);
                numbered = omega (arith, ==→eq fragment_start i here);
              }))
        | inr later ↦
            let no_wrap : (i + 1) % 2 ^ 32 ≡ i + 1 = omega arith in
            rw (found, marked, counts, later, no_wrap)
              (mono (on (i + 1) (omega arith) (omega arith) (ground arith))
                (λ r h. go_past samples place left i fragment_start x true r found marked h))
      ]
    ]
