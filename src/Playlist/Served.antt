-- ===== src/Playlist/Served.antt =====
-- The segments of a playlist and the loops of `output_ts` and `get_next` over the same track.
use nginx_hls_module.Base.{
  ℕ, zero, suc, ◌+◌, ◌-◌, ◌%◌, ◌^◌, ◌≤◌, ◌<◌, ◌≡◌, ◌∙◌, refl, sym, ap, subst, List, Bool, true,
  false, ◌&&◌, ◌||◌, ◌==◌, eq→==, Bool-cases, inl, inr, some, get_elem?, get_elem?_total, length,
  All, arith,
}
use native.Mathlib.Nat.{mod-eq_of_lt}
use nginx_hls_module.Run.{ok}
use nginx_hls_module.Run.Returns.{Returns, returns, bind}
use nginx_hls_module.Mp4.Tables.{Sample}
use nginx_hls_module.Segment.{next_loop}
use nginx_hls_module.Segment.Select.{find_start}
use nginx_hls_module.Playlist.{Entry, entries}

module _ (reaches : ℕ → ℕ → ℕ → Bool) (timescale seconds : ℕ) (samples : List Sample) (size : ℕ)
    (sound : Bool) where
  -- The segment with the entry's number starts at its first sample, and ends at its last.
  pub record IsServed (e : Entry) : Type 0 where
    pub first : Sample
    pub count : ℕ
    pub inside : e.from < size
    pub found : get_elem? samples e.from ≡ some first
    pub starts : find_start size samples sound true e.number 0 0 ≡ ok (some e.from)
    pub ends :
        next_loop reaches (size - (e.from + 1)) samples first.pts timescale seconds 0 (e.from + 1) 0
        ≡ ok (e.to, count)

  -- The search for the start of a later segment goes on from here.
  abbrev Seeking : ℕ → ℕ → Type 0
  Seeking cur i =
      (n : ℕ)
      → i ≤ n
      → find_start size samples sound true n 0 0
        ≡ find_start (size - cur) samples sound true n cur i

  -- The search for the end of the segment from `prev` on goes on from here.
  record Running (prev prev_i cur : ℕ) : Type 0 where
    first : Sample
    count : ℕ
    found : get_elem? samples prev ≡ some first
    starts : find_start size samples sound true prev_i 0 0 ≡ ok (some prev)
    goes_on :
        next_loop reaches (size - (prev + 1)) samples first.pts timescale seconds 0 (prev + 1) 0
        ≡ next_loop reaches (size - cur) samples first.pts timescale seconds 0 cur count

  module _ (cur left : ℕ) (shape : size ≡ cur + suc left) (x : Sample)
      (found : get_elem? samples cur ≡ some x) where
    step_left : size - cur ≡ suc left
    step_left = omega arith

    step_next : size - (cur + 1) ≡ left
    step_next = omega arith

    seek_past : (i : ℕ) → x.is_smooth_ss ≡ false → Seeking cur i → Seeking (cur + 1) i
    unfolding find_start
    seek_past i unmarked s n low = s n low ∙ rw (step_left, step_next, found, unmarked) refl

    seek_marked :
        (i : ℕ) → x.is_smooth_ss ≡ true → i + 1 < 2 ^ 32 → Seeking cur i → Seeking (cur + 1) (i + 1)
    unfolding find_start
    seek_marked i marked small s n low =
        let later : (n == i) ≡ false = ground arith in
        let no_wrap : (i + 1) % 2 ^ 32 ≡ i + 1 = mod-eq_of_lt small in
        let counts : (sound && false) ≡ false = ground arith in
        s n (omega arith) ∙ rw (step_left, step_next, found, marked, counts, later, no_wrap) refl

    seek_found :
        (i : ℕ)
        → x.is_smooth_ss ≡ true
        → Seeking cur i
        → find_start size samples sound true i 0 0 ≡ ok (some cur)
    unfolding find_start
    seek_found i marked s =
        let here : (i == i) ≡ true = eq→== i i refl in
        let counts : (sound && false) ≡ false = ground arith in
        s i (omega arith) ∙ rw (step_left, found, marked, counts, here) refl

    module _ {prev prev_i : ℕ} (r : Running prev prev_i cur) where
      abbrev long_enough : Bool
      long_enough = reaches ((x.pts + (2 ^ 64 - r.first.pts)) % 2 ^ 64) timescale seconds

      run_past : x.is_smooth_ss ≡ false → Running prev prev_i (cur + 1)
      unfolding next_loop
      run_past unmarked = record {
        first = r.first;
        count = r.count;
        found = r.found;
        starts = r.starts;
        goes_on = r.goes_on ∙ rw (step_left, step_next, found, unmarked) refl;
      }

      run_marked : x.is_smooth_ss ≡ true → long_enough ≡ false → Running prev prev_i (cur + 1)
      unfolding next_loop
      run_marked marked short = record {
        first = r.first;
        count = (r.count + 1) % 2 ^ 32;
        found = r.found;
        starts = r.starts;
        goes_on = r.goes_on ∙ rw (step_left, step_next, found, marked, short) refl;
      }

      run_ends :
          prev < cur
          → x.is_smooth_ss ≡ true
          → long_enough ≡ true
          → IsServed (record { number = prev_i; from = prev; to = cur })
      unfolding next_loop
      run_ends behind marked long = record {
        first = r.first;
        count = r.count;
        inside = omega arith;
        found = r.found;
        starts = r.starts;
        ends = r.goes_on ∙ rw (step_left, found, marked, long) refl;
      }

  -- At the end of the track.
  run_out :
      {prev prev_i : ℕ}
      → prev < size
      → Running prev prev_i size
      → IsServed (record { number = prev_i; from = prev; to = size })
  unfolding next_loop
  run_out behind r =
      let none_left : size - size ≡ 0 = omega arith in
      record {
        first = r.first;
        count = r.count;
        inside = behind;
        found = r.found;
        starts = r.starts;
        ends = r.goes_on ∙ rw none_left refl;
      }

  module _ (whole : size < length samples) (small : size + 1 < 2 ^ 32) where
    abbrev Rounds : ℕ → Type 0
    Rounds left =
        (prev prev_i cur i : ℕ)
        → size + 1 ≡ cur + left
        → prev < cur
        → i ≤ cur
        → Running prev prev_i cur
        → Seeking cur i
        → Returns (All IsServed) (entries reaches timescale seconds left samples prev prev_i cur i)

    -- A round that is not the last one.
    one_more : (left more : ℕ) → more ≡ suc left → Rounds more → Rounds (suc more)
    unfolding entries
    one_more left more e on prev prev_i cur i shape behind low r s =
        let (x, found) = get_elem?_total samples cur (omega arith) in
        let inside : size ≡ cur + suc left = omega arith in
        let not_last : (more == 0) ≡ false = ground arith in
        let apart : (prev == cur) ≡ false = ground arith in
        let no_wrap : (i + 1) % 2 ^ 32 ≡ i + 1 = omega arith in
        elim (Bool-cases x.is_smooth_ss) [
          | inr unmarked ↦
              rw (found, unmarked)
                (on prev prev_i (cur + 1) i (omega arith) (omega arith) (omega arith)
                  (run_past cur left inside x found r unmarked)
                  (seek_past cur left inside x found i unmarked s))
          | inl marked ↦
              let s' = seek_marked cur left inside x found i marked (omega arith) s in
              elim (Bool-cases (long_enough cur left inside x found r)) [
                | inr short ↦
                    rw (found, marked, apart, r.found, short, not_last, no_wrap)
                      (on prev prev_i (cur + 1) (i + 1) (omega arith) (omega arith) (omega arith)
                        (run_marked cur left inside x found r marked short) s')
                | inl long ↦
                    rw (found, marked, apart, r.found, long, no_wrap)
                      (bind
                        (on cur i (cur + 1) (i + 1) (omega arith) (omega arith) (omega arith)
                          (record {
                            first = x;
                            count = 0;
                            found = found;
                            starts = seek_found cur left inside x found i marked s;
                            goes_on = refl;
                          })
                          s')
                        (λ rest h.
                          returns (run_ends cur left inside x found r behind marked long, h)))
              ]
        ]

    -- From a place behind the segment's first sample on.
    entries-IsServed : (left : ℕ) → Rounds left
    unfolding entries
    entries-IsServed zero prev prev_i cur i shape behind low r s = returns tt
    entries-IsServed (suc zero) prev prev_i cur i shape behind low r s =
        let (x, found) = get_elem?_total samples cur (omega arith) in
        let last : cur ≡ size = omega arith in
        let apart : (prev == cur) ≡ false = ground arith in
        elim (Bool-cases x.is_smooth_ss) [
          | inr unmarked ↦ rw (found, unmarked) (returns tt)
          | inl marked ↦
              let long = reaches ((x.pts + (2 ^ 64 - r.first.pts)) % 2 ^ 64) timescale seconds in
              let ends : (long || true) ≡ true = ground arith in
              rw (found, marked, apart, r.found, ends)
                (returns (
                  subst (λ t. IsServed (record { number = prev_i; from = prev; to = t })) (sym last)
                      (run_out (omega arith) (subst (λ t. Running prev prev_i t) last r)),
                  tt,
                ))
        ]
    entries-IsServed (suc (suc left)) prev prev_i cur i shape behind low r s =
        one_more left (suc left) refl (entries-IsServed (suc left)) prev prev_i cur i shape behind
          low r s

    from_start :
        (left : ℕ) (x : Sample)
        → size ≡ suc left
        → get_elem? samples 0 ≡ some x
        → x.is_smooth_ss ≡ true
        → Returns (All IsServed) (entries reaches timescale seconds (suc size) samples 0 0 0 0)
    unfolding entries
    from_start left x e found marked =
        let s : Seeking 0 0 =
          λ n low. ap (λ k. find_start k samples sound true n 0 0) (omega arith) in
        let shape : size ≡ 0 + suc left = omega arith in
        rw (found, marked)
          (entries-IsServed size 0 0 1 1 (omega arith) (omega arith) (omega arith)
            (record {
              first = x;
              count = 0;
              found = found;
              starts = seek_found 0 left shape x found 0 marked s;
              goes_on = refl;
            })
            (seek_marked 0 left shape x found 0 marked (omega arith) s))

    -- For a track that is wanted, of some samples, the first of them marked, with the entry behind the
    -- last sample in its array: the loop of the playlist returns, and for each segment that it lists, the search
    -- for the marked sample with the segment's number finds the segment's first sample, and the
    -- search for the next segment from there on ends where the playlist has the segment end.
    pub entries-All :
        (x : Sample)
        → 0 < size
        → get_elem? samples 0 ≡ some x
        → x.is_smooth_ss ≡ true
        → Returns (All IsServed) (entries reaches timescale seconds (size + 1) samples 0 0 0 0)
    entries-All x some_samples found marked =
        subst (λ n. Returns (All IsServed) (entries reaches timescale seconds n samples 0 0 0 0))
          (omega arith) (from_start (size - 1) x (omega arith) found marked)
