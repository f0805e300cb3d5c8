-- ===== src/Playlist/Covers.antt =====
-- The segments of a playlist, one behind the other.
use nginx_hls_module.Base.{
  ℕ, zero, suc, ◌+◌, ◌-◌, ◌%◌, ◌^◌, ◌<◌, ◌≡◌, ◌∙◌, refl, ap, subst, List, [], ◌∷◌, Bool, true,
  false, ◌||◌, ◌==◌, Bool-cases, inl, inr, some, get_elem?, get_elem?_total, length, arith,
}
use nginx_hls_module.Run.Returns.{Returns, returns, bind}
use nginx_hls_module.Mp4.Tables.{Sample}
use nginx_hls_module.Playlist.{Entry, entries}

-- Each segment starts where the one in front of it ends, the first at `from`, and the last ends at
-- `size`.
unfoldable pub Covers : ℕ → ℕ → List Entry → Type 0
Covers size from [] = from ≡ size
Covers size from (e ∷ es) = (e.from ≡ from) × Covers size e.to es

module _ (reaches : ℕ → ℕ → ℕ → Bool) (timescale seconds : ℕ) (samples : List Sample) (size : ℕ)
    (whole : size < length samples) (end : Sample) (at_end : get_elem? samples size ≡ some end)
    (end_marked : end.is_smooth_ss ≡ true) where
  -- At the end of the track.
  last_round :
      (prev prev_i cur i : ℕ)
      → cur ≡ size
      → prev < cur
      → Returns (Covers size prev) (entries reaches timescale seconds 1 samples prev prev_i cur i)
  unfolding entries Covers
  last_round prev prev_i cur i here behind =
      let (y, found) = get_elem?_total samples prev (omega arith) in
      let found_end : get_elem? samples cur ≡ some end = ap (get_elem? samples) here ∙ at_end in
      let apart : (prev == cur) ≡ false = ground arith in
      let long = reaches ((end.pts + (2 ^ 64 - y.pts)) % 2 ^ 64) timescale seconds in
      let ends : (long || true) ≡ true = ground arith in
      rw (found_end, end_marked, apart, found, ends) (returns (refl, here))

  abbrev Rounds : ℕ → Type 0
  Rounds left =
      (prev prev_i cur i : ℕ)
      → size + 1 ≡ cur + left
      → prev < cur
      → Returns (Covers size prev)
          (entries reaches timescale seconds left samples prev prev_i cur i)

  -- A round that is not the last one.
  one_more : (left more : ℕ) → more ≡ suc left → Rounds more → Rounds (suc more)
  unfolding entries Covers
  one_more left more e on prev prev_i cur i shape behind =
      let (x, found) = get_elem?_total samples cur (omega arith) in
      let (y, found_prev) = get_elem?_total samples prev (omega arith) in
      let apart : (prev == cur) ≡ false = ground arith in
      let not_last : (more == 0) ≡ false = ground arith in
      let next = (i + 1) % 2 ^ 32 in
      elim (Bool-cases x.is_smooth_ss) [
        | inr unmarked ↦
            rw (found, unmarked) (on prev prev_i (cur + 1) i (omega arith) (omega arith))
        | inl marked ↦
            elim (Bool-cases (reaches ((x.pts + (2 ^ 64 - y.pts)) % 2 ^ 64) timescale seconds)) [
              | inr short ↦
                  rw (found, marked, apart, found_prev, short, not_last)
                    (on prev prev_i (cur + 1) next (omega arith) (omega arith))
              | inl long ↦
                  rw (found, marked, apart, found_prev, long)
                    (bind (on cur i (cur + 1) next (omega arith) (omega arith))
                      (λ rest h. returns (refl, h)))
            ]
      ]

  entries-Covers : (left : ℕ) → Rounds (suc left)
  entries-Covers zero prev prev_i cur i shape behind =
      last_round prev prev_i cur i (omega arith) behind
  entries-Covers (suc left) prev prev_i cur i shape behind =
      one_more left (suc left) refl (entries-Covers left) prev prev_i cur i shape behind

  pub entries_from_start-Covers :
      (x : Sample)
      → 0 < size
      → get_elem? samples 0 ≡ some x
      → x.is_smooth_ss ≡ true
      → Returns (Covers size 0) (entries reaches timescale seconds (size + 1) samples 0 0 0 0)
  unfolding entries
  entries_from_start-Covers x some_samples found marked =
      let one_more_round : suc size ≡ size + 1 = omega arith in
      let some_left : suc (size - 1) ≡ size = omega arith in
      subst (λ n. Returns (Covers size 0) (entries reaches timescale seconds n samples 0 0 0 0))
        one_more_round (first_round (subst Rounds some_left (entries-Covers (size - 1))))
    where
      first_round :
          Rounds size
          → Returns (Covers size 0) (entries reaches timescale seconds (suc size) samples 0 0 0 0)
      first_round on = rw (found, marked) (on 0 0 1 1 (omega arith) (omega arith))
