-- ===== src/Segment.antt =====
-- src/output_ts.h, `get_next`: where a segment ends. Samples are named by their places in the
-- track's array, which has one entry behind the last; the comparison of a duration in floating point
-- with the length of a segment is a parameter, on the difference of the times, the time scale and
-- the seconds.
pub mod Cut
pub mod Select
pub mod Output
use nginx_hls_module.Base.{
  ℕ, zero, suc, ◌+◌, ◌-◌, ◌%◌, ◌^◌, List, Bool, true, false, not, ◌&&◌, ◌||◌, ◌==◌, if◌then◌else◌,
  get_elem?,
}
use nginx_hls_module.Run.{Run, ok, ◌>>=◌, deref}
use nginx_hls_module.Mp4.Tables.{Sample}
use nginx_hls_module.Mp4.Tree.{Trak}

module _ (reaches : ℕ → ℕ → ℕ → Bool) where
  -- The loop, with `left` samples up to `last`: the place where it stops, and `i`.
  unfoldable pub next_loop : ℕ → List Sample → ℕ → ℕ → ℕ → ℕ → ℕ → ℕ → Run (ℕ × ℕ)
  next_loop zero samples start timescale seconds last_chunk next i = ok (next, i)
  next_loop (suc left) samples start timescale seconds last_chunk next i = do
    x ← deref (get_elem? samples next)
    if not x.is_smooth_ss
        then next_loop left samples start timescale seconds last_chunk (next + 1) i
        else (let stops =
              ((last_chunk == 0) && reaches ((x.pts + (2 ^ 64 - start)) % 2 ^ 64) timescale seconds)
              || (not (last_chunk == 0) && (last_chunk == i)) in
            let on =
              next_loop left samples start timescale seconds last_chunk (next + 1)
                ((i + 1) % 2 ^ 32) in
            if stops then ok (next, i) else on)

  -- The place of the next segment, and the number of marked samples that the other tracks follow.
  unfoldable pub get_next : Trak → ℕ → ℕ → ℕ → ℕ → Run (ℕ × ℕ)
  get_next trak sample last seconds last_chunk =
      if sample == last then ok (sample, last_chunk) else (do
        mdia ← deref trak.mdia
        mdhd ← deref mdia.mdhd
        first ← deref (get_elem? trak.samples sample)
        (next, i) ←
            next_loop (last - (sample + 1)) trak.samples first.pts mdhd.timescale seconds last_chunk
              (sample + 1) 0
        ok (next, if last_chunk == 0 then i else last_chunk))
