-- ===== src/Playlist.antt =====
-- src/output_m3u8.h, `mp4_create_m3u8`: the segments that a playlist lists. The text of the lines and
-- the names in it are not modelled; samples are named by their places, and the comparison of a
-- duration with the length of a segment is a parameter, as for `get_next`.
pub mod Covers
pub mod Served
pub mod Video
use nginx_hls_module.Base.{
  ℕ, zero, suc, ◌+◌, ◌-◌, ◌%◌, ◌^◌, List, [], ◌∷◌, Option, none, some, Bool, not, ◌||◌, ◌==◌,
  if◌then◌else◌, get_elem?, length,
}
use nginx_hls_module.Run.{Run, ok, ◌>>=◌, deref}
use nginx_hls_module.Mp4.Tables.{Sample}
use nginx_hls_module.Mp4.Tree.{Trak, Moov}
use nginx_hls_module.Index.Movie.{moov_build_index}

-- One `#EXTINF` with its address: the number behind `video=`, and the samples from and up to.
pub record Entry : Type 0 where
  pub number : ℕ
  pub from : ℕ
  pub to : ℕ

module _ (reaches : ℕ → ℕ → ℕ → Bool) (timescale seconds : ℕ) where
  -- The loop from `cur` on, with `left` samples up to `last`.
  unfoldable pub entries : ℕ → List Sample → ℕ → ℕ → ℕ → ℕ → Run (List Entry)
  entries zero samples prev prev_i cur i = ok []
  entries (suc left) samples prev prev_i cur i = do
    x ← deref (get_elem? samples cur)
    let on = entries left samples
    let next = (i + 1) % 2 ^ 32
    if not x.is_smooth_ss
        then on prev prev_i (cur + 1) i
        else if prev == cur
        then on prev prev_i (cur + 1) next
        else (do
          y ← deref (get_elem? samples prev)
          if reaches ((x.pts + (2 ^ 64 - y.pts)) % 2 ^ 64) timescale seconds || (left == 0)
              then (do
                rest ← on cur i (cur + 1) next
                ok (record { number = prev_i; from = prev; to = cur } ∷ rest))
              else on prev prev_i (cur + 1) next)

-- The entries of the first track; `none` is the result 0 of a movie without an index, and the
-- result is else the number of entries.
unfoldable pub mp4_create_m3u8 : (ℕ → ℕ → ℕ → Bool) → ℕ → Option Moov → Run (Option (List Entry))
mp4_create_m3u8 reaches seconds movie = do
  (indexed, good) ← moov_build_index movie
  if not good then ok none else (do
    moov ← deref indexed
    trak ← deref (get_elem? moov.traks 0)
    mdia ← deref trak.mdia
    mdhd ← deref mdia.mdhd
    listed ← entries reaches mdhd.timescale seconds (trak.samples_size + 1) trak.samples 0 0 0 0
    ok (some listed))
