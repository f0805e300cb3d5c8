-- ===== src/Options/Split.antt =====
-- src/moov.h, `get_aligned_start_and_end` and `mp4_split`: the samples of each track between two
-- times. The product of a time in seconds with the scale, rounded, is a parameter.
use nginx_hls_module.Base.{
  ℕ, ◌+◌, ◌-◌, ◌%◌, ◌^◌, List, [], ◌∷◌, Option, Bool, true, false, not, leb, ◌==◌, ◌&&◌,
  if◌then◌else◌,
}
use nginx_hls_module.Run.{Run, ok, ◌>>=◌, deref}
use nginx_hls_module.Mp4.Tree.{Stbl, Trak, Moov}
use nginx_hls_module.Lookup.{
  stts_get_sample, stts_get_time, stbl_get_nearest_keyframe, moov_time_to_trak_time,
  trak_time_to_moov_time,
}
use nginx_hls_module.Reader.Tree.{is_set}
use nginx_hls_module.Reader.Moov.{trak_stbl}
use nginx_hls_module.Index.{update}
use nginx_hls_module.Index.Movie.{moov_build_index}
use nginx_hls_module.Options.Parse.{SplitOptions}

-- The times that the tracks share, and the sample numbers of each.
pub record Aligned : Type 0 where
  pub start : ℕ
  pub end : ℕ
  pub sample_start : List ℕ
  pub sample_end : List ℕ

-- The key frame in front of a sample, counted from 0.
abbrev pub keyframe_before : Stbl → ℕ → Run ℕ
keyframe_before stbl n = do
  k ← stbl_get_nearest_keyframe stbl ((n + 1) % 2 ^ 32)
  ok ((k + (2 ^ 32 - 1)) % 2 ^ 32)

-- The time of a sample in the scale of the movie.
abbrev pub moov_time_of : Stbl → ℕ → ℕ → ℕ → Run ℕ
moov_time_of stbl n moov_scale trak_scale = do
  stts ← deref stbl.stts
  t ← stts_get_time stts n
  m ← trak_time_to_moov_time t moov_scale trak_scale
  ok (m % 2 ^ 32)

abbrev pub sample_at : Stbl → ℕ → ℕ → ℕ → Run ℕ
sample_at stbl time moov_scale trak_scale = do
  t ← moov_time_to_trak_time time moov_scale trak_scale
  stts ← deref stbl.stts
  stts_get_sample stts t

unfoldable pub align_start : ℕ → ℕ → Stbl → ℕ → Aligned → Run Aligned
align_start moov_scale trak_scale stbl i a =
    if a.start == 0
    then (do starts ← update a.sample_start i (λ old. 0); ok (record a { sample_start = starts }))
    else (do
      n ← sample_at stbl a.start moov_scale trak_scale
      first ← keyframe_before stbl n
      starts ← update a.sample_start i (λ old. first)
      time ← moov_time_of stbl first moov_scale trak_scale
      ok (record a { start = time; sample_start = starts }))

unfoldable pub align_end : ℕ → ℕ → Stbl → ℕ → ℕ → Aligned → Run Aligned
align_end moov_scale trak_scale stbl samples_size i a =
    if a.end == 0
    then (do
      ends ← update a.sample_end i (λ old. samples_size)
      ok (record a { sample_end = ends }))
    else (do
      n ← sample_at stbl a.end moov_scale trak_scale
      last ← if leb samples_size n then ok samples_size else keyframe_before stbl n
      ends ← update a.sample_end i (λ old. last)
      time ← moov_time_of stbl last moov_scale trak_scale
      ok (record a { end = time; sample_end = ends }))

-- One pass over the tracks: those with key frames of their own, or those without.
unfoldable pub align_tracks : Bool → ℕ → List Trak → ℕ → Aligned → Run Aligned
align_tracks keyed moov_scale [] i a = ok a
align_tracks keyed moov_scale (t ∷ ts) i a = do
  stbl ← trak_stbl t
  mdia ← deref t.mdia
  mdhd ← deref mdia.mdhd
  let due = if is_set stbl.stss then keyed else not keyed
  a' ←
      if due
      then (do
        a1 ← align_start moov_scale mdhd.timescale stbl i a
        align_end moov_scale mdhd.timescale stbl t.samples_size i a1)
      else ok a
  align_tracks keyed moov_scale ts (i + 1) a'

-- The numbers of samples, and whether the result is 1.
unfoldable pub get_aligned_start_and_end : Moov → Aligned → Run (Aligned × Bool)
get_aligned_start_and_end moov a = do
  mvhd ← deref moov.mvhd
  a1 ← align_tracks true mvhd.timescale moov.traks 0 a
  a2 ← align_tracks false mvhd.timescale moov.traks 0 a1
  ok (a2, not (not (a2.end == 0) && leb a2.end a2.start))

-- `units` is `(unsigned int)(time * scale + 0.5f)`. The result of building the index is not looked at.
unfoldable pub mp4_split :
    {F : Type 0}
    → (F → ℕ → ℕ)
    → Option Moov
    → SplitOptions F
    → List ℕ
    → List ℕ
    → Run (Aligned × Bool)
mp4_split units movie options sample_start sample_end = do
  (indexed, good) ← moov_build_index movie
  moov ← deref indexed
  mvhd ← deref moov.mvhd
  get_aligned_start_and_end moov (record {
    start = units options.start mvhd.timescale;
    end = units options.end mvhd.timescale;
    sample_start = sample_start;
    sample_end = sample_end;
  })
