-- ===== src/Index/Movie.antt =====
-- src/mp4_reader.h: `copy_sync_samples_to_audio_track` and `moov_build_index`.
use nginx_hls_module.Base.{
  ℕ, zero, suc, ◌+◌, ◌-◌, ◌*◌, ◌%◌, ◌^◌, List, [], ◌∷◌, Option, none, some, Bool, true, false, not,
  leb, ◌==◌, ◌&&◌, if◌then◌else◌, get_elem?, take,
}
use nginx_hls_module.Run.{Run, ok, ◌>>=◌, deref}
use nginx_hls_module.Mp4.{fourcc}
use nginx_hls_module.Mp4.Tables.{Sample}
use nginx_hls_module.Mp4.Tree.{Trak, Moov}
use nginx_hls_module.Lookup.{trak_time_to_moov_time}
use nginx_hls_module.Reader.Moov.{trak_stbl, trak_handler}
use nginx_hls_module.Reader.Tree.{is_set}
use nginx_hls_module.Index.{update, trak_build_index}

trak_timescale : Trak → Run ℕ
trak_timescale t = do mdia ← deref t.mdia; mdhd ← deref mdia.mdhd; ok mdhd.timescale

-- Goes on to the first audio sample at or behind `pts`, and marks it; `n` samples are left.
seek_audio : ℕ → ℕ → ℕ → List Sample → Run (ℕ × List Sample)
unfolding update
seek_audio zero i pts samples = ok (i, samples)
seek_audio (suc n) i pts samples = do
  x ← deref (get_elem? samples i)
  if leb pts x.pts
      then (do
        samples' ← update samples i (λ y. record y { is_smooth_ss = true })
        ok (i, samples'))
      else seek_audio n (i + 1) pts samples

-- The video samples in turn; the audio position is kept from one to the next.
follow_video : List Sample → ℕ → ℕ → ℕ → ℕ → List Sample → Run (List Sample)
unfolding seek_audio
follow_video [] audio_scale video_scale size i samples = ok samples
follow_video (v ∷ vs) audio_scale video_scale size i samples =
    if v.is_smooth_ss
    then (do
      pts ← trak_time_to_moov_time v.pts audio_scale video_scale
      (i', samples') ← seek_audio (size - i) i pts samples
      follow_video vs audio_scale video_scale size i' samples')
    else follow_video vs audio_scale video_scale size i samples

-- A mark each `increment`, over `n` samples from index `i` on.
mark_every : ℕ → ℕ → ℕ → ℕ → List Sample → Run (List Sample)
unfolding update
mark_every zero i pts increment samples = ok samples
mark_every (suc n) i pts increment samples = do
  x ← deref (get_elem? samples i)
  if leb pts x.pts
      then (do
        samples' ← update samples i (λ y. record y { is_smooth_ss = true })
        mark_every n (i + 1) ((pts + increment) % 2 ^ 64) increment samples')
      else mark_every n (i + 1) pts increment samples

unfoldable pub copy_sync_samples_to_audio_track : Option Trak → Trak → Run Trak
unfolding follow_video mark_every trak_timescale
copy_sync_samples_to_audio_track none audio = do
  scale ← trak_timescale audio
  samples' ← mark_every audio.samples_size 0 0 (2 * scale % 2 ^ 32) audio.samples
  ok (record audio { samples = samples' })
copy_sync_samples_to_audio_track (some video) audio = do
  audio_scale ← trak_timescale audio
  video_scale ← trak_timescale video
  samples' ←
      follow_video (take video.samples_size video.samples) audio_scale video_scale
        audio.samples_size 0 audio.samples
  ok (record audio { samples = samples' })

-- The first pass: the indexed tracks, the last video track, and false where a track has no index.
index_tracks : List Trak → Option Trak → Run (List Trak × Option Trak × Bool)
index_tracks [] video = ok ([], video, true)
index_tracks (t ∷ ts) video = do
  kind ← trak_handler t
  (t', good) ← trak_build_index t
  let video' = if kind == fourcc b'v' b'i' b'd' b'e' then some t' else video
  if not good
      then ok (t' ∷ ts, video', false)
      else do (ts', last, rest) ← index_tracks ts video'; ok (t' ∷ ts', last, rest)

-- The second pass: sound tracks without an `stss` of their own.
sync_tracks : Bool → Option Trak → List Trak → Run (List Trak)
sync_tracks fragmented video [] = ok []
sync_tracks fragmented video (t ∷ ts) = do
  kind ← trak_handler t
  stbl ← trak_stbl t
  t' ←
      if kind == fourcc b's' b'o' b'u' b'n' && not fragmented && not (is_set stbl.stss)
      then copy_sync_samples_to_audio_track video t
      else ok t
  ts' ← sync_tracks fragmented video ts
  ok (t' ∷ ts')

-- A movie counts as indexed from the first call on, also where that call fails.
unfoldable pub moov_build_index : Option Moov → Run (Option Moov × Bool)
unfolding index_tracks sync_tracks
moov_build_index none = ok (none, false)
moov_build_index (some moov) = if moov.is_indexed then ok (some moov, true) else do
  (traks', video, good) ← index_tracks moov.traks none
  if not good then ok (some (record moov { traks = traks'; is_indexed = true }), false) else do
    traks'' ← sync_tracks (is_set moov.mvex) video traks'
    ok (some (record moov { traks = traks''; is_indexed = true }), true)
