-- ===== src/Segment/Select.antt =====
-- src/output_ts.h, `output_ts` up to the conversion of times: which samples of which tracks make up
-- a segment. Lengths and numbers come from the request and the configuration.
pub mod Start
use nginx_hls_module.Base.{
  ℕ, zero, suc, ◌+◌, ◌-◌, ◌*◌, ◌%◌, ◌^◌, List, [], ◌∷◌, ◌++◌, Option, none, some, Bool, true, false,
  not, ltb, ◌&&◌, ◌==◌, if◌then◌else◌, get_elem?, length, take,
}
use nginx_hls_module.Run.{Run, ok, ◌>>=◌, deref}
use nginx_hls_module.Mp4.{fourcc}
use nginx_hls_module.Mp4.Tables.{Sample}
use nginx_hls_module.Mp4.Tree.{Trak, Moov}
use nginx_hls_module.Lookup.{trak_time_to_moov_time}
use nginx_hls_module.Reader.Moov.{trak_handler}
use nginx_hls_module.Index.{update}
use nginx_hls_module.Ts.{Fragment}
use nginx_hls_module.Segment.{get_next}

-- `mark_video` and `mark_sound`
abbrev pub mark_video : ℕ
mark_video = fourcc b'v' b'i' b'd' b'e'

abbrev pub mark_sound : ℕ
mark_sound = fourcc b's' b'o' b'u' b'n'

abbrev pub max_fragment_size : ℕ
max_fragment_size = 2

-- `end` is 1 at a sample where the loop over a track starts a fragment: the place, with `left`
-- samples up to the end of the track; `i` counts the marked samples in front.
unfoldable pub find_start : ℕ → List Sample → Bool → Bool → ℕ → ℕ → ℕ → Run (Option ℕ)
find_start zero samples sound wanted fragment_start place i = ok none
find_start (suc left) samples sound wanted fragment_start place i = do
  x ← deref (get_elem? samples place)
  let on = find_start left samples sound wanted fragment_start (place + 1)
  if not x.is_smooth_ss
      then on i
      else if sound && not wanted
      then ok none
      else if wanted && (fragment_start == i)
      then ok (some place)
      else on ((i + 1) % 2 ^ 32)

pub record Selection : Type 0 where
  -- `fragment[0]` to `fragment[last_track - 1]`
  pub fragments : List Fragment
  pub audio_tracks : ℕ
  pub last_chunk : ℕ

module _ (reaches : ℕ → ℕ → ℕ → Bool) (audio fragment_start seconds : ℕ) where
  -- One track: sound counts as wanted where it is the track asked for.
  unfoldable pub select_track : Trak → ℕ → Selection → Run Selection
  select_track trak track_id s = do
    kind ← trak_handler trak
    let sound = kind == mark_sound
    let wanted = if sound then track_id == audio else kind == mark_video
    start ← find_start trak.samples_size trak.samples sound wanted fragment_start 0 0
    elim start [
      | none ↦ ok s
      | some first ↦ (do
        let tracks = if sound then s.audio_tracks + 1 else s.audio_tracks
        if ltb (length s.fragments) max_fragment_size
            then (do
              (last, last_chunk) ←
                  get_next reaches trak first trak.samples_size (seconds % 2 ^ 32) s.last_chunk
              let chosen : Fragment = record {
                trak = some trak;
                first = first;
                last = last;
                stream = none;
              }
              ok (record {
                fragments = s.fragments ++ (chosen ∷ []);
                audio_tracks = tracks;
                last_chunk = last_chunk;
              }))
            else ok (record s { audio_tracks = tracks }))
    ]

  -- The tracks in turn; `none` where one has no samples.
  unfoldable pub select_tracks : List Trak → ℕ → Selection → Run (Option Selection)
  select_tracks [] track_id s = ok (some s)
  select_tracks (t ∷ ts) track_id s =
      if length t.samples == 0
      then ok none
      else (do s' ← select_track t track_id s; select_tracks ts (track_id + 1) s')

abbrev pub no_fragment : Fragment
no_fragment = record { trak = none; first = 0; last = 0; stream = none }

-- The fragments that are sent; `none` where there is not one.
unfoldable pub chosen_fragments : Selection → Option (List Fragment)
chosen_fragments s =
    let array = take max_fragment_size (s.fragments ++ (no_fragment ∷ no_fragment ∷ [])) in
    let fragment_size =
      if ltb max_fragment_size (1 + s.audio_tracks)
      then max_fragment_size
      else 1 + s.audio_tracks in
    if length s.fragments == 0 then none else some (take fragment_size array)

-- Times of a 90 kHz clock, for `n` samples from a place on.
unfoldable pub convert_times : ℕ → ℕ → ℕ → List Sample → Run (List Sample)
convert_times zero place timescale samples = ok samples
convert_times (suc n) place timescale samples = do
  x ← deref (get_elem? samples place)
  pts ← trak_time_to_moov_time x.pts 90000 timescale
  cto ← trak_time_to_moov_time x.cto 90000 timescale
  samples' ← update samples place (λ y. record y { pts = pts; cto = cto % 2 ^ 32 })
  convert_times n (place + 1) timescale samples'

-- From the first sample of a fragment to the one behind its last.
unfoldable pub convert_fragment : Fragment → Run Fragment
convert_fragment f = elim f.trak [
  | none ↦ ok f
  | some trak ↦ do
    mdia ← deref trak.mdia
    mdhd ← deref mdia.mdhd
    samples ← convert_times (f.last - f.first + 1) f.first mdhd.timescale trak.samples
    ok (record f { trak = some (record trak { samples = samples }) })
]
