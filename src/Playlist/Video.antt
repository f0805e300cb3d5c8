-- ===== src/Playlist/Video.antt =====
-- The playlist of a movie whose first track is of video, and the choice of `output_ts` in that track.
use nginx_hls_module.Base.{
  ℕ, ◌+◌, ◌%◌, ◌^◌, ◌<◌, ◌≡◌, refl, List, [], ◌∷◌, Bool, true, false, ◌==◌, Option, none, some,
  get_elem?, length, All, arith,
}
use native.Mathlib.Nat.{mod-eq_of_lt}
use nginx_hls_module.Run.{ok}
use nginx_hls_module.Run.Returns.{Returns, returns, bind, both}
use nginx_hls_module.Mp4.Headers.{Mdhd, Hdlr}
use nginx_hls_module.Mp4.Tables.{Sample}
use nginx_hls_module.Mp4.Tree.{Trak, Mdia, Moov}
use nginx_hls_module.Index.Movie.{moov_build_index}
use nginx_hls_module.Segment.{get_next}
use nginx_hls_module.Segment.Select.{Selection, select_track, mark_video}
use nginx_hls_module.Playlist.{Entry, mp4_create_m3u8}
use nginx_hls_module.Playlist.Covers.{Covers, entries_from_start-Covers}
use nginx_hls_module.Playlist.Served.{IsServed, entries-All}

-- Before the first track.
abbrev pub nothing_selected : Selection
nothing_selected = record { fragments = []; audio_tracks = 0; last_chunk = 0 }

module _ (reaches : ℕ → ℕ → ℕ → Bool) (audio seconds : ℕ) (trak : Trak) where
  -- As the first track, with the number of the entry asked for, the track gives one fragment, which
  -- has the entry's samples.
  abbrev pub Selects : Entry → Type 0
  Selects e =
      (count : ℕ) × (select_track reaches audio e.number seconds trak 0 nothing_selected
        ≡ ok (record {
          fragments = record { trak = some trak; first = e.from; last = e.to; stream = none } ∷ [];
          audio_tracks = 0;
          last_chunk = count;
        }))

  module _ (mdia : Mdia) (mdhd : Mdhd) (hdlr : Hdlr) (has_mdia : trak.mdia ≡ some mdia)
      (has_mdhd : mdia.mdhd ≡ some mdhd) (has_hdlr : mdia.hdlr ≡ some hdlr)
      (is_video : hdlr.handler_type ≡ mark_video) (short : seconds < 2 ^ 32) where
    get_next-ok :
        (e : Entry)
        → IsServed reaches mdhd.timescale seconds trak.samples trak.samples_size false e
        → (count : ℕ) × (get_next reaches trak e.from trak.samples_size seconds 0
            ≡ ok (e.to, count))
    unfolding get_next
    get_next-ok e s =
        let apart : (e.from == trak.samples_size) ≡ false = ground (arith, s.inside) in
        (s.count, rw (apart, has_mdia, has_mdhd, s.found, s.ends) refl)

    IsServed-Selects :
        (e : Entry)
        → IsServed reaches mdhd.timescale seconds trak.samples trak.samples_size false e
        → Selects e
    unfolding select_track
    IsServed-Selects e s =
        let (count, cut) = get_next-ok e s in
        let whole : seconds % 2 ^ 32 ≡ seconds = mod-eq_of_lt short in
        (count, simp (has_mdia, has_hdlr, is_video, s.starts, whole, cut) refl)

    each-Selects :
        (es : List Entry)
        → All (IsServed reaches mdhd.timescale seconds trak.samples trak.samples_size false) es
        → All Selects es
    each-Selects [] h = tt
    each-Selects (e ∷ es) h = (IsServed-Selects e h.0, each-Selects es h.1)

-- For a movie that has an index, whose first track is of video and has its headers, some samples,
-- the first of them marked, and a marked entry behind the last sample in its array, with a length of
-- a segment of less than 2^32: the playlist is made, and its segments cover the track's samples, one
-- behind the other; for each of them, `output_ts` with the segment's number takes one fragment from
-- the track, which starts at the segment's first sample and ends where the playlist has the segment
-- end.
pub mp4_create_m3u8-select_track :
    (reaches : ℕ → ℕ → ℕ → Bool) (audio seconds : ℕ) (movie : Option Moov) (moov : Moov)
    (trak : Trak) (mdia : Mdia) (mdhd : Mdhd) (hdlr : Hdlr) (x end : Sample)
    → moov_build_index movie ≡ ok (some moov, true)
    → get_elem? moov.traks 0 ≡ some trak
    → trak.mdia ≡ some mdia
    → mdia.mdhd ≡ some mdhd
    → mdia.hdlr ≡ some hdlr
    → hdlr.handler_type ≡ mark_video
    → get_elem? trak.samples 0 ≡ some x
    → x.is_smooth_ss ≡ true
    → get_elem? trak.samples trak.samples_size ≡ some end
    → end.is_smooth_ss ≡ true
    → 0 < trak.samples_size
    → trak.samples_size < length trak.samples
    → trak.samples_size + 1 < 2 ^ 32
    → seconds < 2 ^ 32
    → Returns
        (λ r.
          (listed : List Entry) × (r ≡ some listed)
          × Covers trak.samples_size 0 listed
          × All (Selects reaches audio seconds trak) listed)
        (mp4_create_m3u8 reaches seconds movie)
unfolding mp4_create_m3u8
mp4_create_m3u8-select_track reaches audio seconds movie moov trak mdia mdhd hdlr x end indexed
      first has_mdia has_mdhd has_hdlr is_video found marked at_end end_marked some_samples whole
      small short =
    let covers =
      entries_from_start-Covers reaches mdhd.timescale seconds trak.samples trak.samples_size whole
        end at_end end_marked x some_samples found marked in
    let served =
      entries-All reaches mdhd.timescale seconds trak.samples trak.samples_size false whole small x
        some_samples found marked in
    let selects =
      each-Selects reaches audio seconds trak mdia mdhd hdlr has_mdia has_mdhd has_hdlr is_video
        short in
    simp (indexed, first, has_mdia, has_mdhd)
      (bind (both covers served) (λ listed h. returns (listed, refl, h.0, selects listed h.1)))
