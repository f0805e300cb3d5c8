-- ===== src/Tests/Output.antt =====
-- The theorems on the choice and the order of samples, on playlists and on options at concrete inputs.
use nginx_hls_module.Base.{
  ℕ, ◌-◌, ◌*◌, ◌^◌, ◌<◌, ◌≡◌, ◌∙◌, ◌⊎◌, refl, sym, ap, subst, get_elem?, List, [], ◌∷◌, none, some,
  Bool, true, leb, All, length, arith,
}
use mathlib.Core.Option.{some-injective}
use nginx_hls_module.Run.{ok}
use nginx_hls_module.Run.Returns.{Returns}
use nginx_hls_module.Mp4.Headers.{Hdlr, hdlr_init, Mdhd, mdhd_init}
use nginx_hls_module.Mp4.Tables.{Sample}
use nginx_hls_module.Mp4.Tree.{Trak, trak_init, Mdia, mdia_init, Moov, moov_init}
use nginx_hls_module.Index.{empty_sample}
use nginx_hls_module.Index.Movie.{moov_build_index}
use nginx_hls_module.Ts.{Fragment}
use nginx_hls_module.Segment.Select.{find_start, mark_video}
use nginx_hls_module.Segment.Select.Start.{Found, find_start-Found}
use nginx_hls_module.Segment.Output.{new_order}
use nginx_hls_module.Segment.Output.Order.{Kept}
use nginx_hls_module.Segment.Output.Time.{Rising, Sent, new_order-Rising}
use nginx_hls_module.Playlist.{Entry, mp4_create_m3u8}
use nginx_hls_module.Playlist.Covers.{Covers}
use nginx_hls_module.Playlist.Video.{Selects, mp4_create_m3u8-select_track}
use nginx_hls_module.Options.Parse.{mp4_split_options_init, mp4_split_options_set}
use nginx_hls_module.Options.Parse.Fields.{
  Field, print_fields, set_fields, mp4_split_options_set-print_fields,
}

abbrev samples : List Sample
samples =
    record empty_sample { is_smooth_ss = true }
    ∷ record empty_sample { pts = 10; is_smooth_ss = true }
    ∷ record empty_sample { pts = 20; is_smooth_ss = true }
    ∷ record empty_sample { pts = 30; is_smooth_ss = true }
    ∷ []

find_start-Found_example : Returns (Found samples 0 3 0 2) (find_start 3 samples true true 2 0 0)
find_start-Found_example =
    find_start-Found 3 samples true 2 0 0 (omega arith) (omega arith) (omega arith)

abbrev long : ℕ → ℕ → ℕ → Bool
long t scale s = leb (s * scale) t

abbrev hdlr : Hdlr
hdlr = record hdlr_init { handler_type = mark_video }

abbrev mdhd : Mdhd
mdhd = record (mdhd_init 0) { timescale = 1 }

abbrev mdia : Mdia
mdia = record mdia_init { mdhd = some mdhd; hdlr = some hdlr }

-- Three samples, with the entry behind them.
abbrev video_trak : Trak
video_trak = record trak_init { mdia = some mdia; samples_size = 3; samples = samples }

abbrev moov : Moov
moov = record moov_init { traks = video_trak ∷ []; is_indexed = true }

moov-is_indexed : moov_build_index (some moov) ≡ ok (some moov, true)
unfolding moov_build_index
moov-is_indexed = refl

mp4_create_m3u8-select_track_example :
    Returns
      (λ r.
        (listed : List Entry) × (r ≡ some listed)
        × Covers 3 0 listed
        × All (Selects long 1 15 video_trak) listed)
      (mp4_create_m3u8 long 15 (some moov))
mp4_create_m3u8-select_track_example =
    mp4_create_m3u8-select_track long 1 15 (some moov) moov video_trak mdia mdhd hdlr
      (record empty_sample { is_smooth_ss = true })
      (record empty_sample { pts = 30; is_smooth_ss = true }) moov-is_indexed refl refl refl refl
      refl refl refl refl refl (omega arith) (omega arith) (omega arith) (omega arith)

abbrev fragment : Fragment
fragment = record {
  trak = some (record trak_init { samples = samples });
  first = 1;
  last = 2;
  stream = none;
}

-- The only sample between the places.
at_one :
    (t : Trak) (p : ℕ) (x : Sample)
    → fragment.trak ≡ some t
    → p ≡ 1
    → get_elem? t.samples p ≡ some x
    → x.pts ≡ 10
at_one t p x e one found =
    ap (λ (s : Sample). s.pts)
      (sym (
        some-injective (record empty_sample { pts = 10; is_smooth_ss = true }) x
          (ap (λ (u : Trak). get_elem? u.samples 1) (some-injective _ t e)
            ∙ sym (ap (λ k. get_elem? t.samples k) one)
            ∙ found)))

fragment-Rising : Rising 5 fragment
fragment-Rising = record {
  forward = omega arith;
  inside = λ t e. subst (λ (u : Trak). 2 < length u.samples) (some-injective _ t e) (omega arith);
  ordered = λ t p q x y e low mid high at_p at_q.
      let one : p ≡ 1 = omega arith in
      let other : q ≡ 1 = omega arith in
      let e1 = at_one t p x e one at_p in
      let e2 = at_one t q y e other at_q in (omega arith, omega arith);
}

new_order-Rising_example :
    Returns
      (λ r. Kept (fragment ∷ []) (2 ^ 64 - 1) none r ⊎ Sent 5 (fragment ∷ []) r)
      (new_order (fragment ∷ []) 0 (2 ^ 64 - 1) none)
new_order-Rising_example =
    new_order-Rising (fragment ∷ []) 5 (2 ^ 64 - 1) none (fragment-Rising, tt)

-- "video=7&audio=2"
abbrev video : Field
video = record { key = b'v' ∷ b'i' ∷ b'd' ∷ b'e' ∷ b'o' ∷ []; value = b'7' ∷ [] }

abbrev audio : Field
audio = record { key = b'a' ∷ b'u' ∷ b'd' ∷ b'i' ∷ b'o' ∷ []; value = b'2' ∷ [] }

mp4_split_options_set-print_fields_example :
    mp4_split_options_set length length
      (mp4_split_options_init 0 8)
      (print_fields video (audio ∷ []))
    ≡ set_fields length length (mp4_split_options_init 0 8) video (audio ∷ [])
mp4_split_options_set-print_fields_example =
    mp4_split_options_set-print_fields length length (mp4_split_options_init 0 8) b'v'
      (b'i' ∷ b'd' ∷ b'e' ∷ b'o' ∷ []) (b'7' ∷ []) (audio ∷ [])
      ((refl, (refl, (refl, (refl, (refl, tt))))), (refl, tt))
      (((refl, (refl, (refl, (refl, (refl, tt))))), (refl, tt)), tt) refl
