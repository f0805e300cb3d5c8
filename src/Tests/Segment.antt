-- ===== src/Tests/Segment.antt =====
-- The theorems on segments and strings at concrete inputs: a marked sample at the start, one after
-- two others, and the end.
use nginx_hls_module.Base.{
  ℕ, Bool, ◌≡◌, refl, ◌↔◌, List, [], ◌∷◌, ◌++◌, some, true, ◌==◌, if◌then◌else◌, leb, ◌*◌, arith,
}
use nginx_hls_module.Run.Returns.{Returns}
use nginx_hls_module.Mp4.Headers.{Mdhd, mdhd_init}
use nginx_hls_module.Mp4.Tree.{Trak, Mdia, trak_init, mdia_init}
use nginx_hls_module.Index.{empty_sample}
use nginx_hls_module.Segment.{get_next}
use nginx_hls_module.Segment.Cut.{Stops, get_next-Stops}
use nginx_hls_module.Options.{starts_with, ends_with}
use nginx_hls_module.Options.Strings.{starts_with_iff, ends_with_first_byte}

abbrev mdhd : Mdhd
mdhd = record (mdhd_init 0) { timescale = 1 }

abbrev mdia : Mdia
mdia = record mdia_init { mdhd = some mdhd }

abbrev trak : Trak
trak = record trak_init {
  mdia = some mdia;
  samples =
      record empty_sample { is_smooth_ss = true }
      ∷ record empty_sample { pts = 10 }
      ∷ record empty_sample { pts = 20; is_smooth_ss = true }
      ∷ record empty_sample { pts = 30 }
      ∷ record empty_sample { pts = 40 }
      ∷ [];
}

abbrev long : ℕ → ℕ → ℕ → Bool
long t scale s = leb (s * scale) t

get_next-Stops_example :
    Returns
      (λ r.
        (i : ℕ) × Stops long trak.samples 0 mdhd.timescale 8 0 1 4 0 (r.0, i)
        × (r.1 ≡ (if 0 == 0 then i else 0)))
      (get_next long trak 0 4 8 0)
get_next-Stops_example =
    get_next-Stops long trak mdia mdhd (record empty_sample { is_smooth_ss = true }) 0 4 8 0 refl
      refl refl (omega arith) (omega arith) (omega arith)

starts_with_iff_example :
    (starts_with (47 ∷ 97 ∷ 98 ∷ []) (47 ∷ 97 ∷ []) ≡ true)
    ↔ ((rest : List ℕ) × ((47 ∷ 97 ∷ 98 ∷ []) ≡ (47 ∷ 97 ∷ []) ++ rest))
starts_with_iff_example = starts_with_iff (47 ∷ 97 ∷ 98 ∷ []) (47 ∷ 97 ∷ [])

-- "a_ts" ends with ".ts".
ends_with_first_byte_example : ends_with (97 ∷ 95 ∷ 116 ∷ 115 ∷ []) (46 ∷ 116 ∷ 115 ∷ []) ≡ true
ends_with_first_byte_example = ends_with_first_byte (97 ∷ []) (116 ∷ 115 ∷ []) 95 46
