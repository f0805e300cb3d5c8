-- ===== src/Reader/Moov.antt =====
-- src/mp4_reader.h: `trak_read`, `mvex_read` and `moov_read`, the readers of tracks and of the movie.
pub mod Shape
use nginx_hls_module.Base.{
  ℕ, ◌+◌, ◌*◌, ◌%◌, ◌^◌, List, [], ◌∷◌, ◌++◌, Option, none, some, Bool, true, false, not, ◌==◌,
  ◌&&◌, ◌||◌, if◌then◌else◌,
}
use nginx_hls_module.Run.{Run, ok, ◌>>=◌, deref}
use nginx_hls_module.Memory.{Memory}
use nginx_hls_module.Mp4.{fourcc, max_tracks}
use nginx_hls_module.Mp4.Headers.{Mvhd, Tkhd, Mdhd, Hdlr, Trex}
use nginx_hls_module.Mp4.Tables.{Stco}
use nginx_hls_module.Mp4.Entry.{Stsd}
use nginx_hls_module.Mp4.Tree.{
  Stbl, Minf, Mdia, Edts, Trak, trak_init, Mvex, mvex_init, Moov, moov_init,
}
use nginx_hls_module.Reader.{Reader}
use nginx_hls_module.Reader.Headers.{tkhd_read}
use nginx_hls_module.Reader.Movie.{mvhd_read, trex_read}
use nginx_hls_module.Reader.Atom.{Parent, Row, row, atom_reader}
use nginx_hls_module.Reader.Entry.{stsd_parse}
use nginx_hls_module.Reader.Tree.{is_set, kept, mdia_read, edts_read}

abbrev trak_ops : Parent Trak
trak_ops = record {
  first_word = λ s. ok s.unknown_atoms;
  set_first_word = λ s c. record s { unknown_atoms = c };
}

abbrev trak_add_tkhd : Trak → Tkhd → Run (Trak × Bool)
trak_add_tkhd s child = ok (record s { tkhd = some child }, true)

abbrev trak_add_mdia : Trak → Mdia → Run (Trak × Bool)
trak_add_mdia s child = ok (record s { mdia = some child }, true)

abbrev trak_add_edts : Trak → Edts → Run (Trak × Bool)
trak_add_edts s child = ok (record s { edts = some child }, true)

abbrev trak_rows : ℕ → (ℕ → ℕ) → ℕ → List (Row Trak)
trak_rows now malloc fuel =
    row (fourcc b't' b'k' b'h' b'd') trak_add_tkhd (tkhd_read now)
    ∷ row (fourcc b'm' b'd' b'i' b'a') trak_add_mdia (mdia_read now malloc fuel)
    ∷ row (fourcc b'e' b'd' b't' b's') trak_add_edts (edts_read fuel)
    ∷ []

-- `trak->mdia_->minf_->stbl_`, and the track with another `stsd_` there.
abbrev pub trak_stbl : Trak → Run Stbl
trak_stbl t = do mdia ← deref t.mdia; minf ← deref mdia.minf; deref minf.stbl

abbrev pub trak_handler : Trak → Run ℕ
trak_handler t = do mdia ← deref t.mdia; hdlr ← deref mdia.hdlr; ok hdlr.handler_type

trak_parse_stsd : ℕ → Trak → Run (Trak × Bool)
trak_parse_stsd fuel t = do
  mdia ← deref t.mdia
  minf ← deref mdia.minf
  stbl ← deref minf.stbl
  stsd ← deref stbl.stsd
  hdlr ← deref mdia.hdlr
  (stsd', good) ← stsd_parse fuel hdlr.handler_type stsd
  let stbl' = record stbl { stsd = some stsd' }
  let minf' = record minf { stbl = some stbl' }
  let mdia' = record mdia { minf = some minf' }
  ok (record t { mdia = some mdia' }, good)

unfoldable pub trak_read : ℕ → (ℕ → ℕ) → ℕ → Reader Trak
unfolding trak_parse_stsd
trak_read now malloc fuel m buffer size = do
  (atom, result) ← atom_reader trak_ops (trak_rows now malloc fuel) fuel m trak_init buffer size
  if result && is_set atom.tkhd && is_set atom.mdia
      then (do (atom', good) ← trak_parse_stsd fuel atom; ok (kept atom' good))
      else ok none

-- The duration that `moov_add_trak` leaves: 0 for a track without samples.
duration_of : Option Stco → ℕ → ℕ
duration_of none d = 0
duration_of (some stco) d = if stco.entries == 0 && not (d == 0) then 0 else d

-- A track that is neither video nor sound is dropped, and reading goes on.
moov_add_trak : Moov → Trak → Run (Moov × Bool)
unfolding duration_of
moov_add_trak moov trak = if moov.tracks == max_tracks then ok (moov, false) else do
  mdia ← deref trak.mdia
  hdlr ← deref mdia.hdlr
  if not (hdlr.handler_type == fourcc b'v' b'i' b'd' b'e')
        && not (hdlr.handler_type == fourcc b's' b'o' b'u' b'n')
      then ok (moov, true)
      else do
        minf ← deref mdia.minf
        stbl ← deref minf.stbl
        mdhd ← deref mdia.mdhd
        let mdhd' = record mdhd { duration = duration_of stbl.stco mdhd.duration }
        let mdia' = record mdia { mdhd = some mdhd' }
        let trak' = record trak { mdia = some mdia' }
        ok (record moov { traks = moov.traks ++ (trak' ∷ []); tracks = moov.tracks + 1 }, true)

abbrev moov_add_mvhd : Moov → Mvhd → Run (Moov × Bool)
moov_add_mvhd s child = ok (record s { mvhd = some child }, true)

abbrev moov_add_mvex : Moov → Mvex → Run (Moov × Bool)
moov_add_mvex s child = ok (record s { mvex = some child }, true)

abbrev pub mvex_ops : Parent Mvex
mvex_ops = record {
  first_word = λ s. ok s.unknown_atoms;
  set_first_word = λ s c. record s { unknown_atoms = c };
}

unfoldable pub mvex_add_trex : Mvex → Trex → Run (Mvex × Bool)
mvex_add_trex mvex trex =
    if mvex.tracks == max_tracks
    then ok (mvex, false)
    else ok (record mvex { trexs = mvex.trexs ++ (trex ∷ []); tracks = mvex.tracks + 1 }, true)

abbrev pub mvex_rows : List (Row Mvex)
mvex_rows = row (fourcc b't' b'r' b'e' b'x') mvex_add_trex trex_read ∷ []

unfoldable pub mvex_read : ℕ → Reader Mvex
unfolding mvex_add_trex
mvex_read fuel m buffer size = do
  (atom, result) ← atom_reader mvex_ops mvex_rows fuel m mvex_init buffer size
  ok (kept atom (result && not (atom.tracks == 0)))

abbrev moov_ops : Parent Moov
moov_ops = record {
  first_word = λ s. ok s.unknown_atoms;
  set_first_word = λ s c. record s { unknown_atoms = c };
}

abbrev moov_rows : ℕ → (ℕ → ℕ) → ℕ → List (Row Moov)
moov_rows now malloc fuel =
    row (fourcc b'm' b'v' b'h' b'd') moov_add_mvhd (mvhd_read now)
    ∷ row (fourcc b't' b'r' b'a' b'k') moov_add_trak (trak_read now malloc fuel)
    ∷ row (fourcc b'm' b'v' b'e' b'x') moov_add_mvex (mvex_read fuel)
    ∷ []

unfoldable pub moov_read : ℕ → (ℕ → ℕ) → ℕ → Reader Moov
unfolding moov_add_trak
moov_read now malloc fuel m buffer size = do
  (atom, result) ← atom_reader moov_ops (moov_rows now malloc fuel) fuel m moov_init buffer size
  ok (kept atom (result && is_set atom.mvhd && not (atom.tracks == 0)))
