-- ===== src/Reader/Tree.antt =====
-- src/mp4_reader.h: the readers of the atoms that hold atoms, from `stbl_read` to `moov_read`. Each
-- gives `atom_reader` its list of rows and then looks for the atoms that it cannot do without.
-- `now` is the time, `malloc` places the copies of sample entries, `fuel` bounds each loop.
pub mod Mandatory
use nginx_hls_module.Base.{
  ℕ, ◌+◌, ◌*◌, ◌%◌, ◌^◌, List, [], ◌∷◌, ◌++◌, Option, none, some, Bool, true, false, not, ltb, ◌==◌,
  ◌&&◌, ◌||◌, if◌then◌else◌,
}
use nginx_hls_module.Run.{Run, ok, fault, ◌>>=◌, deref}
use nginx_hls_module.Memory.{Memory}
use nginx_hls_module.Mp4.{UnknownAtoms, fourcc, max_tracks}
use nginx_hls_module.Mp4.Headers.{Mvhd, Tkhd, Mdhd, Hdlr, Vmhd, Smhd, Dref, Elst, Trex}
use nginx_hls_module.Mp4.Tables.{Stts, Stss, Stsc, Stsz, Stco, Ctts}
use nginx_hls_module.Mp4.Entry.{Stsd}
use nginx_hls_module.Mp4.Tree.{
  Stbl, stbl_init, DrefPointer, null, dref, chain, Dinf, dinf_init, Minf, minf_init, Mdia,
  mdia_init, Edts, edts_init, Trak, trak_init, Mvex, mvex_init, Moov, moov_init,
}
use nginx_hls_module.Reader.{Reader}
use nginx_hls_module.Reader.Tables.{
  ctts_read, stco_read, co64_read, stsz_read, stsc_read, stss_read, stts_read,
}
use nginx_hls_module.Reader.Headers.{
  hdlr_read, vmhd_read, smhd_read, dref_read, mdhd_read, tkhd_read,
}
use nginx_hls_module.Reader.Movie.{elst_read, mvhd_read, trex_read}
use nginx_hls_module.Reader.Atom.{Parent, Row, row, atom_reader}
use nginx_hls_module.Reader.Entry.{stsd_read, stsd_parse}

-- Is a pointer not NULL?
abbrev pub is_set {ℓ} : {A : Type ℓ} → Option A → Bool
is_set none = false
is_set (some a) = true

-- The parent is kept only where the loop and the checks succeed.
abbrev pub kept : {P : Type 0} → P → Bool → Option P
kept p true = some p
kept p false = none

abbrev stbl_ops : Parent Stbl
stbl_ops = record {
  first_word = λ s. ok s.unknown_atoms;
  set_first_word = λ s c. record s { unknown_atoms = c };
}

abbrev stbl_add_stsd : Stbl → Stsd → Run (Stbl × Bool)
stbl_add_stsd s child = ok (record s { stsd = some child }, true)

abbrev stbl_add_stts : Stbl → Stts → Run (Stbl × Bool)
stbl_add_stts s child = ok (record s { stts = some child }, true)

abbrev stbl_add_stss : Stbl → Stss → Run (Stbl × Bool)
stbl_add_stss s child = ok (record s { stss = some child }, true)

abbrev stbl_add_stsc : Stbl → Stsc → Run (Stbl × Bool)
stbl_add_stsc s child = ok (record s { stsc = some child }, true)

abbrev stbl_add_stsz : Stbl → Stsz → Run (Stbl × Bool)
stbl_add_stsz s child = ok (record s { stsz = some child }, true)

abbrev stbl_add_stco : Stbl → Stco → Run (Stbl × Bool)
stbl_add_stco s child = ok (record s { stco = some child }, true)

abbrev stbl_add_ctts : Stbl → Ctts → Run (Stbl × Bool)
stbl_add_ctts s child = ok (record s { ctts = some child }, true)

abbrev stbl_rows : (ℕ → ℕ) → List (Row Stbl)
stbl_rows malloc =
    row (fourcc b's' b't' b's' b'd') stbl_add_stsd (stsd_read malloc)
    ∷ row (fourcc b's' b't' b't' b's') stbl_add_stts stts_read
    ∷ row (fourcc b's' b't' b's' b's') stbl_add_stss stss_read
    ∷ row (fourcc b's' b't' b's' b'c') stbl_add_stsc stsc_read
    ∷ row (fourcc b's' b't' b's' b'z') stbl_add_stsz stsz_read
    ∷ row (fourcc b's' b't' b'c' b'o') stbl_add_stco stco_read
    ∷ row (fourcc b'c' b'o' b'6' b'4') stbl_add_stco co64_read
    ∷ row (fourcc b'c' b't' b't' b's') stbl_add_ctts ctts_read
    ∷ []

-- `stsc`, `stsz` and `stco` may be missing.
unfoldable pub stbl_read : (ℕ → ℕ) → ℕ → Reader Stbl
stbl_read malloc fuel m buffer size = do
  (atom, result) ← atom_reader stbl_ops (stbl_rows malloc) fuel m stbl_init buffer size
  ok (kept atom (result && is_set atom.stsd && is_set atom.stts))

-- The first word of `dinf_t` is its `dref_`. A `dref_t` is no link of a chain: what stands where the
-- link's `next_` is looked for is its count of entries and bytes that nothing has set.
abbrev dref_word : DrefPointer → Run UnknownAtoms
dref_word null = ok []
dref_word (dref d) = fault
dref_word (chain c) = ok c

abbrev dref_of_word : UnknownAtoms → DrefPointer
dref_of_word [] = null
dref_of_word (a ∷ c) = chain (a ∷ c)

abbrev dinf_ops : Parent Dinf
dinf_ops = record {
  first_word = λ d. dref_word d.dref;
  set_first_word = λ d c. record d { dref = dref_of_word c };
}

abbrev dinf_add_dref : Dinf → Dref → Run (Dinf × Bool)
dinf_add_dref d child = ok (record d { dref = dref child }, true)

abbrev dinf_rows : List (Row Dinf)
dinf_rows = row (fourcc b'd' b'r' b'e' b'f') dinf_add_dref dref_read ∷ []

abbrev has_dref : DrefPointer → Bool
has_dref null = false
has_dref (dref d) = true
has_dref (chain c) = true

unfoldable pub dinf_read : ℕ → Reader Dinf
dinf_read fuel m buffer size = do
  (atom, result) ← atom_reader dinf_ops dinf_rows fuel m dinf_init buffer size
  ok (kept atom (result && has_dref atom.dref))

abbrev minf_ops : Parent Minf
minf_ops = record {
  first_word = λ s. ok s.unknown_atoms;
  set_first_word = λ s c. record s { unknown_atoms = c };
}

abbrev minf_add_vmhd : Minf → Vmhd → Run (Minf × Bool)
minf_add_vmhd s child = ok (record s { vmhd = some child }, true)

abbrev minf_add_smhd : Minf → Smhd → Run (Minf × Bool)
minf_add_smhd s child = ok (record s { smhd = some child }, true)

abbrev minf_add_dinf : Minf → Dinf → Run (Minf × Bool)
minf_add_dinf s child = ok (record s { dinf = some child }, true)

abbrev minf_add_stbl : Minf → Stbl → Run (Minf × Bool)
minf_add_stbl s child = ok (record s { stbl = some child }, true)

abbrev minf_rows : (ℕ → ℕ) → ℕ → List (Row Minf)
minf_rows malloc fuel =
    row (fourcc b'v' b'm' b'h' b'd') minf_add_vmhd vmhd_read
    ∷ row (fourcc b's' b'm' b'h' b'd') minf_add_smhd smhd_read
    ∷ row (fourcc b'd' b'i' b'n' b'f') minf_add_dinf (dinf_read fuel)
    ∷ row (fourcc b's' b't' b'b' b'l') minf_add_stbl (stbl_read malloc fuel)
    ∷ []

unfoldable pub minf_read : (ℕ → ℕ) → ℕ → Reader Minf
minf_read malloc fuel m buffer size = do
  (atom, result) ← atom_reader minf_ops (minf_rows malloc fuel) fuel m minf_init buffer size
  ok (kept atom (result && is_set atom.stbl))

abbrev mdia_ops : Parent Mdia
mdia_ops = record {
  first_word = λ s. ok s.unknown_atoms;
  set_first_word = λ s c. record s { unknown_atoms = c };
}

abbrev mdia_add_mdhd : Mdia → Mdhd → Run (Mdia × Bool)
mdia_add_mdhd s child = ok (record s { mdhd = some child }, true)

abbrev mdia_add_hdlr : Mdia → Hdlr → Run (Mdia × Bool)
mdia_add_hdlr s child = ok (record s { hdlr = some child }, true)

abbrev mdia_add_minf : Mdia → Minf → Run (Mdia × Bool)
mdia_add_minf s child = ok (record s { minf = some child }, true)

abbrev mdia_rows : ℕ → (ℕ → ℕ) → ℕ → List (Row Mdia)
mdia_rows now malloc fuel =
    row (fourcc b'm' b'd' b'h' b'd') mdia_add_mdhd (mdhd_read now)
    ∷ row (fourcc b'h' b'd' b'l' b'r') mdia_add_hdlr hdlr_read
    ∷ row (fourcc b'm' b'i' b'n' b'f') mdia_add_minf (minf_read malloc fuel)
    ∷ []

unfoldable pub mdia_read : ℕ → (ℕ → ℕ) → ℕ → Reader Mdia
mdia_read now malloc fuel m buffer size = do
  (atom, result) ← atom_reader mdia_ops (mdia_rows now malloc fuel) fuel m mdia_init buffer size
  ok (kept atom (result && is_set atom.mdhd && is_set atom.hdlr && is_set atom.minf))

abbrev edts_ops : Parent Edts
edts_ops = record {
  first_word = λ s. ok s.unknown_atoms;
  set_first_word = λ s c. record s { unknown_atoms = c };
}

abbrev edts_add_elst : Edts → Elst → Run (Edts × Bool)
edts_add_elst s child = ok (record s { elst = some child }, true)

abbrev edts_rows : List (Row Edts)
edts_rows = row (fourcc b'e' b'l' b's' b't') edts_add_elst elst_read ∷ []

unfoldable pub edts_read : ℕ → Reader Edts
edts_read fuel m buffer size = do
  (atom, result) ← atom_reader edts_ops edts_rows fuel m edts_init buffer size
  ok (kept atom result)
