-- ===== src/Mp4/Tree.antt =====
-- src/mp4_io.h and src/ngx_http_streaming_module.h: the atoms that hold other atoms.
use nginx_hls_module.Base.{ℕ, List, [], Bool, false, Option, none}
use nginx_hls_module.Mp4.{UnknownAtoms}
use nginx_hls_module.Mp4.Tables.{Stts, Stss, Stsc, Stsz, Stco, Ctts, Sample, Chunk}
use nginx_hls_module.Mp4.Headers.{Mvhd, Tkhd, Mdhd, Hdlr, Vmhd, Smhd, Dref, Elst, Trex}
use nginx_hls_module.Mp4.Entry.{Stsd}

pub record Stbl : Type 0 where
  pub unknown_atoms : UnknownAtoms
  pub stsd : Option Stsd
  pub stts : Option Stts
  pub stss : Option Stss
  pub stsc : Option Stsc
  pub stsz : Option Stsz
  pub stco : Option Stco
  pub ctts : Option Ctts

abbrev pub stbl_init : Stbl
stbl_init = record {
  unknown_atoms = [];
  stsd = none;
  stts = none;
  stss = none;
  stsc = none;
  stsz = none;
  stco = none;
  ctts = none;
}

-- `dinf_t` has no `unknown_atoms_`: its first word is `dref_`, and the reader of atoms, which takes
-- the first word of every parent for that chain, can leave a chain of unknown atoms there.
pub data DrefPointer : Type 0 where
  null : DrefPointer
  dref : Dref → DrefPointer
  chain : UnknownAtoms → DrefPointer

pub record Dinf : Type 0 where
  pub dref : DrefPointer

abbrev pub dinf_init : Dinf
dinf_init = record { dref = null }

pub record Minf : Type 0 where
  pub unknown_atoms : UnknownAtoms
  pub vmhd : Option Vmhd
  pub smhd : Option Smhd
  pub dinf : Option Dinf
  pub stbl : Option Stbl

abbrev pub minf_init : Minf
minf_init = record { unknown_atoms = []; vmhd = none; smhd = none; dinf = none; stbl = none }

pub record Mdia : Type 0 where
  pub unknown_atoms : UnknownAtoms
  pub mdhd : Option Mdhd
  pub hdlr : Option Hdlr
  pub minf : Option Minf

abbrev pub mdia_init : Mdia
mdia_init = record { unknown_atoms = []; mdhd = none; hdlr = none; minf = none }

pub record Edts : Type 0 where
  pub unknown_atoms : UnknownAtoms
  pub elst : Option Elst

abbrev pub edts_init : Edts
edts_init = record { unknown_atoms = []; elst = none }

pub record Trak : Type 0 where
  pub unknown_atoms : UnknownAtoms
  pub tkhd : Option Tkhd
  pub mdia : Option Mdia
  pub edts : Option Edts
  pub chunks_size : ℕ
  pub chunks : List Chunk
  pub samples_size : ℕ
  pub samples : List Sample

abbrev pub trak_init : Trak
trak_init = record {
  unknown_atoms = [];
  tkhd = none;
  mdia = none;
  edts = none;
  chunks_size = 0;
  chunks = [];
  samples_size = 0;
  samples = [];
}

-- The tracks that are there: the source's array of `MAX_TRACKS` pointers up to `tracks_`.
pub record Mvex : Type 0 where
  pub unknown_atoms : UnknownAtoms
  pub tracks : ℕ
  pub trexs : List Trex

abbrev pub mvex_init : Mvex
mvex_init = record { unknown_atoms = []; tracks = 0; trexs = [] }

pub record Moov : Type 0 where
  pub unknown_atoms : UnknownAtoms
  pub mvhd : Option Mvhd
  pub tracks : ℕ
  pub traks : List Trak
  pub mvex : Option Mvex
  pub is_indexed : Bool

abbrev pub moov_init : Moov
moov_init = record {
  unknown_atoms = [];
  mvhd = none;
  tracks = 0;
  traks = [];
  mvex = none;
  is_indexed = false;
}
