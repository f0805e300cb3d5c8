-- ===== src/Mp4/Tables.antt =====
-- src/mp4_io.h: the sample tables (`stts` to `ctts`) and the index built from them.
use nginx_hls_module.Base.{ℕ, List, [], Bool, Option}

pub record SttsTable : Type 0 where
  pub sample_count : ℕ
  pub sample_duration : ℕ

pub record Stts : Type 0 where
  pub version : ℕ
  pub flags : ℕ
  pub entries : ℕ
  pub table : List SttsTable

abbrev pub stts_init : Stts
stts_init = record { version = 0; flags = 0; entries = 0; table = [] }

pub record Stss : Type 0 where
  pub version : ℕ
  pub flags : ℕ
  pub entries : ℕ
  pub sample_numbers : List ℕ

abbrev pub stss_init : Stss
stss_init = record { version = 0; flags = 0; entries = 0; sample_numbers = [] }

pub record StscTable : Type 0 where
  pub chunk : ℕ
  pub samples : ℕ
  pub id : ℕ

pub record Stsc : Type 0 where
  pub version : ℕ
  pub flags : ℕ
  pub entries : ℕ
  pub table : List StscTable

abbrev pub stsc_init : Stsc
stsc_init = record { version = 0; flags = 0; entries = 0; table = [] }

pub record Stsz : Type 0 where
  pub version : ℕ
  pub flags : ℕ
  pub sample_size : ℕ
  pub entries : ℕ
  pub sample_sizes : List ℕ

abbrev pub stsz_init : Stsz
stsz_init = record { version = 0; flags = 0; sample_size = 0; entries = 0; sample_sizes = [] }

-- The source's `stco_inplace_` is never set and never read.
pub record Stco : Type 0 where
  pub version : ℕ
  pub flags : ℕ
  pub entries : ℕ
  pub chunk_offsets : List ℕ

abbrev pub stco_init : Stco
stco_init = record { version = 0; flags = 0; entries = 0; chunk_offsets = [] }

pub record CttsTable : Type 0 where
  pub sample_count : ℕ
  pub sample_offset : ℕ

pub record Ctts : Type 0 where
  pub version : ℕ
  pub flags : ℕ
  pub entries : ℕ
  pub table : List CttsTable

abbrev pub ctts_init : Ctts
ctts_init = record { version = 0; flags = 0; entries = 0; table = [] }

pub record Sample : Type 0 where
  pub pts : ℕ
  pub size : ℕ
  pub pos : ℕ
  pub cto : ℕ
  pub is_smooth_ss : Bool

-- A chunk comes from `malloc`: a field that nothing has set yet is `none`.
pub record Chunk : Type 0 where
  pub sample : Option ℕ
  pub size : Option ℕ
  pub id : Option ℕ
  pub pos : Option ℕ
