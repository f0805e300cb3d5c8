-- ===== src/Mp4/Headers.antt =====
-- src/mp4_io.h: the header atoms. `now` is what `time(NULL)` returns.
use nginx_hls_module.Base.{ℕ, ◌+◌, ◌%◌, ◌^◌, List, [], Option, none, replicate, set}

-- Seconds since midnight, Jan. 1, 1904 (UTC), as the 64-bit pattern of the source's `int64_t`.
abbrev pub seconds_since_1904 : ℕ → ℕ
seconds_since_1904 now = (now + 2082844800) % 2 ^ 64

-- The identity transformation.
abbrev pub unity_matrix : List ℕ
unity_matrix = set (set (set (replicate 9 0) 0 0x00010000) 4 0x00010000) 8 0x40000000

pub record Mvhd : Type 0 where
  pub version : ℕ
  pub flags : ℕ
  pub creation_time : ℕ
  pub modification_time : ℕ
  pub timescale : ℕ
  pub duration : ℕ
  pub rate : ℕ
  pub volume : ℕ
  pub reserved1 : ℕ
  pub reserved2 : List ℕ
  pub matrix : List ℕ
  pub predefined : List ℕ
  pub next_track_id : ℕ

abbrev pub mvhd_init : ℕ → Mvhd
mvhd_init now = record {
  version = 1;
  flags = 0;
  creation_time = seconds_since_1904 now;
  modification_time = seconds_since_1904 now;
  timescale = 10000000;
  duration = 0;
  rate = 2 ^ 16;
  volume = 2 ^ 8;
  reserved1 = 0;
  reserved2 = replicate 2 0;
  matrix = unity_matrix;
  predefined = replicate 6 0;
  next_track_id = 1;
}

pub record Tkhd : Type 0 where
  pub version : ℕ
  pub flags : ℕ
  pub creation_time : ℕ
  pub modification_time : ℕ
  pub track_id : ℕ
  pub reserved : ℕ
  pub duration : ℕ
  pub reserved2 : List ℕ
  pub layer : ℕ
  pub predefined : ℕ
  pub volume : ℕ
  pub reserved3 : ℕ
  pub matrix : List ℕ
  pub width : ℕ
  pub height : ℕ

abbrev pub tkhd_init : ℕ → Tkhd
tkhd_init now = record {
  version = 1;
  flags = 7;
  creation_time = seconds_since_1904 now;
  modification_time = seconds_since_1904 now;
  track_id = 0;
  reserved = 0;
  duration = 0;
  reserved2 = replicate 2 0;
  layer = 0;
  predefined = 0;
  volume = 2 ^ 8 + 0;
  reserved3 = 0;
  matrix = unity_matrix;
  width = 0;
  height = 0;
}

pub record Mdhd : Type 0 where
  pub version : ℕ
  pub flags : ℕ
  pub creation_time : ℕ
  pub modification_time : ℕ
  pub timescale : ℕ
  pub duration : ℕ
  pub language : List ℕ
  pub predefined : ℕ

abbrev pub mdhd_init : ℕ → Mdhd
mdhd_init now = record {
  version = 1;
  flags = 0;
  creation_time = seconds_since_1904 now;
  modification_time = seconds_since_1904 now;
  timescale = 10000000;
  duration = 0;
  language = replicate 3 0x7f;
  predefined = 0;
}

pub record Hdlr : Type 0 where
  pub version : ℕ
  pub flags : ℕ
  pub predefined : ℕ
  pub handler_type : ℕ
  pub reserved1 : ℕ
  pub reserved2 : ℕ
  pub reserved3 : ℕ
  pub name : Option (List ℕ)

abbrev pub hdlr_init : Hdlr
hdlr_init = record {
  version = 0;
  flags = 0;
  predefined = 0;
  handler_type = 0;
  reserved1 = 0;
  reserved2 = 0;
  reserved3 = 0;
  name = none;
}

pub record Vmhd : Type 0 where
  pub version : ℕ
  pub flags : ℕ
  pub graphics_mode : ℕ
  pub opcolor : List ℕ

abbrev pub vmhd_init : Vmhd
vmhd_init = record { version = 0; flags = 1; graphics_mode = 0; opcolor = replicate 3 0 }

pub record Smhd : Type 0 where
  pub version : ℕ
  pub flags : ℕ
  pub balance : ℕ
  pub reserved : ℕ

abbrev pub smhd_init : Smhd
smhd_init = record { version = 0; flags = 0; balance = 0; reserved = 0 }

pub record DrefTable : Type 0 where
  pub flags : ℕ
  pub name : Option (List ℕ)
  pub location : Option (List ℕ)

abbrev pub dref_table_init : DrefTable
dref_table_init = record { flags = 0; name = none; location = none }

pub record Dref : Type 0 where
  pub version : ℕ
  pub flags : ℕ
  pub entry_count : ℕ
  pub table : List DrefTable

abbrev pub dref_init : Dref
dref_init = record { version = 0; flags = 0; entry_count = 0; table = [] }

-- `media_time` and the rates are signed in the source: here they are their bit patterns, of 64 and
-- 16 bits.
pub record ElstTable : Type 0 where
  pub segment_duration : ℕ
  pub media_time : ℕ
  pub media_rate_integer : ℕ
  pub media_rate_fraction : ℕ

pub record Elst : Type 0 where
  pub version : ℕ
  pub flags : ℕ
  pub entry_count : ℕ
  pub table : List ElstTable

abbrev pub elst_init : Elst
elst_init = record { version = 1; flags = 0; entry_count = 0; table = [] }

pub record Trex : Type 0 where
  pub version : ℕ
  pub flags : ℕ
  pub track_id : ℕ
  pub default_sample_description_index : ℕ
  pub default_sample_duration : ℕ
  pub default_sample_size : ℕ
  pub default_sample_flags : ℕ

abbrev pub trex_init : Trex
trex_init = record {
  version = 0;
  flags = 0;
  track_id = 0;
  default_sample_description_index = 0;
  default_sample_duration = 0;
  default_sample_size = 0;
  default_sample_flags = 0;
}
