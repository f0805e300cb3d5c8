-- ===== src/Mp4/Entry.antt =====
-- src/mp4_io.h: a sample entry, the description of a codec in `stsd`.
use nginx_hls_module.Base.{ℕ, List, [], Option, none}
use nginx_hls_module.Memory.{Memory}

-- `buf` is the entry's own allocation; `codec_private_data`, `sps` and `pps` are addresses in it.
-- The source's `video_` and `audio_` are NULL throughout and are left out; `samplerate_hi_` and
-- `samplerate_lo_` are not set by `sample_entry_init`.
pub record SampleEntry : Type 0 where
  pub len : ℕ
  pub fourcc : ℕ
  pub buf : Memory
  pub codec_private_data_length : ℕ
  pub codec_private_data : Option ℕ
  pub nal_unit_length : ℕ
  pub sps_length : ℕ
  pub sps : Option ℕ
  pub pps_length : ℕ
  pub pps : Option ℕ
  pub format_tag : ℕ
  pub channels : ℕ
  pub samples_per_sec : ℕ
  pub avg_bytes_per_sec : ℕ
  pub block_align : ℕ
  pub bits_per_sample : ℕ
  pub samplerate_hi : Option ℕ
  pub samplerate_lo : Option ℕ
  pub max_bitrate : ℕ
  pub avg_bitrate : ℕ

-- `sample_entry_init`, with what the caller stores next: the length, the type and the copy.
unfoldable pub sample_entry_init : ℕ → ℕ → Memory → SampleEntry
sample_entry_init l f b = record {
  len = l;
  fourcc = f;
  buf = b;
  codec_private_data_length = 0;
  codec_private_data = none;
  nal_unit_length = 0;
  sps_length = 0;
  sps = none;
  pps_length = 0;
  pps = none;
  format_tag = 0;
  channels = 2;
  samples_per_sec = 44100;
  avg_bytes_per_sec = 0;
  block_align = 0;
  bits_per_sample = 16;
  samplerate_hi = none;
  samplerate_lo = none;
  max_bitrate = 0;
  avg_bitrate = 0;
}

pub record Stsd : Type 0 where
  pub version : ℕ
  pub flags : ℕ
  pub entries : ℕ
  pub sample_entries : List SampleEntry

abbrev pub stsd_init : Stsd
stsd_init = record { version = 0; flags = 0; entries = 0; sample_entries = [] }
