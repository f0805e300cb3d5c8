-- ===== src/Ts.antt =====
-- src/output_ts.h: the MPEG transport stream that a segment is sent as. The pool's allocations
-- succeed; freeing is not modelled.
pub mod Crc
pub mod Pts
pub mod Packet
pub mod Psi
pub mod Mux
use nginx_hls_module.Base.{ℕ, ◌+◌, ◌-◌, ◌*◌, ◌/◌, ◌%◌, ◌^◌, List, [], ◌∷◌, Bool, Option}
use nginx_hls_module.Mp4.Entry.{SampleEntry}
use nginx_hls_module.Mp4.Tree.{Trak}
use nginx_hls_module.Bucket.{Bucket}

-- NOPTS_VALUE
abbrev pub nopts_value : ℕ
nopts_value = 2 ^ 63

abbrev pub pmt_pid : ℕ
pmt_pid = 0x1000

abbrev pub service_id : ℕ
service_id = 1

abbrev pub ts_packet_size : ℕ
ts_packet_size = 188

-- MAX_PES_PAYLOAD_SIZE and AUDIO_DELTA
abbrev pub max_pes_payload_size : ℕ
max_pes_payload_size = (32 - 1) * 184 + 170

abbrev pub audio_delta : ℕ
audio_delta = 500 * (90000 / 1000)

abbrev pub pat_delta : ℕ
pat_delta = 60 * 1000 * (90000 / 1000)

-- `payload` is the part of `payload_` below `payload_index_`.
pub record MpegtsStream : Type 0 where
  pub is_video : Bool
  pub pid : ℕ
  pub cc : ℕ
  pub payload : List ℕ
  pub payload_dts : ℕ
  pub payload_pts : ℕ
  pub packets : ℕ
  pub sample_entry : SampleEntry

abbrev pub mpegts_stream_init : Bool → ℕ → SampleEntry → MpegtsStream
mpegts_stream_init v p e = record {
  is_video = v;
  pid = p;
  cc = 0;
  payload = [];
  payload_dts = nopts_value;
  payload_pts = nopts_value;
  packets = 0;
  sample_entry = e;
}

-- `first` and `last` are places in the track's samples; a stream that is not set is `none`.
pub record Fragment : Type 0 where
  pub trak : Option Trak
  pub first : ℕ
  pub last : ℕ
  pub stream : Option MpegtsStream

-- `fragment_size_` is the length of `fragment`.
pub record MpegtsMuxer : Type 0 where
  pub bucket : Bucket
  pub pcr_pid : ℕ
  pub fragment : List Fragment
  pub next_pat : ℕ
  pub pat_cc : ℕ
  pub pmt_cc : ℕ

abbrev pub mpegts_muxer_init : Bucket → List Fragment → MpegtsMuxer
mpegts_muxer_init b f = record {
  bucket = b;
  pcr_pid = 0x1fff;
  fragment = f;
  next_pat = nopts_value;
  pat_cc = 0;
  pmt_cc = 0;
}
