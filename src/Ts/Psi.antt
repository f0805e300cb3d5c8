-- ===== src/Ts/Psi.antt =====
-- src/output_ts.h, `mpegts_muxer_write_pat`, `mpegts_muxer_write_pmt` and `write_header`: the tables
-- that name the streams.
pub mod Section
pub mod Tables
pub mod Clock
use nginx_hls_module.Base.{
  ℕ, ◌+◌, ◌-◌, ◌*◌, ◌%◌, ◌^◌, List, [], ◌∷◌, ◌++◌, ltb, ◌==◌, if◌then◌else◌, length, replicate,
  bit_or,
}
use nginx_hls_module.Run.{Run, ok, fault, ◌>>=◌, deref}
use nginx_hls_module.Mp4.{fourcc}
use nginx_hls_module.Reader.Moov.{trak_handler}
use nginx_hls_module.Bucket.{bucket_insert}
use nginx_hls_module.Memory.Holds.{bytes_16, bytes_32}
use nginx_hls_module.Ts.{pmt_pid, service_id, ts_packet_size, Fragment, MpegtsMuxer}
use nginx_hls_module.Ts.Crc.{get_crc32}

abbrev pub vide : ℕ
vide = fourcc 118 105 100 101

abbrev pub soun : ℕ
soun = fourcc 115 111 117 110

-- The header of a packet with a section, up to the pointer to it.
unfoldable pub section_start : ℕ → ℕ → List ℕ
section_start pid cc =
    0x47 ∷ bytes_16 (bit_or 0x4000 pid) ++ (bit_or 0x30 cc % 2 ^ 8 ∷ 1 ∷ 0x80 ∷ 0 ∷ [])

-- A section of a table with a payload: `number` is the transport stream's or the program's.
unfoldable pub section_of : ℕ → ℕ → ℕ → List ℕ → List ℕ
section_of table_id section_payload_len number payload =
    table_id ∷ bytes_16 (bit_or 0xb000 (section_payload_len + 5 + 4))
    ++ bytes_16 number
    ++ (0xc1 ∷ 0x00 ∷ 0x00 ∷ [])
    ++ payload

-- The checksum and the padding, in a packet of 188 bytes.
unfoldable pub section_packet : ℕ → ℕ → List ℕ → Run (List ℕ)
section_packet pid cc section = do
  crc ← get_crc32 (2 ^ 32 - 1) section
  let used = section_start pid cc ++ section ++ bytes_32 crc
  if ltb ts_packet_size (length used)
      then fault
      else ok (used ++ replicate (ts_packet_size - length used) 0xff)

unfoldable pub mpegts_muxer_write_pat : MpegtsMuxer → Run MpegtsMuxer
mpegts_muxer_write_pat m = do
  packet ←
      section_packet 0x0000 m.pat_cc
        (section_of 0x00 4 0x0001 (bytes_16 service_id ++ bytes_16 (bit_or 0xe000 pmt_pid)))
  ok (record m { pat_cc = (m.pat_cc + 1) % 2 ^ 4; bucket = bucket_insert m.bucket packet })

-- The entry of a stream in the program's table; other handlers leave out the type.
unfoldable pub pmt_stream : Fragment → Run (List ℕ)
pmt_stream f = do
  trak ← deref f.trak
  handler ← trak_handler trak
  stream ← deref f.stream
  ok (
      (if handler == soun then 0x0f ∷ [] else if handler == vide then 0x1b ∷ [] else [])
      ++ bytes_16 (bit_or 0xe000 stream.pid)
      ++ bytes_16 0xf000)

unfoldable pub pmt_streams : List Fragment → Run (List ℕ)
pmt_streams [] = ok []
pmt_streams (f ∷ fs) = do bytes ← pmt_stream f; rest ← pmt_streams fs; ok (bytes ++ rest)

unfoldable pub mpegts_muxer_write_pmt : MpegtsMuxer → Run MpegtsMuxer
mpegts_muxer_write_pmt m = do
  streams ← pmt_streams m.fragment
  packet ← section_packet pmt_pid m.pmt_cc (
      section_of 0x02 (4 + length m.fragment * 5) service_id
        (bytes_16 (bit_or 0xe000 m.pcr_pid) ++ bytes_16 0xf000 ++ streams))
  ok (record m { pmt_cc = (m.pmt_cc + 1) % 2 ^ 4; bucket = bucket_insert m.bucket packet })

-- The first video stream carries the clock.
unfoldable pub clock_stream : ℕ → List Fragment → Run ℕ
clock_stream pid [] = ok pid
clock_stream pid (f ∷ fs) = do
  trak ← deref f.trak
  handler ← trak_handler trak
  if handler == vide then (do stream ← deref f.stream; ok stream.pid) else clock_stream pid fs

unfoldable pub write_header : MpegtsMuxer → Run MpegtsMuxer
write_header m = do pid ← clock_stream m.pcr_pid m.fragment; ok (record m { pcr_pid = pid })
