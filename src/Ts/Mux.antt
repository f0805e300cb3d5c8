-- ===== src/Ts/Mux.antt =====
-- src/output_ts.h, `convert_to_nal`, `write_packet`, `flush_audio_packet`, `write_video_packet` and
-- `write_audio_packet`: how samples get into the stream. The bucket is the muxer's, as at every
-- call. Sizes are those of `u_int`, and of `int` in `write_packet`. A source is an allocation with
-- the addresses of its first byte and of the one behind its last.
pub mod Whole
pub mod Nal
pub mod Overrun
pub mod Video
pub mod Audio
use nginx_hls_module.Base.{
  ℕ, zero, suc, ◌+◌, ◌-◌, ◌%◌, ◌^◌, List, [], ◌∷◌, ◌++◌, Bool, true, false, Option, none, some, not,
  ◌&&◌, ◌||◌, ltb, leb, ◌==◌, if◌then◌else◌, length, min, take, drop,
}
use nginx_hls_module.Run.{Run, ok, fault, out_of_fuel, ◌>>=◌, deref}
use nginx_hls_module.Memory.{Memory, read_32}
use nginx_hls_module.Memory.Holds.{bytes_32}
use nginx_hls_module.Reader.Headers.{copy_bytes}
use nginx_hls_module.Mp4.Entry.{SampleEntry}
use nginx_hls_module.Bucket.{bucket_insert}
use nginx_hls_module.Ts.{
  nopts_value, pat_delta, audio_delta, max_pes_payload_size, MpegtsStream, MpegtsMuxer,
}
use nginx_hls_module.Ts.Psi.{mpegts_muxer_write_pat, mpegts_muxer_write_pmt}
use nginx_hls_module.Ts.Packet.{max_delay, packetized_packets, write_packets}

-- The units of a sample, each behind a start code, for a buffer with room for `room` bytes; `none`
-- is the result 0.
unfoldable pub nal_loop : ℕ → Memory → ℕ → ℕ → ℕ → Run (Option (List ℕ))
nal_loop zero m first last room = if ltb first last then out_of_fuel else ok (some [])
nal_loop (suc fuel) m first last room =
    if ltb first last
    then (do
      packet_len ← read_32 m first
      if ltb ((last - first) % 2 ^ 32) packet_len then ok none else (do
        unit ← copy_bytes m (first + 4) packet_len
        rest ←
            if ltb room (4 + packet_len)
            then fault
            else nal_loop fuel m (first + 4 + packet_len) last (room - (4 + packet_len))
        ok (elim rest [ none ↦ none | some units ↦ some (bytes_32 1 ++ unit ++ units) ])))
    else ok (some [])

unfoldable pub convert_to_nal : ℕ → Memory → ℕ → ℕ → ℕ → Run (Option (List ℕ))
convert_to_nal fuel m first last room = do
  start ← read_32 m first
  if start == 1
      then (do
        bytes ← copy_bytes m first (last - first)
        if ltb room (length bytes) then fault else ok (some bytes))
      else nal_loop fuel m first last room

abbrev pub delayed : ℕ → ℕ
delayed t = if t == nopts_value then t else (t + max_delay) % 2 ^ 64

-- The tables are due at the start, and from the time set for them on.
abbrev pub tables_due : MpegtsMuxer → ℕ → Bool
tables_due m dts = (m.next_pat == nopts_value) || (not (dts == nopts_value) && leb m.next_pat dts)

unfoldable pub write_tables : MpegtsMuxer → ℕ → Run MpegtsMuxer
write_tables m dts =
    if tables_due m dts
    then (do
      m1 ← mpegts_muxer_write_pat m
      m2 ← mpegts_muxer_write_pmt m1
      ok (record m2 { next_pat = (dts + pat_delta) % 2 ^ 64 }))
    else ok m

-- A payload that an `int` does not hold is a fault of the loop; below that size, the size of the
-- packets fits a `u_int`.
unfoldable pub write_packet :
    MpegtsMuxer → MpegtsStream → ℕ → ℕ → List ℕ → Run (MpegtsMuxer × MpegtsStream)
write_packet m s dts pts payload = do
  m1 ← write_tables m (delayed dts)
  let packets = packetized_packets s m1.pcr_pid (delayed dts) (delayed pts) (length payload)
  (out, s') ←
      write_packets packets m1.pcr_pid s (delayed dts) (delayed pts) true (s.packets == 0) payload
  ok (record m1 { bucket = bucket_insert m1.bucket out }, s')

unfoldable pub flush_audio_packet : MpegtsMuxer → MpegtsStream → Run (MpegtsMuxer × MpegtsStream)
flush_audio_packet m s = if length s.payload == 0 then ok (m, s) else (do
  (m', s') ← write_packet m s s.payload_dts s.payload_pts s.payload
  ok (m', record s' { payload = []; payload_dts = nopts_value; payload_pts = nopts_value }))

abbrev pub aud_nal : List ℕ
aud_nal = 0x00 ∷ 0x00 ∷ 0x00 ∷ 0x01 ∷ 0x09 ∷ 0xe0 ∷ []

-- A parameter set of the sample entry; one of no bytes is not read.
unfoldable pub parameter_set : SampleEntry → Option ℕ → ℕ → Run (List ℕ)
parameter_set e pointer n =
    if n == 0
    then ok (bytes_32 1)
    else (do p ← deref pointer; bytes ← copy_bytes e.buf p n; ok (bytes_32 1 ++ bytes))

-- What comes in front of the units: the delimiter, in the first packet the parameter sets too.
unfoldable pub video_prefix : MpegtsStream → Run (List ℕ)
video_prefix s =
    if s.packets == 0
    then (do
      sps ← parameter_set s.sample_entry s.sample_entry.sps s.sample_entry.sps_length
      pps ← parameter_set s.sample_entry s.sample_entry.pps s.sample_entry.pps_length
      ok (aud_nal ++ sps ++ pps))
    else ok aud_nal

-- `size` as a `u_int`. The buffer has 10 bytes more than `size`, which is sent: units that take fewer
-- leave bytes unset.
unfoldable pub write_video_packet :
    ℕ → MpegtsMuxer → MpegtsStream → ℕ → ℕ → Memory → ℕ → ℕ → Run (MpegtsMuxer × MpegtsStream)
write_video_packet fuel m s dts pts source first last =
    if ltb ((last - first + length aud_nal) % 2 ^ 32) 50 then ok (m, s) else (do
      prefix ← video_prefix s
      let size = ((last - first + length aud_nal) % 2 ^ 32 + (length prefix - 6)) % 2 ^ 32
      let room = (size + 10) % 2 ^ 32
      converted ←
          if ltb room (length prefix)
          then fault
          else convert_to_nal fuel source first last (room - length prefix)
      elim converted [
        | none ↦ ok (m, s)
        | some bytes ↦
            if ltb (length (prefix ++ bytes)) size
            then fault
            else write_packet m s dts pts (take size (prefix ++ bytes))
      ])

-- Bytes go into the payload as far as there is room; it is flushed when it is full, or when it
-- spans AUDIO_DELTA.
unfoldable pub write_audio_packet :
    ℕ → MpegtsMuxer → MpegtsStream → ℕ → ℕ → List ℕ → Run (MpegtsMuxer × MpegtsStream)
write_audio_packet fuel m s dts pts [] = ok (m, s)
write_audio_packet zero m s dts pts (b ∷ bs) = out_of_fuel
write_audio_packet (suc fuel) m s dts pts (b ∷ bs) = do
  let size = min (max_pes_payload_size - length s.payload) (length (b ∷ bs))
  let s1 = record s { payload = s.payload ++ take size (b ∷ bs) }
  let full = length s1.payload == max_pes_payload_size
  let late =
      not (s1.payload_dts == nopts_value)
      && not (dts == nopts_value)
      && leb audio_delta ((dts + (2 ^ 64 - s1.payload_dts)) % 2 ^ 64)
  (m2, s2) ← if full || late then flush_audio_packet m s1 else ok (m, s1)
  write_audio_packet fuel m2 s2 dts pts (drop size (b ∷ bs))
