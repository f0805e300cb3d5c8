-- ===== src/Ts/Packet.antt =====
-- src/output_ts.h, `packetized_packets` and the loop of `write_packet`: a PES packet cut into
-- packets of 188 bytes. The reserved packets are an argument of the loop: a packet behind the last
-- one is written outside the allocation, one that stays unwritten is sent without having been set.
pub mod Demux
pub mod Sent
use nginx_hls_module.Base.{
  ℕ, zero, suc, ◌+◌, ◌-◌, ◌*◌, ◌/◌, ◌%◌, ◌^◌, ◌≤◌, ◌<◌, List, [], ◌∷◌, ◌++◌, Bool, true, false, not,
  ◌&&◌, ◌||◌, ltb, leb, ◌==◌, if◌then◌else◌, length, replicate, take, drop, min, bit_and, bit_or,
}
use nginx_hls_module.Run.{Run, ok, fault, ◌>>=◌}
use nginx_hls_module.Ts.{nopts_value, ts_packet_size, MpegtsStream}
use nginx_hls_module.Ts.Pts.{write_pts}

abbrev pub max_delay : ℕ
max_delay = 90000

-- `buf[i] |= v`
or_at : ℕ → ℕ → List ℕ → List ℕ
or_at i v [] = []
or_at zero v (b ∷ bs) = bit_or b v ∷ bs
or_at (suc i) v (b ∷ bs) = b ∷ or_at i v bs

-- A time stamp has a DTS beside the PTS.
abbrev pub both_times : ℕ → ℕ → Bool
both_times dts pts = not (dts == nopts_value) && not (dts == pts)

-- The overhead of the first packet.
unfoldable pub packet_overhead : Bool → Bool → ℕ → ℕ → ℕ
packet_overhead pcr discontinuity dts pts =
    (if pcr then 8 else if discontinuity then 2 else 0)
    + 4
    + (if pts == nopts_value then 0 else if both_times dts pts then 10 else 5)
    + 5

unfoldable pub packetized_packets : MpegtsStream → ℕ → ℕ → ℕ → ℕ → ℕ
packetized_packets s pcr_pid dts pts payload_size =
    let once = packet_overhead (s.pid == pcr_pid) (s.packets == 0) dts pts in
    if leb payload_size (184 - once) then 1 else 1 + (payload_size - (184 - once) + 184 - 1) / 184

-- The header of a packet of the stream: sync byte, flags and PID, continuity counter.
unfoldable pub packet_start : ℕ → ℕ → Bool → Bool → List ℕ
packet_start pid cc is_start adapted =
    0x47
    ∷ bit_or (pid / 2 ^ 8) (if is_start then 0x40 else 0) % 2 ^ 8
    ∷ pid % 2 ^ 8
    ∷ bit_or (bit_or 0x10 cc) (if adapted then 0x20 else 0) % 2 ^ 8
    ∷ []

-- The program clock reference, in two's complement of 64 bits.
abbrev pub pcr_of : ℕ → ℕ
pcr_of dts = (dts + (2 ^ 64 - max_delay) + 1) % 2 ^ 64

unfoldable pub adaptation_field : Bool → Bool → ℕ → List ℕ
adaptation_field write_pcr discontinuity dts =
    if write_pcr
    then 7
      ∷ 0x10
      ∷ pcr_of dts / 2 ^ 25 % 2 ^ 8
      ∷ pcr_of dts / 2 ^ 17 % 2 ^ 8
      ∷ pcr_of dts / 2 ^ 9 % 2 ^ 8
      ∷ pcr_of dts / 2 % 2 ^ 8
      ∷ pcr_of dts % 2 * 2 ^ 7
      ∷ 0
      ∷ []
    else if discontinuity
    then 1 ∷ 0x80 ∷ []
    else []

-- The packet header with its adaptation field: the field of the clock takes the discontinuity too,
-- and the first packet of a stream is marked for random access.
unfoldable pub packet_front : ℕ → ℕ → Bool → Bool → Bool → Bool → ℕ → List ℕ
unfolding or_at
packet_front pid cc first is_start write_pcr discontinuity dts =
    let front =
      packet_start pid cc is_start (write_pcr || discontinuity)
      ++ adaptation_field write_pcr discontinuity dts in
    let marked = if write_pcr && discontinuity then or_at 5 0x80 front else front in
    if first then or_at 5 0x40 marked else marked

-- `header_len`, the bytes of the time stamps.
abbrev pub pes_header_len : ℕ → ℕ → ℕ
pes_header_len dts pts = if pts == nopts_value then 0 else if both_times dts pts then 10 else 5

-- The header of the PES packet.
unfoldable pub pes_header : Bool → ℕ → ℕ → ℕ → List ℕ
pes_header is_video dts pts payload_size =
    let has_pts = not (pts == nopts_value) in
    let has_dts = has_pts && both_times dts pts in
    let header_len = pes_header_len dts pts in
    let flags = if has_dts then 0xc0 else if has_pts then 0x80 else 0 in
    let wanted = payload_size + header_len + 3 in
    let len = if ltb 0xffff wanted then 0 else wanted in
    0x00
      ∷ 0x00
      ∷ 0x01
      ∷ (if is_video then 0xe0 else 0xbd)
      ∷ len / 2 ^ 8 % 2 ^ 8
      ∷ len % 2 ^ 8
      ∷ 0x80
      ∷ flags
      ∷ header_len
      ∷ (if has_pts then write_pts (flags / 2 ^ 6) pts else [])
    ++ (if has_dts then write_pts 1 dts else [])

abbrev pub stuffing : ℕ
stuffing = 0xff

-- Stuffing behind the `afc_len` bytes of the adaptation field, which grows by it.
abbrev pub grow_field : ℕ → List ℕ → List ℕ
grow_field n [] = []
grow_field n (l ∷ rest) = (l + n) % 2 ^ 8 ∷ take l rest ++ replicate n stuffing ++ drop l rest

-- A new adaptation field of `n` bytes, its length included.
abbrev pub field_filler : ℕ → List ℕ
field_filler n = if leb 2 n then 0x00 ∷ replicate (n - 2) stuffing else []

abbrev pub new_field : ℕ → List ℕ
new_field n = (n - 1) ∷ field_filler n

-- `n` bytes of stuffing in front of what follows the adaptation field.
unfoldable pub stuff : ℕ → List ℕ → List ℕ
stuff zero header = header
stuff (suc n) (b0 ∷ b1 ∷ b2 ∷ b3 ∷ rest) =
    if bit_and b3 0x20 == 0
    then b0 ∷ b1 ∷ b2 ∷ bit_or b3 0x20 ∷ new_field (suc n) ++ rest
    else b0 ∷ b1 ∷ b2 ∷ b3 ∷ grow_field (suc n) rest
stuff (suc n) short = short

-- How much of the payload a packet takes behind its header.
abbrev pub room_behind : List ℕ → List ℕ → ℕ
room_behind header payload = min (ts_packet_size - length header) (length payload)

unfoldable pub fill_packet : List ℕ → List ℕ → List ℕ
fill_packet header payload =
    let len = room_behind header payload in
    stuff (ts_packet_size - length header - len) header ++ take len payload

abbrev pub sent_packet : MpegtsStream → MpegtsStream
sent_packet s = record s { cc = (s.cc + 1) % 2 ^ 4; packets = (s.packets + 1) % 2 ^ 32 }

-- The header of a packet, with that of the PES packet in the first one.
unfoldable pub full_header : ℕ → MpegtsStream → ℕ → ℕ → Bool → Bool → ℕ → List ℕ
full_header pcr_pid s dts pts is_start discontinuity payload_size =
    packet_front s.pid s.cc (s.packets == 0) is_start (is_start && (s.pid == pcr_pid)) discontinuity
      dts
    ++ (if is_start then pes_header s.is_video dts pts payload_size else [])

-- The sizes in `int`: the payload, in the first packet with what its PES header counts besides.
abbrev pub counted_size : Bool → ℕ → ℕ → ℕ → ℕ
counted_size is_start dts pts payload_size =
    payload_size + (if is_start then pes_header_len dts pts + 3 else 0)

-- `while(payload_size)`: the bytes written, and the stream behind them. `payload_size` is an `int`:
-- a size that it cannot hold is negative, and the copy of so many bytes leaves every allocation; the
-- sum of a size below 2^31 and the rest of the PES packet overflows where it is not below 2^31.
unfoldable pub write_packets :
    ℕ → ℕ → MpegtsStream → ℕ → ℕ → Bool → Bool → List ℕ → Run (List ℕ × MpegtsStream)
write_packets zero pcr_pid s dts pts is_start discontinuity [] = ok ([], s)
write_packets zero pcr_pid s dts pts is_start discontinuity (b ∷ bs) = fault
write_packets (suc reserved) pcr_pid s dts pts is_start discontinuity [] = fault
write_packets (suc reserved) pcr_pid s dts pts is_start discontinuity (b ∷ bs) =
    if leb (2 ^ 31) (counted_size is_start dts pts (length (b ∷ bs))) then fault else (do
      let header = full_header pcr_pid s dts pts is_start discontinuity (length (b ∷ bs))
      (out, s') ←
          write_packets reserved pcr_pid (sent_packet s) dts pts false false
            (drop (room_behind header (b ∷ bs)) (b ∷ bs))
      ok (fill_packet header (b ∷ bs) ++ out, s'))
