-- ===== src/Ts/Packet/Sent.antt =====
-- A PES packet is found again in the packets that `write_packet` cuts it into, and the number that
-- `packetized_packets` reserves is the number written.
use nginx_hls_module.Base.{
  ℕ, zero, suc, ◌+◌, ◌-◌, ◌*◌, ◌/◌, ◌%◌, ◌^◌, ◌≤◌, ◌<◌, ◌≡◌, ◌∙◌, refl, sym, ap, subst, List, [],
  ◌∷◌, ◌++◌, append_assoc, Bool, true, false, ◌==◌, if◌then◌else◌, length, length-append,
  length-drop, take, drop, take-drop, take-append, drop-append, min, leb, leb→le, leb→lt, lt→leb,
  Bool-cases, inl, inr, arith,
}
use nginx_hls_module.Run.Returns.{Returns, returns, bind}
use nginx_hls_module.Ts.{MpegtsStream}
use nginx_hls_module.Ts.Packet.{
  full_header, fill_packet, room_behind, sent_packet, write_packets, packet_front, packet_overhead,
  packetized_packets, pes_header, pes_header_len, counted_size,
}
use nginx_hls_module.Ts.Pts.{write_pts}
use nginx_hls_module.Ts.Packet.Demux.{TsPacket, parse, parsed, parse-fill_packet}
use nginx_hls_module.Ts.Packet.Demux.Front.{IsFront, field_size, packet_front-IsFront}

-- The packets of a stream of bytes.
unfoldable pub demux : ℕ → List ℕ → List TsPacket
demux zero bytes = []
demux (suc n) bytes = parse (take 188 bytes) ∷ demux n (drop 188 bytes)

unfoldable pub contents : List TsPacket → List ℕ
contents [] = []
contents (p ∷ ps) = p.content ++ contents ps

-- Packets of one PES packet, in order: the first alone, if any, has the start bit.
abbrev pub InOrder : ℕ → ℕ → ℕ → List TsPacket → Type 0
InOrder start pid cc [] = Unit
InOrder start pid cc (p ∷ ps) =
    (p.sync ≡ 0x47)
    × (p.start ≡ start)
    × (p.pid ≡ pid)
    × (p.cc ≡ cc)
    × InOrder 0 pid ((cc + 1) % 16) ps

-- The stream behind n packets.
abbrev pub sent_packets : MpegtsStream → ℕ → MpegtsStream
sent_packets s n = record s { cc = (s.cc + n) % 2 ^ 4; packets = (s.packets + n) % 2 ^ 32 }

counters : MpegtsStream → ℕ → ℕ → MpegtsStream
counters s c p = record s { cc = c; packets = p }

sent_packets-suc :
    (s : MpegtsStream) (n : ℕ) → sent_packets (sent_packet s) n ≡ sent_packets s (suc n)
unfolding counters
sent_packets-suc s n =
    let c : ((s.cc + 1) % 2 ^ 4 + n) % 2 ^ 4 ≡ (s.cc + suc n) % 2 ^ 4 = omega arith in
    let p : ((s.packets + 1) % 2 ^ 32 + n) % 2 ^ 32 ≡ (s.packets + suc n) % 2 ^ 32 = omega arith in
    λ i. counters s (c i) (p i)

sent_packets-zero : (s : MpegtsStream) → s.cc < 2 ^ 4 → s.packets < 2 ^ 32 → s ≡ sent_packets s 0
unfolding counters
sent_packets-zero s hc hp =
    let c : s.cc ≡ (s.cc + 0) % 2 ^ 4 = omega arith in
    let p : s.packets ≡ (s.packets + 0) % 2 ^ 32 = omega arith in λ i. counters s (c i) (p i)

pub record Sent (s : MpegtsStream) (start n : ℕ) (content : List ℕ) (r : List ℕ × MpegtsStream)
    : Type 0 where
  pub size : length r.0 ≡ n * 188
  pub order : InOrder start s.pid s.cc (demux n r.0)
  pub whole : contents (demux n r.0) ≡ content
  pub after : r.1 ≡ sent_packets s n

pub record IsStream (s : MpegtsStream) : Type 0 where
  pub named : s.pid < 2 ^ 13
  pub counted : s.cc < 2 ^ 4
  pub sent : s.packets < 2 ^ 32

sent_packet-IsStream : {s : MpegtsStream} → IsStream s → IsStream (sent_packet s)
sent_packet-IsStream h = record { named = h.named; counted = omega arith; sent = omega arith }

-- The first packet, as a receiver sees it.
first_packet :
    (pid count start size : ℕ) (front pre payload : List ℕ)
    → count < 16
    → (f : IsFront pid count start size front) → 4 + size + length pre ≤ 188
    → (parse (fill_packet (front ++ pre) payload)
        ≡ parsed f.b1
            (pid % 2 ^ 8)
            count
            (pre ++ take (room_behind (front ++ pre) payload) payload))
      × (length (fill_packet (front ++ pre) payload) ≡ 188)
first_packet pid count start size front pre payload h f fits =
    subst
      (λ header.
        (parse (fill_packet header payload)
          ≡ parsed f.b1 (pid % 2 ^ 8) count (pre ++ take (room_behind header payload) payload))
        × (length (fill_packet header payload) ≡ 188))
      (sym (ap (λ t. t ++ pre) f.form))
      (parse-fill_packet f.b1 (pid % 2 ^ 8) count f.field pre payload h f.is_field
        (omega (arith, f.long)))

-- One packet in front of others.
step :
    (s : MpegtsStream) (start size n : ℕ) (front pre payload : List ℕ)
    → IsStream s
    → IsFront s.pid s.cc start size front
    → 4 + size + length pre ≤ 188
    → (r : List ℕ × MpegtsStream)
    → Sent (sent_packet s) 0 n (drop (room_behind (front ++ pre) payload) payload) r
    → Sent s start (suc n) (pre ++ payload) (fill_packet (front ++ pre) payload ++ r.0, r.1)
unfolding demux contents
step s start size n front pre payload h f fits r rest =
    let len = room_behind (front ++ pre) payload in
    let out = fill_packet (front ++ pre) payload in
    let (found, long) = first_packet s.pid s.cc start size front pre payload h.counted f fits in
    let cut : take 188 (out ++ r.0) ≡ out = take-append 188 out r.0 long in
    let left : drop 188 (out ++ r.0) ≡ r.0 = drop-append 188 out r.0 long in
    let here : parse (take 188 (out ++ r.0))
        ≡ parsed f.b1 (s.pid % 2 ^ 8) s.cc (pre ++ take len payload) =
      ap parse cut ∙ found in
    record {
      size = omega (arith, length-append out r.0, long, rest.size);
      order = rw (here, left) (refl, f.starts, f.names, refl, rest.order);
      whole =
          rw (here, left, rest.whole)
            (append_assoc pre (take len payload) (drop len payload)
              ∙ ap (λ t. pre ++ t) (take-drop len payload));
      after = rest.after ∙ sent_packets-suc s n;
    }

front_length :
    {pid count start size : ℕ} {front : List ℕ}
    → IsFront pid count start size front
    → length front ≡ 4 + size
front_length f = ap length f.form ∙ omega (arith, f.long)

-- The packets behind the first.
write_packets-tail :
    (reserved pcr_pid : ℕ) (s : MpegtsStream) (dts pts : ℕ) (payload : List ℕ)
    → IsStream s
    → length payload < 2 ^ 31
    → (length payload + 183) / 184 ≡ reserved
    → Returns
        (Sent s 0 reserved payload)
        (write_packets reserved pcr_pid s dts pts false false payload)
unfolding write_packets full_header demux contents
write_packets-tail zero pcr_pid s dts pts [] h small e =
    returns (record {
      size = refl;
      order = tt;
      whole = refl;
      after = sent_packets-zero s h.counted h.sent;
    })
write_packets-tail zero pcr_pid s dts pts (b ∷ bs) h small e = absurd (omega arith)
write_packets-tail (suc n) pcr_pid s dts pts [] h small e = absurd (omega arith)
write_packets-tail (suc n) pcr_pid s dts pts (b ∷ bs) h small e =
    let f =
      packet_front-IsFront s.pid s.cc h.named h.counted (s.packets == 0) false false false dts in
    let front = packet_front s.pid s.cc (s.packets == 0) false false false dts in
    let len = room_behind (front ++ []) (b ∷ bs) in
    let size : length (front ++ []) ≡ 4 = omega (arith, length-append front [], front_length f) in
    let left : (length (drop len (b ∷ bs)) + 183) / 184 ≡ n =
      omega (arith, length-drop len (b ∷ bs) (omega arith)) in
    let fewer : length (drop len (b ∷ bs)) < 2 ^ 31 =
      omega (arith, length-drop len (b ∷ bs) (omega arith)) in
    rw (lt→leb (2 ^ 31) (length (b ∷ bs) + 0) (omega arith)) (
      bind
        (write_packets-tail n pcr_pid (sent_packet s) dts pts (drop len (b ∷ bs))
          (sent_packet-IsStream h) fewer left)
        (λ r rest. returns (step s 0 0 n front [] (b ∷ bs) h f (omega arith) r rest)))

-- What the PES header counts besides the payload.
counted_size_bound :
    (dts pts size : ℕ) → size + 13 < 2 ^ 31 → leb (2 ^ 31) (counted_size true dts pts size) ≡ false
counted_size_bound dts pts size h =
    let most : pes_header_len dts pts ≤ 10 = ground arith in
    lt→leb (2 ^ 31) (counted_size true dts pts size) (omega (arith, most))

-- The length of the PES header is what `packetized_packets` counts.
length-pes_header :
    (v pcr discontinuity : Bool) (dts pts n : ℕ)
    → field_size pcr discontinuity + length (pes_header v dts pts n)
      ≡ packet_overhead pcr discontinuity dts pts
unfolding pes_header packet_overhead write_pts
length-pes_header v pcr discontinuity dts pts n = ground arith

overhead_bound :
    (pcr discontinuity : Bool) (dts pts : ℕ) → packet_overhead pcr discontinuity dts pts ≤ 27
unfolding packet_overhead
overhead_bound pcr discontinuity dts pts = ground arith

reserved_cases :
    (s : MpegtsStream) (pcr_pid dts pts size once : ℕ)
    → once ≡ packet_overhead (s.pid == pcr_pid) (s.packets == 0) dts pts
    → once ≤ 27
    → 0 < size
    → (n : ℕ) × (packetized_packets s pcr_pid dts pts size ≡ suc n)
      × ((size - min (184 - once) size + 183) / 184 ≡ n)
unfolding packetized_packets
reserved_cases s pcr_pid dts pts size once e small some_bytes =
    subst
      (λ o.
        (n : ℕ) × ((if leb size (184 - o) then 1 else 1 + (size - (184 - o) + 184 - 1) / 184)
          ≡ suc n)
        × ((size - min (184 - once) size + 183) / 184 ≡ n))
      e
      (elim (Bool-cases (leb size (184 - once))) [
        | inl p ↦ let fits = leb→le size (184 - once) p in rw p (0, refl, omega arith)
        | inr p ↦
            let over = leb→lt size (184 - once) p in
            rw p ((size - (184 - once) + 184 - 1) / 184, omega arith, omega arith)
      ])

-- A PES packet with some payload, with 13 bytes more of less than 2^31: the loop of `write_packet` fills the reserved packets exactly, and
-- a receiver gets the PES header and the payload from packets with the stream's PID and consecutive
-- counters, the first with the start bit.
pub write_packets-Sent :
    (s : MpegtsStream) (pcr_pid dts pts : ℕ) (payload : List ℕ)
    → IsStream s
    → 0 < length payload
    → length payload + 13 < 2 ^ 31
    → Returns
        (Sent s 1
          (packetized_packets s pcr_pid dts pts (length payload))
          (pes_header s.is_video dts pts (length payload) ++ payload))
        (write_packets
          (packetized_packets s pcr_pid dts pts (length payload))
          pcr_pid
          s
          dts
          pts
          true
          (s.packets == 0)
          payload)
unfolding write_packets full_header
write_packets-Sent s pcr_pid dts pts [] h some_bytes limit = absurd (omega arith)
write_packets-Sent s pcr_pid dts pts (b ∷ bs) h some_bytes limit =
    let pcr = s.pid == pcr_pid in
    let first = s.packets == 0 in
    let f = packet_front-IsFront s.pid s.cc h.named h.counted first true pcr first dts in
    let front = packet_front s.pid s.cc first true pcr first dts in
    let pre = pes_header s.is_video dts pts (length (b ∷ bs)) in
    let once = packet_overhead pcr first dts pts in
    let long = length-pes_header s.is_video pcr first dts pts (length (b ∷ bs)) in
    let small = overhead_bound pcr first dts pts in
    let (n, reserved, left) =
      reserved_cases s pcr_pid dts pts (length (b ∷ bs)) once refl small some_bytes in
    let size : length (front ++ pre) ≡ 4 + once =
      omega (arith, length-append front pre, front_length f, long) in
    let len = room_behind (front ++ pre) (b ∷ bs) in
    let rest : (length (drop len (b ∷ bs)) + 183) / 184 ≡ n =
      omega (arith, length-drop len (b ∷ bs) (omega arith), size, left) in
    let fewer : length (drop len (b ∷ bs)) < 2 ^ 31 =
      omega (arith, length-drop len (b ∷ bs) (omega arith)) in
    rw (reserved, counted_size_bound dts pts (length (b ∷ bs)) limit)
      (bind
        (write_packets-tail n pcr_pid (sent_packet s) dts pts (drop len (b ∷ bs))
          (sent_packet-IsStream h) fewer rest)
        (λ r more.
          returns (step s 1 (field_size pcr first) n front pre (b ∷ bs) h f (omega arith) r more)))
