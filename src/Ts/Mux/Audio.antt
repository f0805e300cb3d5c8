-- ===== src/Ts/Mux/Audio.antt =====
-- `write_audio_packet` and `flush_audio_packet`: the bytes of the samples, cut anew into PES packets.
use nginx_hls_module.Base.{
  ℕ, zero, suc, ◌+◌, ◌-◌, ◌%◌, ◌^◌, ◌≤◌, ◌<◌, ◌≡◌, ◌∙◌, refl, sym, ap, subst, List, [], ◌∷◌, ◌++◌,
  append_assoc, append-nil, Bool, true, false, not, ◌&&◌, ◌||◌, ◌==◌, leb, length, length-append,
  length-take, length-drop, take, drop, take-drop, min, Bool-cases, inl, inr, arith,
}
use nginx_hls_module.Run.Returns.{Returns, returns, bind, mono}
use nginx_hls_module.Ts.{nopts_value, audio_delta, max_pes_payload_size, MpegtsStream, MpegtsMuxer}
use nginx_hls_module.Ts.Packet.Sent.{IsStream}
use nginx_hls_module.Ts.Mux.{flush_audio_packet, write_audio_packet}
use nginx_hls_module.Ts.Mux.Whole.{IsMuxer, Writes, write_packet-Writes}

-- A stream without the payload that waits.
abbrev pub clear : MpegtsStream → MpegtsStream
clear s = record s { payload = []; payload_dts = nopts_value; payload_pts = nopts_value }

-- PES packets written one after the other, with these payloads.
pub data Delivers (ps : List (ℕ × ℕ))
    : MpegtsMuxer → MpegtsStream → List (List ℕ) → MpegtsMuxer × MpegtsStream → Type 0 where
  done : {m : MpegtsMuxer} {s s' : MpegtsStream} → clear s ≡ clear s' → Delivers ps m s [] (m, s')
  next :
      {m m1 : MpegtsMuxer} {s s0 s1 : MpegtsStream} {c : List ℕ} {cs : List (List ℕ)}
      {r : MpegtsMuxer × MpegtsStream} (dts pts : ℕ)
      → clear s ≡ clear s0
      → Writes m s0 ps dts pts c (m1, s1)
      → Delivers ps m1 s1 cs r
      → Delivers ps m s (c ∷ cs) r

unfoldable pub concat : List (List ℕ) → List ℕ
concat [] = []
concat (c ∷ cs) = c ++ concat cs

-- The bytes of `bytes` behind those that waited are written or wait, in order.
pub record Queued (ps : List (ℕ × ℕ)) (m : MpegtsMuxer) (s : MpegtsStream) (bytes : List ℕ)
    (r : MpegtsMuxer × MpegtsStream) : Type 0 where
  pub chunks : List (List ℕ)
  pub delivers : Delivers ps m s chunks r
  pub kept : s.payload ++ bytes ≡ concat chunks ++ r.1.payload
  pub waits : length r.1.payload < max_pes_payload_size
  pub keeps : IsMuxer ps r.0
  pub stream_keeps : IsStream r.1

record Flushed (ps : List (ℕ × ℕ)) (m : MpegtsMuxer) (s : MpegtsStream)
    (r : MpegtsMuxer × MpegtsStream) : Type 0 where
  stream : MpegtsStream
  writes : Writes m s ps s.payload_dts s.payload_pts s.payload (r.0, stream)
  clears : r.1 ≡ clear stream

clear-IsStream : {s : MpegtsStream} → IsStream s → IsStream (clear s)
clear-IsStream h = record { named = h.named; counted = h.counted; sent = h.sent }

flush_audio_packet-Flushed :
    (m : MpegtsMuxer) (s : MpegtsStream) (ps : List (ℕ × ℕ))
    → IsMuxer ps m
    → IsStream s
    → 0 < length s.payload
    → length s.payload ≤ max_pes_payload_size
    → Returns (Flushed ps m s) (flush_audio_packet m s)
unfolding flush_audio_packet
flush_audio_packet-Flushed m s ps h k some_bytes few =
    let waiting : (length s.payload == 0) ≡ false = ground arith in
    rw waiting (
      bind
        (write_packet-Writes m s ps s.payload_dts s.payload_pts s.payload h k some_bytes
          (omega arith))
        (λ r w. returns (record { stream = r.1; writes = w; clears = refl })))

regrouped :
    (xs ys : List ℕ) (size : ℕ) (bytes : List ℕ)
    → ys ≡ xs ++ take size bytes
    → xs ++ bytes ≡ ys ++ drop size bytes
regrouped xs ys size bytes e = sym (
    ap (λ t. t ++ drop size bytes) e
    ∙ append_assoc xs (take size bytes) (drop size bytes)
    ∙ ap (λ t. xs ++ t) (take-drop size bytes))

-- What was delivered before more is taken in, from a stream with the same counters.
reads_on :
    {ps : List (ℕ × ℕ)} {m : MpegtsMuxer} {s s0 : MpegtsStream} {cs : List (List ℕ)}
    {r : MpegtsMuxer × MpegtsStream}
    → clear s ≡ clear s0
    → Delivers ps m s0 cs r
    → Delivers ps m s cs r
reads_on e (done e') = done (e ∙ e')
reads_on e (next dts pts e' w rest) = next dts pts (e ∙ e') w rest

-- `bytes` put into the payload, and the rest after that.
join :
    {ps : List (ℕ × ℕ)} {m : MpegtsMuxer} {s s1 : MpegtsStream} (size : ℕ) (bytes : List ℕ)
    {r : MpegtsMuxer × MpegtsStream}
    → clear s ≡ clear s1
    → s1.payload ≡ s.payload ++ take size bytes
    → Queued ps m s1 (drop size bytes) r
    → Queued ps m s bytes r
join {s = s} {s1 = s1} size bytes same grown q = record {
  chunks = q.chunks;
  delivers = reads_on same q.delivers;
  kept = regrouped s.payload s1.payload size bytes grown ∙ q.kept;
  waits = q.waits;
  keeps = q.keeps;
  stream_keeps = q.stream_keeps;
}

-- A payload that is flushed, and the rest after that.
flushed :
    {ps : List (ℕ × ℕ)} {m : MpegtsMuxer} {s : MpegtsStream} (bytes : List ℕ)
    {t r : MpegtsMuxer × MpegtsStream}
    → Flushed ps m s t
    → Queued ps t.0 t.1 bytes r
    → Queued ps m s bytes r
unfolding concat
flushed {s = s} bytes {r = r} f q = record {
  chunks = s.payload ∷ q.chunks;
  delivers =
      next s.payload_dts s.payload_pts refl f.writes
        (reads_on (sym (ap clear f.clears)) q.delivers);
  kept =
      ap (λ t. s.payload ++ t) (sym (ap (λ x. x.payload ++ bytes) f.clears) ∙ q.kept)
      ∙ sym (append_assoc s.payload (concat q.chunks) r.1.payload);
  waits = q.waits;
  keeps = q.keeps;
  stream_keeps = q.stream_keeps;
}

below :
    (full late : Bool) (n : ℕ)
    → (n == max_pes_payload_size) ≡ full
    → (full || late) ≡ false
    → n ≤ max_pes_payload_size
    → n < max_pes_payload_size
below true late n e f le = absurd (ground arith)
below false late n e f le = ground arith

-- For a muxer and a stream in order, with room in the payload, and a round for each byte:
-- `write_audio_packet` returns, the payload has room again, and the bytes that waited and the new
-- ones are, in order, those of the PES packets that it wrote and those that wait now.
pub write_audio_packet-Queued :
    (fuel : ℕ) (m : MpegtsMuxer) (s : MpegtsStream) (ps : List (ℕ × ℕ)) (dts pts : ℕ)
    (bytes : List ℕ)
    → IsMuxer ps m
    → IsStream s
    → length s.payload < max_pes_payload_size
    → length bytes ≤ fuel
    → Returns (Queued ps m s bytes) (write_audio_packet fuel m s dts pts bytes)
unfolding write_audio_packet concat
write_audio_packet-Queued fuel m s ps dts pts [] h k room enough = returns (record {
  chunks = [];
  delivers = done refl;
  kept = append-nil s.payload;
  waits = room;
  keeps = h;
  stream_keeps = k;
})
write_audio_packet-Queued zero m s ps dts pts (b ∷ bs) h k room enough = absurd (omega arith)
write_audio_packet-Queued (suc fuel) m s ps dts pts (b ∷ bs) h k room enough =
    let bytes = b ∷ bs in
    let size = min (max_pes_payload_size - length s.payload) (length bytes) in
    let s1 = record s { payload = s.payload ++ take size bytes } in
    let k1 : IsStream s1 = record { named = k.named; counted = k.counted; sent = k.sent } in
    let long : length s1.payload ≡ length s.payload + size =
      length-append s.payload (take size bytes)
      ∙ ap (λ n. length s.payload + n) (length-take size bytes (omega arith)) in
    let fewer : length (drop size bytes) ≤ fuel =
      omega (arith, length-drop size bytes (omega arith)) in
    let full = length s1.payload == max_pes_payload_size in
    let late =
      not (s1.payload_dts == nopts_value)
      && not (dts == nopts_value)
      && leb audio_delta ((dts + (2 ^ 64 - s1.payload_dts)) % 2 ^ 64) in
    elim (Bool-cases (full || late)) [
      | inl due ↦ rw due (
          bind (flush_audio_packet-Flushed m s1 ps h k1 (omega (arith, long)) (omega (arith, long)))
            λ t f.
              mono
                (write_audio_packet-Queued fuel t.0 t.1 ps dts pts (drop size bytes) f.writes.keeps
                  (subst IsStream (sym f.clears) (clear-IsStream f.writes.stream_keeps))
                  (subst (λ x. length x.payload < max_pes_payload_size) (sym f.clears)
                    (omega arith))
                  fewer)
                (λ r q. join size bytes refl refl (flushed (drop size bytes) f q)))
      | inr not_due ↦ rw not_due (
          mono
            (write_audio_packet-Queued fuel m s1 ps dts pts (drop size bytes) h k1
              (below full late (length s1.payload) refl not_due (omega (arith, long))) fewer)
            (λ r q. join size bytes refl refl q))
    ]
