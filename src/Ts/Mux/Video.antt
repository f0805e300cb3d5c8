-- ===== src/Ts/Mux/Video.antt =====
-- `write_video_packet` for a sample that is made of units.
use nginx_hls_module.Base.{
  ℕ, ◌+◌, ◌-◌, ◌%◌, ◌^◌, ◌≤◌, ◌<◌, ◌≡◌, ◌≢◌, ◌∙◌, sym, ap, List, [], ◌∷◌, ◌++◌, le→ltb, length,
  length-append, take, take-append, append-nil, subst, Bool-cases, inl, inr, ◌==◌, arith,
}
use nginx_hls_module.Run.{ok, >>=-eq-ok}
use nginx_hls_module.Run.Returns.{Returns}
use nginx_hls_module.Memory.{Memory, IsMemory, Readable}
use nginx_hls_module.Memory.Holds.{Holds}
use nginx_hls_module.Ts.{MpegtsStream, MpegtsMuxer}
use nginx_hls_module.Ts.Packet.Sent.{IsStream}
use nginx_hls_module.Ts.Mux.{video_prefix, parameter_set, aud_nal, write_video_packet}
use nginx_hls_module.Ts.Mux.Nal.{sample_of, annex_b, length-annex_b, convert_to_nal-annex_b}
use nginx_hls_module.Ts.Mux.Whole.{IsMuxer, Writes, write_packet-Writes}

take-all : {n : ℕ} {xs : List ℕ} → length xs ≡ n → take n xs ≡ xs
take-all {n} {xs} e = ap (take n) (sym (append-nil xs)) ∙ take-append n xs [] e

ok-injective : {xs ys : List ℕ} → ok xs ≡ ok ys → xs ≡ ys
ok-injective e = cc

length-video_prefix :
    (s : MpegtsStream) (prefix : List ℕ) → video_prefix s ≡ ok prefix → 6 ≤ length prefix
unfolding video_prefix
length-video_prefix s prefix e = elim (Bool-cases (s.packets == 0)) [
  | inl first ↦
      let (sps, _, e1) =
        >>=-eq-ok (parameter_set s.sample_entry s.sample_entry.sps s.sample_entry.sps_length) _
          (rw first at e) in
      let (pps, _, e2) =
        >>=-eq-ok (parameter_set s.sample_entry s.sample_entry.pps s.sample_entry.pps_length) _
          e1 in
      subst (λ p. 6 ≤ length p) (ok-injective e2) (omega arith)
  | inr later ↦
      subst (λ p. 6 ≤ length p) (ok-injective {xs = aud_nal} (rw later at e)) (omega arith)
]

-- For a muxer and a stream in order, and a sample of at least 44 bytes, made of units behind their
-- lengths, the first not of one byte, with its prefix and 13 bytes more of less than 2^31 bytes:
-- `write_video_packet` writes, as one PES packet, the prefix of the sample and its units in Annex B
-- form.
pub write_video_packet-Writes :
    {m : MpegtsMuxer} {s : MpegtsStream} {ps : List (ℕ × ℕ)} {source : Memory}
    (fuel dts pts first : ℕ) (u : List ℕ) (us : List (List ℕ)) (prefix : List ℕ)
    → IsMuxer ps m
    → IsStream s
    → IsMemory source
    → video_prefix s ≡ ok prefix
    → length u ≢ 1
    → Holds source first (sample_of (u ∷ us))
    → Readable source first (length (sample_of (u ∷ us)))
    → 44 ≤ length (sample_of (u ∷ us))
    → length prefix + length (sample_of (u ∷ us)) + 13 < 2 ^ 31
    → length (u ∷ us) ≤ fuel
    → Returns
        (Writes m s ps dts pts (prefix ++ annex_b (u ∷ us)))
        (write_video_packet fuel m s dts pts source first (first + length (sample_of (u ∷ us))))
unfolding write_video_packet
write_video_packet-Writes {m} {s} {ps} {source} fuel dts pts first u us prefix hm hs wf e not_code h
      r long small enough =
    let n = length (sample_of (u ∷ us)) in
    let bytes = annex_b (u ∷ us) in
    let six : 6 ≤ length prefix = length-video_prefix s prefix e in
    let same = length-annex_b (u ∷ us) in
    let all : length (prefix ++ bytes) ≡ length prefix + n =
      omega (arith, length-append prefix bytes, same) in
    let start : ((first + n) - first + 6) % 2 ^ 32 ≡ n + 6 = omega arith in
    let size : (n + 6 + (length prefix - 6)) % 2 ^ 32 ≡ length prefix + n = omega arith in
    let room : (length prefix + n + 10) % 2 ^ 32 ≡ length prefix + n + 10 = omega arith in
    let whole : take (length prefix + n) (prefix ++ bytes) ≡ prefix ++ bytes = take-all all in
    rw (start, le→ltb (n + 6) 50 (omega arith), e)
      (rw
        (
          size,
          room,
          le→ltb (length prefix + n + 10) (length prefix) (omega arith),
          convert_to_nal-annex_b wf fuel first (length prefix + n + 10 - length prefix) u us
              not_code h r (omega arith) enough (omega arith),
        )
        (rw
          (
            start,
            size,
            le→ltb (length (prefix ++ bytes)) (length prefix + n) (omega (arith, all)),
            whole,
          )
          (write_packet-Writes m s ps dts pts (prefix ++ bytes) hm hs (omega (arith, all))
            (omega (arith, all)))))
