-- ===== src/Ts/Psi/Tables.antt =====
-- What a receiver learns from the two tables: the program, its clock and its streams.
use nginx_hls_module.Base.{
  ℕ, ◌+◌, ◌*◌, ◌/◌, ◌%◌, ◌^◌, ◌≤◌, ◌<◌, ◌≡◌, refl, sym, List, [], ◌∷◌, ◌++◌, All, some, length,
  drop, bit_or, bit_or_fields, arith,
}
use nginx_hls_module.Run.{ok}
use nginx_hls_module.Run.Returns.{Returns, returns, bind, value}
use nginx_hls_module.Mp4.Tree.{Trak}
use nginx_hls_module.Reader.Moov.{trak_handler}
use nginx_hls_module.Bucket.{bucket_insert}
use nginx_hls_module.Memory.Holds.{bytes_16}
use nginx_hls_module.Ts.{pmt_pid, service_id, MpegtsStream, MpegtsMuxer, Fragment}
use nginx_hls_module.Ts.Psi.{
  soun, vide, mpegts_muxer_write_pat, mpegts_muxer_write_pmt, pmt_stream, pmt_streams,
}
use nginx_hls_module.Ts.Psi.Section.{Carries, section_packet-Carries}

-- The muxer behind a table, and the packet that it put into the bucket.
pub record WritesPat (m : MpegtsMuxer) : Type 0 where
  pub packet : List ℕ
  pub written :
      mpegts_muxer_write_pat m
      ≡ ok (record m { pat_cc = (m.pat_cc + 1) % 2 ^ 4; bucket = bucket_insert m.bucket packet })
  pub carries : Carries 0 m.pat_cc 0 1 (0 ∷ 1 ∷ 0xf0 ∷ 0 ∷ []) packet

-- The association table names program 1 with the map on PID 0x1000, in a packet with the sync byte,
-- and in a section whose checksum a receiver accepts.
pub mpegts_muxer_write_pat-WritesPat : (m : MpegtsMuxer) → m.pat_cc < 16 → WritesPat m
mpegts_muxer_write_pat-WritesPat m h =
    let (packet, e, c) = value (
      section_packet-Carries 0 m.pat_cc 0 1 (0 ∷ 1 ∷ 0xf0 ∷ 0 ∷ []) (omega arith) h (omega arith)
        (omega arith) (omega arith, (omega arith, (omega arith, (omega arith, tt))))) in
    record { packet = packet; written = unfold mpegts_muxer_write_pat in rw e refl; carries = c }

-- A fragment with a track, its handler and its stream, as the type and the PID of an entry.
pub data HasProgram (f : Fragment) (pid : ℕ) : ℕ → Type 0 where
  sound :
      (trak : Trak) (stream : MpegtsStream)
      → f.trak ≡ some trak
      → trak_handler trak ≡ ok soun
      → f.stream ≡ some stream
      → stream.pid ≡ pid
      → HasProgram f pid 0x0f
  video :
      (trak : Trak) (stream : MpegtsStream)
      → f.trak ≡ some trak
      → trak_handler trak ≡ ok vide
      → f.stream ≡ some stream
      → stream.pid ≡ pid
      → HasProgram f pid 0x1b

abbrev pub Programs : List Fragment → List (ℕ × ℕ) → Type 0
Programs [] [] = Unit
Programs [] (p ∷ ps) = ⊥
Programs (f ∷ fs) [] = ⊥
Programs (f ∷ fs) (p ∷ ps) = HasProgram f p.1 p.0 × (p.1 < 2 ^ 13) × Programs fs ps

-- The entries of a map: type and PID of each stream.
unfoldable pub read_streams : List ℕ → List (ℕ × ℕ)
read_streams (t ∷ a ∷ b ∷ c ∷ d ∷ rest) = (t, a % 32 * 256 + b) ∷ read_streams rest
read_streams other = []

entry : ℕ → ℕ → List ℕ
entry t pid = t ∷ bytes_16 (0xe000 + pid) ++ bytes_16 0xf000

pmt_stream-entry :
    (f : Fragment) (pid t : ℕ) → pid < 2 ^ 13 → HasProgram f pid t → pmt_stream f ≡ ok (entry t pid)
unfolding pmt_stream entry
pmt_stream-entry f pid t h (sound trak stream e1 e2 e3 e4) =
    rw (e1, e2, e3, e4, bit_or_fields 13 7 pid h) refl
pmt_stream-entry f pid t h (video trak stream e1 e2 e3 e4) =
    rw (e1, e2, e3, e4, bit_or_fields 13 7 pid h) refl

record ReadsAs (n : ℕ) (ps : List (ℕ × ℕ)) (bytes : List ℕ) : Type 0 where
  size : length bytes ≡ n * 5
  octets : All (λ b. b < 256) bytes
  programs : read_streams bytes ≡ ps

type_octet : (f : Fragment) (pid t : ℕ) → HasProgram f pid t → t < 256
type_octet f pid t (sound _ _ _ _ _ _) = omega arith
type_octet f pid t (video _ _ _ _ _ _) = omega arith

pmt_streams-ReadsAs :
    (fs : List Fragment) (ps : List (ℕ × ℕ))
    → Programs fs ps
    → Returns (ReadsAs (length fs) ps) (pmt_streams fs)
unfolding pmt_streams read_streams entry
pmt_streams-ReadsAs [] [] h = returns (record { size = refl; octets = tt; programs = refl })
pmt_streams-ReadsAs [] (p ∷ ps) h = absurd h
pmt_streams-ReadsAs (f ∷ fs) [] h = absurd h
pmt_streams-ReadsAs (f ∷ fs) (p ∷ ps) h =
    let named : p.1 < 2 ^ 13 = h.1 in
    rw (pmt_stream-entry f p.1 p.0 named h.0) (
      bind (pmt_streams-ReadsAs fs ps h.2) (λ bytes rest.
        let pid : (0xe000 + p.1) / 2 ^ 8 % 2 ^ 8 % 32 * 256 + (0xe000 + p.1) % 2 ^ 8 ≡ p.1 =
          omega arith in
        returns (record {
          size = omega (arith, rest.size);
          octets = (
            type_octet f p.1 p.0 h.0,
            (omega arith, (omega arith, (omega arith, (omega arith, rest.octets)))),
          );
          programs = rw (pid, rest.programs) refl;
        })))

pub record WritesPmt (m : MpegtsMuxer) (ps : List (ℕ × ℕ)) : Type 0 where
  pub packet : List ℕ
  pub payload : List ℕ
  pub written :
      mpegts_muxer_write_pmt m
      ≡ ok (record m { pmt_cc = (m.pmt_cc + 1) % 2 ^ 4; bucket = bucket_insert m.bucket packet })
  pub carries : Carries pmt_pid m.pmt_cc 2 service_id payload packet
  pub clock :
      (b1 : ℕ) × (b2 : ℕ) × (rest : List ℕ) × (payload ≡ b1 ∷ b2 ∷ rest)
      × (b1 % 32 * 256 + b2 ≡ m.pcr_pid)
  pub programs : read_streams (drop 4 payload) ≡ ps

-- For up to 33 fragments, each a sound or video track with its stream, the map names the clock's PID
-- and the type and PID of every stream, in a packet with the sync byte, and in a section whose
-- checksum a receiver accepts.
pub mpegts_muxer_write_pmt-WritesPmt :
    (m : MpegtsMuxer) (ps : List (ℕ × ℕ))
    → m.pmt_cc < 16
    → m.pcr_pid < 2 ^ 13
    → length m.fragment ≤ 33
    → Programs m.fragment ps
    → WritesPmt m ps
mpegts_muxer_write_pmt-WritesPmt m ps hc hp few h =
    let (bytes, e, reads) = value (pmt_streams-ReadsAs m.fragment ps h) in
    let clock = bytes_16 (bit_or 0xe000 m.pcr_pid) in
    let payload = clock ++ bytes_16 0xf000 ++ bytes in
    let size : length payload ≡ 4 + length m.fragment * 5 = omega (arith, reads.size) in
    let octets : All (λ b. b < 256) payload =
      (omega arith, (omega arith, (omega arith, (omega arith, reads.octets)))) in
    let (packet, e2, c) = value (
      section_packet-Carries pmt_pid m.pmt_cc 2 service_id payload (omega arith) hc (omega arith)
        (omega (arith, size)) octets) in
    record {
      packet = packet;
      payload = payload;
      written = unfold mpegts_muxer_write_pmt in rw (e, sym size, e2) refl;
      carries = c;
      clock = (
        bit_or 0xe000 m.pcr_pid / 2 ^ 8 % 2 ^ 8,
        bit_or 0xe000 m.pcr_pid % 2 ^ 8,
        bytes_16 0xf000 ++ bytes,
        (refl),
        rw (bit_or_fields 13 7 m.pcr_pid hp) (omega arith),
      );
      programs = reads.programs;
    }
