-- ===== src/Ts/Mux/Whole.antt =====
-- `write_packet` as a whole: tables when they are due, then the PES packet.
use nginx_hls_module.Base.{
  ℕ, ◌+◌, ◌%◌, ◌^◌, ◌≤◌, ◌<◌, ◌≡◌, ◌∙◌, refl, sym, ap, subst, List, [], ◌∷◌, ◌++◌, append_assoc,
  append-nil, Bool, true, false, length, drop, Bool-cases, inl, inr, arith,
}
use nginx_hls_module.Run.{ok, ◌>>=◌}
use nginx_hls_module.Run.Returns.{Returns, returns, bind}
use nginx_hls_module.Bucket.{bucket_insert}
use nginx_hls_module.Bucket.Contents.{sent, sent-bucket_insert}
use nginx_hls_module.Ts.{pmt_pid, service_id, pat_delta, MpegtsStream, MpegtsMuxer}
use nginx_hls_module.Ts.Psi.{mpegts_muxer_write_pat, mpegts_muxer_write_pmt}
use nginx_hls_module.Ts.Psi.Section.{Carries}
use nginx_hls_module.Ts.Psi.Tables.{
  Programs, read_streams, mpegts_muxer_write_pat-WritesPat, mpegts_muxer_write_pmt-WritesPmt,
}
use nginx_hls_module.Ts.Packet.{packetized_packets, pes_header}
use nginx_hls_module.Ts.Packet.Sent.{Sent, IsStream, write_packets-Sent}
use nginx_hls_module.Ts.Mux.{delayed, tables_due, write_tables, write_packet}

-- The muxer's counters and PIDs fit their fields, and its fragments have tracks and streams.
pub record IsMuxer (ps : List (ℕ × ℕ)) (m : MpegtsMuxer) : Type 0 where
  pub pat_counted : m.pat_cc < 16
  pub pmt_counted : m.pmt_cc < 16
  pub clocked : m.pcr_pid < 2 ^ 13
  pub few : length m.fragment ≤ 33
  pub programs : Programs m.fragment ps

-- The two tables of a muxer, one packet each.
pub record AreTables (m : MpegtsMuxer) (ps : List (ℕ × ℕ)) (tables : List ℕ) : Type 0 where
  pub pat : List ℕ
  pub pmt : List ℕ
  pub both : tables ≡ pat ++ pmt
  pub pat_carries : Carries 0 m.pat_cc 0 1 (0 ∷ 1 ∷ 0xf0 ∷ 0 ∷ []) pat
  pub payload : List ℕ
  pub pmt_carries : Carries pmt_pid m.pmt_cc 2 service_id payload pmt
  pub streams : read_streams (drop 4 payload) ≡ ps

abbrev pub Announces : Bool → MpegtsMuxer → List (ℕ × ℕ) → List ℕ → Type 0
Announces true m ps tables = AreTables m ps tables
Announces false m ps tables = tables ≡ []

-- What `write_tables` leaves.
record Announced (m : MpegtsMuxer) (ps : List (ℕ × ℕ)) (dts : ℕ) (m' : MpegtsMuxer) : Type 0 where
  tables : List ℕ
  announces : Announces (tables_due m dts) m ps tables
  sends : sent m'.bucket.chain ≡ sent m.bucket.chain ++ tables
  keeps : IsMuxer ps m'
  same_clock : m'.pcr_pid ≡ m.pcr_pid

both_tables :
    (m : MpegtsMuxer) (ps : List (ℕ × ℕ)) (dts : ℕ)
    → tables_due m dts ≡ true
    → IsMuxer ps m
    → Returns (Announced m ps dts) (do
      m1 ← mpegts_muxer_write_pat m
      m2 ← mpegts_muxer_write_pmt m1
      ok (record m2 { next_pat = (dts + pat_delta) % 2 ^ 64 }))
both_tables m ps dts due h =
    let w = mpegts_muxer_write_pat-WritesPat m h.pat_counted in
    let m1 = record m {
      pat_cc = (m.pat_cc + 1) % 2 ^ 4;
      bucket = bucket_insert m.bucket w.packet;
    } in
    let w1 = mpegts_muxer_write_pmt-WritesPmt m1 ps h.pmt_counted h.clocked h.few h.programs in
    rw (w.written, w1.written)
      (returns (record {
        tables = w.packet ++ w1.packet;
        announces = rw due (record {
          pat = w.packet;
          pmt = w1.packet;
          both = refl;
          pat_carries = w.carries;
          payload = w1.payload;
          pmt_carries = w1.carries;
          streams = w1.programs;
        });
        sends =
            sent-bucket_insert m1.bucket w1.packet
            ∙ ap (λ t. t ++ w1.packet) (sent-bucket_insert m.bucket w.packet)
            ∙ append_assoc (sent m.bucket.chain) w.packet w1.packet;
        keeps = record {
          pat_counted = omega arith;
          pmt_counted = omega arith;
          clocked = h.clocked;
          few = h.few;
          programs = h.programs;
        };
        same_clock = refl;
      }))

write_tables-Announced :
    (m : MpegtsMuxer) (ps : List (ℕ × ℕ)) (dts : ℕ)
    → IsMuxer ps m
    → Returns (Announced m ps dts) (write_tables m dts)
unfolding write_tables
write_tables-Announced m ps dts h = elim (Bool-cases (tables_due m dts)) [
  | inl due ↦ rw due (both_tables m ps dts due h)
  | inr not_due ↦ rw not_due (
      returns (record {
        tables = [];
        announces = rw not_due refl;
        sends = sym (append-nil (sent m.bucket.chain));
        keeps = h;
        same_clock = refl;
      }))
]

pub record Writes (m : MpegtsMuxer) (s : MpegtsStream) (ps : List (ℕ × ℕ)) (dts pts : ℕ)
    (payload : List ℕ) (r : MpegtsMuxer × MpegtsStream) : Type 0 where
  pub tables : List ℕ
  pub announces : Announces (tables_due m (delayed dts)) m ps tables
  pub out : List ℕ
  pub carried :
      Sent s 1
        (packetized_packets s m.pcr_pid (delayed dts) (delayed pts) (length payload))
        (pes_header s.is_video (delayed dts) (delayed pts) (length payload) ++ payload)
        (out, r.1)
  pub sends : sent r.0.bucket.chain ≡ sent m.bucket.chain ++ tables ++ out
  pub keeps : IsMuxer ps r.0
  pub stream_keeps : IsStream r.1

Sent-IsStream :
    {s : MpegtsStream} {start n : ℕ} {content : List ℕ} {r : List ℕ × MpegtsStream}
    → IsStream s
    → Sent s start n content r
    → IsStream r.1
Sent-IsStream k h =
    subst IsStream (sym h.after)
      (record { named = k.named; counted = omega arith; sent = omega arith })

-- For a muxer and a stream in order and some payload, with 13 bytes more of less than 2^31,
-- `write_packet` returns; it appends to what is
-- sent the two tables, if they are due and only then, and packets in which a receiver finds the PES
-- header and the payload; the muxer and the stream stay in order.
pub write_packet-Writes :
    (m : MpegtsMuxer) (s : MpegtsStream) (ps : List (ℕ × ℕ)) (dts pts : ℕ) (payload : List ℕ)
    → IsMuxer ps m
    → IsStream s
    → 0 < length payload
    → length payload + 13 < 2 ^ 31
    → Returns (Writes m s ps dts pts payload) (write_packet m s dts pts payload)
unfolding write_packet
write_packet-Writes m s ps dts pts payload h k some_bytes limit =
    bind (write_tables-Announced m ps (delayed dts) h) λ m1 a.
      bind (write_packets-Sent s m1.pcr_pid (delayed dts) (delayed pts) payload k some_bytes limit)
        (λ r sent_as. returns (record {
          tables = a.tables;
          announces = a.announces;
          out = r.0;
          carried = rw a.same_clock at sent_as;
          sends = sent-bucket_insert m1.bucket r.0 ∙ ap (λ t. t ++ r.0) a.sends;
          stream_keeps = Sent-IsStream k sent_as;
          keeps = record {
            pat_counted = a.keeps.pat_counted;
            pmt_counted = a.keeps.pmt_counted;
            clocked = a.keeps.clocked;
            few = a.keeps.few;
            programs = a.keeps.programs;
          };
        }))
