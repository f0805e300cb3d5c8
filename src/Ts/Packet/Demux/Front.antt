-- ===== src/Ts/Packet/Demux/Front.antt =====
-- The header that `write_packet` makes has the form that a receiver reads.
use nginx_hls_module.Base.{
  ℕ, ◌+◌, ◌*◌, ◌/◌, ◌%◌, ◌^◌, ◌<◌, ◌≡◌, ◌∙◌, refl, agree_below, List, [], ◌∷◌, Bool, true, false,
  if◌then◌else◌, length, bit_or, arith,
}
use nginx_hls_module.Ts.Packet.{packet_start, adaptation_field, packet_front, or_at}
use nginx_hls_module.Ts.Packet.Demux.{IsField, field_bit}

-- The bit for the start of a PES packet.
abbrev pub start_bit : Bool → ℕ
start_bit b = if b then 1 else 0

counter_field : (cc : ℕ) → cc < 16 → bit_or (bit_or 0x10 cc) 0x20 % 2 ^ 8 ≡ 16 + cc + 32
counter_field = agree_below 16 _ _ refl

counter_bare : (cc : ℕ) → cc < 16 → bit_or (bit_or 0x10 cc) 0 % 2 ^ 8 ≡ 16 + cc
counter_bare = agree_below 16 _ _ refl

start_of : (p : ℕ) → p < 32 → bit_or p 0x40 % 2 ^ 8 ≡ p + 64
start_of = agree_below 32 _ _ refl

continued : (p : ℕ) → p < 32 → bit_or p 0 % 2 ^ 8 ≡ p
continued = agree_below 32 _ _ refl

-- The bytes of an adaptation field: 8 with a clock, 2 with the discontinuity alone.
abbrev pub field_size : Bool → Bool → ℕ
field_size write_pcr discontinuity = if write_pcr then 8 else if discontinuity then 2 else 0

pub record IsFront (pid cc : ℕ) (start : ℕ) (size : ℕ) (front : List ℕ) : Type 0 where
  pub b1 : ℕ
  pub field : List ℕ
  pub form : front ≡ 0x47 ∷ b1 ∷ pid % 2 ^ 8 ∷ (16 + cc + field_bit field) ∷ field
  pub starts : b1 / 64 % 2 ≡ start
  pub names : b1 % 32 * 256 + pid % 2 ^ 8 ≡ pid
  pub is_field : IsField field
  pub long : length field ≡ size

module _ (pid cc : ℕ) (hp : pid < 2 ^ 13) (hc : cc < 16) where
  flags : Bool → ℕ
  flags is_start = bit_or (pid / 2 ^ 8) (if is_start then 0x40 else 0) % 2 ^ 8

  flags_lem :
      (is_start : Bool)
      → (flags is_start / 64 % 2 ≡ start_bit is_start)
        × (flags is_start % 32 * 256 + pid % 2 ^ 8 ≡ pid)
  unfolding flags
  flags_lem true = rw (start_of (pid / 2 ^ 8) (omega arith)) (omega arith, omega arith)
  flags_lem false = rw (continued (pid / 2 ^ 8) (omega arith)) (omega arith, omega arith)

  IsFront-of :
      (is_start : Bool) (field : List ℕ) (b3 : ℕ)
      → IsField field
      → b3 ≡ 16 + cc + field_bit field
      → IsFront pid cc
          (start_bit is_start)
          (length field)
          (0x47 ∷ flags is_start ∷ pid % 2 ^ 8 ∷ b3 ∷ field)
  IsFront-of is_start field b3 h e = record {
    b1 = flags is_start;
    field = field;
    form = rw e refl;
    starts = (flags_lem is_start).0;
    names = (flags_lem is_start).1;
    is_field = h;
    long = refl;
  }

  pub packet_front-IsFront :
      (first is_start write_pcr discontinuity : Bool) (dts : ℕ)
      → IsFront pid cc
          (start_bit is_start)
          (field_size write_pcr discontinuity)
          (packet_front pid cc first is_start write_pcr discontinuity dts)
  unfolding packet_front packet_start adaptation_field or_at flags
  packet_front-IsFront true is_start true true dts =
      IsFront-of is_start _ _ (refl, omega arith) (counter_field cc hc)
  packet_front-IsFront false is_start true true dts =
      IsFront-of is_start _ _ (refl, omega arith) (counter_field cc hc)
  packet_front-IsFront true is_start true false dts =
      IsFront-of is_start _ _ (refl, omega arith) (counter_field cc hc)
  packet_front-IsFront false is_start true false dts =
      IsFront-of is_start _ _ (refl, omega arith) (counter_field cc hc)
  packet_front-IsFront true is_start false true dts =
      IsFront-of is_start _ _ (refl, omega arith) (counter_field cc hc)
  packet_front-IsFront false is_start false true dts =
      IsFront-of is_start _ _ (refl, omega arith) (counter_field cc hc)
  packet_front-IsFront true is_start false false dts =
      IsFront-of is_start [] _ tt (counter_bare cc hc ∙ omega arith)
  packet_front-IsFront false is_start false false dts =
      IsFront-of is_start [] _ tt (counter_bare cc hc ∙ omega arith)
