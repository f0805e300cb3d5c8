-- ===== src/Ts/Packet/Demux.antt =====
-- What a receiver does with a transport stream, and that it finds in one packet of `write_packet`
-- what was put there, whatever the stuffing.
pub mod Front
use nginx_hls_module.Base.{
  ℕ, zero, suc, ◌+◌, ◌-◌, ◌*◌, ◌/◌, ◌%◌, ◌^◌, ◌≤◌, ◌<◌, ◌≡◌, ◌∙◌, refl, sym, agree_below, ap, List,
  [], ◌∷◌, ◌++◌, append_assoc, Bool, true, false, ◌==◌, leb, if◌then◌else◌, length, length-append,
  length-replicate, length-take, length-drop, take, drop, drop-append, take-append, take-drop,
  replicate, min, bit_and, bit_or, arith,
}
use native.Mathlib.Nat.{add-zero, zero-add}
use nginx_hls_module.Ts.{ts_packet_size}
use nginx_hls_module.Ts.Packet.{
  stuff, fill_packet, room_behind, stuffing, field_filler, new_field, grow_field,
}

-- A packet of 188 bytes, by the layout of ISO 13818-1: what follows the adaptation field is payload.
pub record TsPacket : Type 0 where
  pub sync : ℕ
  pub start : ℕ
  pub pid : ℕ
  pub cc : ℕ
  pub content : List ℕ

unfoldable pub skip_field : List ℕ → List ℕ
skip_field [] = []
skip_field (l ∷ rest) = drop l rest

unfoldable pub parse : List ℕ → TsPacket
parse (b0 ∷ b1 ∷ b2 ∷ b3 ∷ rest) = record {
  sync = b0;
  start = b1 / 64 % 2;
  pid = b1 % 32 * 256 + b2;
  cc = b3 % 16;
  content = if b3 / 32 % 2 == 0 then rest else skip_field rest;
}
parse short = record { sync = 0; start = 0; pid = 0; cc = 0; content = [] }

-- An adaptation field: nothing, or its length and so many bytes.
abbrev pub IsField : List ℕ → Type 0
IsField [] = Unit
IsField (l ∷ more) = (length more ≡ l) × (l ≤ 7)

-- The bit that announces it.
abbrev pub field_bit : List ℕ → ℕ
field_bit [] = 0
field_bit (l ∷ more) = 32

test_field : (cc : ℕ) → cc < 16 → bit_and (16 + cc + 32) 0x20 ≡ 32
test_field = agree_below 16 _ _ refl

test_bare : (cc : ℕ) → cc < 16 → bit_and (16 + cc) 0x20 ≡ 0
test_bare = agree_below 16 _ _ refl

announce : (cc : ℕ) → cc < 16 → bit_or (16 + cc) 0x20 ≡ 16 + cc + 32
announce = agree_below 16 _ _ refl

abbrev pub parsed : ℕ → ℕ → ℕ → List ℕ → TsPacket
parsed b1 b2 cc content = record {
  sync = 0x47;
  start = b1 / 64 % 2;
  pid = b1 % 32 * 256 + b2;
  cc = cc;
  content = content;
}

-- The two forms of a packet.
parse-bare :
    (b1 b2 cc : ℕ) (content : List ℕ)
    → cc < 16
    → parse (0x47 ∷ b1 ∷ b2 ∷ (16 + cc) ∷ content) ≡ parsed b1 b2 cc content
unfolding parse
parse-bare b1 b2 cc content h =
    let bit : (16 + cc) / 32 % 2 ≡ 0 = omega arith in
    let counter : (16 + cc) % 16 ≡ cc = omega arith in rw (bit, counter) refl

pub parse-field :
    (b1 b2 cc l : ℕ) (filler content : List ℕ)
    → cc < 16
    → length filler ≡ l
    → parse (0x47 ∷ b1 ∷ b2 ∷ (16 + cc + 32) ∷ l ∷ filler ++ content) ≡ parsed b1 b2 cc content
unfolding parse skip_field
parse-field b1 b2 cc l filler content h e =
    let bit : (16 + cc + 32) / 32 % 2 ≡ 1 = omega arith in
    let counter : (16 + cc + 32) % 16 ≡ cc = omega arith in
    rw (bit, counter, drop-append l filler content e) refl

-- The header of a packet: 4 bytes, an adaptation field, and the beginning of the content.
abbrev pub header_of : ℕ → ℕ → ℕ → List ℕ → List ℕ → List ℕ
header_of b1 b2 cc field content = 0x47 ∷ b1 ∷ b2 ∷ (16 + cc + field_bit field) ∷ field ++ content

length-filler : (n : ℕ) → length (field_filler (suc n)) ≡ suc n - 1
length-filler zero = refl
length-filler (suc n) = grind (arith, length-replicate n stuffing)

parse-stuff :
    (b1 b2 cc n : ℕ) (field content behind : List ℕ)
    → cc < 16
    → IsField field
    → n < 188
    → (parse (stuff n (header_of b1 b2 cc field content) ++ behind)
        ≡ parsed b1 b2 cc (content ++ behind))
      × (length (stuff n (header_of b1 b2 cc field content))
          ≡ n + 4 + length field + length content)
unfolding stuff
parse-stuff b1 b2 cc zero [] content behind h f below =
    rw (add-zero (16 + cc)) (parse-bare b1 b2 cc (content ++ behind) h, omega arith)
parse-stuff b1 b2 cc zero (l ∷ more) content behind h f below = (
  rw (append_assoc more content behind) (parse-field b1 b2 cc l more (content ++ behind) h f.0),
  omega (arith, length-append more content),
)
parse-stuff b1 b2 cc (suc n) [] content behind h f below =
    let filler = field_filler (suc n) in
    let room : length filler ≡ suc n - 1 = length-filler n in
    rw (add-zero (16 + cc), test_bare cc h, announce cc h)
      (
        rw (append_assoc filler content behind)
            (parse-field b1 b2 cc (suc n - 1) filler (content ++ behind) h room),
        omega (arith, length-append filler content),
      )
parse-stuff b1 b2 cc (suc n) (l ∷ more) content behind h f below =
    let size = f.0 in
    let total : (l + suc n) % 2 ^ 8 ≡ l + suc n = let small = f.1 in omega arith in
    let filler = more ++ replicate (suc n) stuffing in
    let room : length filler ≡ l + suc n =
      omega (arith, length-append more (replicate (suc n) stuffing), length-replicate n stuffing) in
    rw (test_field cc h, total, take-append l more content f.0, drop-append l more content f.0)
      (
        rw (append_assoc filler content behind)
            (parse-field b1 b2 cc (l + suc n) filler (content ++ behind) h room),
        omega (arith, room, size, length-append filler content),
      )

-- A packet with a header of at most 187 bytes has 188, and a receiver finds the content that the
-- header began and the bytes of the payload that fit behind it.
pub parse-fill_packet :
    (b1 b2 cc : ℕ) (field content payload : List ℕ)
    → cc < 16
    → IsField field
    → 4 + length field + length content ≤ 188
    → let header = header_of b1 b2 cc field content in
      (parse (fill_packet header payload)
        ≡ parsed b1 b2 cc (content ++ take (room_behind header payload) payload))
      × (length (fill_packet header payload) ≡ 188)
unfolding fill_packet
parse-fill_packet b1 b2 cc field content payload h f fits =
    let header = header_of b1 b2 cc field content in
    let len = room_behind header payload in
    let size : length header ≡ 4 + length field + length content =
      omega (arith, length-append field content) in
    let (found, long) =
      parse-stuff b1 b2 cc (188 - length header - len) field content (take len payload) h f
        (omega (arith, size)) in
    (
      found,
      omega (
        arith,
        size,
        long,
        length-append (stuff (188 - length header - len) header) (take len payload),
        length-take len payload (omega arith),
      ),
    )
