-- ===== src/Ts/Psi/Section.antt =====
-- How a receiver reads a section, and that it accepts the sections of `section_packet`.
use nginx_hls_module.Base.{
  ℕ, zero, ◌+◌, ◌-◌, ◌*◌, ◌/◌, ◌%◌, ◌^◌, ◌≤◌, ◌<◌, ◌≡◌, ◌∙◌, refl, sym, ap, agree_below, List, [],
  ◌∷◌, ◌++◌, All, le→ltb, length, length-append, length-replicate, replicate, take, take-append,
  bit_or, bit_or_fields, arith,
}
use nginx_hls_module.Run.{ok, ◌>>=◌}
use nginx_hls_module.Run.Returns.{Returns, returns}
use nginx_hls_module.Memory.Holds.{bytes_16, bytes_32}
use nginx_hls_module.Ts.Crc.{get_crc32}
use nginx_hls_module.Ts.Crc.Division.{remainder, get_crc32-remainder}
use nginx_hls_module.Ts.Crc.Residue.{get_crc32-residue}
use nginx_hls_module.Ts.Psi.{section_start, section_of, section_packet}
use nginx_hls_module.Ts.Packet.Demux.{parse, parse-field}

-- The section that a packet's content starts, behind the pointer, by the length it announces.
unfoldable pub section_in : List ℕ → List ℕ
section_in (zero ∷ t ∷ a ∷ b ∷ rest) = t ∷ a ∷ b ∷ take (a % 16 * 256 + b) rest
section_in other = []

-- The bytes behind a section.
filling : ℕ
filling = 0xff

-- A packet of 188 bytes with the sync byte, which starts a section of a table with `payload` in it,
-- and with a checksum that a receiver accepts.
pub record Carries (pid cc table number : ℕ) (payload packet : List ℕ) : Type 0 where
  pub size : length packet ≡ 188
  pub sync : (parse packet).sync ≡ 0x47
  pub start : (parse packet).start ≡ 1
  pub named : (parse packet).pid ≡ pid
  pub counted : (parse packet).cc ≡ cc
  pub section : List ℕ
  pub whole : section_in (parse packet).content ≡ section
  pub accepted : get_crc32 (2 ^ 32 - 1) section ≡ ok 0
  pub reads :
      (crc : List ℕ) × (section
        ≡ table ∷ bytes_16 (0xb000 + length payload + 9)
          ++ bytes_16 number
          ++ (0xc1 ∷ 0 ∷ 0 ∷ [])
          ++ payload
          ++ crc)

counter : (cc : ℕ) → cc < 16 → bit_or 0x30 cc % 2 ^ 8 ≡ 48 + cc
counter = agree_below 16 _ _ refl

flags_and_pid :
    (pid : ℕ)
    → pid < 2 ^ 13
    → (bit_or 0x4000 pid / 2 ^ 8 % 2 ^ 8 / 64 % 2 ≡ 1)
      × (bit_or 0x4000 pid / 2 ^ 8 % 2 ^ 8 % 32 * 256 + bit_or 0x4000 pid % 2 ^ 8 ≡ pid)
flags_and_pid pid h = rw (bit_or_fields 13 2 pid h) (omega arith, omega arith)

-- The packet's content, behind the fields of its header.
section_content :
    (pid cc : ℕ) (content : List ℕ)
    → pid < 2 ^ 13
    → cc < 16
    → (parse (section_start pid cc ++ content)).content ≡ 0 ∷ content
      × (parse (section_start pid cc ++ content)).sync ≡ 0x47
      × (parse (section_start pid cc ++ content)).start ≡ 1
      × (parse (section_start pid cc ++ content)).pid ≡ pid
      × (parse (section_start pid cc ++ content)).cc ≡ cc
unfolding section_start
section_content pid cc content hp hc =
    let b3 : bit_or 0x30 cc % 2 ^ 8 ≡ 16 + cc + 32 = counter cc hc ∙ omega arith in
    let (starts, names) = flags_and_pid pid hp in
    let found =
      parse-field (bit_or 0x4000 pid / 2 ^ 8 % 2 ^ 8) (bit_or 0x4000 pid % 2 ^ 8) cc 1 (0x80 ∷ [])
        (0 ∷ content) hc refl in
    rw (b3, found) (refl, refl, starts, names, refl)

length_field : (n : ℕ) → n ≤ 169 → bit_or 0xb000 (n + 5 + 4) ≡ 0xb000 + n + 9
length_field n h = bit_or_fields 12 11 (n + 5 + 4) (omega arith) ∙ omega arith

section_of-octets :
    (table n number : ℕ) (payload : List ℕ)
    → table < 256
    → All (λ b. b < 256) payload
    → All (λ b. b < 256) (section_of table n number payload)
unfolding section_of
section_of-octets table n number payload h octets = (
  h,
  (
    omega arith,
    (
      omega arith,
      (omega arith, (omega arith, (omega arith, (omega arith, (omega arith, octets))))),
    ),
  ),
)

section_in-section_of :
    (table number : ℕ) (payload crc padding : List ℕ)
    → length payload ≤ 169
    → length crc ≡ 4
    → section_in (0 ∷ section_of table (length payload) number payload ++ crc ++ padding)
      ≡ section_of table (length payload) number payload ++ crc
unfolding section_in section_of
section_in-section_of table number payload crc padding fits four =
    let n = length payload in
    let announced : bit_or 0xb000 (n + 5 + 4) / 2 ^ 8 % 2 ^ 8 % 16 * 256
          + bit_or 0xb000 (n + 5 + 4) % 2 ^ 8
        ≡ n + 9 =
      rw (length_field n fits) (omega arith) in
    let body = number / 2 ^ 8 % 2 ^ 8 ∷ number % 2 ^ 8 ∷ 0xc1 ∷ 0x00 ∷ 0x00 ∷ (payload ++ crc) in
    let cut : take (n + 9) (body ++ padding) ≡ body =
      take-append (n + 9) body padding (omega (arith, length-append payload crc, four)) in
    rw (announced, cut) refl

section_of-reads :
    (table number : ℕ) (payload crc : List ℕ)
    → length payload ≤ 169
    → section_of table (length payload) number payload ++ crc
      ≡ table ∷ bytes_16 (0xb000 + length payload + 9)
        ++ bytes_16 number
        ++ (0xc1 ∷ 0 ∷ 0 ∷ [])
        ++ payload
        ++ crc
unfolding section_of
section_of-reads table number payload crc fits = rw (length_field (length payload) fits) refl

length-used :
    (pid cc table n number crc : ℕ) (payload : List ℕ)
    → length (section_start pid cc ++ section_of table n number payload ++ bytes_32 crc)
      ≡ length payload + 19
unfolding section_start section_of
length-used pid cc table n number crc payload = omega (arith, length-append payload (bytes_32 crc))

section_start-append :
    (pid cc : ℕ) (xs ys zs : List ℕ)
    → section_start pid cc ++ xs ++ ys ++ zs ≡ section_start pid cc ++ (xs ++ ys ++ zs)
unfolding section_start
section_start-append pid cc xs ys zs = refl

pub section_packet-Carries :
    (pid cc table number : ℕ) (payload : List ℕ)
    → pid < 2 ^ 13
    → cc < 16
    → table < 256
    → length payload ≤ 169
    → All (λ b. b < 256) payload
    → Returns
        (Carries pid cc table number payload)
        (section_packet pid cc (section_of table (length payload) number payload))
unfolding section_packet filling
section_packet-Carries pid cc table number payload hp hc ht fits octets =
    let section = section_of table (length payload) number payload in
    let all = section_of-octets table (length payload) number payload ht octets in
    let crc = remainder (2 ^ 32 - 1) section in
    let summed = get_crc32-remainder (2 ^ 32 - 1) section (omega arith) all in
    let used = section_start pid cc ++ section ++ bytes_32 crc in
    let size = length-used pid cc table (length payload) number crc payload in
    let padding = replicate (188 - length used) filling in
    let read = ap parse (section_start-append pid cc section (bytes_32 crc) padding) in
    let (content, synced, starts, names, counts) =
      section_content pid cc (section ++ bytes_32 crc ++ padding) hp hc in
    rw (summed, le→ltb 188 (length used) (omega (arith, size)))
      (returns (record {
        size =
            omega (
              arith,
              size,
              length-append used padding,
              length-replicate (188 - length used) filling,
            );
        sync = ap (λ p. p.sync) read ∙ synced;
        start = ap (λ p. p.start) read ∙ starts;
        named = ap (λ p. p.pid) read ∙ names;
        counted = ap (λ p. p.cc) read ∙ counts;
        section = section ++ bytes_32 crc;
        whole =
            ap (λ p. section_in p.content) read
            ∙ ap section_in content
            ∙ section_in-section_of table number payload (bytes_32 crc) padding fits refl;
        accepted =
            sym (ap (λ m. m >>= λ r. get_crc32 (2 ^ 32 - 1) (section ++ bytes_32 r)) summed)
            ∙ get_crc32-residue (2 ^ 32 - 1) section (omega arith) all;
        reads = (bytes_32 crc, section_of-reads table number payload (bytes_32 crc) fits);
      }))
