-- ===== src/Memory/Reads.antt =====
-- The big-endian value of bytes in an allocation, as arithmetic, and what the readers return.
use nginx_hls_module.Base.{
  ℕ, zero, suc, ◌+◌, ◌-◌, ◌*◌, ◌^◌, ◌<◌, ◌≡◌, refl, ap, List, [], ◌∷◌, none, some, arith, length,
  get_elem?, All, bit_or_fields, ltb, if◌then◌else◌, le→ltb,
}
use nginx_hls_module.Run.{ok}
use nginx_hls_module.Memory.{
  Memory, IsMemory, Readable, load, read_8, read_16, read_24, read_32, read_64,
}

unfoldable pub nth : List ℕ → ℕ → ℕ
nth xs i = elim (get_elem? xs i) [ none ↦ 0 | some b ↦ b ]

-- The byte at an address, and 0 outside the allocation.
unfoldable pub byte_at : Memory → ℕ → ℕ
byte_at m p = if ltb p m.base then 0 else nth m.bytes (p - m.base)

-- The big-endian number in the bytes from `p` on.
abbrev pub be_16 : Memory → ℕ → ℕ
be_16 m p = byte_at m p * 2 ^ 8 + byte_at m (p + 1)

abbrev pub be_24 : Memory → ℕ → ℕ
be_24 m p = byte_at m p * 2 ^ 16 + byte_at m (p + 1) * 2 ^ 8 + byte_at m (p + 2)

abbrev pub be_32 : Memory → ℕ → ℕ
be_32 m p =
    byte_at m p * 2 ^ 24
    + byte_at m (p + 1) * 2 ^ 16
    + byte_at m (p + 2) * 2 ^ 8
    + byte_at m (p + 3)

abbrev pub be_64 : Memory → ℕ → ℕ
be_64 m p = be_32 m p * 2 ^ 32 + be_32 m (p + 4)

pub get_elem?-nth : (xs : List ℕ) (i : ℕ) → i < length xs → get_elem? xs i ≡ some (nth xs i)
unfolding nth
get_elem?-nth [] i h = elim h [ ]
get_elem?-nth (x ∷ xs) zero h = refl
get_elem?-nth (x ∷ xs) (suc i) h = get_elem?-nth xs i (omega arith)

nth-lt : (xs : List ℕ) (i : ℕ) → All (λ b. b < 256) xs → nth xs i < 256
unfolding nth
nth-lt [] i h = omega arith
nth-lt (x ∷ xs) zero h = h.0
nth-lt (x ∷ xs) (suc i) h = nth-lt xs i h.1

module _ {m : Memory} (wf : IsMemory m) where
  pub byte_at-lt : (p : ℕ) → byte_at m p < 256
  unfolding byte_at
  byte_at-lt p = ground (arith, nth-lt m.bytes (p - m.base) wf.octets)

  pub be_16-lt : (p : ℕ) → be_16 m p < 2 ^ 16
  be_16-lt p = omega (arith, byte_at-lt p, byte_at-lt (p + 1))

  pub be_32-lt : (p : ℕ) → be_32 m p < 2 ^ 32
  be_32-lt p =
      omega (arith, byte_at-lt p, byte_at-lt (p + 1), byte_at-lt (p + 2), byte_at-lt (p + 3))

  pub be_64-lt : (p : ℕ) → be_64 m p < 2 ^ 64
  be_64-lt p = omega (arith, be_32-lt p, be_32-lt (p + 4))

load-byte_at : (m : Memory) (p : ℕ) → Readable m p 1 → load m p ≡ ok (byte_at m p)
unfolding load byte_at
load-byte_at m p r = rw (le→ltb p m.base r.above, get_elem?-nth m.bytes (p - m.base) (omega arith))

module _ {m : Memory} (wf : IsMemory m) (p : ℕ) where
  pub read_8-byte_at : Readable m p 1 → read_8 m p ≡ ok (byte_at m p)
  unfolding read_8
  read_8-byte_at r = load-byte_at m p r

  pub read_16-be_16 : Readable m p 2 → read_16 m p ≡ ok (be_16 m p)
  unfolding read_16
  read_16-be_16 r =
      rw (load-byte_at m p (omega arith), load-byte_at m (p + 1) (omega arith))
        (rw (bit_or_fields 8 (byte_at m p) (byte_at m (p + 1)) (byte_at-lt wf (p + 1))))

  pub read_24-be_24 : Readable m p 3 → read_24 m p ≡ ok (be_24 m p)
  unfolding read_24
  read_24-be_24 r =
      let b0 = byte_at m p in
      let b1 = byte_at m (p + 1) in
      let b2 = byte_at m (p + 2) in
      let l1 = byte_at-lt wf (p + 1) in
      let l2 = byte_at-lt wf (p + 2) in
      rw
        (
          load-byte_at m p (omega arith),
          load-byte_at m (p + 1) (omega arith),
          load-byte_at m (p + 2) (omega arith),
        )
        (ground (arith, bit_or_fields 16 b0 (b1 * 2 ^ 8), bit_or_fields 8 (b0 * 2 ^ 8 + b1) b2))

  pub read_32-be_32 : Readable m p 4 → read_32 m p ≡ ok (be_32 m p)
  unfolding read_32
  read_32-be_32 r =
      let b0 = byte_at m p in
      let b1 = byte_at m (p + 1) in
      let b2 = byte_at m (p + 2) in
      let b3 = byte_at m (p + 3) in
      let l1 = byte_at-lt wf (p + 1) in
      let l2 = byte_at-lt wf (p + 2) in
      let l3 = byte_at-lt wf (p + 3) in
      rw
        (
          load-byte_at m p (omega arith),
          load-byte_at m (p + 1) (omega arith),
          load-byte_at m (p + 2) (omega arith),
          load-byte_at m (p + 3) (omega arith),
        )
        (ground (
          arith,
          bit_or_fields 24 b0 (b1 * 2 ^ 16),
          bit_or_fields 16 (b0 * 2 ^ 8 + b1) (b2 * 2 ^ 8),
          bit_or_fields 8 (b0 * 2 ^ 16 + b1 * 2 ^ 8 + b2) b3,
        ))

module _ {m : Memory} (wf : IsMemory m) (p : ℕ) where
  pub read_64-be_64 : Readable m p 8 → read_64 m p ≡ ok (be_64 m p)
  unfolding read_64
  read_64-be_64 r =
      rw (read_32-be_32 wf p (omega arith), read_32-be_32 wf (p + 4) (omega arith))
        (ap ok (omega (arith, be_64-lt wf p)))
