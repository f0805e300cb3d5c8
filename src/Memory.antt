-- ===== src/Memory.antt =====
-- src/mp4_io.h, `read_8` to `write_64`: big-endian numbers in an allocation. An allocation is a run
-- of bytes at a 64-bit address; an access outside it is a fault.
pub mod Reads
pub mod Writes
pub mod Holds
pub mod Finite
use nginx_hls_module.Base.{
  ℕ, ◌+◌, ◌-◌, ◌*◌, ◌/◌, ◌%◌, ◌^◌, ◌≤◌, ◌<◌, List, none, some, ltb, if◌then◌else◌, length,
  get_elem?, set, All, bit_or,
}
use nginx_hls_module.Run.{Run, ok, fault, ◌>>=◌}

pub record Memory : Type 0 where
  pub base : ℕ
  pub bytes : List ℕ

-- The bytes are bytes, and the allocation ends below the top of the address space.
pub record IsMemory (m : Memory) : Type 0 where
  pub octets : All (λ b. b < 256) m.bytes
  pub fits : m.base + length m.bytes < 2 ^ 64

-- The `n` bytes from address `p` on lie in the allocation.
pub record Readable (m : Memory) (p n : ℕ) : Type 0 where
  pub above : m.base ≤ p
  pub below : p + n ≤ m.base + length m.bytes

-- Pointer arithmetic by an amount that the data decides: addresses have 64 bits.
abbrev pub advance : ℕ → ℕ → ℕ
advance p n = (p + n) % 2 ^ 64

unfoldable pub load : Memory → ℕ → Run ℕ
load m p =
    if ltb p m.base
    then fault
    else elim (get_elem? m.bytes (p - m.base)) [ none ↦ fault | some b ↦ ok b ]

pub store : Memory → ℕ → ℕ → Run Memory
store m p v =
    if ltb p m.base
    then fault
    else if ltb (p - m.base) (length m.bytes)
    then ok (record m { bytes = set m.bytes (p - m.base) v })
    else fault

unfoldable pub read_8 : Memory → ℕ → Run ℕ
read_8 m p = load m p

unfoldable pub read_16 : Memory → ℕ → Run ℕ
read_16 m p = do b0 ← load m p; b1 ← load m (p + 1); ok (bit_or (b0 * 2 ^ 8) b1)

unfoldable pub read_24 : Memory → ℕ → Run ℕ
read_24 m p = do
  b0 ← load m p
  b1 ← load m (p + 1)
  b2 ← load m (p + 2)
  ok (bit_or (bit_or (b0 * 2 ^ 16) (b1 * 2 ^ 8)) b2)

unfoldable pub read_32 : Memory → ℕ → Run ℕ
read_32 m p = do
  b0 ← load m p
  b1 ← load m (p + 1)
  b2 ← load m (p + 2)
  b3 ← load m (p + 3)
  ok (bit_or (bit_or (bit_or (b0 * 2 ^ 24) (b1 * 2 ^ 16)) (b2 * 2 ^ 8)) b3)

unfoldable pub read_64 : Memory → ℕ → Run ℕ
read_64 m p = do hi ← read_32 m p; lo ← read_32 m (p + 4); ok ((hi * 2 ^ 32 + lo) % 2 ^ 64)

-- The writers return the address behind what they wrote, and the memory.
unfoldable pub write_8 : Memory → ℕ → ℕ → Run (ℕ × Memory)
write_8 m p v = do m1 ← store m p (v % 2 ^ 8); ok (p + 1, m1)

unfoldable pub write_16 : Memory → ℕ → ℕ → Run (ℕ × Memory)
write_16 m p v = do
  m1 ← store m p (v / 2 ^ 8 % 2 ^ 8)
  m2 ← store m1 (p + 1) (v % 2 ^ 8)
  ok (p + 2, m2)

unfoldable pub write_32 : Memory → ℕ → ℕ → Run (ℕ × Memory)
write_32 m p v = do
  m1 ← store m p (v / 2 ^ 24 % 2 ^ 8)
  m2 ← store m1 (p + 1) (v / 2 ^ 16 % 2 ^ 8)
  m3 ← store m2 (p + 2) (v / 2 ^ 8 % 2 ^ 8)
  m4 ← store m3 (p + 3) (v % 2 ^ 8)
  ok (p + 4, m4)

unfoldable pub write_64 : Memory → ℕ → ℕ → Run (ℕ × Memory)
write_64 m p v = do
  (q1, m1) ← write_32 m p (v / 2 ^ 32 % 2 ^ 32)
  (q2, m2) ← write_32 m1 (p + 4) (v % 2 ^ 32)
  ok (p + 8, m2)
