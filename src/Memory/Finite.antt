-- ===== src/Memory/Finite.antt =====
-- Reads end, and one that succeeds has read inside the allocation.
use nginx_hls_module.Base.{
  ℕ, zero, suc, ◌+◌, ◌<◌, ◌≡◌, List, [], ◌∷◌, some, arith, length, get_elem?, ltb,
}
use nginx_hls_module.Run.{ok, fault}
use nginx_hls_module.Run.Finite
use nginx_hls_module.Run.Finite.{Finite, returns, faults, Finite-fault}
use nginx_hls_module.Memory.{Memory, Readable, load, read_8, read_16, read_24, read_32, read_64}

get_elem?-lt : (xs : List ℕ) (i b : ℕ) → get_elem? xs i ≡ some b → i < length xs
get_elem?-lt [] i b e = cc
get_elem?-lt (x ∷ xs) zero b e = omega arith
get_elem?-lt (x ∷ xs) (suc i) b e = omega (arith, get_elem?-lt xs i b e)

load-Readable : (m : Memory) (p b : ℕ) → load m p ≡ ok b → Readable m p 1
unfolding load
load-Readable m p b e = grind (arith, get_elem?-lt)

pub load-Finite : (m : Memory) (p : ℕ) → Finite (load m p)
unfolding load
load-Finite m p = Finite.branch (ltb p m.base) faults (Finite.options _ faults (λ b. returns b))

module _ (m : Memory) (p : ℕ) where
  pub read_8-Finite : Finite (read_8 m p)
  unfolding read_8
  read_8-Finite = load-Finite m p

  pub read_16-Finite : Finite (read_16 m p)
  unfolding read_16
  read_16-Finite =
      Finite.bind (load-Finite m p) λ b0. Finite.bind (load-Finite m (p + 1)) λ b1. returns _

  pub read_24-Finite : Finite (read_24 m p)
  unfolding read_24
  read_24-Finite = Finite.bind (load-Finite m p) λ b0.
      Finite.bind (load-Finite m (p + 1)) λ b1. Finite.bind (load-Finite m (p + 2)) λ b2. returns _

  pub read_32-Finite : Finite (read_32 m p)
  unfolding read_32
  read_32-Finite = Finite.bind (load-Finite m p) λ b0. Finite.bind (load-Finite m (p + 1)) λ b1.
      Finite.bind (load-Finite m (p + 2)) λ b2. Finite.bind (load-Finite m (p + 3)) λ b3. returns _

  pub read_32-Readable : (v : ℕ) → read_32 m p ≡ ok v → Readable m p 4
  unfolding read_32
  read_32-Readable v e = grind (arith, load-Readable)

module _ (m : Memory) (p : ℕ) where
  pub read_64-Finite : Finite (read_64 m p)
  unfolding read_64
  read_64-Finite =
      Finite.bind (read_32-Finite m p) λ hi. Finite.bind (read_32-Finite m (p + 4)) λ lo. returns _

  pub read_64-Readable : (v : ℕ) → read_64 m p ≡ ok v → Readable m p 8
  unfolding read_64
  read_64-Readable v e = grind (arith, read_32-Readable)

  -- A read of 32 bits that do not all lie in the allocation.
  pub read_32-fault : m.base + length m.bytes < p + 4 → read_32 m p ≡ fault
  read_32-fault over =
      Finite-fault (read_32-Finite m p) (λ v e. omega (arith, (read_32-Readable m p v e).below))
