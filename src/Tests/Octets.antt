-- ===== src/Tests/Octets.antt =====
-- That the elements of a list are bytes, and that an allocation holds them, by a test.
use nginx_hls_module.Base.{
  ℕ, ◌<◌, ◌≡◌, List, [], ◌∷◌, Bool, true, ltb, ltb→lt, ◌+◌, ◌==◌, ==→eq, ◌&&◌, arith, All,
}
use nginx_hls_module.Memory.{Memory}
use nginx_hls_module.Memory.Reads.{byte_at}
use nginx_hls_module.Memory.Holds.{Holds}

-- A test for bytes.
unfoldable pub are_octets : List ℕ → Bool
are_octets [] = true
are_octets (b ∷ bs) = ltb b 256 && are_octets bs

pub octets_of : (bs : List ℕ) → are_octets bs ≡ true → All (λ b. b < 256) bs
unfolding are_octets
octets_of [] e = tt
octets_of (b ∷ bs) e = (ltb→lt b 256 (ground arith), octets_of bs (ground arith))

unfoldable pub are_held : Memory → ℕ → List ℕ → Bool
are_held m p [] = true
are_held m p (b ∷ bs) = (byte_at m p == b) && are_held m (p + 1) bs

pub Holds-of : (m : Memory) (p : ℕ) (bs : List ℕ) → are_held m p bs ≡ true → Holds m p bs
unfolding are_held
Holds-of m p [] e = tt
Holds-of m p (b ∷ bs) e =
    (==→eq (byte_at m p) b (ground arith), Holds-of m (p + 1) bs (ground arith))
