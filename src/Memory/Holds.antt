-- ===== src/Memory/Holds.antt =====
-- Which bytes an allocation holds from an address on, and numbers as big-endian bytes.
use nginx_hls_module.Base.{
  ℕ, suc, ◌+◌, ◌/◌, ◌%◌, ◌^◌, ◌≤◌, ◌<◌, ◌≡◌, ◌∙◌, List, [], ◌∷◌, ◌++◌, arith, length,
}
use native.Mathlib.Nat.{add-zero}
use nginx_hls_module.Memory.{Memory}
use nginx_hls_module.Memory.Reads.{byte_at, be_16, be_24, be_32, be_64}

abbrev pub Holds : Memory → ℕ → List ℕ → Type 0
Holds m p [] = Unit
Holds m p (b ∷ bs) = (byte_at m p ≡ b) × Holds m (p + 1) bs

-- The bytes of a number, as the writers leave them.
abbrev pub bytes_16 : ℕ → List ℕ
bytes_16 v = (v / 2 ^ 8 % 2 ^ 8) ∷ (v % 2 ^ 8) ∷ []

abbrev pub bytes_24 : ℕ → List ℕ
bytes_24 v = (v / 2 ^ 16 % 2 ^ 8) ∷ (v / 2 ^ 8 % 2 ^ 8) ∷ (v % 2 ^ 8) ∷ []

abbrev pub bytes_32 : ℕ → List ℕ
bytes_32 v = (v / 2 ^ 24 % 2 ^ 8) ∷ (v / 2 ^ 16 % 2 ^ 8) ∷ (v / 2 ^ 8 % 2 ^ 8) ∷ (v % 2 ^ 8) ∷ []

abbrev pub bytes_64 : ℕ → List ℕ
bytes_64 v = bytes_32 (v / 2 ^ 32 % 2 ^ 32) ++ bytes_32 (v % 2 ^ 32)

pub shift : (p n : ℕ) → p + suc n ≡ p + 1 + n
shift p n = omega arith

module _ (m : Memory) where
  pub Holds-append :
      (p : ℕ) (xs ys : List ℕ) → Holds m p xs → Holds m (p + length xs) ys → Holds m p (xs ++ ys)
  Holds-append p [] ys h k = rw (add-zero p) at k
  Holds-append p (x ∷ xs) ys h k =
      (h.0, Holds-append (p + 1) xs ys h.1 (rw (shift p (length xs)) at k))

  pub Holds-left : (p : ℕ) (xs ys : List ℕ) → Holds m p (xs ++ ys) → Holds m p xs
  Holds-left p [] ys h = tt
  Holds-left p (x ∷ xs) ys h = (h.0, Holds-left (p + 1) xs ys h.1)

  pub Holds-right : (p : ℕ) (xs ys : List ℕ) → Holds m p (xs ++ ys) → Holds m (p + length xs) ys
  Holds-right p [] ys h = rw (add-zero p) h
  Holds-right p (x ∷ xs) ys h = rw (shift p (length xs)) (Holds-right (p + 1) xs ys h.1)

  pub be_16_of_Holds : (p v : ℕ) → Holds m p (bytes_16 v) → be_16 m p ≡ v % 2 ^ 16
  be_16_of_Holds p v h = ground arith

  pub be_24_of_Holds : (p v : ℕ) → Holds m p (bytes_24 v) → be_24 m p ≡ v % 2 ^ 24
  be_24_of_Holds p v h = ground arith

  pub be_32_of_Holds : (p v : ℕ) → Holds m p (bytes_32 v) → be_32 m p ≡ v % 2 ^ 32
  be_32_of_Holds p v h = ground arith

  pub be_64_of_Holds : (p v : ℕ) → Holds m p (bytes_64 v) → be_64 m p ≡ v % 2 ^ 64
  be_64_of_Holds p v h = ground arith

-- A change elsewhere keeps what is held.
pub Holds-frame :
    (m m' : Memory) (q : ℕ) (bs : List ℕ)
    → ((i : ℕ) → q ≤ i → i < q + length bs → byte_at m' i ≡ byte_at m i)
    → Holds m q bs
    → Holds m' q bs
Holds-frame m m' q [] same h = tt
Holds-frame m m' q (b ∷ bs) same h = (
  same q (omega arith) (omega arith) ∙ h.0,
  Holds-frame m m' (q + 1) bs (λ i lo hi. same i (omega arith) (omega arith)) h.1,
)
