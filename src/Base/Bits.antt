-- ===== src/Base/Bits.antt =====
-- `|` of disjoint fields and `&` with a low mask, as arithmetic.
use Prim.Native.Nat.{
  ℕ, zero, suc, ◌+◌, ◌-◌, ◌*◌, ◌/◌, ◌%◌, ◌^◌, ◌≤◌, ◌<◌, min, max, bit_and, bit_or, digits, bitwise,
  bit_and-bitwise, bit_or-bitwise,
}
use mathlib.Core.Path.{◌≡◌, refl, ap, ◌∙◌, sym}
use native.Mathlib.Nat.{pow-suc, one-le-pow}
use native.Mathlib.Omega.{arith}

module _ (base : ℕ → ℕ) (digit : ℕ → ℕ → ℕ) where
  -- The recursion on digits has one value for all fuels that reach the first number.
  fuel_free : (j k x y : ℕ) → x ≤ j → x ≤ k → digits base digit j x y ≡ digits base digit k x y
  fuel_free zero zero x y hj hk = refl
  fuel_free (suc j) zero (suc x) y hj hk = elim hk [ ]
  fuel_free (suc j) zero zero y hj hk = refl
  fuel_free zero (suc k) (suc x) y hj hk = elim hj [ ]
  fuel_free zero (suc k) zero y hj hk = refl
  fuel_free (suc j) (suc k) zero y hj hk = refl
  fuel_free (suc j) (suc k) (suc x) y hj hk =
      let half : suc x / 2 ≤ x = omega arith in
      ap (λ t. t * 2 + digit (suc x % 2) (y % 2))
        (fuel_free j k (suc x / 2) (y / 2) (omega arith) (omega arith))

  -- The law for the lowest digit of a number that has one.
  pub lowest :
      (x y : ℕ)
      → bitwise base digit (suc x) y
        ≡ bitwise base digit (suc x / 2) (y / 2) * 2 + digit (suc x % 2) (y % 2)
  lowest x y =
      ap (λ t. t * 2 + digit (suc x % 2) (y % 2))
        (fuel_free x (suc x / 2) (suc x / 2) (y / 2) (omega arith) (omega arith))

or_lowest : (x y : ℕ) → bit_or x y ≡ bit_or (x / 2) (y / 2) * 2 + max (x % 2) (y % 2)
or_lowest (suc x) y =
    bit_or-bitwise (suc x) y
    ∙ lowest (λ t. t) max x y
    ∙ ap (λ t. t * 2 + max (suc x % 2) (y % 2)) (sym (bit_or-bitwise (suc x / 2) (y / 2)))
or_lowest zero y = omega (arith, bit_or-bitwise 0 y, bit_or-bitwise 0 (y / 2))

and_lowest : (x y : ℕ) → bit_and x y ≡ bit_and (x / 2) (y / 2) * 2 + min (x % 2) (y % 2)
and_lowest (suc x) y =
    bit_and-bitwise (suc x) y
    ∙ lowest (λ _. 0) min x y
    ∙ ap (λ t. t * 2 + min (suc x % 2) (y % 2)) (sym (bit_and-bitwise (suc x / 2) (y / 2)))
and_lowest zero y = omega (arith, bit_and-bitwise 0 y, bit_and-bitwise 0 (y / 2))

-- The operations with 0 on the right, for numbers up to a bound.
or_nothing : (top x : ℕ) → x ≤ top → bit_or x 0 ≡ x
or_nothing zero (suc x) h = elim h [ ]
or_nothing (suc top) (suc x) h =
    omega (arith, or_lowest (suc x) 0, or_nothing top (suc x / 2) (omega arith))
or_nothing top zero h = refl

and_nothing : (top x : ℕ) → x ≤ top → bit_and x 0 ≡ 0
and_nothing zero (suc x) h = elim h [ ]
and_nothing (suc top) (suc x) h =
    omega (arith, and_lowest (suc x) 0, and_nothing top (suc x / 2) (omega arith))
and_nothing top zero h = refl

pub twice_shifted : (q k : ℕ) → q * 2 ^ suc k ≡ q * 2 ^ k + q * 2 ^ k
twice_shifted q k = grind (arith, pow-suc 2 k)

-- `(q << k) | r` is a sum when `r` fits `k` bits.
pub bit_or_fields : (k q r : ℕ) → r < 2 ^ k → bit_or (q * 2 ^ k) r ≡ q * 2 ^ k + r
bit_or_fields (suc k) q r below =
    let high = twice_shifted q k in
    ground (
      arith,
      or_lowest (q * 2 ^ suc k) r,
      pow-suc 2 k,
      bit_or_fields k q (r / 2) (omega (arith, pow-suc 2 k)),
    )
bit_or_fields zero q r below = ground (arith, or_nothing q q)

low_field : (k q r : ℕ) → r < 2 ^ k → bit_and (q * 2 ^ k + r) (2 ^ k - 1) ≡ r
low_field (suc k) q r below =
    let high = twice_shifted q k in
    ground (
      arith,
      and_lowest (q * 2 ^ suc k + r) (2 ^ suc k - 1),
      pow-suc 2 k,
      low_field k q (r / 2) (omega (arith, pow-suc 2 k)),
    )
low_field zero q r below = ground (arith, and_nothing (q + r) (q + r))

-- `a & (2^k - 1)` is the remainder by `2 ^ k`.
pub bit_and_mask : (k a : ℕ) → bit_and a (2 ^ k - 1) ≡ a % 2 ^ k
bit_and_mask k a =
    let positive = one-le-pow k 2 in ground (arith, low_field k (a / 2 ^ k) (a % 2 ^ k))
