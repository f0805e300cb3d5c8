-- ===== src/Base/Xor.antt =====
-- The laws of `^` on numbers, from those of their digits.
use Prim.Native.Nat.{
  ℕ, zero, suc, ◌+◌, ◌*◌, ◌/◌, ◌%◌, ◌^◌, ◌≤◌, ◌<◌, bit_xor, differ, bit_xor-bitwise,
}
use mathlib.Core.Path.{◌≡◌, refl, ap, ◌∙◌, sym}
use native.Mathlib.Nat.{pow-suc}
use native.Mathlib.Omega.{arith}
use nginx_hls_module.Base.Bits.{lowest, twice_shifted}

xor_lowest : (x y : ℕ) → bit_xor x y ≡ bit_xor (x / 2) (y / 2) * 2 + differ (x % 2) (y % 2)
xor_lowest (suc x) y =
    bit_xor-bitwise (suc x) y
    ∙ lowest (λ t. t) differ x y
    ∙ ap (λ t. t * 2 + differ (suc x % 2) (y % 2)) (sym (bit_xor-bitwise (suc x / 2) (y / 2)))
xor_lowest zero y = omega (arith, bit_xor-bitwise 0 y, bit_xor-bitwise 0 (y / 2))

differ_nothing : (d : ℕ) → differ d 0 ≡ d
differ_nothing zero = refl
differ_nothing (suc d) = refl

differ_self : (d : ℕ) → differ d d ≡ 0
differ_self zero = refl
differ_self (suc d) = differ_self d

xor_nothing : (top x : ℕ) → x ≤ top → bit_xor x 0 ≡ x
xor_nothing zero (suc x) h = elim h [ ]
xor_nothing (suc top) (suc x) h = omega (
  arith,
  xor_lowest (suc x) 0,
  differ_nothing (suc x % 2),
  xor_nothing top (suc x / 2) (omega arith),
)
xor_nothing top zero h = refl

xor_same : (top x : ℕ) → x ≤ top → bit_xor x x ≡ 0
xor_same zero (suc x) h = elim h [ ]
xor_same (suc top) (suc x) h = omega (
  arith,
  xor_lowest (suc x) (suc x),
  differ_self (suc x % 2),
  xor_same top (suc x / 2) (omega arith),
)
xor_same top zero h = refl

pub bit_xor-zero : (a : ℕ) → bit_xor a 0 ≡ a
bit_xor-zero a = xor_nothing a a (omega arith)

pub bit_xor_self : (a : ℕ) → bit_xor a a ≡ 0
bit_xor_self a = xor_same a a (omega arith)

-- Digits are 0 or 1.
differ_comm : (d e : ℕ) → differ d e ≡ differ e d
differ_comm zero zero = refl
differ_comm zero (suc e) = refl
differ_comm (suc d) zero = refl
differ_comm (suc d) (suc e) = differ_comm d e

differ-lt : (d e : ℕ) → d < 2 → e < 2 → differ d e < 2
differ-lt zero e h k = k
differ-lt (suc d) zero h k = h
differ-lt (suc d) (suc e) h k = differ-lt d e (omega arith) (omega arith)

differ_assoc : (d e f : ℕ) → d < 2 → e < 2 → f < 2 → differ (differ d e) f ≡ differ d (differ e f)
differ_assoc zero e f h k l = refl
differ_assoc (suc zero) zero f h k l = refl
differ_assoc (suc zero) (suc zero) zero h k l = refl
differ_assoc (suc zero) (suc zero) (suc zero) h k l = refl
differ_assoc (suc zero) (suc zero) (suc (suc f)) h k l = absurd (omega arith)
differ_assoc (suc zero) (suc (suc e)) f h k l = absurd (omega arith)
differ_assoc (suc (suc d)) e f h k l = absurd (omega arith)

xor_commutes : (top x y : ℕ) → x ≤ top → y ≤ top → bit_xor x y ≡ bit_xor y x
xor_commutes zero zero zero h k = refl
xor_commutes zero zero (suc y) h k = elim k [ ]
xor_commutes zero (suc x) y h k = elim h [ ]
xor_commutes (suc top) x y h k = omega (
  arith,
  xor_lowest x y,
  xor_lowest y x,
  differ_comm (x % 2) (y % 2),
  xor_commutes top (x / 2) (y / 2) (omega arith) (omega arith),
)

pub bit_xor_comm : (x y : ℕ) → bit_xor x y ≡ bit_xor y x
bit_xor_comm x y = xor_commutes (x + y) x y (omega arith) (omega arith)

xor_halves :
    (x y : ℕ)
    → (bit_xor x y / 2 ≡ bit_xor (x / 2) (y / 2)) × (bit_xor x y % 2 ≡ differ (x % 2) (y % 2))
xor_halves x y =
    let e = xor_lowest x y in
    let small : differ (x % 2) (y % 2) < 2 =
      differ-lt (x % 2) (y % 2) (omega arith) (omega arith) in
    (omega arith, omega arith)

zero_xor : (y : ℕ) → bit_xor 0 y ≡ y
zero_xor y = bit_xor_comm 0 y ∙ bit_xor-zero y

xor_associates :
    (top x y z : ℕ)
    → x ≤ top
    → y ≤ top
    → z ≤ top
    → bit_xor (bit_xor x y) z ≡ bit_xor x (bit_xor y z)
xor_associates zero zero y z h k l =
    ap (λ t. bit_xor t z) (zero_xor y) ∙ sym (zero_xor (bit_xor y z))
xor_associates zero (suc x) y z h k l = elim h [ ]
xor_associates (suc top) x y z h k l =
    let left = xor_halves x y in
    let right = xor_halves y z in
    xor_lowest (bit_xor x y) z
    ∙ (rw (left.0, left.1)
        (rw
          (
            xor_associates top (x / 2) (y / 2) (z / 2) (omega arith) (omega arith) (omega arith),
            differ_assoc (x % 2) (y % 2) (z % 2) (omega arith) (omega arith) (omega arith),
          )
          (sym (xor_lowest x (bit_xor y z) ∙ (rw (right.0, right.1) refl)))))

pub bit_xor_assoc : (x y z : ℕ) → bit_xor (bit_xor x y) z ≡ bit_xor x (bit_xor y z)
bit_xor_assoc x y z = xor_associates (x + y + z) x y z (omega arith) (omega arith) (omega arith)

-- The fields of two numbers are combined one by one.
pub bit_xor_fields :
    (k p q r s : ℕ)
    → q < 2 ^ k
    → s < 2 ^ k
    → bit_xor (p * 2 ^ k + q) (r * 2 ^ k + s) ≡ bit_xor p r * 2 ^ k + bit_xor q s
bit_xor_fields zero p q r s h l =
    let q0 : q ≡ 0 = omega arith in
    let s0 : s ≡ 0 = omega arith in
    rw (q0, s0) (ap (λ (t : ℕ × ℕ). bit_xor t.0 t.1) (λ i. (left i, right i)) ∙ omega arith)
  where
    left : p * 2 ^ 0 + 0 ≡ p
    left = omega arith

    right : r * 2 ^ 0 + 0 ≡ r
    right = omega arith
bit_xor_fields (suc k) p q r s h l =
    let high = twice_shifted p k in
    let low = twice_shifted r k in
    let both = twice_shifted (bit_xor p r) k in
    ground (
      arith,
      xor_lowest (p * 2 ^ suc k + q) (r * 2 ^ suc k + s),
      xor_lowest q s,
      halves p q high,
      halves r s low,
      parity p q high,
      parity r s low,
      bit_xor_fields k p (q / 2) r (s / 2) (omega (arith, pow-suc 2 k))
          (omega (arith, pow-suc 2 k)),
    )
  where
    halves :
        (a b : ℕ)
        → a * 2 ^ suc k ≡ a * 2 ^ k + a * 2 ^ k
        → (a * 2 ^ suc k + b) / 2 ≡ a * 2 ^ k + b / 2
    halves a b e = omega arith

    parity : (a b : ℕ) → a * 2 ^ suc k ≡ a * 2 ^ k + a * 2 ^ k → (a * 2 ^ suc k + b) % 2 ≡ b % 2
    parity a b e = omega arith

pub bit_xor-lt : (k x y : ℕ) → x < 2 ^ k → y < 2 ^ k → bit_xor x y < 2 ^ k
bit_xor-lt zero zero zero h l = omega arith
bit_xor-lt zero zero (suc y) h l = absurd (omega arith)
bit_xor-lt zero (suc x) y h l = absurd (omega arith)
bit_xor-lt (suc k) x y h l =
    let small : differ (x % 2) (y % 2) < 2 =
      differ-lt (x % 2) (y % 2) (omega arith) (omega arith) in
    omega (
      arith,
      pow-suc 2 k,
      xor_lowest x y,
      bit_xor-lt k (x / 2) (y / 2) (omega (arith, pow-suc 2 k)) (omega (arith, pow-suc 2 k)),
    )

pub bit_xor_twice : (x y : ℕ) → bit_xor (x * 2) (y * 2) ≡ bit_xor x y * 2
bit_xor_twice x y =
    let ex : x * 2 / 2 ≡ x = omega arith in
    let ey : y * 2 / 2 ≡ y = omega arith in
    let fx : x * 2 % 2 ≡ 0 = omega arith in
    let fy : y * 2 % 2 ≡ 0 = omega arith in
    xor_lowest (x * 2) (y * 2) ∙ (rw (ex, ey, fx, fy) (omega arith))
