-- ===== src/Run/Returns.antt =====
-- A run that returns a value with a given property: no fault, and enough rounds.
use nginx_hls_module.Base.{◌≡◌, refl}
use nginx_hls_module.Run.{Run, ok, ◌>>=◌}

pub data Returns {ℓ κ} {A : Type ℓ} (P : A → Type κ) : Run A → Type (ℓ ⊔ κ) where
  returns : {a : A} → P a → Returns P (ok a)

module _ {ℓ κ} {A : Type ℓ} {P : A → Type κ} where
  pub of_eq : {r : Run A} {a : A} → r ≡ ok a → P a → Returns P r
  of_eq e h = rw e (returns h)

  pub bind {μ ν} :
      {B : Type μ} {Q : B → Type ν} {r : Run A} {k : A → Run B}
      → Returns P r
      → ((a : A) → P a → Returns Q (k a))
      → Returns Q (r >>= k)
  bind (returns p) next = next _ p

  pub mono {ν} : {Q : A → Type ν} {r : Run A} → Returns P r → ((a : A) → P a → Q a) → Returns Q r
  mono (returns p) weaken = returns (weaken _ p)

  pub value : {r : Run A} → Returns P r → (a : A) × (r ≡ ok a) × P a
  value (returns p) = (_, refl, p)

  pub both {ν} :
      {Q : A → Type ν} {r : Run A} → Returns P r → Returns Q r → Returns (λ a. P a × Q a) r
  both (returns p) (returns q) = returns (p, q)
