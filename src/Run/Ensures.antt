-- ===== src/Run/Ensures.antt =====
-- What holds of the value of a run if it returns one.
use nginx_hls_module.Base.{◌≡◌, Bool, true, false, if◌then◌else◌}
use nginx_hls_module.Run.{Run, ok, fault, out_of_fuel, ◌>>=◌}

pub data Ensures {ℓ κ} {A : Type ℓ} (P : A → Type κ) : Run A → Type (ℓ ⊔ κ) where
  returns : {a : A} → P a → Ensures P (ok a)
  faults : Ensures P fault
  stops : Ensures P out_of_fuel

module _ {ℓ κ} {A : Type ℓ} {P : A → Type κ} where
  pub bind {μ ν} :
      {B : Type μ} {Q : B → Type ν} {r : Run A} {k : A → Run B}
      → Ensures P r
      → ((a : A) → P a → Ensures Q (k a))
      → Ensures Q (r >>= k)
  bind (returns p) next = next _ p
  bind faults next = faults
  bind stops next = stops

  pub branch : (b : Bool) {r s : Run A} → Ensures P r → Ensures P s → Ensures P (if b then r else s)
  branch true h k = h
  branch false h k = k

  pub value : {a : A} → Ensures P (ok a) → P a
  value (returns p) = p

  pub apply : {r : Run A} (a : A) → Ensures P r → r ≡ ok a → P a
  apply a h e = value (rw e at h)

-- What every value has.
pub always {ℓ κ} : {A : Type ℓ} {P : A → Type κ} (r : Run A) → ((a : A) → P a) → Ensures P r
always (ok a) h = returns (h a)
always fault h = faults
always out_of_fuel h = stops

-- Nothing at all.
pub any {ℓ} : {A : Type ℓ} (r : Run A) → Ensures (λ (a : A). Unit {0}) r
any (ok a) = returns tt
any fault = faults
any out_of_fuel = stops
