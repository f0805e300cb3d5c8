-- ===== src/Run/Finite.antt =====
-- A run that does not outlast its rounds: it returns or it faults.
use nginx_hls_module.Base.{◌≡◌, ◌≢◌, refl, Bool, true, false, if◌then◌else◌, Option, none, some}
use nginx_hls_module.Run.{Run, ok, fault, out_of_fuel, ◌>>=◌}

pub data Finite {ℓ} {A : Type ℓ} : Run A → Type ℓ where
  returns : (a : A) → Finite (ok a)
  faults : Finite fault

pub bind {ℓ κ} :
    {A : Type ℓ} {B : Type κ} {r : Run A} {k : A → Run B}
    → Finite r
    → ((a : A) → Finite (k a))
    → Finite (r >>= k)
bind (returns a) next = next a
bind faults next = faults

-- The continuation may use what the first part returned.
pub bind_eq {ℓ κ} :
    {A : Type ℓ} {B : Type κ} (r : Run A) {k : A → Run B}
    → Finite r
    → ((a : A) → r ≡ ok a → Finite (k a))
    → Finite (r >>= k)
bind_eq (ok a) h next = next a refl
bind_eq fault h next = faults
bind_eq out_of_fuel h next = elim h [ ]

pub branch {ℓ} :
    {A : Type ℓ} (b : Bool) {r s : Run A} → Finite r → Finite s → Finite (if b then r else s)
branch true h k = h
branch false h k = k

pub options {ℓ κ} :
    {A : Type ℓ} {B : Type κ} (o : Option A) {r : Run B} {k : A → Run B}
    → Finite r
    → ((a : A) → Finite (k a))
    → Finite (elim o [ none ↦ r | some a ↦ k a ])
options none h k = h
options (some a) h k = k a

pub Finite-ne : {A : Type 0} {r : Run A} → Finite r → r ≢ out_of_fuel
Finite-ne (returns a) = λ e. cc
Finite-ne faults = λ e. cc

-- What ends and does not return faults.
pub Finite-fault {ℓ} : {A : Type ℓ} {r : Run A} → Finite r → ((a : A) → r ≢ ok a) → r ≡ fault
Finite-fault (returns a) never = absurd (never a refl)
Finite-fault faults never = refl

-- A part that ends, in front of one that faults.
pub bind-fault {ℓ κ} :
    {A : Type ℓ} {B : Type κ} {r : Run A} (k : A → Run B)
    → Finite r
    → ((a : A) → k a ≡ fault)
    → (r >>= k) ≡ fault
bind-fault k (returns a) next = next a
bind-fault k faults next = refl
