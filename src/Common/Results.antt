-- ===== src/Common/Results.antt =====
-- Code that throws returns a `Result`.
use mathlib.Core.Path.{◌≡◌, refl, ap}
use mathlib.Core.Bool.{Bool, true, false}

pub data Result {ℓ κ} (Thrown : Type ℓ) (Value : Type κ) : Type (ℓ ⊔ κ) where
  err : Thrown → Result Thrown Value
  ok : Value → Result Thrown Value

infixl 5 ◌>>=◌ ◌>>◌
abbrev pub ◌>>=◌ {ℓ κ μ} :
    {E : Type ℓ} {V : Type κ} {W : Type μ} → Result E V → (V → Result E W) → Result E W
◌>>=◌ (err thrown) next = err thrown
◌>>=◌ (ok value) next = next value

abbrev pub ◌>>◌ {ℓ μ} : {E : Type ℓ} {W : Type μ} → Result E (Unit {0}) → Result E W → Result E W
first >> second = first >>= λ _. second

-- `if (test) throw error`
abbrev pub throw_if {ℓ} : {E : Type ℓ} → Bool → E → Result E (Unit {0})
throw_if true thrown = err thrown
throw_if false thrown = ok tt

-- Where the whole returns, the first part did.
pub first_returns {ℓ κ μ} :
    {E : Type ℓ} {V : Type κ} {W : Type μ} (first : Result E V) (next : V → Result E W) {w : W}
    → (first >>= next) ≡ ok w
    → (v : V) × (first ≡ ok v) × (next v ≡ ok w)
first_returns (err thrown) next returned = cc
first_returns (ok value) next returned = (value, refl, returned)

abbrev returned {ℓ κ} : {E : Type ℓ} {V : Type κ} → V → Result E V → V
returned default (err thrown) = default
returned default (ok value) = value

pub ok-injective {ℓ κ} :
    {E : Type ℓ} {V : Type κ} (v w : V) → ◌≡◌ {A = Result E V} (ok v) (ok w) → v ≡ w
ok-injective v w e = ap (returned v) e
