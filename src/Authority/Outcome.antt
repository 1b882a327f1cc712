-- ===== src/Authority/Outcome.antt =====
-- What a call of the directory returns: `denied` is `AuthorityDenied`, `invalid` is `ValueError` and
-- `integrity` is the database's error for a primary key that is taken.
use agentbridge.Base.{
  Bool, true, false, Option, none, some, if◌then◌else◌, ◌≡◌, ◌⊎◌, inl, inr, refl, arith,
}

pub data Outcome {ℓ} (A : Type ℓ) : Type ℓ where
  done : A → Outcome A
  denied invalid integrity : Outcome A

infixl 5 ◌>>=◌ ◌>>◌
abbrev pub ◌>>=◌ {ℓ κ} : {A : Type ℓ} {B : Type κ} → Outcome A → (A → Outcome B) → Outcome B
done a >>= f = f a
denied >>= f = denied
invalid >>= f = invalid
integrity >>= f = integrity

abbrev pub ◌>>◌ {ℓ κ} : {A : Type ℓ} {B : Type κ} → Outcome A → Outcome B → Outcome B
m >> k = m >>= λ _. k

abbrev pub deny_if : Bool → Outcome (Unit {0})
deny_if true = denied
deny_if false = done tt

abbrev pub invalid_if : Bool → Outcome (Unit {0})
invalid_if true = invalid
invalid_if false = done tt

-- A row that is there and active.
abbrev pub available {ℓ} : {A : Type ℓ} → (A → Bool) → Option A → Outcome A
available active none = denied
available active (some row) = if active row then done row else denied

pub bind-done {ℓ κ} :
    {A : Type ℓ} {B : Type κ} (m : Outcome A) (k : A → Outcome B) (b : B)
    → m >>= k ≡ done b
    → (a : A) × (m ≡ done a) × (k a ≡ done b)
bind-done (done a) k b h = (a, refl, h)
bind-done denied k b h = absurd (ground (arith, h))
bind-done invalid k b h = absurd (ground (arith, h))
bind-done integrity k b h = absurd (ground (arith, h))

pub Outcome-cases {ℓ} :
    {A : Type ℓ} (m : Outcome A)
    → ((a : A) × (m ≡ done a)) ⊎ ((m ≡ denied) ⊎ ((m ≡ invalid) ⊎ (m ≡ integrity)))
Outcome-cases (done a) = inl (a, refl)
Outcome-cases denied = inr (inl refl)
Outcome-cases invalid = inr (inr (inl refl))
Outcome-cases integrity = inr (inr (inr refl))
