-- ===== src/Base/Results.antt =====
-- Errors as values: a throw is `err`, with the class of error as the parameter `E`.
use mathlib.Core.Path.{◌≡◌, refl}
use mathlib.Core.Logic.{◌⊎◌, inl, inr}
use mathlib.Core.Bool.{Bool, true, false}
use capnp_deno.Base.Tests.{if◌then◌else◌}

pub data Result {ℓ κ} (E : Type κ) (A : Type ℓ) : Type (ℓ ⊔ κ) where
  err : E → Result E A
  ok : A → Result E A

-- `if (test) throw error;`
abbrev pub throw_if {μ} : {E : Type μ} → Bool → E → Result E (Unit {0})
throw_if test error = elim test [ false ↦ ok tt | true ↦ err error ]

infixl 5 ◌>>=◌ ◌>>◌
abbrev pub ◌>>=◌ {ℓ κ μ} :
    {E : Type μ} {A : Type ℓ} {B : Type κ} → Result E A → (A → Result E B) → Result E B
outcome >>= next = elim outcome [ err error ↦ err error | ok value ↦ next value ]

abbrev pub ◌>>◌ {ℓ μ} : {E : Type μ} {B : Type ℓ} → Result E (Unit {0}) → Result E B → Result E B
check >> rest = elim check [ err error ↦ err error | ok _ ↦ rest ]

module _ {ℓ μ} {E : Type μ} {A : Type ℓ} where
  pub Result-cases : (r : Result E A) → ((a : A) × (r ≡ ok a)) ⊎ ((error : E) × (r ≡ err error))
  Result-cases (err error) = inr (error, refl)
  Result-cases (ok value) = inl (value, refl)

  pub ok-injective : {a b : A} → ◌≡◌ {A = Result E A} (ok a) (ok b) → a ≡ b
  ok-injective same = cc

-- A chain that succeeds has succeeded in its first part.
pub >>=-eq-ok {ℓ κ μ} :
    {E : Type μ} {A : Type ℓ} {B : Type κ} (outcome : Result E A) (next : A → Result E B) {last : B}
    → (outcome >>= next) ≡ ok last
    → (value : A) × (outcome ≡ ok value) × (next value ≡ ok last)
>>=-eq-ok (err error) next same = cc
>>=-eq-ok (ok value) next same = (value, refl, same)

-- Past a check that did not throw.
pub >>-eq-ok {ℓ μ} :
    {E : Type μ} {B : Type ℓ} (test : Bool) (error : E) (rest : Result E B) {last : B}
    → (throw_if test error >> rest) ≡ ok last
    → (test ≡ false) × (rest ≡ ok last)
>>-eq-ok true error rest same = cc
>>-eq-ok false error rest same = (refl, same)

-- A result of a test is that of one of the branches.
pub either_branch {ℓ κ} :
    {A : Type ℓ} {P : Type κ} (test : Bool) {x y last : A}
    → (x ≡ last → P)
    → (y ≡ last → P)
    → (if test then x else y) ≡ last
    → P
either_branch true here there e = here e
either_branch false here there e = there e
