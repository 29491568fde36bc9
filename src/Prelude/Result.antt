-- ===== src/Prelude/Result.antt =====
-- The package neverthrow: what a check gives, and a chain of checks that ends in a value.
use mathlib.Core.Path.{◌≡◌, refl}
use mathlib.Core.Bool.{Bool, true, false}

pub data Result {ℓ κ} (E : Type ℓ) (A : Type κ) : Type (ℓ ⊔ κ) where
  err : E → Result E A
  ok : A → Result E A

-- A step of a chain: an early return with its error, or on to what follows.
infixr 4 ◌>>◌
abbrev pub ◌>>◌ : {E B : Type 0} → Result E (Unit {0}) → Result E B → Result E B
err e >> next = err e
ok a >> next = next

-- `if (!test) return err(e)`.
abbrev pub check : {E : Type 0} → Bool → E → Result E (Unit {0})
check false e = err e
check true e = ok tt

-- A chain that starts with a check and gives a value has passed the check.
pub check_passed :
    {E B : Type 0} (b : Bool) (e : E) (next : Result E B) {v : B}
    → (check b e >> next) ≡ ok v
    → (b ≡ true) × (next ≡ ok v)
check_passed false e next h = cc
check_passed true e next h = (refl, h)

pub >>-eq-ok :
    {E B : Type 0} (m : Result E (Unit {0})) (next : Result E B) {v : B}
    → (m >> next) ≡ ok v
    → (m ≡ ok tt) × (next ≡ ok v)
>>-eq-ok (err e) next h = cc
>>-eq-ok (ok tt) next h = (refl, h)

-- A result has one value.
pub ok_eq : {E A : Type 0} {a b : A} (m : Result E A) → m ≡ ok a → m ≡ ok b → a ≡ b
ok_eq m p q = cc
