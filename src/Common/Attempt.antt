-- ===== src/Common/Attempt.antt =====
-- Code that throws: a value, or the error that is thrown.
use mathlib.Core.Path.{◌≡◌, refl}
use mathlib.Core.Logic.{◌↔◌}
use native.Mathlib.Omega.{arith}
use mathlib.Core.Bool.{Bool, true, false}

pub data Attempt {ℓ κ} (E : Type κ) (A : Type ℓ) : Type (κ ⊔ ℓ) where
  ok : A → Attempt E A
  fail : E → Attempt E A

infixl 5 ◌>>=◌ ◌>>◌
abbrev pub ◌>>=◌ {κ ℓ ℓ'} :
    {E : Type κ} {A : Type ℓ} {B : Type ℓ'} → Attempt E A → (A → Attempt E B) → Attempt E B
ok a >>= f = f a
fail e >>= f = fail e

abbrev pub ◌>>◌ {κ ℓ} : {E : Type κ} {B : Type ℓ} → Attempt E (Unit {0}) → Attempt E B → Attempt E B
m >> k = m >>= λ _. k

-- `if (!test) throw e;`
abbrev pub guard {κ} : {E : Type κ} → Bool → E → Attempt E (Unit {0})
guard true e = ok tt
guard false e = fail e

-- What is known where a check went through.
pub guard-eq_ok {κ ℓ} :
    {E : Type κ} {B : Type ℓ} (t : Bool) (e : E) (k : Attempt E B) {b : B}
    → (guard t e >> k) ≡ ok b
    → (t ≡ true) × (k ≡ ok b)
guard-eq_ok true e k h = (refl, h)
guard-eq_ok false e k h = cc

-- A sequence of checks goes through where each does.
pub >>-eq_ok {κ ℓ} :
    {E : Type κ} {B : Type ℓ} (m : Attempt E (Unit {0})) (k : Attempt E B) {b : B}
    → ((m >> k) ≡ ok b) ↔ ((m ≡ ok tt) × (k ≡ ok b))
>>-eq_ok (ok u) k = ground arith
>>-eq_ok (fail e) k = ground arith

pub guard_iff {κ} : {E : Type κ} (t : Bool) (e : E) → (guard t e ≡ ok tt) ↔ (t ≡ true)
guard_iff true e = ground arith
guard_iff false e = ground arith
