-- ===== src/Base/Failure.antt =====
-- What a fallible function of the program gives: a value, an error with its text, or a panic
-- (a failed `unwrap`, a slice out of range, an arithmetic overflow).
use Prim.Native.String.{String}
use mathlib.Core.Path.{◌≡◌, refl}
use mathlib.Core.Logic.{◌↔◌}
use mathlib.Core.Bool.{Bool, true, false}
use mathlib.Core.Option.{Option, none, some}

pub data Outcome {ℓ} (A : Type ℓ) : Type ℓ where
  ok : A → Outcome A
  err : String → Outcome A
  panic : Outcome A

infixl 5 ◌>>=◌ ◌>>◌
-- The operator `?`: what follows runs on the value.
abbrev pub ◌>>=◌ {ℓ κ} :
    {A : Type ℓ} {B : Type κ} → (step : Outcome A) (next : A → Outcome B) → Outcome B
panic >>= next = panic
err message >>= next = err message
ok value >>= next = next value

abbrev pub ◌>>◌ {κ} : {B : Type κ} (step : Outcome (Unit {0})) (next : Outcome B) → Outcome B
step >> next = step >>= λ done. next

-- Two steps in a row succeed exactly when both do.
pub >>-ok_iff : (m n : Outcome (Unit {0})) → ((m >> n) ≡ ok tt) ↔ ((m ≡ ok tt) × (n ≡ ok tt))
>>-ok_iff (ok tt) n = (λ h. (refl, h), λ h. h.1)
>>-ok_iff (err e) n = (λ h. absurd (cc), λ h. absurd (cc (h.0)))
>>-ok_iff panic n = (λ h. absurd (cc), λ h. absurd (cc (h.0)))

-- The parts of a step that succeeds.
module _ {ℓ κ} {A : Type ℓ} {B : Type κ} where
  pub >>=-eq-ok :
      (step : Outcome A) (next : A → Outcome B) {b : B}
      → (step >>= next) ≡ ok b
      → (value : A) × (step ≡ ok value) × (next value ≡ ok b)
  >>=-eq-ok panic next h = absurd (cc)
  >>=-eq-ok (err message) next h = absurd (cc)
  >>=-eq-ok (ok value) next h = (value, refl, h)

-- `ok_or`.
abbrev pub ok_or {ℓ} : {A : Type ℓ} → Option A → String → Outcome A
ok_or none e = err e
ok_or (some a) e = ok a

-- `unwrap`.
abbrev pub unwrap {ℓ} : {A : Type ℓ} → Option A → Outcome A
unwrap none = panic
unwrap (some a) = ok a

-- An early `return Err(e)` when the test holds.
abbrev pub fail_if : Bool → String → Outcome (Unit {0})
fail_if true e = err e
fail_if false e = ok tt

-- An overflow check or an index check.
abbrev pub panic_if : Bool → Outcome (Unit {0})
panic_if true = panic
panic_if false = ok tt

-- `let _ = step;`, of a step that gives its result and the state after it. A panic still ends it.
abbrev pub dropped {ℓ} : {S : Type ℓ} → Outcome (Unit {0}) × S → Outcome (Unit {0}) × S
dropped (ok _, s) = (ok tt, s)
dropped (err e, s) = (ok tt, s)
dropped (panic, s) = (panic, s)
