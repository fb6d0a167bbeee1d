-- ===== src/Prelude/Exceptions.antt =====
-- C++ exceptions as values: a constructor for each class of exception that the sources throw, with
-- its message, and the monad of computations that may throw.
use Prim.Native.String.{String}
use mathlib.Core.Bool.{Bool, true, false}
use mathlib.Core.Path.{◌≡◌, refl}

pub data Exception : Type 0 where
  invalid_argument : String → Exception
  runtime_error : String → Exception
  overflow_error : String → Exception

-- What a call yields: the exception that leaves it, or its value.
pub data Result {ℓ} (A : Type ℓ) : Type ℓ where
  throw : Exception → Result A
  ok : A → Result A

infixl 5 ◌>>=◌ ◌>>◌
-- `if (b) throw e;`
abbrev pub throw_if : Bool → Exception → Result (Unit {0})
throw_if false e = ok tt
throw_if true e = throw e

-- The statement after a call runs on the value of the call.
abbrev pub ◌>>=◌ {ℓ₁ ℓ₂} :
    {X : Type ℓ₁} {Y : Type ℓ₂} (call : Result X) (rest : X → Result Y) → Result Y
throw e >>= rest = throw e
ok x >>= rest = rest x

-- The same where the call yields nothing.
abbrev pub ◌>>◌ {ℓ₁} : {Y : Type ℓ₁} (call : Result (Unit {0})) (rest : Result Y) → Result Y
call >> rest = call >>= λ nothing. rest

-- Two statements that return a value both returned.
pub >>=-eq-ok {ℓ₁ ℓ₂} :
    {X : Type ℓ₁} {Y : Type ℓ₂} (call : Result X) (rest : X → Result Y) {y : Y}
    → (call >>= rest) ≡ ok y
    → (x : X) × (call ≡ ok x) × (rest x ≡ ok y)
>>=-eq-ok (throw e) rest returned = cc
>>=-eq-ok (ok x) rest returned = (x, refl, returned)

-- A return after a guard: the guard did not throw.
pub throw_if-eq-ok {ℓ₁} :
    {Y : Type ℓ₁} (test : Bool) (e : Exception) (rest : Result Y) {y : Y}
    → (throw_if test e >> rest) ≡ ok y
    → (test ≡ false) × (rest ≡ ok y)
throw_if-eq-ok false e rest returned = (refl, returned)
throw_if-eq-ok true e rest returned = absurd (cc returned)

-- What holds of the value of a call, if it returns one.
unfoldable pub Ensures {ℓ₁ ℓ₂} : {X : Type ℓ₁} → (X → Type ℓ₂) → Result X → Type ℓ₂
Ensures P (throw e) = Unit
Ensures P (ok x) = P x

pub >>=-Ensures {ℓ₁ ℓ₂ ℓ₃ ℓ₄} :
    {X : Type ℓ₁} {Y : Type ℓ₂} (P : X → Type ℓ₃) (Q : Y → Type ℓ₄) (call : Result X)
    (rest : X → Result Y)
    → Ensures P call
    → ((x : X) → P x → Ensures Q (rest x))
    → Ensures Q (call >>= rest)
unfolding Ensures
>>=-Ensures P Q (throw e) rest holds next = tt
>>=-Ensures P Q (ok x) rest holds next = next x holds

-- A call of which nothing is known.
pub any-Ensures {ℓ₁ ℓ₂ ℓ₃} :
    {X : Type ℓ₁} {Y : Type ℓ₂} (Q : Y → Type ℓ₃) (call : Result X) (rest : X → Result Y)
    → ((x : X) → Ensures Q (rest x))
    → Ensures Q (call >>= rest)
unfolding Ensures
any-Ensures Q (throw e) rest next = tt
any-Ensures Q (ok x) rest next = next x

pub throw_if-Ensures {ℓ₁ ℓ₂} :
    {Y : Type ℓ₁} (Q : Y → Type ℓ₂) (test : Bool) (e : Exception) (rest : Result Y)
    → (test ≡ false → Ensures Q rest)
    → Ensures Q (throw_if test e >> rest)
unfolding Ensures
throw_if-Ensures Q false e rest next = next refl
throw_if-Ensures Q true e rest next = tt

pub ok-Ensures {ℓ₁ ℓ₂} : {X : Type ℓ₁} (P : X → Type ℓ₂) (x : X) → P x → Ensures P (ok x)
unfolding Ensures
ok-Ensures P x holds = holds
