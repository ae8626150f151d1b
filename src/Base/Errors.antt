-- ===== src/Base/Errors.antt =====
-- Go's `error` values: the format and the arguments of a `fmt.Errorf`, and the sentinels that the
-- driver tells apart. The text that a user reads is not rendered.
use Prim.Native.Nat.{ℕ}
use gitrepo_csi_driver.Base.Int.{ℤ}
use Prim.Native.String.{String}
use mathlib.Core.List.{List}
use mathlib.Core.Path.{◌≡◌, refl}
use mathlib.Core.Logic.{◌⊎◌, inl, inr}

pub data Arg : Type 0 where
  bytes : List ℕ → Arg
  number : ℤ → Arg

-- `wrapf` is a format with one `%w`; `other` is an error of the system or of a foreign library.
pub data Error : Type 0 where
  errorf : String → List Arg → Error
  wrapf : String → Error → Error
  deadline_exceeded : Error
  mount_error : (http_status : ℕ) → Error → Error
  other : ℕ → Error

-- A Go function's `(T, error)`: the error, or the value where the error is nil.
pub data Result {ℓ} (Value : Type ℓ) : Type ℓ where
  err : Error → Result Value
  ok : Value → Result Value

pub ok_inj {ℓ} : {Value : Type ℓ} {a b : Value} → ok a ≡ ok b → a ≡ b
ok_inj e = cc

-- `if err != nil { return err }`, for a step that has a value and for one that has none.
infixl 5 ◌>>=◌ ◌>>◌
abbrev pub ◌>>=◌ {κ ℓ} :
    {Value : Type κ} {Next : Type ℓ} → Result Value → (Value → Result Next) → Result Next
err e >>= next = err e
ok value >>= next = next value

abbrev pub ◌>>◌ {ℓ} : {Next : Type ℓ} → Result (Unit {0}) → Result Next → Result Next
err e >> next = err e
ok _ >> next = next

pub Result-cases {ℓ} :
    {Value : Type ℓ} (r : Result Value)
    → ((e : Error) × (r ≡ err e)) ⊎ ((value : Value) × (r ≡ ok value))
Result-cases (err e) = inl (e, refl)
Result-cases (ok value) = inr (value, refl)

-- A chain succeeds only if its first step does.
pub >>=-eq-ok {κ ℓ} :
    {Value : Type κ} {Next : Type ℓ} {last : Next} (step : Result Value)
    (next : Value → Result Next)
    → (step >>= next) ≡ ok last
    → (value : Value) × (step ≡ ok value) × (next value ≡ ok last)
>>=-eq-ok (err e) next h = cc
>>=-eq-ok (ok value) next h = (value, refl, h)

pub >>-eq-ok {ℓ} :
    {Next : Type ℓ} {last : Next} (step : Result (Unit {0})) (next : Result Next)
    → (step >> next) ≡ ok last
    → (step ≡ ok tt) × (next ≡ ok last)
>>-eq-ok (err e) next h = cc
>>-eq-ok (ok u) next h = (refl, h)
