-- ===== src/Materializer/Action.antt =====
-- Steps that record their calls of the system and of git in a trace, and stop at the first error.
use gitrepo_csi_driver.Base.{
  ap, ◌≡◌, refl, List, [], ◌∷◌, ◌++◌, String, Result, ok, err, wrapf, All, All-append, Bool, true,
  false, if◌then◌else◌,
}

-- What a step returns behind a trace, and the trace behind it.
abbrev pub Action : Type 0 → Type 0 → Type 0
Action Call Value = List Call → Result Value × List Call

abbrev pub after :
    {Call A B : Type 0} → Result A × List Call → (A → Action Call B) → Result B × List Call
after (err e, trace) next = (err e, trace)
after (ok value, trace) next = next value trace

infixl 5 ◌>>=◌ ◌>>◌
unfoldable pub ◌>>=◌ : {Call A B : Type 0} → Action Call A → (A → Action Call B) → Action Call B
(action >>= next) trace = after (action trace) next

unfoldable pub ◌>>◌ : {Call B : Type 0} → Action Call (Unit {0}) → Action Call B → Action Call B
(action >> next) trace = after (action trace) (λ _. next)

-- A result that no call gives.
unfoldable pub lift : {Call A : Type 0} → Result A → Action Call A
lift result trace = (result, trace)

abbrev pub wrap_result : {A : Type 0} → String → Result A → Result A
wrap_result format (err e) = err (wrapf format e)
wrap_result format (ok value) = ok value

-- `fmt.Errorf(format, err)` where the step has an error.
unfoldable pub wrap : {Call A : Type 0} → String → Action Call A → Action Call A
wrap format action trace = let (r, after_it) = action trace in (wrap_result format r, after_it)

-- A call, whose answer may depend on the calls before it.
unfoldable pub call : {Call A : Type 0} → (List Call → Result A) → Call → Action Call A
call answer c trace = (answer (trace ++ c ∷ []), trace ++ c ∷ [])

-- All calls of a trace have a property, and a step adds no others.
unfoldable pub Keeps : {Call A : Type 0} → (Call → Type 0) → Action Call A → Type 0
Keeps {Call} P action = (trace : List Call) → All P trace → All P (action trace).1

module _ {Call : Type 0} (P : Call → Type 0) where
  pub Keeps->>= :
      {A B : Type 0} (action : Action Call A) (next : A → Action Call B)
      → Keeps P action
      → ((value : A) → Keeps P (next value))
      → Keeps P (action >>= next)
  unfolding Keeps ◌>>=◌
  Keeps->>= action next h k trace t = step (action trace) (h trace t)
    where
      step : (r : Result _ × List Call) → All P r.1 → All P (after r next).1
      step (err e, later) l = l
      step (ok value, later) l = k value later l

  pub Keeps->> :
      {B : Type 0} (action : Action Call (Unit {0})) (next : Action Call B)
      → Keeps P action
      → Keeps P next
      → Keeps P (action >> next)
  unfolding Keeps ◌>>◌ ◌>>=◌
  Keeps->> action next h k trace t = Keeps->>= action (λ _. next) h (λ _. k) trace t

  pub Keeps-lift : {A : Type 0} (r : Result A) → Keeps P (lift r)
  unfolding Keeps lift
  Keeps-lift r trace t = t

  -- What follows a test knows that it has passed.
  pub Keeps-lift_then :
      {A B : Type 0} (r : Result A) (next : A → Action Call B)
      → ((value : A) → r ≡ ok value → Keeps P (next value))
      → Keeps P (lift r >>= next)
  unfolding Keeps lift ◌>>=◌
  Keeps-lift_then (err e) next k trace t = t
  Keeps-lift_then (ok value) next k trace t = k value refl trace t

  pub Keeps-lift_pass :
      {B : Type 0} (r : Result (Unit {0})) (next : Action Call B)
      → (r ≡ ok tt → Keeps P next)
      → Keeps P (lift r >> next)
  unfolding Keeps lift ◌>>◌ ◌>>=◌
  Keeps-lift_pass (err e) next k trace t = t
  Keeps-lift_pass (ok value) next k trace t = k refl trace t

  pub Keeps-wrap :
      {A : Type 0} (format : String) (action : Action Call A)
      → Keeps P action
      → Keeps P (wrap format action)
  unfolding Keeps wrap
  Keeps-wrap format action h trace t = h trace t

  pub Keeps-call :
      {A : Type 0} (answer : List Call → Result A) (c : Call) → P c → Keeps P (call answer c)
  unfolding Keeps call
  Keeps-call answer c p trace t = All-append P trace (c ∷ []) t (p, tt)

  pub Keeps-if :
      {A : Type 0} (b : Bool) (left right : Action Call A)
      → Keeps P left
      → Keeps P right
      → Keeps P (if b then left else right)
  Keeps-if true left right h k = h
  Keeps-if false left right h k = k

-- A chain that succeeds has run through its first step.
pub after-ok :
    {Call A B : Type 0} (r : Result A × List Call) (next : A → Action Call B) (last : B)
    → (after r next).0 ≡ ok last
    → (value : A) × (later : List Call) × (r ≡ (ok value, later)) × ((next value later).0 ≡ ok last)
after-ok (err e, trace) next last h = cc
after-ok (ok value, trace) next last h = (value, trace, refl, h)

-- The same with the trace: a chain that succeeds is what follows its first step.
after-runs :
    {Call A B : Type 0} (r : Result A × List Call) (next : A → Action Call B) (last : B)
    → (after r next).0 ≡ ok last
    → (value : A) × (later : List Call) × (r ≡ (ok value, later))
      × (after r next ≡ next value later)
      × ((next value later).0 ≡ ok last)
after-runs (err e, trace) next last h = cc
after-runs (ok value, trace) next last h = (value, trace, refl, refl, h)

pub >>=-runs :
    {Call A B : Type 0} (action : Action Call A) (next : A → Action Call B) (trace : List Call)
    (last : B)
    → ((action >>= next) trace).0 ≡ ok last
    → (value : A) × (later : List Call) × (action trace ≡ (ok value, later))
      × ((action >>= next) trace ≡ next value later)
      × ((next value later).0 ≡ ok last)
unfolding ◌>>=◌
>>=-runs action next trace last h = after-runs (action trace) next last h

pub >>-runs :
    {Call B : Type 0} (action : Action Call (Unit {0})) (next : Action Call B) (trace : List Call)
    (last : B)
    → ((action >> next) trace).0 ≡ ok last
    → (later : List Call) × (action trace ≡ (ok tt, later))
      × ((action >> next) trace ≡ next later)
      × ((next later).0 ≡ ok last)
unfolding ◌>>◌ ◌>>=◌
>>-runs action next trace last h =
    let (u, later, e, r, k) = after-runs (action trace) (λ _. next) last h in (later, e, r, k)

pub >>-ok :
    {Call B : Type 0} (action : Action Call (Unit {0})) (next : Action Call B) (trace : List Call)
    (last : B)
    → ((action >> next) trace).0 ≡ ok last
    → (later : List Call) × ((next later).0 ≡ ok last)
unfolding ◌>>◌ ◌>>=◌
>>-ok action next trace last h =
    let (u, later, _, k) = after-ok (action trace) (λ _. next) last h in (later, k)

pub lift_pass-ok :
    {Call B : Type 0} (r : Result (Unit {0})) (next : Action Call B) (trace : List Call) (last : B)
    → ((lift r >> next) trace).0 ≡ ok last
    → (r ≡ ok tt) × ((next trace).0 ≡ ok last)
unfolding ◌>>◌ ◌>>=◌ lift
lift_pass-ok (err e) next trace last h = cc
lift_pass-ok (ok _) next trace last h = (refl, h)

pub >>=-ok :
    {Call A B : Type 0} (action : Action Call A) (next : A → Action Call B) (trace : List Call)
    (last : B)
    → ((action >>= next) trace).0 ≡ ok last
    → (value : A) × (later : List Call) × ((action trace).0 ≡ ok value)
      × ((next value later).0 ≡ ok last)
unfolding ◌>>=◌
>>=-ok action next trace last h =
    let (value, later, e, k) = after-ok (action trace) next last h in
    (value, later, ap (λ r. r.0) e, k)

pub lift-ok :
    {Call A : Type 0} (r : Result A) (trace : List Call) (last : A)
    → (lift r trace).0 ≡ ok last
    → r ≡ ok last
unfolding lift
lift-ok r trace last h = h
