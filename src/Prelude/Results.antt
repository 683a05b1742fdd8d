-- ===== src/Prelude/Results.antt =====
-- The exceptions that the services raise, and computations that may raise one.
use Prim.Native.String.{String}
use mathlib.Core.Path.{◌≡◌, refl}
use mathlib.Core.Logic.{◌⊎◌, inl, inr}
use mathlib.Core.Bool.{Bool, true, false}
use mathlib.Core.Option.{Option, none, some}
use native.Mathlib.Omega.{arith}

-- The exception classes, without their messages; a string names the field that is at fault.
pub data Error : Type 0 where
  tenant_access_not_found : Error
  permission_denied : Error
  validation_error : String → Error
  does_not_exist : Error
  integrity_error : Error
  last_active_profile_owner : Error
  workspace_membership_conflict : Error
  workspace_period_conflict : Error
  invalid_workspace_membership_reference : String → Error
  task_workflow_conflict : Error
  task_assignment_conflict : Error
  deliverable_review_conflict : Error
  invalid_task_assignment_reference : Error
  ambiguous_account_identity : Error
  ambiguous_invitation_identity : Error
  invitation_conflict : Error
  invitation_rate_limit_exceeded : Error
  invitation_delivery_unavailable : Error
  account_security_conflict : Error
  account_security_delivery_unavailable : Error
  unicode_encode_error : Error
  database_error : Error

pub data Result {μ} (Value : Type μ) : Type μ where
  err : Error → Result Value
  ok : Value → Result Value

-- What a service does after its transaction has committed: it returns a value, or raises.
pub data Outcome {μ} (Value : Type μ) : Type μ where
  returned : Value → Outcome Value
  raised : Error → Outcome Value

-- `if not test: raise e`
abbrev pub guard : (test : Bool) → Error → Result (Unit {0})
guard false exception = err exception
guard true exception = ok tt

-- `if row is None: raise e`
abbrev pub or_raise {μ} : {Row : Type μ} → Option Row → Error → Result Row
or_raise (some row) exception = ok row
or_raise none exception = err exception

infixl 5 ◌>>=◌ ◌>>◌
-- The statements after one that may raise.
abbrev pub ◌>>=◌ {μ ν} :
    {X : Type μ} {Y : Type ν} (first : Result X) (rest : X → Result Y) → Result Y
err exception >>= rest = err exception
ok value >>= rest = rest value

pub >>=-eq-ok {μ ν} :
    {X : Type μ} {Y : Type ν} (first : Result X) (rest : X → Result Y) {y : Y}
    → (first >>= rest) ≡ ok y
    → (x : X) × (first ≡ ok x) × (rest x ≡ ok y)
>>=-eq-ok (err exception) rest h = cc
>>=-eq-ok (ok value) rest h = (value, refl, h)

abbrev pub ◌>>◌ {ν} : {Y : Type ν} (check : Result (Unit {0})) (rest : Result Y) → Result Y
check >> rest = check >>= λ _. rest

-- `except IntegrityError: raise e`
abbrev pub integrity_as {ℓ} : {A : Type ℓ} → Error → Result A → Result A
integrity_as e (err integrity_error) = err e
integrity_as e other = other

-- `except Exception as exc: raise e`, for a block that raises only what is caught.
abbrev pub raising {ℓ} : {A : Type ℓ} → Error → Result A → Result A
raising e (err x) = err e
raising e (ok a) = ok a

pub raising-eq-ok {ℓ} :
    {A : Type ℓ} (e : Error) (r : Result A) {a : A} → raising e r ≡ ok a → r ≡ ok a
raising-eq-ok e (ok b) h = h
raising-eq-ok e (err x) h = cc

-- The same for a lookup that must succeed, and for a guard.
pub or_raise_bind {ℓ κ} :
    {A : Type ℓ} {B : Type κ} (o : Option A) (e : Error) (f : A → Result B) {b : B}
    → (or_raise o e >>= f) ≡ ok b
    → (a : A) × (o ≡ some a) × (f a ≡ ok b)
or_raise_bind none e f h = cc
or_raise_bind (some a) e f h = (a, refl, h)

pub guard_bind {ℓ} :
    {B : Type ℓ} (t : Bool) (e : Error) (r : Result B) {b : B}
    → (guard t e >> r) ≡ ok b
    → (t ≡ true) × (r ≡ ok b)
guard_bind true e r h = (refl, h)
guard_bind false e r h = cc

-- The same as case rules, for chains: what follows is proved for any value that was returned.
module _ {ℓ κ μ} {A : Type ℓ} {B : Type κ} {b : B} {C : Type μ} where
  pub >>=-elim :
      (m : Result A) (f : A → Result B)
      → (m >>= f) ≡ ok b
      → ((a : A) → m ≡ ok a → f a ≡ ok b → C)
      → C
  >>=-elim m f h k = let (a, e, rest) = >>=-eq-ok m f h in k a e rest

  pub or_raise-elim :
      (o : Option A) (e : Error) (f : A → Result B)
      → (or_raise o e >>= f) ≡ ok b
      → ((a : A) → o ≡ some a → f a ≡ ok b → C)
      → C
  or_raise-elim o e f h k = let (a, found, rest) = or_raise_bind o e f h in k a found rest

module _ {ℓ μ} {B : Type ℓ} {b : B} {C : Type μ} where
  pub guard-elim :
      (t : Bool) (e : Error) (r : Result B)
      → (guard t e >> r) ≡ ok b
      → (t ≡ true → r ≡ ok b → C)
      → C
  guard-elim t e r h k = let (passed, rest) = guard_bind t e r h in k passed rest

pub integrity_as-eq-ok {ℓ} :
    {A : Type ℓ} (e : Error) (r : Result A) {a : A} → integrity_as e r ≡ ok a → r ≡ ok a
integrity_as-eq-ok e (ok b) h = h
integrity_as-eq-ok e (err x) h = ground arith

pub ok-injective {ℓ} : {A : Type ℓ} {a b : A} → ok a ≡ ok b → a ≡ b
ok-injective h = cc

pub or_raise-eq-ok {ℓ} :
    {A : Type ℓ} (o : Option A) (e : Error) {a : A} → or_raise o e ≡ ok a → o ≡ some a
or_raise-eq-ok none e h = cc
or_raise-eq-ok (some b) e h = cc

pub guard-eq-ok : (t : Bool) (e : Error) → guard t e ≡ ok tt → t ≡ true
guard-eq-ok true e h = refl
guard-eq-ok false e h = cc

pub Result-cases {ℓ} :
    {A : Type ℓ} (r : Result A) → ((e : Error) × (r ≡ err e)) ⊎ ((a : A) × (r ≡ ok a))
Result-cases (err e) = inl (e, refl)
Result-cases (ok a) = inr (a, refl)

pub raised_not {ℓ} : {A : Type ℓ} {e : Error} {a : A} → raised e ≡ returned a → ⊥
raised_not h = cc
