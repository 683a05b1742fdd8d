-- ===== src/Prelude/Tests.antt =====
-- Boolean tests: an interface of decidable equality with its instances, the order of native
-- numbers, the conditional and case rules.
use Prim.Native.Nat.{ℕ, compare, Ordering}
use Prim.Native.String.{String}
use mathlib.Core.Path.{◌≡◌, refl}
use mathlib.Core.Logic.{◌↔◌, ◌⊎◌, inl, inr}
use mathlib.Core.Bool.{Bool, true, false, ◌&&◌}
use mathlib.Core.Option.{Option, none, some}
use mathlib.Core.List.{List, [], ◌∷◌}
use native.Mathlib.Omega.{arith}
use text.Mathlib.Text.{◌==◌ as str_eq}
use text.Mathlib.TextEquality.{eq_iff}

-- These compute to `compare`, which `ground` reads with no lemma listed.
abbrev pub ltb : ℕ → ℕ → Bool
ltb a b = elim (compare a b) [ Ordering.lt ↦ true | _ ↦ false ]

abbrev pub leb : ℕ → ℕ → Bool
leb a b = elim (compare a b) [ Ordering.gt ↦ false | _ ↦ true ]

abbrev nat_beq : ℕ → ℕ → Bool
nat_beq a b = elim (compare a b) [ Ordering.eq ↦ true | _ ↦ false ]

infix 1 if◌then◌else◌
abbrev pub if◌then◌else◌ {ℓ} : {A : Type ℓ} → Bool → A → A → A
if true then x else y = x
if false then x else y = y

-- Python's `==` on the values of one type.
pub record Eq {κ} (V : Type κ) : Type κ where
  pub equals : (left right : V) → Bool
  pub equals_iff : (left right : V) → (equals left right ≡ true) ↔ (left ≡ right)

infix 50 ◌==◌
abbrev pub ◌==◌ {κ} : {V : Type κ} ⦃given : Eq V⦄ (left right : V) → Bool
◌==◌ ⦃given⦄ left right = given.equals left right

pub nat_beq_iff : (a b : ℕ) → (nat_beq a b ≡ true) ↔ (a ≡ b)
nat_beq_iff a b = ground arith

instance abbrev pub nat_eq : Eq ℕ
nat_eq = record { equals_iff = nat_beq_iff; equals = nat_beq }

instance abbrev pub string_eq : Eq String
string_eq = record { equals_iff = eq_iff; equals = str_eq }

abbrev bool_beq : Bool → Bool → Bool
bool_beq true b = b
bool_beq false true = false
bool_beq false false = true

pub bool_beq_iff : (a b : Bool) → (bool_beq a b ≡ true) ↔ (a ≡ b)
bool_beq_iff a b = ground arith

instance abbrev pub bool_eq : Eq Bool
bool_eq = record { equals_iff = bool_beq_iff; equals = bool_beq }

&&-split : (a b : Bool) → (a && b) ≡ true → (a ≡ true) × (b ≡ true)
&&-split a b h = ground arith

module _ {ℓ} {A : Type ℓ} ⦃e : Eq A⦄ where
  abbrev option_beq : Option A → Option A → Bool
  option_beq none none = true
  option_beq none (some b) = false
  option_beq (some a) none = false
  option_beq (some a) (some b) = a == b

  pub option_beq_iff : (a b : Option A) → (option_beq a b ≡ true) ↔ (a ≡ b)
  option_beq_iff none none = ((λ h. refl), λ h. refl)
  option_beq_iff none (some b) = ((λ h. cc), λ h. cc)
  option_beq_iff (some a) none = ((λ h. cc), λ h. cc)
  option_beq_iff (some a) (some b) =
      ((λ h. cc ((e.equals_iff a b).0 h)), λ h. (e.equals_iff a b).1 cc)

  instance abbrev pub option_eq : Eq (Option A)
  option_eq = record { equals_iff = option_beq_iff; equals = option_beq }

  abbrev pub list_beq : List A → List A → Bool
  list_beq [] [] = true
  list_beq [] (y ∷ ys) = false
  list_beq (x ∷ xs) [] = false
  list_beq (x ∷ xs) (y ∷ ys) = x == y && list_beq xs ys

  pub list_beq_iff : (xs ys : List A) → (list_beq xs ys ≡ true) ↔ (xs ≡ ys)
  list_beq_iff [] [] = ((λ h. refl), λ h. refl)
  list_beq_iff [] (y ∷ ys) = ((λ h. cc), λ h. cc)
  list_beq_iff (x ∷ xs) [] = ((λ h. cc), λ h. cc)
  list_beq_iff (x ∷ xs) (y ∷ ys) = (
    (λ h.
        let (same, rest) = &&-split (x == y) (list_beq xs ys) h in
        cc ((e.equals_iff x y).0 same, (list_beq_iff xs ys).0 rest)),
    λ h. ground (arith, (e.equals_iff x y).1 cc, (list_beq_iff xs ys).1 cc),
  )

  instance abbrev pub list_eq : Eq (List A)
  list_eq = record { equals_iff = list_beq_iff; equals = list_beq }

  pub ==→≡ : (a b : A) → (a == b) ≡ true → a ≡ b
  ==→≡ a b h = (e.equals_iff a b).0 h

  pub ==-refl : (a : A) → (a == a) ≡ true
  ==-refl a = (e.equals_iff a a).1 refl

-- To split on a computed value and keep the equation.
pub Bool-cases : (b : Bool) → (b ≡ true) ⊎ (b ≡ false)
Bool-cases true = inl refl
Bool-cases false = inr refl

pub Option-cases {ℓ} : {A : Type ℓ} (o : Option A) → (o ≡ none) ⊎ ((a : A) × (o ≡ some a))
Option-cases none = inl refl
Option-cases (some a) = inr (a, refl)

pub &&-true : (a b : Bool) → (a && b) ≡ true → (a ≡ true) × (b ≡ true)
&&-true a b h = ground arith

abbrev pub is_some {ℓ} : {A : Type ℓ} → Option A → Bool
is_some none = false
is_some (some a) = true

-- An optional argument, and the value that it has when it is left out.
abbrev pub value_or {ℓ} : {A : Type ℓ} → Option A → A → A
value_or none a = a
value_or (some b) a = b
