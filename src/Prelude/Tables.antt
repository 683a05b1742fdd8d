-- ===== src/Prelude/Tables.antt =====
-- A database table as the list of its rows, with the queries and writes that the code makes.
use Prim.Native.Nat.{ℕ}
use mathlib.Core.Path.{◌≡◌, refl, sym, ap, ◌∙◌}
use mathlib.Core.Logic.{◌⊎◌, inl, inr}
use mathlib.Core.Bool.{Bool, true, false, ◌||◌, not}
use mathlib.Core.Option.{Option, none, some}
use mathlib.Core.List.{List, [], ◌∷◌, ◌++◌, Memᴰ}
use native.Mathlib.Omega.{arith}
use hustly_tasker.Prelude.Results.{Result, ok, ◌>>◌, guard, integrity_error}
use hustly_tasker.Prelude.Tests.{
  ltb, ◌==◌, nat_eq, if◌then◌else◌, Bool-cases, Option-cases, is_some,
}

-- Rows with a primary key.
pub record Keyed (A : Type 0) : Type 0 where
  pub key : A → ℕ

-- An identifier as it comes from a request: a UUID, or a value that is none (the ORM raises
-- ValueError or ValidationError, and the callers treat it as an id that no row has).
pub data Ref : Type 0 where
  uuid : ℕ → Ref
  malformed : Ref

abbrev pub refers : Ref → ℕ → Bool
refers (uuid n) k = k == n
refers malformed k = false

module _ {A : Type 0} where
  -- `.exists()`
  unfoldable pub exists : (A → Bool) → List A → Bool
  exists p [] = false
  exists p (x ∷ xs) = p x || exists p xs

  -- `.filter(...)`
  unfoldable pub rows : (A → Bool) → List A → List A
  rows p [] = []
  rows p (x ∷ xs) = let rest = rows p xs in if p x then x ∷ rest else rest

  -- `UPDATE ... SET ... WHERE ...`
  unfoldable pub update_where : (A → Bool) → (A → A) → List A → List A
  update_where p f [] = []
  update_where p f (x ∷ xs) = (if p x then f x else x) ∷ update_where p f xs

module _ {A : Type 0} ⦃k : Keyed A⦄ where
  -- Of two candidates the one with the smaller key.
  abbrev earlier : A → Option A → A
  earlier x none = x
  earlier x (some y) = if ltb (k.key y) (k.key x) then y else x

  -- `.filter(...).first()`: on a queryset without an order of its own, the least primary key.
  unfoldable pub first : (A → Bool) → List A → Option A
  first p [] = none
  first p (x ∷ xs) = let rest = first p xs in if p x then some (earlier x rest) else rest

  -- The row with this key, changed: `row.save(update_fields=...)`.
  abbrev pub save : ℕ → (A → A) → List A → List A
  save i f = update_where (λ r. k.key r == i) f

pub uncons : {A : Type 0} {x y : A} {xs : List A} → Memᴰ x (y ∷ xs) → (x ≡ y) ⊎ Memᴰ x xs
uncons (Memᴰ.head e) = inl e
uncons (Memᴰ.tail m) = inr m

module _ {A : Type 0} (p : A → Bool) where
  pub exists_intro : (xs : List A) {x : A} → Memᴰ x xs → p x ≡ true → exists p xs ≡ true
  unfolding exists
  exists_intro [] m h = elim m [ ]
  exists_intro (y ∷ xs) (Memᴰ.head e) h = ground arith
  exists_intro (y ∷ xs) (Memᴰ.tail m) h = ground (arith, exists_intro xs m h)

  pub exists_elim : (xs : List A) → exists p xs ≡ true → (x : A) × Memᴰ x xs × (p x ≡ true)
  unfolding exists
  exists_elim [] h = cc
  exists_elim (x ∷ xs) h = elim (Bool-cases (p x)) [
    | inl e ↦ (x, Memᴰ.head refl, e)
    | inr e ↦ let (y, m, py) = exists_elim xs (ground arith) in (y, Memᴰ.tail m, py)
  ]

  pub exists_none : (xs : List A) {x : A} → exists p xs ≡ false → Memᴰ x xs → p x ≡ false
  exists_none xs {x} h m = elim (Bool-cases (p x)) [ inl e ↦ cc (exists_intro xs m e) | inr e ↦ e ]

  pub rows-mem : (xs : List A) {x : A} → Memᴰ x (rows p xs) → Memᴰ x xs × (p x ≡ true)
  unfolding rows
  rows-mem [] m = elim m [ ]
  rows-mem (y ∷ xs) {x} m = elim (Bool-cases (p y)) [
    | inl e ↦ elim (uncons (rw (e, rows) at m)) [
      | inl same ↦ (Memᴰ.head same, ap p same ∙ e)
      | inr m' ↦ let (mx, px) = rows-mem xs m' in (Memᴰ.tail mx, px)
    ]
    | inr e ↦ let (mx, px) = rows-mem xs (rw (e, rows) at m) in (Memᴰ.tail mx, px)
  ]

  pub mem-rows : (xs : List A) {x : A} → Memᴰ x xs → p x ≡ true → Memᴰ x (rows p xs)
  unfolding rows
  mem-rows [] m h = elim m [ ]
  mem-rows (y ∷ xs) (Memᴰ.head e) h = rw (ap p (sym e) ∙ h, rows) (Memᴰ.head e)
  mem-rows (y ∷ xs) (Memᴰ.tail m) h = elim (Bool-cases (p y)) [
    | inl e ↦ rw (e, rows) (Memᴰ.tail (mem-rows xs m h))
    | inr e ↦ rw (e, rows) (mem-rows xs m h)
  ]

module _ {A : Type 0} ⦃k : Keyed A⦄ (p : A → Bool) where
  first-cons :
      (y x : A) (xs : List A)
      → first p (y ∷ xs) ≡ some x
      → ((p y ≡ true) × (y ≡ x)) ⊎ (first p xs ≡ some x)
  unfolding first
  first-cons y x xs h = ground arith

  pub first_sound : (xs : List A) {x : A} → first p xs ≡ some x → (p x ≡ true) × Memᴰ x xs
  unfolding first
  first_sound [] h = cc
  first_sound (y ∷ xs) {x} h = elim (first-cons y x xs h) [
    | inl (py, e) ↦ (rw (← e) py, Memᴰ.head (sym e))
    | inr found ↦ let (px, m) = first_sound xs found in (px, Memᴰ.tail m)
  ]

  pub first-exists : (xs : List A) → is_some (first p xs) ≡ exists p xs
  unfolding first exists
  first-exists [] = refl
  first-exists (y ∷ xs) = ground (arith, first-exists xs)

  pub first_complete :
      (xs : List A) {x : A} → Memᴰ x xs → p x ≡ true → (y : A) × (first p xs ≡ some y)
  first_complete xs m h = elim (Option-cases (first p xs)) [
    | inl e ↦ cc (first-exists xs, exists_intro p xs m h, ap is_some e)
    | inr found ↦ found
  ]

  pub first_unique :
      (xs : List A) {x : A}
      → Memᴰ x xs
      → p x ≡ true
      → ((y : A) → Memᴰ y xs → p y ≡ true → y ≡ x)
      → first p xs ≡ some x
  first_unique xs m h only =
      let (y, found) = first_complete xs m h in
      let (py, my) = first_sound xs found in found ∙ ap some (only y my py)

module _ {A : Type 0} ⦃k : Keyed A⦄ where
  -- `row.save()` of a new row: the primary key must be free.
  unfoldable pub insert : A → List A → Result (List A)
  insert row table = do
    guard (not (exists (λ r. k.key r == k.key row) table)) integrity_error
    ok (table ++ row ∷ [])
