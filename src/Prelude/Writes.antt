-- ===== src/Prelude/Writes.antt =====
-- Which rows a table has after a write.
use Prim.Native.Nat.{ℕ}
use mathlib.Core.Path.{◌≡◌, refl, sym, ap, ◌∙◌}
use mathlib.Core.Logic.{◌⊎◌, inl, inr}
use mathlib.Core.Bool.{Bool, true, false, not, ◌&&◌}
use mathlib.Core.List.{List, [], ◌∷◌, ◌++◌, Memᴰ}
use native.Mathlib.Omega.{arith}
use hustly_tasker.Prelude.Results.{ok, guard_bind, ok-injective}
use hustly_tasker.Prelude.Tests.{◌==◌, nat_eq, Bool-cases}
use hustly_tasker.Prelude.Tables.{Keyed, exists, exists_none, update_where, save, insert, uncons}

-- No two rows share the value of `f`.
abbrev pub UniqueBy : {A B : Type 0} → (A → B) → List A → Type 0
UniqueBy {A} f xs = (x y : A) → Memᴰ x xs → Memᴰ y xs → f x ≡ f y → x ≡ y

module _ {A : Type 0} where
  pub mem-append_left : (xs ys : List A) {x : A} → Memᴰ x xs → Memᴰ x (xs ++ ys)
  mem-append_left [] ys m = elim m [ ]
  mem-append_left (y ∷ xs) ys (Memᴰ.head e) = Memᴰ.head e
  mem-append_left (y ∷ xs) ys (Memᴰ.tail m) = Memᴰ.tail (mem-append_left xs ys m)

  pub mem-append_last : (xs : List A) (y : A) → Memᴰ y (xs ++ y ∷ [])
  mem-append_last [] y = Memᴰ.head refl
  mem-append_last (x ∷ xs) y = Memᴰ.tail (mem-append_last xs y)

  pub mem-append_one : (xs : List A) (y : A) {x : A} → Memᴰ x (xs ++ y ∷ []) → Memᴰ x xs ⊎ (x ≡ y)
  mem-append_one [] y m = elim (uncons m) [ inl e ↦ inr e | inr m' ↦ elim m' [ ] ]
  mem-append_one (z ∷ xs) y m = elim (uncons m) [
    | inl e ↦ inl (Memᴰ.head e)
    | inr m' ↦ elim (mem-append_one xs y m') [ inl old ↦ inl (Memᴰ.tail old) | inr e ↦ inr e ]
  ]

module _ {A : Type 0} (p : A → Bool) (f : A → A) where
  pub update_where-mem :
      (xs : List A) {y : A}
      → Memᴰ y (update_where p f xs)
      → (x : A) × Memᴰ x xs × ((p x ≡ true) × (y ≡ f x) ⊎ (p x ≡ false) × (y ≡ x))
  unfolding update_where
  update_where-mem [] m = elim m [ ]
  update_where-mem (z ∷ xs) {y} m = elim (uncons m) [
    | inl e ↦ elim (Bool-cases (p z)) [
      | inl t ↦ (z, Memᴰ.head refl, inl (t, rw t at e))
      | inr t ↦ (z, Memᴰ.head refl, inr (t, rw t at e))
    ]
    | inr m' ↦ let (x, mx, c) = update_where-mem xs m' in (x, Memᴰ.tail mx, c)
  ]

  pub mem-update_where_hit :
      (xs : List A) {x : A} → Memᴰ x xs → p x ≡ true → Memᴰ (f x) (update_where p f xs)
  unfolding update_where
  mem-update_where_hit [] m t = elim m [ ]
  mem-update_where_hit (z ∷ xs) (Memᴰ.head e) t = Memᴰ.head (ground (arith, ap f e, ap p e))
  mem-update_where_hit (z ∷ xs) (Memᴰ.tail m) t = Memᴰ.tail (mem-update_where_hit xs m t)

  pub mem-update_where_miss :
      (xs : List A) {x : A} → Memᴰ x xs → p x ≡ false → Memᴰ x (update_where p f xs)
  unfolding update_where
  mem-update_where_miss [] m t = elim m [ ]
  mem-update_where_miss (z ∷ xs) (Memᴰ.head e) t = Memᴰ.head (ground (arith, ap p e))
  mem-update_where_miss (z ∷ xs) (Memᴰ.tail m) t = Memᴰ.tail (mem-update_where_miss xs m t)

module _ {A : Type 0} ⦃k : Keyed A⦄ where
  pub insert_lem :
      (row : A) (table : List A) {after : List A}
      → insert row table ≡ ok after
      → (after ≡ table ++ row ∷ []) × ((x : A) → Memᴰ x table → (k.key x == k.key row) ≡ false)
  unfolding insert
  insert_lem row table h =
      let (free, e) = guard_bind (not (exists (λ r. k.key r == k.key row) table)) _ _ h in
      (sym (ok-injective e), λ x m. exists_none (λ r. k.key r == k.key row) table (ground arith) m)

  -- A new row keeps primary keys unique.
  pub insert-UniqueBy :
      (row : A) (table : List A) {after : List A}
      → insert row table ≡ ok after
      → UniqueBy k.key table
      → UniqueBy k.key after
  insert-UniqueBy row table {after} h unique = rw (insert_lem row table h).0 λ x y mx my same.
      let fresh = (insert_lem row table h).1 in
      elim (mem-append_one table row mx) [
        | inl ox ↦ elim (mem-append_one table row my) [
          | inl oy ↦ unique x y ox oy same
          | inr ey ↦ absurd (ground (arith, fresh x ox, ap k.key ey))
        ]
        | inr ex ↦ elim (mem-append_one table row my) [
          | inl oy ↦ absurd (ground (arith, fresh y oy, ap k.key ex))
          | inr ey ↦ cc
        ]
      ]

  -- Writing columns other than the key keeps primary keys unique.
  pub update_where-UniqueBy :
      (test : A → Bool) (f : A → A) (table : List A)
      → ((x : A) → k.key (f x) ≡ k.key x)
      → UniqueBy k.key table
      → UniqueBy k.key (update_where test f table)
  update_where-UniqueBy test f table keeps unique x y mx my same =
      let (a, ma, ca) = update_where-mem test f table mx in
      let (b, mb, cb) = update_where-mem test f table my in
      let same_key : k.key a ≡ k.key b = elim ca [
        | inl (ta, ex) ↦ elim cb [
          | inl (tb, ey) ↦ cc (ap k.key ex, ap k.key ey, keeps a, keeps b)
          | inr (tb, ey) ↦ cc (ap k.key ex, ap k.key ey, keeps a)
        ]
        | inr (ta, ex) ↦ elim cb [
          | inl (tb, ey) ↦ cc (ap k.key ex, ap k.key ey, keeps b)
          | inr (tb, ey) ↦ cc (ap k.key ex, ap k.key ey)
        ]
      ] in
      let e : a ≡ b = unique a b ma mb same_key in
      elim ca [
        | inl (ta, ex) ↦ elim cb [
          | inl (tb, ey) ↦ ex ∙ ap f e ∙ sym ey
          | inr (tb, ey) ↦ cc (ap test e)
        ]
        | inr (ta, ex) ↦ elim cb [ inl (tb, ey) ↦ cc (ap test e) | inr (tb, ey) ↦ ex ∙ e ∙ sym ey ]
      ]

  pub save-UniqueBy :
      (i : ℕ) (f : A → A) (table : List A)
      → ((x : A) → k.key (f x) ≡ k.key x)
      → UniqueBy k.key table
      → UniqueBy k.key (save i f table)
  save-UniqueBy i f table = update_where-UniqueBy (λ r. k.key r == i) f table

-- A test of `UniqueBy`.
abbrev pub distinct : {A : Type 0} → (A → ℕ) → List A → Bool
distinct f [] = true
distinct f (z ∷ xs) = not (exists (λ r. f r == f z) xs) && distinct f xs

pub distinct-UniqueBy :
    {A : Type 0} (f : A → ℕ) (xs : List A) → distinct f xs ≡ true → UniqueBy f xs
distinct-UniqueBy f [] h x y mx my same = elim mx [ ]
distinct-UniqueBy {A} f (z ∷ xs) h x y mx my same =
    let free : (w : A) → Memᴰ w xs → (f w == f z) ≡ false =
      λ w mw. exists_none (λ r. f r == f z) xs (ground arith) mw in
    elim (uncons mx) [
      | inl ex ↦ elim (uncons my) [
        | inl ey ↦ ex ∙ sym ey
        | inr oy ↦ absurd (ground (arith, free y oy, ap f ex))
      ]
      | inr ox ↦ elim (uncons my) [
        | inl ey ↦ absurd (ground (arith, free x ox, ap f ey))
        | inr oy ↦ distinct-UniqueBy f xs (ground arith) x y ox oy same
      ]
    ]
