-- ===== src/Prelude/Strings.antt =====
-- Python's `str` as its code points, with `str.strip`.
use Prim.Native.Nat.{ℕ, suc}
use mathlib.Core.Bool.{Bool, true, not, ◌&&◌, ◌||◌}
use mathlib.Core.Option.{Option, none, some}
use mathlib.Core.List.{List, [], ◌∷◌, reverse}
use mathlib.Core.Path.{◌≡◌, refl}
use hustly_tasker.Prelude.Tests.{leb, ◌==◌, nat_eq, if◌then◌else◌}

abbrev pub Text : Type 0
Text = List ℕ

-- The code points c with `chr(c).isspace()`.
unfoldable pub is_space : ℕ → Bool
is_space c =
    leb 9 c && leb c 13
    || leb 28 c && leb c 32
    || c == 133
    || c == 160
    || c == 5760
    || leb 8192 c && leb c 8202
    || c == 8232
    || c == 8233
    || c == 8239
    || c == 8287
    || c == 12288

unfoldable pub lstrip : Text → Text
lstrip [] = []
lstrip (c ∷ s) = if is_space c then lstrip s else c ∷ s

-- `len(s)`
abbrev pub length {ℓ} : {A : Type ℓ} → List A → ℕ
length [] = 0
length (x ∷ xs) = suc (length xs)

-- Whether `s.encode("utf-8")` succeeds: no surrogate code point.
unfoldable pub is_encodable : Text → Bool
is_encodable [] = true
is_encodable (c ∷ s) = not (leb 55296 c && leb c 57343) && is_encodable s

-- `s.strip()`
unfoldable pub strip : Text → Text
unfolding lstrip is_space
strip s = reverse (lstrip (reverse (lstrip s)))

-- `(s or "").strip()`
unfoldable pub strip_or_blank : Option Text → Text
unfolding strip
strip_or_blank none = []
strip_or_blank (some s) = strip s

strip_sample : strip (32 ∷ 65 ∷ 32 ∷ 66 ∷ 9 ∷ []) ≡ 65 ∷ 32 ∷ 66 ∷ []
unfolding strip
strip_sample = refl
