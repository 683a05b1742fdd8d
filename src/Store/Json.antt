-- ===== src/Store/Json.antt =====
-- The JSON object of an audit row: a dictionary of strings, UUIDs, numbers, flags and objects.
use hustly_tasker.Prelude.{
  ℕ, String, Text, List, Bool, true, false, Option, none, some, ◌==◌, string_eq, nat_eq,
  if◌then◌else◌, bool_eq, option_eq, list_eq,
}

mutual
  -- `id_text n` is `str(uuid)`, which is one-to-one.
  pub data Value : Type 0 where
    null : Value
    id_text : ℕ → Value
    number : ℕ → Value
    string : String → Value
    strings : List String → Value
    text : Text → Value
    flag : Bool → Value
    object : Metadata → Value

  pub data Metadata : Type 0 where
    nil : Metadata
    entry : String → Value → Metadata → Metadata

-- `metadata.get(key)`
unfoldable pub get : String → Metadata → Option Value
get key nil = none
get key (entry k v rest) = let found = get key rest in if k == key then some v else found

-- `{**metadata, **more}` for keys that `metadata` does not have.
unfoldable pub extended : Metadata → Metadata → Metadata
extended nil more = more
extended (entry k v rest) more = entry k v (extended rest more)

-- `str(row_id) if row_id else None`
abbrev pub id_or_null : Option ℕ → Value
id_or_null none = null
id_or_null (some n) = id_text n

-- `value == str(n)`
abbrev pub is_id_text : Option Value → ℕ → Bool
is_id_text (some (id_text m)) n = m == n
is_id_text other n = false

-- `filter(revision=value)`: the null value asks for `revision IS NULL`.
abbrev pub is_revision : Option Value → Option ℕ → Bool
is_revision none none = true
is_revision (some null) none = true
is_revision (some (number m)) (some n) = m == n
is_revision other n = false
