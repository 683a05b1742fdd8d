-- ===== src/Store/Environment.antt =====
-- What the code takes from Python, Django and the mail server.
use hustly_tasker.Prelude.{Bool, Text}
use hustly_tasker.Store.Rows.{User}

pub record Platform : Type 0 where
  -- `s.casefold()`
  pub casefold : Text → Text
  -- `hashlib.sha256(s.encode("utf-8")).hexdigest()`
  pub sha256_hexdigest : Text → Text
  -- The `email__iexact` lookup: whether a stored address matches the value.
  pub iexact : Text → Text → Bool
  -- `user.has_usable_password()` on the encoded password.
  pub is_usable_password : Text → Bool
  -- `password_validation.validate_password(password, user=user)`, false if it raises.
  pub is_valid_password : User → Text → Bool
  -- `user.set_password(...)`: the encoded password for a salt and a password.
  pub make_password : Text → Text → Text
  -- `ensure_default_email_delivery_available()`, false if it raises.
  pub is_delivery_available : Bool
