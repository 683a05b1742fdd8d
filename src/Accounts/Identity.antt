-- ===== src/Accounts/Identity.antt =====
-- backend/apps/accounts/identity.py, and `normalize_account_email` of accounts/models.py.
use hustly_tasker.Prelude.{
  strip_or_blank, Result, ambiguous_account_identity, Text, rows, if◌then◌else◌, list_eq, nat_eq,
  Option, none, some, List, [], ◌∷◌, ok, err,
}
use hustly_tasker.Store.{Db, Platform, User}

unfoldable pub normalize_account_email : Platform → Option Text → Text
normalize_account_email platform value = platform.casefold (strip_or_blank value)

-- The accounts that the lookup may return, by their number.
unfoldable pub sole_match : Platform → Text → List User → Result (Option User)
unfolding normalize_account_email
sole_match platform normalized_email [] = ok none
sole_match platform normalized_email (user ∷ []) =
    if list_eq.equals (normalize_account_email platform (some user.email)) normalized_email
    then ok (some user)
    else ok none
sole_match platform normalized_email (user ∷ other ∷ more) = err ambiguous_account_identity

unfoldable pub resolve_unique_user_for_email : Platform → Db → Text → Result (Option User)
unfolding sole_match
resolve_unique_user_for_email platform db normalized_email =
    sole_match platform normalized_email
      (rows (λ user. platform.iexact user.email normalized_email) db.users)
