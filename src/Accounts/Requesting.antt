-- ===== src/Accounts/Requesting.antt =====
-- backend/apps/accounts/security_services.py: requesting a token.
use hustly_tasker.Prelude.{
  ok, err, guard, or_raise, ◌>>=◌, ◌>>◌, raising, Result, account_security_conflict,
  account_security_delivery_unavailable, Text, first, if◌then◌else◌, ◌==◌, nat_eq, string_eq,
  bool_eq, option_eq, list_eq, ℕ, Bool, true, false, ◌&&◌, Option, none, some,
}
use hustly_tasker.Accounts.Identity.{normalize_account_email, resolve_unique_user_for_email}
use hustly_tasker.Accounts.Issuing.{email_verification_ttl, password_reset_ttl, issue_token_locked}
use hustly_tasker.Accounts.Saving.{is_email_verified}
use hustly_tasker.Store.{
  profile_status_eq, profile_role_eq, workspace_status_eq, workspace_role_eq, task_status_eq,
  task_priority_eq, deliverable_status_eq, review_status_eq, event_type_eq, invitation_role_eq,
  invitation_status_eq, delivery_status_eq, token_purpose_eq, token_status_eq,
  profile_invitation_key, account_security_token_key, TokenPurpose, AccountSecurityToken, Db,
  Platform, Request, FieldRules, user_key, profile_key, profile_membership_key, workspace_key,
  workspace_member_key, task_key, task_assignment_key, task_comment_key, deliverable_key,
  review_key, audit_log_key, notification_key, period_eq, deadline_eq, User,
}

unfoldable pub is_sole_account : ℕ → Option User → Bool
is_sole_account user_id none = false
is_sole_account user_id (some user) = user.id == user_id

-- `_resolve_current_unique_user`
unfoldable pub resolve_current_unique_user : Platform → Db → Text → Result (Option User)
resolve_current_unique_user platform db email =
    raising account_security_conflict (resolve_unique_user_for_email platform db email)

-- `request_email_verification`, none for an address that is verified already.
unfoldable pub request_email_verification :
    Platform → FieldRules → Request → Text → Db → Result (Option AccountSecurityToken × Db)
unfolding is_sole_account resolve_current_unique_user
request_email_verification platform rules request raw_token db = do
  guard platform.is_delivery_available account_security_delivery_unavailable
  user ←
      or_raise (first (λ (row : User). row.id == request.actor && row.is_active) db.users)
        account_security_conflict
  resolved ←
      resolve_current_unique_user platform db (normalize_account_email platform (some user.email))
  guard (is_sole_account user.id resolved) account_security_conflict
  elim (is_email_verified platform user) [
    | true ↦ ok (none, db)
    | false ↦ do
      (token, after) ←
          issue_token_locked platform rules request raw_token user TokenPurpose.email_verification
            email_verification_ttl db
      ok (some token, after)
  ]

-- `except AmbiguousAccountIdentity: return None`
unfoldable pub unique_or_none : Result (Option User) → Option User
unique_or_none (err e) = none
unique_or_none (ok resolved) = resolved

-- The account before the lock: active, with a usable password.
unfoldable pub eligible : Platform → Option User → Option User
eligible platform none = none
eligible platform (some user) =
    if user.is_active && platform.is_usable_password user.password then some user else none

-- The account under the lock, none where `request_password_reset` returns None.
unfoldable pub lock_for_reset : Platform → Db → Text → User → Option User
lock_for_reset platform db email user =
    elim (first (λ (row : User). row.id == user.id && row.is_active) db.users) [
      | none ↦ none
      | some locked ↦
          if platform.is_usable_password locked.password
            && list_eq.equals (normalize_account_email platform (some locked.email)) email
            && is_sole_account locked.id
                (unique_or_none (resolve_unique_user_for_email platform db email))
          then some locked
          else none
    ]

unfoldable pub request_password_reset :
    Platform
    → FieldRules
    → Request
    → Text
    → Option Text
    → Db
    → Result (Option AccountSecurityToken × Db)
unfolding eligible unique_or_none lock_for_reset
request_password_reset platform rules request raw_token value db = do
  guard platform.is_delivery_available account_security_delivery_unavailable
  let email = normalize_account_email platform value
  let found = unique_or_none (resolve_unique_user_for_email platform request.before email)
  elim (eligible platform found) [
    | none ↦ ok (none, db)
    | some user ↦ elim (lock_for_reset platform db email user) [
      | none ↦ ok (none, db)
      | some locked ↦ do
        (token, after) ←
            issue_token_locked platform rules request raw_token locked TokenPurpose.password_reset
              password_reset_ttl db
        ok (some token, after)
    ]
  ]
