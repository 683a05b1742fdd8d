-- ===== src/Accounts/Saving.antt =====
-- `User.save` of backend/apps/accounts/models.py, for a stored user: pending tokens end when the state
-- that they are bound to changes.
use hustly_tasker.Prelude.{
  guard, or_raise, ◌>>=◌, ◌>>◌, Result, integrity_error, database_error, exists, update_where,
  first, save, if◌then◌else◌, ◌==◌, nat_eq, string_eq, bool_eq, option_eq, list_eq, is_some, ℕ,
  Bool, true, false, ◌&&◌, ◌||◌, not, none, some, ok,
}
use hustly_tasker.Accounts.Identity.{normalize_account_email}
use hustly_tasker.Store.{
  profile_status_eq, profile_role_eq, workspace_status_eq, workspace_role_eq, task_status_eq,
  task_priority_eq, deliverable_status_eq, review_status_eq, event_type_eq, invitation_role_eq,
  invitation_status_eq, delivery_status_eq, token_purpose_eq, token_status_eq,
  profile_invitation_key, account_security_token_key, TokenPurpose, TokenStatus,
  AccountSecurityToken, Db, Platform, user_key, profile_key, profile_membership_key, workspace_key,
  workspace_member_key, task_key, task_assignment_key, task_comment_key, deliverable_key,
  review_key, audit_log_key, notification_key, period_eq, deadline_eq, User,
}

-- `update_fields`; a save without it writes all columns.
pub record UserFields : Type 0 where
  pub is_active : Bool
  pub email : Bool
  pub password : Bool
  pub verification : Bool

unfoldable pub is_email_verified : Platform → User → Bool
is_email_verified platform user =
    is_some user.email_verified_at
    && user.verified_email_normalized == some (normalize_account_email platform (some user.email))

unfoldable pub is_email_changed : Platform → UserFields → User → User → Bool
is_email_changed platform fields previous user =
    fields.email
    && not (
        list_eq.equals (normalize_account_email platform (some previous.email))
          (normalize_account_email platform (some user.email)))

unfoldable pub is_password_changed : UserFields → User → User → Bool
is_password_changed fields previous user =
    fields.password && not (list_eq.equals previous.password user.password)

-- The columns that the save writes, from the instance `user` to the stored row.
unfoldable pub write_fields : UserFields → User → User → User
write_fields fields user row = record row {
  is_active = if fields.is_active then user.is_active else row.is_active;
  email = if fields.email then user.email else row.email;
  password = if fields.password then user.password else row.password;
  email_verified_at = if fields.verification then user.email_verified_at else row.email_verified_at;
  verified_email_normalized =
      if fields.verification then user.verified_email_normalized else row.verified_email_normalized;
}

-- Another row with the same `email` or `verified_email_normalized` (`uniq_verified_email_identity`).
unfoldable pub clashes_user : User → User → Bool
clashes_user new row =
    not (row.id == new.id)
    && (list_eq.equals row.email new.email
        || is_some new.verified_email_normalized
          && row.verified_email_normalized == new.verified_email_normalized)

-- `super().save(...)`, with the constraint `acct_verified_email_pair`.
unfoldable pub save_user_row : UserFields → User → User → Db → Result Db
unfolding write_fields clashes_user
save_user_row fields previous user db = do
  let written = write_fields fields user previous
  guard (is_some written.email_verified_at == is_some written.verified_email_normalized)
      integrity_error
  guard (not (exists (clashes_user written) db.users)) integrity_error
  ok (record db { users = save user.id (write_fields fields user) db.users })

unfoldable pub set_token_revoked : ℕ → AccountSecurityToken → AccountSecurityToken
set_token_revoked now row = record row { status = TokenStatus.revoked; revoked_at = some now }

unfoldable pub is_pending_token_of : ℕ → AccountSecurityToken → Bool
is_pending_token_of user_id token = token.user_id == user_id && token.status == TokenStatus.pending

unfoldable pub is_pending_reset_of : ℕ → AccountSecurityToken → Bool
unfolding is_pending_token_of
is_pending_reset_of user_id token =
    is_pending_token_of user_id token && token.purpose == TokenPurpose.password_reset

-- The end of `User.save`: the tokens of both purposes, or those of a reset alone.
unfoldable pub revoke_tokens : ℕ → ℕ → (email_changed password_changed : Bool) → Db → Db
unfolding set_token_revoked is_pending_reset_of
revoke_tokens now user_id email_changed password_changed db =
    let tokens =
      if email_changed
      then update_where (is_pending_token_of user_id) (set_token_revoked now)
          db.account_security_tokens
      else db.account_security_tokens in
    record db {
      account_security_tokens =
          if password_changed
          then update_where (is_pending_reset_of user_id) (set_token_revoked now) tokens
          else tokens;
    }

-- The instance as it is saved: a change of the address ends its verification.
unfoldable pub unverified_if : Bool → User → User
unverified_if false user = user
unverified_if true user = record user { email_verified_at = none; verified_email_normalized = none }

-- `User.save(update_fields=...)`: the instance after it, and the database.
unfoldable pub save_user : Platform → ℕ → UserFields → User → Db → Result (User × Db)
unfolding save_user_row revoke_tokens unverified_if is_email_changed is_password_changed
save_user platform now fields user db = do
  previous ← or_raise (first (λ (row : User). row.id == user.id) db.users) database_error
  let email_changed = is_email_changed platform fields previous user
  let saved = unverified_if email_changed user
  written ←
      save_user_row (record fields { verification = fields.verification || email_changed }) previous
        saved db
  ok (
    saved,
    revoke_tokens now user.id email_changed (is_password_changed fields previous user) written,
  )
