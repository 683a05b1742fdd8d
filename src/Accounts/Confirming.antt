-- ===== src/Accounts/Confirming.antt =====
-- backend/apps/accounts/security_services.py: confirming with a token.
use hustly_tasker.Prelude.{
  guard, or_raise, ◌>>=◌, ◌>>◌, integrity_as, Result, Outcome, validation_error,
  account_security_conflict, returned, raised, Text, first, ◌==◌, nat_eq, string_eq, bool_eq,
  option_eq, list_eq, ℕ, Bool, true, false, ◌&&◌, Option, none, some, [], ok,
}
use hustly_tasker.Accounts.Identity.{normalize_account_email}
use hustly_tasker.Accounts.Records.{token_status_text, write_security_audit}
use hustly_tasker.Accounts.Saving.{save_user, UserFields}
use hustly_tasker.Store.{
  profile_status_eq, profile_role_eq, workspace_status_eq, workspace_role_eq, task_status_eq,
  task_priority_eq, deliverable_status_eq, review_status_eq, event_type_eq, invitation_role_eq,
  invitation_status_eq, delivery_status_eq, token_purpose_eq, token_status_eq,
  profile_invitation_key, account_security_token_key, DeliveryStatus, TokenPurpose, TokenStatus,
  AccountSecurityToken, Db, Platform, Request, user_key, profile_key, profile_membership_key,
  workspace_key, workspace_member_key, task_key, task_assignment_key, task_comment_key,
  deliverable_key, review_key, audit_log_key, notification_key, period_eq, deadline_eq, User,
}
use hustly_tasker.Workspace.{status_state}
use hustly_tasker.Accounts.Issuing.{
  digest_account_security_token, password_fingerprint, save_token, materialize_token_expiration,
}
use hustly_tasker.Accounts.Requesting.{is_sole_account, resolve_current_unique_user}

-- What `_lookup_candidate` returns.
pub record TokenCandidate : Type 0 where
  pub id : ℕ
  pub user_id : ℕ
  pub digest : Text

unfoldable pub is_candidate : Text → TokenPurpose → AccountSecurityToken → Bool
is_candidate digest purpose token =
    list_eq.equals token.token_digest digest && token.purpose == purpose

-- `_lookup_candidate`; it reads before the locks.
unfoldable pub lookup_candidate : Platform → Db → Option Text → TokenPurpose → Result TokenCandidate
unfolding is_candidate
lookup_candidate platform db raw_token purpose = do
  digest ← digest_account_security_token platform raw_token purpose
  candidate ←
      or_raise (first (is_candidate digest purpose) db.account_security_tokens)
        account_security_conflict
  ok (record { id = candidate.id; user_id = candidate.user_id; digest = digest })

unfoldable pub is_token_of : TokenCandidate → ℕ → TokenPurpose → AccountSecurityToken → Bool
is_token_of candidate user_id purpose token =
    token.id == candidate.id
    && token.user_id == user_id
    && token.purpose == purpose
    && list_eq.equals token.token_digest candidate.digest

-- What `_lock_candidate` returns.
pub record LockedCandidate : Type 0 where
  pub user : User
  pub token : AccountSecurityToken

-- `_lock_candidate`
unfoldable pub lock_candidate : TokenCandidate → TokenPurpose → Db → Result LockedCandidate
unfolding is_token_of
lock_candidate candidate purpose db = do
  user ←
      or_raise (first (λ (row : User). row.id == candidate.user_id && row.is_active) db.users)
        account_security_conflict
  token ←
      or_raise (first (is_token_of candidate user.id purpose) db.account_security_tokens)
        account_security_conflict
  guard (token.status == TokenStatus.pending && token.delivery_status == DeliveryStatus.sent)
      account_security_conflict
  ok (record { user = user; token = token })

-- `_validate_locked_identity`
unfoldable pub validate_locked_identity : Platform → Db → LockedCandidate → Result Text
validate_locked_identity platform db locked = do
  let email = normalize_account_email platform (some locked.user.email)
  guard (list_eq.equals email locked.token.email_normalized) account_security_conflict
  resolved ← resolve_current_unique_user platform db email
  guard (is_sole_account locked.user.id resolved) account_security_conflict
  ok email

unfoldable pub set_token_consumed : ℕ → AccountSecurityToken → AccountSecurityToken
set_token_consumed now row = record row { status = TokenStatus.consumed; consumed_at = some now }

unfoldable pub verification_fields : UserFields
verification_fields = record {
  is_active = false;
  email = false;
  password = false;
  verification = true;
}

unfoldable pub password_fields : UserFields
password_fields = record { is_active = false; email = false; password = true; verification = false }

unfoldable pub confirm_email_verification :
    Platform → Request → Option Text → Db → Result (Outcome User × Db)
unfolding set_token_consumed verification_fields save_token
confirm_email_verification platform request raw_token db = do
  let purpose = TokenPurpose.email_verification
  candidate ← lookup_candidate platform request.before raw_token purpose
  locked ← lock_candidate candidate purpose db
  guard (locked.user.id == request.actor) account_security_conflict
  (expired, checked) ← materialize_token_expiration request (request.new_id 0) locked.token db
  elim expired [
    | true ↦ ok (raised account_security_conflict, checked)
    | false ↦ do
      email ← validate_locked_identity platform checked locked
      let verified = record locked.user {
        email_verified_at = some request.now;
        verified_email_normalized = some email;
      }
      (user, saved) ←
          integrity_as account_security_conflict
            (save_user platform request.now verification_fields verified checked)
      after ←
          write_security_audit (request.new_id 0) user.id
            (set_token_consumed request.now locked.token) "account.email_verification.confirmed"
            (status_state (token_status_text TokenStatus.pending))
            (status_state (token_status_text TokenStatus.consumed))
            (save_token locked.token (set_token_consumed request.now) saved)
      ok (returned user, after)
  ]

-- `token.password_fingerprint or ""`
abbrev pub fingerprint_or_blank : Option Text → Text
fingerprint_or_blank none = []
fingerprint_or_blank (some fingerprint) = fingerprint

-- `confirm_password_reset`; `salt` is what `set_password` draws.
unfoldable pub confirm_password_reset :
    Platform → Request → Text → Option Text → Text → Db → Result (Outcome User × Db)
unfolding set_token_consumed password_fields save_token
confirm_password_reset platform request salt raw_token new_password db = do
  let purpose = TokenPurpose.password_reset
  candidate ← lookup_candidate platform request.before raw_token purpose
  locked ← lock_candidate candidate purpose db
  (expired, checked) ← materialize_token_expiration request (request.new_id 0) locked.token db
  elim expired [
    | true ↦ ok (raised account_security_conflict, checked)
    | false ↦ do
      validate_locked_identity platform checked locked >>= λ email.
          guard
            (platform.is_usable_password locked.user.password
              && list_eq.equals (fingerprint_or_blank locked.token.password_fingerprint)
                  (password_fingerprint platform locked.user))
            account_security_conflict
          >> (do
            guard (platform.is_valid_password locked.user new_password)
                (validation_error "new_password")
            let consumed = save_token locked.token (set_token_consumed request.now) checked
            (user, saved) ←
                save_user platform request.now password_fields
                  (record locked.user { password = platform.make_password salt new_password })
                  consumed
            after ←
                write_security_audit (request.new_id 0) user.id
                  (set_token_consumed request.now locked.token) "account.password_reset.completed"
                  (status_state (token_status_text TokenStatus.pending))
                  (status_state (token_status_text TokenStatus.consumed)) saved
            ok (returned user, after))
  ]
