-- ===== src/Accounts/Issuing.antt =====
-- backend/apps/accounts/security_services.py: issuing a token. `raw_token` is the draw of
-- `secrets.token_urlsafe(32)`.
use mathlib.Core.Option
use hustly_tasker.Prelude.{
  leb, guard, ◌>>=◌, ◌>>◌, raising, Result, account_security_conflict, Text, is_encodable, first,
  save, insert, ◌==◌, nat_eq, string_eq, bool_eq, option_eq, list_eq, ℕ, ◌+◌, String, Bool, true,
  false, ◌&&◌, not, Option, none, some, [], ◌∷◌, ◌++◌, ok, err,
}
use hustly_tasker.Accounts.Identity.{normalize_account_email}
use hustly_tasker.Accounts.Records.{full_clean_token, token_status_text, write_security_audit}
use hustly_tasker.Accounts.Saving.{set_token_revoked}
use hustly_tasker.Store.{
  profile_status_eq, profile_role_eq, workspace_status_eq, workspace_role_eq, task_status_eq,
  task_priority_eq, deliverable_status_eq, review_status_eq, event_type_eq, invitation_role_eq,
  invitation_status_eq, delivery_status_eq, token_purpose_eq, token_status_eq,
  profile_invitation_key, account_security_token_key, DeliveryStatus, TokenPurpose, TokenStatus,
  AccountSecurityToken, Db, Platform, null, string, object, Request, FieldRules, user_key,
  profile_key, profile_membership_key, workspace_key, workspace_member_key, task_key,
  task_assignment_key, task_comment_key, deliverable_key, review_key, audit_log_key,
  notification_key, period_eq, deadline_eq, User, entry, nil,
}
use hustly_tasker.Workspace.{status_state}

-- timedelta(hours=24) and timedelta(hours=1), in microseconds.
abbrev pub email_verification_ttl : ℕ
email_verification_ttl = 86400000000

abbrev pub password_reset_ttl : ℕ
password_reset_ttl = 3600000000

-- The text `hustlytasker:PURPOSE:`.
unfoldable pub digest_prefix : TokenPurpose → Text
digest_prefix TokenPurpose.email_verification =
    104 ∷ 117 ∷ 115 ∷ 116 ∷ 108 ∷ 121 ∷ 116 ∷ 97 ∷ 115 ∷ 107 ∷ 101 ∷ 114 ∷ 58 ∷ 69 ∷ 77 ∷ 65 ∷ 73
    ∷ 76 ∷ 95 ∷ 86 ∷ 69 ∷ 82 ∷ 73 ∷ 70 ∷ 73 ∷ 67 ∷ 65 ∷ 84 ∷ 73 ∷ 79 ∷ 78 ∷ 58 ∷ []
digest_prefix TokenPurpose.password_reset =
    104 ∷ 117 ∷ 115 ∷ 116 ∷ 108 ∷ 121 ∷ 116 ∷ 97 ∷ 115 ∷ 107 ∷ 101 ∷ 114 ∷ 58 ∷ 80 ∷ 65 ∷ 83 ∷ 83
    ∷ 87 ∷ 79 ∷ 82 ∷ 68 ∷ 95 ∷ 82 ∷ 69 ∷ 83 ∷ 69 ∷ 84 ∷ 58 ∷ []

-- `digest_account_security_token`, none for a token that is not a string.
unfoldable pub digest_account_security_token : Platform → Option Text → TokenPurpose → Result Text
unfolding digest_prefix
digest_account_security_token platform none purpose = err account_security_conflict
digest_account_security_token platform (some raw_token) purpose = do
  guard (not (list_eq.equals raw_token [])) account_security_conflict
  guard (is_encodable raw_token) account_security_conflict
  ok (platform.sha256_hexdigest (digest_prefix purpose ++ raw_token))

-- `_password_fingerprint`
unfoldable pub password_fingerprint : Platform → User → Text
password_fingerprint platform user = platform.sha256_hexdigest user.password

unfoldable pub set_token_expired : ℕ → AccountSecurityToken → AccountSecurityToken
set_token_expired now row = record row { status = TokenStatus.expired; expired_at = some now }

unfoldable pub save_token :
    AccountSecurityToken → (AccountSecurityToken → AccountSecurityToken) → Db → Db
save_token token change db = record db {
  account_security_tokens = save token.id change db.account_security_tokens;
}

unfoldable pub is_due_token : AccountSecurityToken → ℕ → Bool
is_due_token token now = token.status == TokenStatus.pending && leb token.expires_at now

-- `_materialize_expiration`: whether the token was due, and the database after it.
unfoldable pub materialize_token_expiration :
    Request → ℕ → AccountSecurityToken → Db → Result (Bool × Db)
unfolding is_due_token set_token_expired save_token
materialize_token_expiration request id token db = elim (is_due_token token request.now) [
  | true ↦
      write_security_audit id token.user_id (set_token_expired request.now token)
        "account.security_token.expired" (status_state (token_status_text token.status))
        (status_state (token_status_text TokenStatus.expired))
        (save_token token (set_token_expired request.now) db)
      >>= λ after. ok (true, after)
  | false ↦ ok (false, db)
]

-- What `_issue_token_locked` does to a pending token of the same purpose.
unfoldable pub retire_token : Request → User → Option AccountSecurityToken → Db → Result Db
retire_token request user none db = ok db
retire_token request user (some previous) db = do
  (expired, checked) ← materialize_token_expiration request (request.new_id 0) previous db
  elim expired [
    | true ↦ ok checked
    | false ↦
        write_security_audit (request.new_id 0) user.id (set_token_revoked request.now previous)
          "account.security_token.rotated" (status_state (token_status_text previous.status))
          (status_state (token_status_text TokenStatus.revoked))
          (save_token previous (set_token_revoked request.now) checked)
  ]

unfoldable pub is_pending_for : ℕ → TokenPurpose → AccountSecurityToken → Bool
is_pending_for user_id purpose token =
    token.user_id == user_id && token.purpose == purpose && token.status == TokenStatus.pending

unfoldable pub fingerprint_for : Platform → TokenPurpose → User → Option Text
unfolding password_fingerprint
fingerprint_for platform TokenPurpose.password_reset user =
    some (password_fingerprint platform user)
fingerprint_for platform TokenPurpose.email_verification user = none

unfoldable pub requested_action : TokenPurpose → String
requested_action TokenPurpose.email_verification = "account.email_verification.requested"
requested_action TokenPurpose.password_reset = "account.password_reset.requested"

-- `_issue_token_locked`, up to the delivery that it schedules.
unfoldable pub issue_token_locked :
    Platform
    → FieldRules
    → Request
    → Text
    → User
    → TokenPurpose
    → (ttl : ℕ) → Db
    → Result (AccountSecurityToken × Db)
unfolding is_pending_for retire_token fingerprint_for requested_action
issue_token_locked platform rules request raw_token user purpose ttl db = do
  let previous = first (is_pending_for user.id purpose) db.account_security_tokens
  retired ← retire_token request user previous db
  digest ← digest_account_security_token platform (some raw_token) purpose
  let token : AccountSecurityToken = record {
    id = request.new_id 1;
    user_id = user.id;
    purpose = purpose;
    email_normalized = normalize_account_email platform (some user.email);
    token_digest = digest;
    password_fingerprint = fingerprint_for platform purpose user;
    status = TokenStatus.pending;
    expires_at = request.now + ttl;
    delivery_status = DeliveryStatus.queued;
    delivery_attempted_at = none;
    delivered_at = none;
    consumed_at = none;
    revoked_at = none;
    expired_at = none;
    replaces_id = Option.map (λ old. old.id) previous;
    created_at = request.now;
  }
  raising account_security_conflict (full_clean_token platform rules retired token)
  tokens ← raising account_security_conflict (insert token retired.account_security_tokens)
  after ←
      write_security_audit (request.new_id 2) user.id token (requested_action purpose) null
        (object (
          entry "status" (token_status_text token.status)
            (entry "delivery_status" (string "QUEUED") nil)))
        (record retired { account_security_tokens = tokens })
  ok (token, after)
