-- ===== src/Accounts/Records.antt =====
-- `AccountSecurityToken` of backend/apps/accounts/models.py: `clean` and the constraints; and the audit
-- rows of backend/apps/accounts/security_services.py.
use hustly_tasker.Prelude.{
  leb, guard, ◌>>◌, Result, validation_error, Text, length, exists, ltb, ◌==◌, nat_eq, string_eq,
  bool_eq, option_eq, list_eq, is_some, ℕ, String, Bool, true, false, ◌&&◌, ◌||◌, not, Option, none,
  some, List, [], ◌∷◌,
}
use hustly_tasker.Accounts.Identity.{normalize_account_email}
use hustly_tasker.Store.{
  profile_status_eq, profile_role_eq, workspace_status_eq, workspace_role_eq, task_status_eq,
  task_priority_eq, deliverable_status_eq, review_status_eq, event_type_eq, invitation_role_eq,
  invitation_status_eq, delivery_status_eq, token_purpose_eq, token_status_eq, DeliveryStatus,
  TokenPurpose, TokenStatus, AccountSecurityToken, Db, Platform, Value, string, FieldRules,
  period_eq, deadline_eq, entry, nil,
}
use hustly_tasker.Workspace.{add_audit_log}

unfoldable pub token_marks : AccountSecurityToken → List Bool
token_marks token =
    is_some token.consumed_at ∷ is_some token.revoked_at ∷ is_some token.expired_at ∷ []

unfoldable pub token_marks_of_status : TokenStatus → List Bool
token_marks_of_status TokenStatus.pending = false ∷ false ∷ false ∷ []
token_marks_of_status TokenStatus.consumed = true ∷ false ∷ false ∷ []
token_marks_of_status TokenStatus.revoked = false ∷ true ∷ false ∷ []
token_marks_of_status TokenStatus.expired = false ∷ false ∷ true ∷ []

-- The constraint `acctok_terminal_state_valid`.
unfoldable pub has_valid_token_marks : AccountSecurityToken → Bool
unfolding token_marks token_marks_of_status
has_valid_token_marks token =
    list_eq.equals (token_marks token) (token_marks_of_status token.status)

-- The constraint `acctok_fingerprint_by_purpose`.
unfoldable pub has_fingerprint_by_purpose : AccountSecurityToken → Bool
has_fingerprint_by_purpose token =
    is_some token.password_fingerprint == (token.purpose == TokenPurpose.password_reset)

unfoldable pub is_token_delivery : DeliveryStatus → Option ℕ → Option ℕ → Bool
is_token_delivery DeliveryStatus.queued attempted_at delivered_at = not (is_some delivered_at)
is_token_delivery DeliveryStatus.failed attempted_at delivered_at =
    is_some attempted_at && not (is_some delivered_at)
is_token_delivery DeliveryStatus.sent attempted_at delivered_at =
    is_some attempted_at && is_some delivered_at

-- The check constraints of the table, without those on the choices, which the types keep.
unfoldable pub satisfies_token_constraints : AccountSecurityToken → Bool
unfolding has_valid_token_marks has_fingerprint_by_purpose is_token_delivery
satisfies_token_constraints token =
    has_fingerprint_by_purpose token
    && has_valid_token_marks token
    && (not (token.status == TokenStatus.consumed) || token.delivery_status == DeliveryStatus.sent)
    && ltb token.created_at token.expires_at
    && is_token_delivery token.delivery_status token.delivery_attempted_at token.delivered_at
    && not (token.replaces_id == some token.id)

-- Another pending token for the same user and purpose (`uniq_pending_user_acctok_purpose`).
unfoldable pub clashes_on_purpose : AccountSecurityToken → AccountSecurityToken → Bool
clashes_on_purpose new row =
    not (row.id == new.id)
    && row.user_id == new.user_id
    && row.purpose == new.purpose
    && row.status == TokenStatus.pending

-- Another row with the same `token_digest` or the same `replaces`.
unfoldable pub clashes_on_token_column : AccountSecurityToken → AccountSecurityToken → Bool
clashes_on_token_column new row =
    not (row.id == new.id)
    && (list_eq.equals row.token_digest new.token_digest
        || is_some new.replaces_id && row.replaces_id == new.replaces_id)

unfoldable pub is_digest_character : ℕ → Bool
is_digest_character c = leb 48 c && leb c 57 || leb 97 c && leb c 102

unfoldable pub is_token_digest : Text → Bool
unfolding is_digest_character
is_token_digest digest =
    length digest == 64 && not (exists (λ c. not (is_digest_character c)) digest)

-- `replaced and (...)`: the token that is replaced has another user or another purpose.
unfoldable pub replaces_other : Db → AccountSecurityToken → Bool
replaces_other db token =
    exists
      (λ (row : AccountSecurityToken).
        token.replaces_id == some row.id
        && (not (row.user_id == token.user_id) || not (row.purpose == token.purpose)))
      db.account_security_tokens

-- The checks of `password_fingerprint` in `clean`.
unfoldable pub is_fingerprint_for : TokenPurpose → Option Text → Bool
unfolding is_token_digest
is_fingerprint_for TokenPurpose.password_reset none = false
is_fingerprint_for TokenPurpose.password_reset (some fingerprint) = is_token_digest fingerprint
is_fingerprint_for TokenPurpose.email_verification fingerprint = not (is_some fingerprint)

-- `AccountSecurityToken.clean`
unfoldable pub clean_token : Platform → Db → AccountSecurityToken → Result (Unit {0})
unfolding is_token_digest replaces_other is_fingerprint_for
clean_token platform db token = do
  guard
      (list_eq.equals token.email_normalized
        (normalize_account_email platform (some token.email_normalized)))
      (validation_error "email_normalized")
  guard (is_token_digest token.token_digest) (validation_error "token_digest")
  guard (is_fingerprint_for token.purpose token.password_fingerprint)
      (validation_error "password_fingerprint")
  guard (not (replaces_other db token)) (validation_error "replaces")
  guard (not (leb token.expires_at token.created_at)) (validation_error "expires_at")

-- `token.full_clean()`
unfoldable pub full_clean_token :
    Platform → FieldRules → Db → AccountSecurityToken → Result (Unit {0})
unfolding clean_token clashes_on_token_column satisfies_token_constraints clashes_on_purpose
full_clean_token platform rules db token = do
  guard (rules.account_security_token token) (validation_error "fields")
  clean_token platform db token
  guard (not (exists (clashes_on_token_column token) db.account_security_tokens))
      (validation_error "unique")
  guard (satisfies_token_constraints token) (validation_error "constraints")
  guard
      (not (
        token.status == TokenStatus.pending
        && exists (clashes_on_purpose token) db.account_security_tokens))
      (validation_error "uniq_pending_user_acctok_purpose")

unfoldable pub purpose_text : TokenPurpose → Value
purpose_text TokenPurpose.email_verification = string "EMAIL_VERIFICATION"
purpose_text TokenPurpose.password_reset = string "PASSWORD_RESET"

unfoldable pub token_status_text : TokenStatus → Value
token_status_text TokenStatus.pending = string "PENDING"
token_status_text TokenStatus.consumed = string "CONSUMED"
token_status_text TokenStatus.revoked = string "REVOKED"
token_status_text TokenStatus.expired = string "EXPIRED"

-- `_write_security_audit`
unfoldable pub write_security_audit :
    ℕ → ℕ → AccountSecurityToken → String → (before after : Value) → Db → Result Db
unfolding purpose_text
write_security_audit id user_id token action before after = add_audit_log record {
  id = id;
  user_id = some user_id;
  action = action;
  entity_name = "AccountSecurityToken";
  entity_id = token.id;
  metadata =
      entry "purpose" (purpose_text token.purpose)
        (entry "before" before (entry "after" after nil));
}
