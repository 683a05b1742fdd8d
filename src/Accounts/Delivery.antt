-- ===== src/Accounts/Delivery.antt =====
-- backend/apps/accounts/email_delivery.py: the callback that `schedule_account_security_delivery` runs
-- after the commit, as its two writes. Each is its own transaction; the outcome of
-- `send_default_email` is an argument of the second.
use hustly_tasker.Prelude.{
  Outcome, account_security_delivery_unavailable, returned, raised, Text, length, rows,
  update_where, ltb, if◌then◌else◌, ◌==◌, nat_eq, string_eq, bool_eq, option_eq, list_eq, ℕ, Bool,
  true, false, ◌&&◌, none, some,
}
use hustly_tasker.Store.{
  profile_status_eq, profile_role_eq, workspace_status_eq, workspace_role_eq, task_status_eq,
  task_priority_eq, deliverable_status_eq, review_status_eq, event_type_eq, invitation_role_eq,
  invitation_status_eq, delivery_status_eq, token_purpose_eq, token_status_eq, DeliveryStatus,
  TokenPurpose, TokenStatus, AccountSecurityToken, Db, period_eq, deadline_eq,
}

unfoldable pub is_scheduled_token : ℕ → TokenPurpose → Text → AccountSecurityToken → Bool
is_scheduled_token token_id purpose digest token =
    token.id == token_id
    && token.purpose == purpose
    && token.status == TokenStatus.pending
    && list_eq.equals token.token_digest digest

unfoldable pub is_claimable_token : ℕ → TokenPurpose → Text → ℕ → AccountSecurityToken → Bool
unfolding is_scheduled_token
is_claimable_token token_id purpose digest attempted_at token =
    is_scheduled_token token_id purpose digest token && ltb attempted_at token.expires_at

unfoldable pub set_token_queued : ℕ → AccountSecurityToken → AccountSecurityToken
set_token_queued attempted_at row = record row {
  delivery_status = DeliveryStatus.queued;
  delivery_attempted_at = some attempted_at;
}

unfoldable pub set_token_failed : ℕ → AccountSecurityToken → AccountSecurityToken
set_token_failed attempted_at row = record row {
  delivery_status = DeliveryStatus.failed;
  delivery_attempted_at = some attempted_at;
  delivered_at = none;
}

unfoldable pub set_token_sent : ℕ → ℕ → AccountSecurityToken → AccountSecurityToken
set_token_sent attempted_at delivered_at row = record row {
  delivery_status = DeliveryStatus.sent;
  delivery_attempted_at = some attempted_at;
  delivered_at = some delivered_at;
}

-- Up to the call of `send_default_email`: whether the row was claimed. A callback that claims none
-- stops, with an exception if `raise_on_failure`.
unfoldable pub claim_token_delivery : ℕ → TokenPurpose → Text → ℕ → Db → Bool × Db
unfolding is_claimable_token set_token_queued
claim_token_delivery token_id purpose digest attempted_at db = (
  length (rows (is_claimable_token token_id purpose digest attempted_at) db.account_security_tokens)
      == 1,
  record db {
    account_security_tokens =
        update_where (is_claimable_token token_id purpose digest attempted_at)
          (set_token_queued attempted_at) db.account_security_tokens;
  },
)

abbrev delivery_failure : (raise_on_failure : Bool) → Outcome (Unit {0})
delivery_failure true = raised account_security_delivery_unavailable
delivery_failure false = returned tt

-- From that call on.
unfoldable pub finish_token_delivery :
    ℕ
    → TokenPurpose
    → Text
    → (raise_on_failure : Bool) → ℕ
    → (was_sent : Bool) → ℕ
    → Db
    → Outcome (Unit {0}) × Db
unfolding is_scheduled_token set_token_failed set_token_sent
finish_token_delivery token_id purpose digest raise_on_failure attempted_at false finished_at db = (
  delivery_failure raise_on_failure,
  record db {
    account_security_tokens =
        update_where (is_scheduled_token token_id purpose digest) (set_token_failed attempted_at)
          db.account_security_tokens;
  },
)
finish_token_delivery token_id purpose digest raise_on_failure attempted_at true finished_at db = (
  if length (rows (is_scheduled_token token_id purpose digest) db.account_security_tokens) == 1
      then returned tt
      else delivery_failure raise_on_failure,
  record db {
    account_security_tokens =
        update_where (is_scheduled_token token_id purpose digest)
          (set_token_sent attempted_at finished_at) db.account_security_tokens;
  },
)
