-- ===== src/Invitations/Delivery.antt =====
-- backend/apps/workspace/invitation_delivery.py: the callback that `schedule_invitation_delivery`
-- runs after the commit, as its two writes. Each is its own transaction, so that other calls may come
-- in between; the outcome of `send_default_email` is an argument of the second.
use hustly_tasker.Prelude.{
  guard, ◌>>◌, Result, Outcome, invitation_delivery_unavailable, returned, raised, Text, length,
  rows, update_where, ltb, if◌then◌else◌, ◌==◌, nat_eq, string_eq, bool_eq, option_eq, list_eq, ℕ,
  Bool, true, false, ◌&&◌, none, some, ok,
}
use hustly_tasker.Store.{
  profile_status_eq, profile_role_eq, workspace_status_eq, workspace_role_eq, task_status_eq,
  task_priority_eq, deliverable_status_eq, review_status_eq, event_type_eq, invitation_role_eq,
  invitation_status_eq, delivery_status_eq, token_purpose_eq, token_status_eq, InvitationStatus,
  DeliveryStatus, ProfileInvitation, Db, period_eq, deadline_eq,
}

-- The rows that the callback may write: still pending, and with the digest of the scheduled token.
unfoldable pub is_scheduled : ℕ → Text → ProfileInvitation → Bool
is_scheduled invitation_id digest invitation =
    invitation.id == invitation_id
    && invitation.status == InvitationStatus.pending
    && list_eq.equals invitation.token_digest digest

unfoldable pub is_claimable : ℕ → Text → ℕ → ProfileInvitation → Bool
unfolding is_scheduled
is_claimable invitation_id digest attempted_at invitation =
    is_scheduled invitation_id digest invitation && ltb attempted_at invitation.expires_at

unfoldable pub set_queued : ℕ → ProfileInvitation → ProfileInvitation
set_queued attempted_at row = record row {
  delivery_status = DeliveryStatus.queued;
  delivery_attempted_at = some attempted_at;
}

unfoldable pub set_failed : ℕ → ProfileInvitation → ProfileInvitation
set_failed attempted_at row = record row {
  delivery_status = DeliveryStatus.failed;
  delivery_attempted_at = some attempted_at;
  delivered_at = none;
}

unfoldable pub set_sent : ℕ → ℕ → ProfileInvitation → ProfileInvitation
set_sent attempted_at delivered_at row = record row {
  delivery_status = DeliveryStatus.sent;
  delivery_attempted_at = some attempted_at;
  delivered_at = some delivered_at;
}

-- Up to the call of `send_default_email`. An update that matches no row has changed nothing.
unfoldable pub claim_delivery : ℕ → Text → ℕ → Db → Result Db
unfolding is_claimable set_queued
claim_delivery invitation_id digest attempted_at db = do
  guard (length (rows (is_claimable invitation_id digest attempted_at) db.profile_invitations) == 1)
      invitation_delivery_unavailable
  ok (record db {
    profile_invitations =
        update_where (is_claimable invitation_id digest attempted_at) (set_queued attempted_at)
          db.profile_invitations;
  })

-- From that call on: its outcome, and the time that the code reads after it.
unfoldable pub finish_delivery : ℕ → Text → ℕ → (was_sent : Bool) → ℕ → Db → Outcome (Unit {0}) × Db
unfolding is_scheduled set_failed set_sent
finish_delivery invitation_id digest attempted_at false finished_at db = (
  raised invitation_delivery_unavailable,
  record db {
    profile_invitations =
        update_where (is_scheduled invitation_id digest) (set_failed attempted_at)
          db.profile_invitations;
  },
)
finish_delivery invitation_id digest attempted_at true finished_at db = (
  if length (rows (is_scheduled invitation_id digest) db.profile_invitations) == 1
      then returned tt
      else raised invitation_delivery_unavailable,
  record db {
    profile_invitations =
        update_where (is_scheduled invitation_id digest) (set_sent attempted_at finished_at)
          db.profile_invitations;
  },
)
