-- ===== src/Invitations/Issuing.antt =====
-- backend/apps/workspace/invitation_services.py: expiring and creating an invitation. `raw_token` is
-- the draw of `secrets.token_urlsafe(32)`.
use mathlib.Core.Option
use hustly_tasker.Prelude.{
  leb, guard, ◌>>=◌, ◌>>◌, raising, Result, validation_error, invitation_conflict,
  invitation_delivery_unavailable, Text, exists, first, save, insert, Ref, ◌==◌, nat_eq, string_eq,
  bool_eq, option_eq, list_eq, ℕ, ◌+◌, Bool, true, false, ◌&&◌, not, Option, none, some, [], ok,
}
use hustly_tasker.Accounts.{normalize_account_email}
use hustly_tasker.Invitations.Managers.{
  invitation_ttl, resolve_recipient_account, lock_manager_context, enforce_issuance_limits,
  ManagerScope,
}
use hustly_tasker.Invitations.Records.{
  full_clean_invitation, invitation_status_text, delivery_status_text, write_invitation_audit,
}
use hustly_tasker.Store.{
  profile_status_eq, profile_role_eq, workspace_status_eq, workspace_role_eq, task_status_eq,
  task_priority_eq, deliverable_status_eq, review_status_eq, event_type_eq, invitation_role_eq,
  invitation_status_eq, delivery_status_eq, token_purpose_eq, token_status_eq,
  profile_invitation_key, account_security_token_key, InvitationRole, InvitationStatus,
  DeliveryStatus, ProfileInvitation, Db, Platform, null, object, Request, FieldRules, user_key,
  profile_key, profile_membership_key, workspace_key, workspace_member_key, task_key,
  task_assignment_key, task_comment_key, deliverable_key, review_key, audit_log_key,
  notification_key, period_eq, deadline_eq, User, entry, nil,
}
use hustly_tasker.Workspace.{status_state}

unfoldable pub is_due : ProfileInvitation → ℕ → Bool
is_due invitation now =
    invitation.status == InvitationStatus.pending && leb invitation.expires_at now

unfoldable pub set_expired : ℕ → ProfileInvitation → ProfileInvitation
set_expired now row = record row { status = InvitationStatus.expired; expired_at = some now }

unfoldable pub set_revoked : ℕ → ℕ → ProfileInvitation → ProfileInvitation
set_revoked now actor row = record row {
  status = InvitationStatus.revoked;
  revoked_at = some now;
  revoked_by_id = some actor;
}

unfoldable pub save_invitation :
    ProfileInvitation → (ProfileInvitation → ProfileInvitation) → Db → Db
save_invitation invitation change db = record db {
  profile_invitations = save invitation.id change db.profile_invitations;
}

-- The branch of `_materialize_expiration` for an invitation that is due.
unfoldable pub expire : Request → ℕ → ProfileInvitation → Db → Result Db
unfolding set_expired save_invitation
expire request id invitation db =
    write_invitation_audit id request.actor (set_expired request.now invitation)
      "profile.invitation.expired" (status_state (invitation_status_text invitation.status))
      (status_state (invitation_status_text InvitationStatus.expired))
      (save_invitation invitation (set_expired request.now) db)

-- `_materialize_expiration`: whether the invitation was due, and the database after it.
unfoldable pub materialize_expiration : Request → ℕ → ProfileInvitation → Db → Result (Bool × Db)
unfolding is_due expire
materialize_expiration request id invitation db = elim (is_due invitation request.now) [
  | true ↦ expire request id invitation db >>= λ after. ok (true, after)
  | false ↦ ok (false, db)
]

-- `_issue_invitation_locked`, up to the delivery that it schedules.
unfoldable pub issue_invitation_locked :
    Platform
    → FieldRules
    → Request
    → Text
    → (ℕ → ℕ)
    → ManagerScope
    → Text
    → InvitationRole
    → Option User
    → Option ProfileInvitation
    → Db
    → Result (ProfileInvitation × Db)
issue_invitation_locked platform rules request raw_token new_id scope email requested_role recipient
      replaces db =
    do
      let invitation : ProfileInvitation = record {
        id = new_id 0;
        profile_id = scope.profile.id;
        recipient_email_normalized = email;
        recipient_user_id = Option.map (λ user. user.id) recipient;
        requested_role = requested_role;
        invited_by_membership_id = scope.membership.id;
        token_digest = platform.sha256_hexdigest raw_token;
        status = InvitationStatus.pending;
        expires_at = request.now + invitation_ttl;
        delivery_status = DeliveryStatus.queued;
        delivery_attempted_at = none;
        delivered_at = none;
        accepted_at = none;
        accepted_by_id = none;
        declined_at = none;
        declined_by_id = none;
        revoked_at = none;
        revoked_by_id = none;
        expired_at = none;
        replaces_id = Option.map (λ old. old.id) replaces;
        created_at = request.now;
      }
      raising invitation_conflict (full_clean_invitation platform rules db invitation)
      invitations ← raising invitation_conflict (insert invitation db.profile_invitations)
      after ←
          write_invitation_audit (new_id 1) scope.membership.user_id invitation
            "profile.invitation.created" null
            (object (
              entry "status" (invitation_status_text invitation.status)
                (entry "delivery_status" (delivery_status_text invitation.delivery_status) nil)))
            (record db { profile_invitations = invitations })
      ok (invitation, after)

unfoldable pub is_pending_for_email : ℕ → Text → ProfileInvitation → Bool
is_pending_for_email profile_id email invitation =
    invitation.profile_id == profile_id
    && list_eq.equals invitation.recipient_email_normalized email
    && invitation.status == InvitationStatus.pending

unfoldable pub is_pending_for_user : ℕ → ℕ → ProfileInvitation → Bool
is_pending_for_user profile_id user_id invitation =
    invitation.profile_id == profile_id
    && invitation.recipient_user_id == some user_id
    && invitation.status == InvitationStatus.pending

-- A pending invitation that is in the way must be due.
unfoldable pub clear_pending : Request → ℕ → Option ProfileInvitation → Db → Result Db
unfolding materialize_expiration
clear_pending request id none db = ok db
clear_pending request id (some pending) db =
    materialize_expiration request id pending db >>= λ (was_due, after).
    guard was_due invitation_conflict >> ok after

-- The recipient has an active membership of the Profile.
unfoldable pub is_joined : Db → ℕ → Option User → Bool
is_joined db profile_id none = false
is_joined db profile_id (some user) =
    exists
      (λ membership.
        membership.profile_id == profile_id
        && membership.user_id == user.id
        && membership.is_active)
      db.profile_memberships

unfoldable pub pending_for_recipient : Db → ℕ → Option User → Option ProfileInvitation
unfolding is_pending_for_user
pending_for_recipient db profile_id none = none
pending_for_recipient db profile_id (some user) =
    first (is_pending_for_user profile_id user.id) db.profile_invitations

unfoldable pub create_profile_invitation :
    Platform
    → FieldRules
    → Request
    → Text
    → Ref
    → Option Text
    → InvitationRole
    → Db
    → Result (ProfileInvitation × Db)
unfolding is_pending_for_email is_joined pending_for_recipient
create_profile_invitation platform rules request raw_token profile_id recipient_email requested_role
      db =
    do
      let email = normalize_account_email platform recipient_email
      guard (not (list_eq.equals email [])) (validation_error "recipient_email")
      scope ← lock_manager_context request profile_id (some requested_role) db
      guard platform.is_delivery_available invitation_delivery_unavailable
      enforce_issuance_limits request.actor email request.now db
      cleared ←
          clear_pending request (request.new_id 0)
            (first (is_pending_for_email scope.profile.id email) db.profile_invitations) db
      recipient ← resolve_recipient_account platform cleared email
      guard (not (is_joined cleared scope.profile.id recipient)) invitation_conflict
      free ←
          clear_pending request (request.new_id 1)
            (pending_for_recipient cleared scope.profile.id recipient) cleared
      issue_invitation_locked platform rules request raw_token (λ k. request.new_id (k + 2)) scope
          email requested_role recipient none free
