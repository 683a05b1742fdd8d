-- ===== src/Invitations/Managing.antt =====
-- backend/apps/workspace/invitation_services.py: revoking and resending an invitation.
use hustly_tasker.Prelude.{
  guard, or_raise, ◌>>=◌, ◌>>◌, Result, Outcome, tenant_access_not_found, invitation_conflict,
  invitation_delivery_unavailable, returned, raised, Text, refers, exists, first, Ref, ◌==◌, nat_eq,
  string_eq, bool_eq, option_eq, list_eq, ℕ, ◌+◌, String, Bool, true, false, ◌&&◌, ◌||◌, not, none,
  some, ok,
}
use hustly_tasker.Invitations.Issuing.{
  set_revoked, save_invitation, materialize_expiration, issue_invitation_locked, is_joined,
}
use hustly_tasker.Invitations.Managers.{
  resolve_recipient_account, can_issue_role, lock_manager_context, enforce_issuance_limits,
  ManagerScope,
}
use hustly_tasker.Invitations.Records.{invitation_status_text, write_invitation_audit}
use hustly_tasker.Store.{
  profile_status_eq, profile_role_eq, workspace_status_eq, workspace_role_eq, task_status_eq,
  task_priority_eq, deliverable_status_eq, review_status_eq, event_type_eq, invitation_role_eq,
  invitation_status_eq, delivery_status_eq, token_purpose_eq, token_status_eq,
  profile_invitation_key, account_security_token_key, InvitationStatus, ProfileInvitation, Db,
  Platform, id_text, object, Request, FieldRules, user_key, profile_key, profile_membership_key,
  workspace_key, workspace_member_key, task_key, task_assignment_key, task_comment_key,
  deliverable_key, review_key, audit_log_key, notification_key, period_eq, deadline_eq, entry, nil,
}
use hustly_tasker.Workspace.{status_state}

-- What `_get_locked_manager_invitation` returns.
pub record ManagedInvitation : Type 0 where
  pub scope : ManagerScope
  pub invitation : ProfileInvitation

unfoldable pub is_invitation_in : Ref → ℕ → ProfileInvitation → Bool
is_invitation_in invitation_id profile_id invitation =
    refers invitation_id invitation.id && invitation.profile_id == profile_id

-- `_get_locked_manager_invitation`
unfoldable pub get_locked_manager_invitation : Request → Ref → Ref → Db → Result ManagedInvitation
unfolding is_invitation_in
get_locked_manager_invitation request profile_id invitation_id db = do
  scope ← lock_manager_context request profile_id none db
  invitation ←
      or_raise (first (is_invitation_in invitation_id scope.profile.id) db.profile_invitations)
        tenant_access_not_found
  guard (can_issue_role scope.membership.role invitation.requested_role) tenant_access_not_found
  ok (record { scope = scope; invitation = invitation })

-- The write of a revocation, by `revoke_profile_invitation` or, as a rotation, by
-- `resend_profile_invitation`.
unfoldable pub write_revoked : Request → ℕ → String → ProfileInvitation → Db → Result Db
unfolding set_revoked save_invitation
write_revoked request id action invitation db =
    write_invitation_audit id request.actor (set_revoked request.now request.actor invitation)
      action (status_state (invitation_status_text invitation.status))
      (status_state (invitation_status_text InvitationStatus.revoked))
      (save_invitation invitation (set_revoked request.now request.actor) db)

unfoldable pub revoke_profile_invitation :
    Request → Ref → Ref → Db → Result (Outcome ProfileInvitation × Db)
unfolding materialize_expiration
revoke_profile_invitation request profile_id invitation_id db = do
  managed ← get_locked_manager_invitation request profile_id invitation_id db
  (expired, checked) ← materialize_expiration request (request.new_id 0) managed.invitation db
  elim expired [
    | true ↦ ok (raised invitation_conflict, checked)
    | false ↦ do
      guard (managed.invitation.status == InvitationStatus.pending) invitation_conflict
      after ←
          write_revoked request (request.new_id 0) "profile.invitation.revoked" managed.invitation
            checked
      ok (returned (set_revoked request.now request.actor managed.invitation), after)
  ]

-- `resend_profile_invitation` with the old invitation as `_materialize_expiration` left it: a
-- pending one is revoked.
unfoldable pub rotate : Request → Bool → ProfileInvitation → Db → Result Db
unfolding write_revoked
rotate request expired invitation db =
    elim (not expired && invitation.status == InvitationStatus.pending) [
      | true ↦ write_revoked request (request.new_id 1) "profile.invitation.rotated" invitation db
      | false ↦ ok db
    ]

unfoldable pub resend_profile_invitation :
    Platform → FieldRules → Request → Text → Ref → Ref → Db → Result (ProfileInvitation × Db)
unfolding materialize_expiration rotate is_joined
resend_profile_invitation platform rules request raw_token profile_id invitation_id db = do
  managed ← get_locked_manager_invitation request profile_id invitation_id db
  guard platform.is_delivery_available invitation_delivery_unavailable
  let old = managed.invitation
  (expired, checked) ← materialize_expiration request (request.new_id 0) old db
  guard
      (expired || old.status == InvitationStatus.pending || old.status == InvitationStatus.expired)
      invitation_conflict
  guard (not (exists (λ row. row.replaces_id == some old.id) checked.profile_invitations))
      invitation_conflict
  enforce_issuance_limits request.actor old.recipient_email_normalized request.now checked
  rotated ← rotate request expired old checked
  recipient ← resolve_recipient_account platform rotated old.recipient_email_normalized
  guard (not (is_joined rotated managed.scope.profile.id recipient)) invitation_conflict
  (replacement, issued) ←
      issue_invitation_locked platform rules request raw_token (λ k. request.new_id (k + 2))
        managed.scope old.recipient_email_normalized old.requested_role recipient (some old) rotated
  after ←
      write_invitation_audit (request.new_id 4) request.actor replacement
        "profile.invitation.resent" (object (entry "replaces_invitation_id" (id_text old.id) nil))
        (status_state (invitation_status_text replacement.status)) issued
  ok (replacement, after)
