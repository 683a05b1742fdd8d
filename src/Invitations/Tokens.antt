-- ===== src/Invitations/Tokens.antt =====
-- backend/apps/workspace/invitation_services.py: from a token to the invitation that it may answer.
use hustly_tasker.Prelude.{
  ok, guard, or_raise, ◌>>=◌, ◌>>◌, Result, invitation_conflict, unicode_encode_error, Text,
  is_encodable, first, ◌==◌, nat_eq, string_eq, bool_eq, option_eq, list_eq, is_some, ℕ, Bool,
  false, ◌&&◌, ◌||◌, not, Option, none, some, [], err,
}
use hustly_tasker.Access.{is_usable}
use hustly_tasker.Accounts.{normalize_account_email}
use hustly_tasker.Invitations.Issuing.{materialize_expiration}
use hustly_tasker.Invitations.Managers.{resolve_recipient_account, can_issue_role}
use hustly_tasker.Store.{
  profile_status_eq, profile_role_eq, workspace_status_eq, workspace_role_eq, task_status_eq,
  task_priority_eq, deliverable_status_eq, review_status_eq, event_type_eq, ProfileStatus,
  invitation_role_eq, invitation_status_eq, delivery_status_eq, token_purpose_eq, token_status_eq,
  profile_invitation_key, account_security_token_key, InvitationStatus, DeliveryStatus,
  ProfileInvitation, Db, Platform, Request, user_key, profile_key, profile_membership_key,
  workspace_key, workspace_member_key, task_key, task_assignment_key, task_comment_key,
  deliverable_key, review_key, audit_log_key, notification_key, period_eq, deadline_eq, User,
  Profile, ProfileMembership,
}
use hustly_tasker.Workspace.{profile_by_id}

-- What `_lookup_token_candidate` returns.
pub record Candidate : Type 0 where
  pub id : ℕ
  pub profile_id : ℕ
  pub digest : Text

-- `_lookup_token_candidate`, none for a token that is not a string; it reads before the locks.
unfoldable pub lookup_token_candidate : Platform → Db → Option Text → Result Candidate
lookup_token_candidate platform db none = err invitation_conflict
lookup_token_candidate platform db (some raw_token) = do
  guard (not (list_eq.equals raw_token [])) invitation_conflict
  guard (is_encodable raw_token) unicode_encode_error
  let digest = platform.sha256_hexdigest raw_token
  candidate ←
      or_raise
        (first (λ (row : ProfileInvitation). list_eq.equals row.token_digest digest)
          db.profile_invitations)
        invitation_conflict
  ok (record { id = candidate.id; profile_id = candidate.profile_id; digest = digest })

unfoldable pub is_account_of : ℕ → Option User → Bool
is_account_of actor none = false
is_account_of actor (some user) = user.id == actor

-- `_validate_recipient_locked`
unfoldable pub validate_recipient_locked : Platform → ℕ → ProfileInvitation → Db → Result (Unit {0})
unfolding is_account_of
validate_recipient_locked platform actor invitation db = do
  locked_actor ←
      or_raise (first (λ (user : User). user.id == actor && user.is_active) db.users)
        invitation_conflict
  let email = normalize_account_email platform (some locked_actor.email)
  guard (list_eq.equals email invitation.recipient_email_normalized) invitation_conflict
  recipient ← resolve_recipient_account platform db email
  guard (is_account_of actor recipient) invitation_conflict
  guard (not (is_some invitation.recipient_user_id) || invitation.recipient_user_id == some actor)
      invitation_conflict

unfoldable pub is_inviter_of : Db → ProfileInvitation → ProfileMembership → Bool
is_inviter_of db invitation membership =
    membership.id == invitation.invited_by_membership_id
    && membership.profile_id == invitation.profile_id
    && is_usable db membership

-- `_validate_original_inviter_locked`
unfoldable pub validate_original_inviter_locked : ProfileInvitation → Db → Result (Unit {0})
unfolding is_inviter_of
validate_original_inviter_locked invitation db = do
  inviter ←
      or_raise (first (is_inviter_of db invitation) db.profile_memberships) invitation_conflict
  guard (can_issue_role inviter.role invitation.requested_role) invitation_conflict

unfoldable pub is_invitation_of : Candidate → ℕ → ProfileInvitation → Bool
is_invitation_of candidate profile_id invitation =
    invitation.id == candidate.id
    && invitation.profile_id == profile_id
    && list_eq.equals invitation.token_digest candidate.digest

-- What `_lock_usable_token` returns; `has_expired` is the negation of its flag.
pub record LockedToken : Type 0 where
  pub profile : Profile
  pub invitation : ProfileInvitation
  pub has_expired : Bool

-- `_lock_usable_token`, with the database after it.
unfoldable pub lock_usable_token : Platform → Request → Candidate → Db → Result (LockedToken × Db)
unfolding is_invitation_of
lock_usable_token platform request candidate db = do
  profile ← or_raise (profile_by_id db candidate.profile_id) invitation_conflict
  invitation ←
      or_raise (first (is_invitation_of candidate profile.id) db.profile_invitations)
        invitation_conflict
  guard
      (profile.status == ProfileStatus.active
        && invitation.status == InvitationStatus.pending
        && invitation.delivery_status == DeliveryStatus.sent)
      invitation_conflict
  validate_recipient_locked platform request.actor invitation db
  (expired, after) ← materialize_expiration request (request.new_id 0) invitation db
  ok (record { profile = profile; invitation = invitation; has_expired = expired }, after)
