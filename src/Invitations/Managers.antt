-- ===== src/Invitations/Managers.antt =====
-- backend/apps/workspace/invitation_services.py: who may invite, and how often.
use hustly_tasker.Prelude.{
  leb, guard, or_raise, ◌>>=◌, ◌>>◌, raising, Result, tenant_access_not_found, permission_denied,
  does_not_exist, ambiguous_invitation_identity, invitation_conflict,
  invitation_rate_limit_exceeded, Text, length, exists, rows, first, Ref, if◌then◌else◌, ◌==◌,
  nat_eq, string_eq, bool_eq, option_eq, list_eq, ℕ, ◌+◌, Bool, true, ◌&&◌, ◌||◌, not, Option, none,
  some, ok,
}
use hustly_tasker.Access.{
  is_profile_manager, ProfileAccessContext, resolve_profile_access_context, is_membership_of,
}
use hustly_tasker.Accounts.{resolve_unique_user_for_email}
use hustly_tasker.Store.{
  profile_status_eq, profile_role_eq, workspace_status_eq, workspace_role_eq, task_status_eq,
  task_priority_eq, deliverable_status_eq, review_status_eq, event_type_eq, ProfileStatus,
  ProfileRole, invitation_role_eq, invitation_status_eq, delivery_status_eq, token_purpose_eq,
  token_status_eq, profile_invitation_key, account_security_token_key, InvitationRole,
  ProfileInvitation, Db, Platform, Request, user_key, profile_key, profile_membership_key,
  workspace_key, workspace_member_key, task_key, task_assignment_key, task_comment_key,
  deliverable_key, review_key, audit_log_key, notification_key, period_eq, deadline_eq, User,
  Profile, ProfileMembership,
}
use hustly_tasker.Workspace.{profile_by_id}

-- timedelta(hours=24) and timedelta(days=7), in microseconds.
abbrev pub invitation_rate_window : ℕ
invitation_rate_window = 86400000000

abbrev pub invitation_ttl : ℕ
invitation_ttl = 604800000000

abbrev pub max_invitations_per_recipient : ℕ
max_invitations_per_recipient = 5

abbrev pub max_invitations_per_inviter : ℕ
max_invitations_per_inviter = 30

-- `except AmbiguousAccountIdentity: raise AmbiguousInvitationIdentity`
unfoldable pub resolve_unique_user_for_invitation_email :
    Platform → Db → Text → Result (Option User)
resolve_unique_user_for_invitation_email platform db email =
    raising ambiguous_invitation_identity (resolve_unique_user_for_email platform db email)

-- `_resolve_recipient_account`
unfoldable pub resolve_recipient_account : Platform → Db → Text → Result (Option User)
unfolding resolve_unique_user_for_invitation_email
resolve_recipient_account platform db email =
    raising invitation_conflict (resolve_unique_user_for_invitation_email platform db email)

-- `_can_issue_role`
unfoldable pub can_issue_role : ProfileRole → InvitationRole → Bool
can_issue_role role requested_role =
    if role == ProfileRole.owner
    then requested_role == InvitationRole.admin || requested_role == InvitationRole.member
    else role == ProfileRole.admin && requested_role == InvitationRole.member

unfoldable pub can_issue : ProfileRole → Option InvitationRole → Bool
unfolding can_issue_role
can_issue role none = true
can_issue role (some requested_role) = can_issue_role role requested_role

-- What `_lock_manager_context` returns.
pub record ManagerScope : Type 0 where
  pub profile : Profile
  pub membership : ProfileMembership

unfoldable pub is_manager_row : Db → ProfileAccessContext → ProfileMembership → Bool
is_manager_row db context membership =
    is_membership_of db context membership && is_profile_manager membership.role

-- `_lock_manager_context`
unfoldable pub lock_manager_context :
    Request → Ref → Option InvitationRole → Db → Result ManagerScope
unfolding is_manager_row
lock_manager_context request profile_id requested_role db = do
  context ← resolve_profile_access_context request.before (some request.actor) profile_id
  profile ← or_raise (profile_by_id db context.profile_id) tenant_access_not_found
  guard (profile.status == ProfileStatus.active) permission_denied
  membership ← or_raise (first (is_manager_row db context) db.profile_memberships) (
      if context.profile_role == ProfileRole.member
      then permission_denied
      else tenant_access_not_found)
  guard (can_issue membership.role requested_role) permission_denied
  ok (record { profile = profile; membership = membership })

-- `created_at__gte=now - INVITATION_RATE_WINDOW`
unfoldable pub is_recent : ℕ → ProfileInvitation → Bool
is_recent now invitation = leb now (invitation.created_at + invitation_rate_window)

unfoldable pub is_issued_by : Db → ℕ → ProfileInvitation → Bool
is_issued_by db actor invitation =
    exists
      (λ membership.
        membership.id == invitation.invited_by_membership_id && membership.user_id == actor)
      db.profile_memberships

unfoldable pub inviter_count : Db → ℕ → ℕ → ℕ
unfolding is_recent is_issued_by
inviter_count db actor now = length (
    rows (λ invitation. is_issued_by db actor invitation && is_recent now invitation)
      db.profile_invitations)

unfoldable pub recipient_count : Db → Text → ℕ → ℕ
unfolding is_recent
recipient_count db email now = length (
    rows
      (λ invitation.
        list_eq.equals invitation.recipient_email_normalized email && is_recent now invitation)
      db.profile_invitations)

-- `_enforce_issuance_limits`
unfoldable pub enforce_issuance_limits : ℕ → Text → ℕ → Db → Result (Unit {0})
unfolding inviter_count recipient_count
enforce_issuance_limits actor email now db =
    or_raise (first (λ (user : User). user.id == actor) db.users) does_not_exist >>= λ user.
    guard
      (not (
        leb max_invitations_per_inviter (inviter_count db actor now)
        || leb max_invitations_per_recipient (recipient_count db email now)))
      invitation_rate_limit_exceeded
