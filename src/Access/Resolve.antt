-- ===== src/Access/Resolve.antt =====
-- backend/apps/workspace/access.py: from a user and ids to a context, and what a context sees.
-- The actor is the primary key of `request.user`, none for an anonymous one.
use hustly_tasker.Prelude.{
  ℕ, List, [], Bool, ◌&&◌, ◌||◌, Option, none, some, Ref, refers, ◌==◌, nat_eq, option_eq, exists,
  first, rows, if◌then◌else◌, Result, ok, err, ◌>>=◌, ◌>>◌, guard, or_raise,
  tenant_access_not_found, string_eq, bool_eq,
}
use hustly_tasker.Store.{
  Db, Profile, ProfileMembership, profile_membership_key, ProfileRole, profile_role_eq, Workspace,
  workspace_key, WorkspaceMember, workspace_member_key, WorkspaceRole, profile_status_eq,
  workspace_status_eq, workspace_role_eq, task_status_eq, task_priority_eq, deliverable_status_eq,
  review_status_eq, event_type_eq, user_key, profile_key, task_key, task_assignment_key,
  task_comment_key, deliverable_key, review_key, audit_log_key, notification_key, period_eq,
  deadline_eq,
}
use hustly_tasker.Access.Contexts.{
  ProfileAccessContext, WorkspaceAccessContext, build_profile_access_context,
  build_workspace_access_context, is_verified_profile_context, is_profile_manager,
  is_effective_role, is_usable, in_actor_scope, is_member_workspace,
}

unfoldable pub profiles_visible_to : Db → Option ℕ → List Profile
profiles_visible_to db none = []
profiles_visible_to db (some user_id) =
    rows
      (λ profile.
        exists
          (λ membership.
            membership.profile_id == profile.id
            && membership.user_id == user_id
            && is_usable db membership)
          db.profile_memberships)
      db.profiles

unfoldable pub is_usable_membership : Db → ℕ → Ref → ProfileMembership → Bool
is_usable_membership db user_id profile_id membership =
    refers profile_id membership.profile_id
    && membership.user_id == user_id
    && is_usable db membership

unfoldable pub resolve_profile_access_context : Db → Option ℕ → Ref → Result ProfileAccessContext
resolve_profile_access_context db none profile_id = err tenant_access_not_found
resolve_profile_access_context db (some user_id) profile_id = do
  membership ←
      or_raise (first (is_usable_membership db user_id profile_id) db.profile_memberships)
        tenant_access_not_found
  ok (build_profile_access_context membership)

-- The membership that a context names, still usable.
unfoldable pub is_membership_of : Db → ProfileAccessContext → ProfileMembership → Bool
is_membership_of db context membership =
    membership.id == context.membership_id
    && membership.profile_id == context.profile_id
    && membership.user_id == context.user_id
    && is_usable db membership

-- `_refresh_profile_access_context`
unfoldable pub refresh_profile_access_context :
    Db → ProfileAccessContext → Result ProfileAccessContext
refresh_profile_access_context db context = do
  guard (is_verified_profile_context context) tenant_access_not_found
  membership ←
      or_raise (first (is_membership_of db context) db.profile_memberships) tenant_access_not_found
  ok (build_profile_access_context membership)

-- The conditions of the queryset of `_workspaces_visible_to_valid_context`, on one row.
unfoldable pub is_visible_to_valid_context : Db → ProfileAccessContext → Workspace → Bool
is_visible_to_valid_context db context workspace =
    workspace.profile_id == some context.profile_id
    && in_actor_scope db context context.profile_role workspace
    && (is_profile_manager context.profile_role
        || context.profile_role == ProfileRole.member
          && exists
              (λ member.
                member.workspace_id == workspace.id
                && member.user_id == context.user_id
                && member.is_active
                && is_effective_role member.role)
              db.workspace_members)

-- `_workspaces_visible_to_valid_context`
unfoldable pub workspaces_visible_to_valid_context : Db → ProfileAccessContext → List Workspace
unfolding is_visible_to_valid_context
workspaces_visible_to_valid_context db context =
    rows (is_visible_to_valid_context db context) db.workspaces

unfoldable pub workspaces_visible_to : Db → ProfileAccessContext → Result (List Workspace)
workspaces_visible_to db context = do
  current_context ← refresh_profile_access_context db context
  ok (workspaces_visible_to_valid_context db current_context)

-- The row conditions of the second read of `resolve_workspace_access_context`.
unfoldable pub is_assignment_to : Db → ProfileAccessContext → Workspace → WorkspaceMember → Bool
unfolding is_member_workspace
is_assignment_to db context workspace member =
    member.workspace_id == workspace.id
    && member.user_id == context.user_id
    && member.is_active
    && exists (is_member_workspace db context member.workspace_id) db.workspaces
    && is_effective_role member.role

-- That read: the assignment that gives an ordinary member's role.
unfoldable pub member_workspace_role :
    Db → ProfileAccessContext → Workspace → Option WorkspaceMember
unfolding is_assignment_to
member_workspace_role db context workspace =
    first (is_assignment_to db context workspace) db.workspace_members

unfoldable pub resolve_workspace_role :
    Db → ProfileAccessContext → Workspace → Result (Option WorkspaceRole)
resolve_workspace_role db context workspace =
    if context.profile_role == ProfileRole.member
    then (do
      member ← or_raise (member_workspace_role db context workspace) tenant_access_not_found
      ok (some member.role))
    else ok none

-- `_workspaces_visible_to_valid_context(context).filter(id=workspace_id).first()`
unfoldable pub visible_workspace : Db → ProfileAccessContext → Ref → Option Workspace
unfolding workspaces_visible_to_valid_context
visible_workspace db context workspace_id =
    first (λ workspace. refers workspace_id workspace.id)
      (workspaces_visible_to_valid_context db context)

unfoldable pub resolve_workspace_access_context :
    Db → ProfileAccessContext → Ref → Result WorkspaceAccessContext
resolve_workspace_access_context db profile_context workspace_id = do
  current_profile_context ← refresh_profile_access_context db profile_context
  workspace ←
      or_raise (visible_workspace db current_profile_context workspace_id) tenant_access_not_found
  workspace_role ← resolve_workspace_role db current_profile_context workspace
  ok (build_workspace_access_context current_profile_context workspace.id workspace_role)
