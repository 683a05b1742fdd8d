-- ===== src/Access/Contexts.antt =====
-- backend/apps/workspace/access.py: the two context classes, how they are built and how a
-- snapshot is checked again against the database. The `_verification` mark is a flag that the
-- builders set.
use hustly_tasker.Prelude.{
  ℕ, Bool, true, false, ◌&&◌, ◌||◌, Option, none, some, ◌==◌, nat_eq, bool_eq, option_eq, exists,
  is_some, if◌then◌else◌, not, string_eq,
}
use hustly_tasker.Store.{
  Db, ProfileMembership, ProfileRole, profile_role_eq, Workspace, WorkspaceMember, WorkspaceRole,
  workspace_role_eq, profile_status_eq, workspace_status_eq, task_status_eq, task_priority_eq,
  deliverable_status_eq, review_status_eq, event_type_eq, period_eq, deadline_eq,
}

pub record ProfileAccessContext : Type 0 where
  pub user_id : ℕ
  pub profile_id : ℕ
  pub membership_id : ℕ
  pub profile_role : ProfileRole
  pub verification : Bool

pub record WorkspaceAccessContext : Type 0 where
  pub profile_context : ProfileAccessContext
  pub open profile_context use {user_id, profile_id, membership_id, profile_role}
  pub workspace_id : ℕ
  pub workspace_role : Option WorkspaceRole
  pub verification : Bool

abbrev pub build_profile_access_context : ProfileMembership → ProfileAccessContext
build_profile_access_context membership = record {
  user_id = membership.user_id;
  profile_id = membership.profile_id;
  membership_id = membership.id;
  profile_role = membership.role;
  verification = true;
}

abbrev pub build_workspace_access_context :
    ProfileAccessContext → ℕ → Option WorkspaceRole → WorkspaceAccessContext
build_workspace_access_context profile_context workspace_id workspace_role = record {
  profile_context = profile_context;
  workspace_id = workspace_id;
  workspace_role = workspace_role;
  verification = true;
}

abbrev pub is_verified_profile_context : ProfileAccessContext → Bool
is_verified_profile_context context = context.verification

abbrev pub is_verified_workspace_context : WorkspaceAccessContext → Bool
is_verified_workspace_context context =
    context.verification && is_verified_profile_context context.profile_context

-- `role in (OWNER, ADMIN)`
abbrev pub is_profile_manager : ProfileRole → Bool
is_profile_manager role = role == ProfileRole.owner || role == ProfileRole.admin

-- `role in (ADMIN, MEMBER, VIEWER)`
abbrev pub is_effective_role : WorkspaceRole → Bool
is_effective_role role =
    role == WorkspaceRole.admin || role == WorkspaceRole.member || role == WorkspaceRole.viewer

abbrev pub has_effective_role : Option WorkspaceRole → Bool
has_effective_role none = false
has_effective_role (some role) = is_effective_role role

-- `user__is_active=True` on a row with this user.
unfoldable pub user_is_active : Db → ℕ → Bool
user_is_active db user_id = exists (λ user. user.id == user_id && user.is_active) db.users

-- `user__is_active=True, is_active=True`
abbrev pub is_usable : Db → ProfileMembership → Bool
is_usable db membership = membership.is_active && user_is_active db membership.user_id

-- The predicates `profile__memberships__...` that tie a Workspace to the actor's membership.
unfoldable pub is_actor_row :
    Db → ProfileAccessContext → ProfileRole → Workspace → ProfileMembership → Bool
is_actor_row db context role workspace membership =
    workspace.profile_id == some membership.profile_id
    && membership.id == context.membership_id
    && membership.user_id == context.user_id
    && is_usable db membership
    && membership.role == role

unfoldable pub in_actor_scope : Db → ProfileAccessContext → ProfileRole → Workspace → Bool
unfolding is_actor_row
in_actor_scope db context role workspace =
    exists (is_actor_row db context role workspace) db.profile_memberships

-- The predicates `workspace__...` that tie a `WorkspaceMember` row to the tenant of a member.
unfoldable pub is_member_workspace : Db → ProfileAccessContext → ℕ → Workspace → Bool
is_member_workspace db context workspace_id workspace =
    workspace.id == workspace_id
    && workspace.profile_id == some context.profile_id
    && in_actor_scope db context ProfileRole.member workspace

-- The row conditions of the first query of `_is_current_workspace_context`, for a manager.
unfoldable pub is_in_manager_scope : Db → WorkspaceAccessContext → Workspace → Bool
is_in_manager_scope db context workspace =
    workspace.id == context.workspace_id
    && workspace.profile_id == some context.profile_id
    && in_actor_scope db context.profile_context context.profile_role workspace

-- The row conditions of its second query, for an ordinary member.
unfoldable pub is_in_member_scope : Db → WorkspaceAccessContext → WorkspaceMember → Bool
unfolding is_member_workspace
is_in_member_scope db context member =
    member.workspace_id == context.workspace_id
    && member.user_id == context.user_id
    && member.is_active
    && some member.role == context.workspace_role
    && exists (is_member_workspace db context.profile_context member.workspace_id) db.workspaces

-- `_is_current_workspace_context`
unfoldable pub is_current_workspace_context : Db → WorkspaceAccessContext → Bool
unfolding is_in_manager_scope is_in_member_scope
is_current_workspace_context db context =
    if not (is_verified_workspace_context context)
    then false
    else if is_profile_manager context.profile_role
    then (if is_some context.workspace_role
        then false
        else exists (is_in_manager_scope db context) db.workspaces)
    else if not (context.profile_role == ProfileRole.member)
        || not (has_effective_role context.workspace_role)
    then false
    else exists (is_in_member_scope db context) db.workspace_members
