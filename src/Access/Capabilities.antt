-- ===== src/Access/Capabilities.antt =====
-- backend/apps/workspace/access.py: what a context may do.
use hustly_tasker.Prelude.{
  ℕ, Bool, true, false, ◌&&◌, some, ◌==◌, nat_eq, option_eq, exists, if◌then◌else◌, not, Result, ok,
  err,
}
use hustly_tasker.Store.{
  Db, ProfileStatus, profile_status_eq, ProfileRole, profile_role_eq, WorkspaceStatus,
  workspace_status_eq, WorkspaceRole, workspace_role_eq,
}
use hustly_tasker.Access.Contexts.{
  ProfileAccessContext, WorkspaceAccessContext, is_profile_manager, has_effective_role,
  is_current_workspace_context,
}
use hustly_tasker.Access.Resolve.{refresh_profile_access_context}

unfoldable pub can_read_workspace : Db → WorkspaceAccessContext → Bool
can_read_workspace db context =
    if not (is_current_workspace_context db context)
    then false
    else if is_profile_manager context.profile_role
    then true
    else has_effective_role context.workspace_role

unfoldable pub profile_is_active : Db → ℕ → Bool
profile_is_active db profile_id =
    exists (λ profile. profile.id == profile_id && profile.status == ProfileStatus.active)
      db.profiles

-- `try: current_context = _refresh_profile_access_context(context)`, false on the exception.
abbrev with_refreshed : Result ProfileAccessContext → (ProfileAccessContext → Bool) → Bool
with_refreshed (ok current) test = test current
with_refreshed (err e) test = false

unfoldable pub can_create_workspace : Db → ProfileAccessContext → Bool
can_create_workspace db context =
    with_refreshed (refresh_profile_access_context db context)
      λ current. is_profile_manager current.profile_role && profile_is_active db current.profile_id

unfoldable pub can_manage_profile_lifecycle : Db → ProfileAccessContext → Bool
can_manage_profile_lifecycle db context =
    with_refreshed (refresh_profile_access_context db context)
      λ current. current.profile_role == ProfileRole.owner

unfoldable pub can_manage_profile_invitations : Db → ProfileAccessContext → Bool
can_manage_profile_invitations db context =
    with_refreshed (refresh_profile_access_context db context)
      λ current. is_profile_manager current.profile_role

-- `_has_active_workspace_state`
unfoldable pub has_active_workspace_state : Db → WorkspaceAccessContext → Bool
has_active_workspace_state db context =
    if not (is_current_workspace_context db context)
    then false
    else exists
        (λ workspace.
          workspace.id == context.workspace_id
          && workspace.profile_id == some context.profile_id
          && profile_is_active db context.profile_id
          && workspace.status == WorkspaceStatus.active)
        db.workspaces

unfoldable pub can_edit_workspace : Db → WorkspaceAccessContext → Bool
can_edit_workspace db context =
    if not (has_active_workspace_state db context)
    then false
    else if is_profile_manager context.profile_role
    then true
    else context.workspace_role == some WorkspaceRole.admin

unfoldable pub can_manage_workspace_tasks : Db → WorkspaceAccessContext → Bool
can_manage_workspace_tasks db context =
    if not (has_active_workspace_state db context)
    then false
    else if is_profile_manager context.profile_role
    then true
    else context.workspace_role == some WorkspaceRole.admin

unfoldable pub can_execute_workspace_tasks : Db → WorkspaceAccessContext → Bool
can_execute_workspace_tasks db context =
    has_active_workspace_state db context
    && context.profile_role == ProfileRole.member
    && context.workspace_role == some WorkspaceRole.member

unfoldable pub can_review_workspace_deliverables : Db → WorkspaceAccessContext → Bool
unfolding can_manage_workspace_tasks
can_review_workspace_deliverables db context = can_manage_workspace_tasks db context

unfoldable pub can_manage_workspace_members : Db → WorkspaceAccessContext → Bool
can_manage_workspace_members db context =
    if not (is_current_workspace_context db context)
    then false
    else if is_profile_manager context.profile_role
    then true
    else context.workspace_role == some WorkspaceRole.admin

unfoldable pub can_mutate_workspace_members : Db → WorkspaceAccessContext → Bool
unfolding can_manage_workspace_members
can_mutate_workspace_members db context =
    can_manage_workspace_members db context && has_active_workspace_state db context

unfoldable pub can_manage_workspace_lifecycle : Db → WorkspaceAccessContext → Bool
can_manage_workspace_lifecycle db context =
    if not (is_current_workspace_context db context)
    then false
    else is_profile_manager context.profile_role && profile_is_active db context.profile_id
