-- ===== src/Workspace/Scope.antt =====
-- backend/apps/workspace/services.py, `lock_workspace_mutation_context`: two reads of the tenant
-- scope without locks, in `request.before`, then the locked rows of the current database.
use hustly_tasker.Prelude.{
  ℕ, Ref, some, none, Bool, ◌&&◌, Option, Result, ok, ◌>>=◌, ◌>>◌, guard, or_raise, first, ◌==◌,
  nat_eq, option_eq, if◌then◌else◌, tenant_access_not_found, permission_denied, does_not_exist,
}
use hustly_tasker.Store.{
  Db, Request, Profile, profile_key, ProfileMembership, profile_membership_key, Workspace,
  workspace_key, WorkspaceMember, workspace_member_key, WorkspaceRole, workspace_role_eq,
  ProfileRole, profile_role_eq, ProfileStatus, profile_status_eq,
}
use hustly_tasker.Access.{
  WorkspaceAccessContext, is_effective_role, is_membership_of, resolve_profile_access_context,
  resolve_workspace_access_context,
}

pub record LockedScope : Type 0 where
  pub context : WorkspaceAccessContext
  pub workspace : Workspace
  pub actor_membership : ProfileMembership

unfoldable pub profile_by_id : Db → ℕ → Option Profile
profile_by_id db profile_id = first (λ profile. profile.id == profile_id) db.profiles

unfoldable pub workspace_in_profile : Db → ℕ → ℕ → Option Workspace
workspace_in_profile db workspace_id profile_id =
    first (λ workspace. workspace.id == workspace_id && workspace.profile_id == some profile_id)
      db.workspaces

-- The locked role of an ordinary member in a Workspace.
unfoldable pub is_effective_assignment : ℕ → ℕ → WorkspaceMember → Bool
is_effective_assignment workspace_id user_id member =
    member.workspace_id == workspace_id
    && member.user_id == user_id
    && member.is_active
    && is_effective_role member.role

unfoldable pub locked_workspace_role :
    Db → Workspace → ProfileMembership → Result (Option WorkspaceRole)
locked_workspace_role db workspace membership =
    if membership.role == ProfileRole.member
    then (do
      member ←
          or_raise
            (first (is_effective_assignment workspace.id membership.user_id) db.workspace_members)
            tenant_access_not_found
      ok (some member.role))
    else ok none

unfoldable pub lock_workspace_mutation_context : Request → Ref → Ref → Db → Result LockedScope
lock_workspace_mutation_context request profile_id workspace_id db = do
  profile_context ← resolve_profile_access_context request.before (some request.actor) profile_id
  context ← resolve_workspace_access_context request.before profile_context workspace_id
  profile ← or_raise (profile_by_id db profile_context.profile_id) does_not_exist
  guard (profile.status == ProfileStatus.active) permission_denied
  workspace ←
      or_raise (workspace_in_profile db context.workspace_id profile_context.profile_id)
        tenant_access_not_found
  membership ←
      or_raise (first (is_membership_of db profile_context) db.profile_memberships)
        tenant_access_not_found
  role ← locked_workspace_role db workspace membership
  guard (membership.role == context.profile_role && role == context.workspace_role)
      tenant_access_not_found
  ok (record { context = context; workspace = workspace; actor_membership = membership })
