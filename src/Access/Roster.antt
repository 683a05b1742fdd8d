-- ===== src/Access/Roster.antt =====
-- backend/apps/workspace/access.py: the roster that a manager of members sees.
use hustly_tasker.Prelude.{
  ℕ, List, [], ◌∷◌, Bool, ◌&&◌, ◌||◌, none, some, ◌==◌, nat_eq, option_eq, exists, first, rows, not,
  Result, ok, ◌>>◌, guard, tenant_access_not_found,
}
use hustly_tasker.Store.{
  Db, ProfileMembership, profile_membership_key, ProfileRole, profile_role_eq, WorkspaceMember,
  WorkspaceRole, workspace_role_eq,
}
use hustly_tasker.Access.Contexts.{
  WorkspaceAccessContext, is_effective_role, is_usable, in_actor_scope,
}
use hustly_tasker.Access.Capabilities.{can_manage_workspace_members}

-- A row with its two annotations.
pub record RosterEntry : Type 0 where
  pub member : WorkspaceMember
  pub profile_membership_id : ℕ
  pub has_assignable_profile_membership : Bool

-- The conditions on a `WorkspaceMember` row: the actor's two scopes and the row's own.
unfoldable pub is_on_roster : Db → WorkspaceAccessContext → WorkspaceMember → Bool
is_on_roster db context member =
    exists
      (λ workspace.
        workspace.id == member.workspace_id
        && workspace.profile_id == some context.profile_id
        && in_actor_scope db context.profile_context context.profile_role workspace)
      db.workspaces
    && (not (context.profile_role == ProfileRole.member)
        || exists
            (λ actor.
              actor.workspace_id == member.workspace_id
              && actor.user_id == context.user_id
              && actor.is_active
              && actor.role == WorkspaceRole.admin)
            db.workspace_members)
    && member.workspace_id == context.workspace_id
    && member.is_active
    && is_effective_role member.role

-- The rows that pass, annotated; a row with no active Profile membership is left out.
unfoldable pub annotated : Db → WorkspaceAccessContext → List WorkspaceMember → List RosterEntry
annotated db context [] = []
annotated db context (member ∷ members) =
    let rest = annotated db context members in
    let belongs = λ (membership : ProfileMembership).
      membership.profile_id == context.profile_id
      && membership.user_id == member.user_id
      && is_usable db membership in
    elim (first belongs db.profile_memberships) [
      | none ↦ rest
      | some membership ↦
          record {
            member = member;
            profile_membership_id = membership.id;
            has_assignable_profile_membership =
                exists (λ m. belongs m && m.role == ProfileRole.member) db.profile_memberships;
          }
          ∷ rest
    ]

unfoldable pub workspace_members_visible_to_managers :
    Db → WorkspaceAccessContext → Result (List RosterEntry)
workspace_members_visible_to_managers db context = do
  guard (can_manage_workspace_members db context) tenant_access_not_found
  ok (annotated db context (rows (is_on_roster db context) db.workspace_members))
