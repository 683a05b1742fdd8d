-- ===== src/Access/Current.antt =====
-- A resolved context passes revalidation in the database that it was resolved in.
use hustly_tasker.Prelude.{
  ◌≡◌, ◌⊎◌, inl, inr, true, Option, some, Ref, refers, nat_eq, option_eq, rows, ok, >>=-eq-ok, Memᴰ,
  exists_intro, first_sound, rows-mem, Option-cases, or_raise_bind, arith, guard_bind, first,
}
use hustly_tasker.Store.{
  Db, ProfileRole, profile_membership_key, Workspace, workspace_key, WorkspaceMember,
  workspace_member_key, WorkspaceRole, profile_role_eq,
}
use hustly_tasker.Access.Contexts.{
  ProfileAccessContext, WorkspaceAccessContext, is_current_workspace_context, is_in_manager_scope,
  is_in_member_scope, is_profile_manager, build_workspace_access_context,
}
use hustly_tasker.Access.Resolve.{
  refresh_profile_access_context, visible_workspace, is_visible_to_valid_context,
  resolve_workspace_role, is_assignment_to, member_workspace_role, resolve_workspace_access_context,
  is_membership_of,
}

build-manager :
    (db : Db) (context : ProfileAccessContext) (workspace : Workspace) (role : Option WorkspaceRole)
    → context.verification ≡ true
    → is_profile_manager context.profile_role ≡ true
    → Memᴰ workspace db.workspaces
    → is_visible_to_valid_context db context workspace ≡ true
    → resolve_workspace_role db context workspace ≡ ok role
    → is_current_workspace_context db (build_workspace_access_context context workspace.id role)
      ≡ true
unfolding is_current_workspace_context is_visible_to_valid_context resolve_workspace_role
build-manager db context workspace role verified manager m visible resolved =
    let built = build_workspace_access_context context workspace.id role in
    ground (arith, exists_intro (is_in_manager_scope db built) db.workspaces m)

-- An ordinary member's role comes from an assignment row.
member_role :
    (db : Db) (context : ProfileAccessContext) (workspace : Workspace) {role : Option WorkspaceRole}
    → context.profile_role ≡ ProfileRole.member
    → resolve_workspace_role db context workspace ≡ ok role
    → (member : WorkspaceMember) × Memᴰ member db.workspace_members
      × (is_assignment_to db context workspace member ≡ true)
      × (role ≡ some member.role)
unfolding resolve_workspace_role member_workspace_role
member_role db context workspace ordinary resolved =
    elim (Option-cases (member_workspace_role db context workspace)) [
      | inl missing ↦ absurd (ground arith)
      | inr (member, found) ↦
          let (fits, m) =
            first_sound (is_assignment_to db context workspace) db.workspace_members found in
          (member, m, fits, ground arith)
    ]

build-member :
    (db : Db) (context : ProfileAccessContext) (workspace : Workspace) (role : Option WorkspaceRole)
    → context.verification ≡ true
    → context.profile_role ≡ ProfileRole.member
    → resolve_workspace_role db context workspace ≡ ok role
    → is_current_workspace_context db (build_workspace_access_context context workspace.id role)
      ≡ true
unfolding is_current_workspace_context is_assignment_to
build-member db context workspace role verified ordinary resolved =
    let built = build_workspace_access_context context workspace.id role in
    let (member, m, fits, given) = member_role db context workspace ordinary resolved in
    ground (arith, exists_intro (is_in_member_scope db built) db.workspace_members m)

refresh-verified :
    (db : Db) (context current : ProfileAccessContext)
    → refresh_profile_access_context db context ≡ ok current
    → current.verification ≡ true
unfolding refresh_profile_access_context
refresh-verified db context current h = ground arith

-- Of the conditions on a visible Workspace, the one on the actor's role.
visible_role :
    (db : Db) (context : ProfileAccessContext) (workspace : Workspace)
    → is_visible_to_valid_context db context workspace ≡ true
    → (is_profile_manager context.profile_role ≡ true) ⊎ (context.profile_role ≡ ProfileRole.member)
unfolding is_visible_to_valid_context
visible_role db context workspace h = ground arith

visible_workspace_lem :
    (db : Db) (context : ProfileAccessContext) (workspace_id : Ref) {workspace : Workspace}
    → visible_workspace db context workspace_id ≡ some workspace
    → Memᴰ workspace db.workspaces
      × (is_visible_to_valid_context db context workspace ≡ true)
      × (refers workspace_id workspace.id ≡ true)
unfolding visible_workspace
visible_workspace_lem db context workspace_id {workspace} found =
    let (named, m) =
      first_sound (λ (w : Workspace). refers workspace_id w.id)
        (rows (is_visible_to_valid_context db context) db.workspaces) found in
    let (stored, visible) = rows-mem (is_visible_to_valid_context db context) db.workspaces m in
    (stored, visible, named)

-- A Workspace context that resolution returns passes revalidation in the same database.
pub resolve-is_current :
    (db : Db) (profile_context : ProfileAccessContext) (workspace_id : Ref)
    {context : WorkspaceAccessContext}
    → resolve_workspace_access_context db profile_context workspace_id ≡ ok context
    → is_current_workspace_context db context ≡ true
unfolding resolve_workspace_access_context
resolve-is_current db profile_context workspace_id {context} h =
    let (current, refreshed, h₁) =
      >>=-eq-ok (refresh_profile_access_context db profile_context) _ h in
    let (workspace, found, h₂) = or_raise_bind (visible_workspace db current workspace_id) _ _ h₁ in
    let (role, resolved, h₃) = >>=-eq-ok (resolve_workspace_role db current workspace) _ h₂ in
    let (m, visible, _) = visible_workspace_lem db current workspace_id found in
    let verified = refresh-verified db profile_context current refreshed in
    elim (visible_role db current workspace visible) [
      | inl manager ↦
          ground
            (arith, build-manager db current workspace role verified manager m visible resolved)
      | inr ordinary ↦
          ground (arith, build-member db current workspace role verified ordinary resolved)
    ]

-- A refreshed context names the same membership, with the role that the row has now.
refresh_keeps :
    (db : Db) (context current : ProfileAccessContext)
    → refresh_profile_access_context db context ≡ ok current
    → (current.user_id ≡ context.user_id)
      × (current.profile_id ≡ context.profile_id)
      × (current.membership_id ≡ context.membership_id)
      × (current.verification ≡ true)
unfolding refresh_profile_access_context is_membership_of
refresh_keeps db context current h =
    let (verified, h₁) = guard_bind context.verification _ _ h in
    let (row, found, h₂) =
      or_raise_bind (first (is_membership_of db context) db.profile_memberships) _ _ h₁ in
    let fits = (first_sound (is_membership_of db context) db.profile_memberships found).0 in
    ground arith

-- A Workspace context that resolution returns names the user, the Profile and the membership of the
-- Profile context that it was resolved from, and the Workspace that was asked for, and it carries
-- both marks of verification.
pub resolve_keeps :
    (db : Db) (profile_context : ProfileAccessContext) (workspace_id : Ref)
    {context : WorkspaceAccessContext}
    → resolve_workspace_access_context db profile_context workspace_id ≡ ok context
    → (context.user_id ≡ profile_context.user_id)
      × (context.profile_id ≡ profile_context.profile_id)
      × (context.membership_id ≡ profile_context.membership_id)
      × (context.profile_context.verification ≡ true)
      × (context.verification ≡ true)
      × (refers workspace_id context.workspace_id ≡ true)
unfolding resolve_workspace_access_context
resolve_keeps db profile_context workspace_id {context} h =
    let (current, refreshed, h₁) =
      >>=-eq-ok (refresh_profile_access_context db profile_context) _ h in
    let (workspace, found, h₂) = or_raise_bind (visible_workspace db current workspace_id) _ _ h₁ in
    let (role, resolved, h₃) = >>=-eq-ok (resolve_workspace_role db current workspace) _ h₂ in
    let (m, visible, named) = visible_workspace_lem db current workspace_id found in
    ground (arith, refresh_keeps db profile_context current refreshed)
