-- ===== src/Workspace/Members.antt =====
-- backend/apps/workspace/services.py: the members of a Workspace.
use hustly_tasker.Access.{
  can_mutate_workspace_members, is_profile_manager, is_effective_role, is_usable,
}
use hustly_tasker.Prelude.{
  ◌>>=◌, ◌>>◌, guard, or_raise, integrity_as, Result, tenant_access_not_found, permission_denied,
  integrity_error, workspace_membership_conflict, invalid_workspace_membership_reference, refers,
  exists, first, save, insert, Ref, if◌then◌else◌, ◌==◌, nat_eq, string_eq, bool_eq, option_eq,
  list_eq, ℕ, Bool, true, false, ◌&&◌, ◌||◌, not, none, some, ok,
}
use hustly_tasker.Store.{
  profile_status_eq, profile_role_eq, workspace_status_eq, workspace_role_eq, task_status_eq,
  task_priority_eq, deliverable_status_eq, review_status_eq, event_type_eq, ProfileRole,
  WorkspaceRole, Db, null, Request, FieldRules, user_key, profile_key, profile_membership_key,
  workspace_key, workspace_member_key, task_key, task_assignment_key, task_comment_key,
  deliverable_key, review_key, audit_log_key, notification_key, period_eq, deadline_eq,
  ProfileMembership, Workspace, WorkspaceMember,
}
use hustly_tasker.Workspace.Audit.{
  workspace_role_text, role_state, write_workspace_membership_audit,
}
use hustly_tasker.Workspace.Clean.{check_save_workspace_member}
use hustly_tasker.Workspace.Scope.{lock_workspace_mutation_context}

-- `assignable_roles` and `manageable_roles`: the roles that the actor may give or change.
unfoldable pub is_within_ceiling : ProfileRole → WorkspaceRole → Bool
is_within_ceiling actor_role role =
    if is_profile_manager actor_role
    then is_effective_role role
    else role == WorkspaceRole.member || role == WorkspaceRole.viewer

-- An active membership of this Profile, by its id.
unfoldable pub is_target_membership : Db → Ref → ℕ → ProfileMembership → Bool
is_target_membership db membership_id profile_id membership =
    refers membership_id membership.id
    && membership.profile_id == profile_id
    && is_usable db membership

unfoldable pub is_seat_of : ℕ → ℕ → WorkspaceMember → Bool
is_seat_of workspace_id user_id member =
    member.workspace_id == workspace_id && member.user_id == user_id

-- An active membership of this Profile, by its user.
unfoldable pub is_target_user : Db → ℕ → ℕ → ProfileMembership → Bool
is_target_user db profile_id user_id membership =
    membership.profile_id == profile_id && membership.user_id == user_id && is_usable db membership

-- The result of `add_workspace_member` carries `was_reactivated`.
pub record AddedMember : Type 0 where
  pub member : WorkspaceMember
  pub was_reactivated : Bool

-- The branch of `add_workspace_member` for a row that is there.
unfoldable pub reactivate_member :
    FieldRules
    → Request
    → Workspace
    → WorkspaceMember
    → WorkspaceRole
    → Db
    → Result (AddedMember × Db)
reactivate_member rules request workspace existing role db = do
  guard (not existing.is_active) workspace_membership_conflict
  let changed = record existing { role = role; is_active = true }
  check_save_workspace_member rules db changed
  after ←
      write_workspace_membership_audit request (request.new_id 0) workspace changed
        "workspace.membership.reactivated" (role_state (workspace_role_text existing.role) false)
        (role_state (workspace_role_text role) true)
        (record db {
          workspace_members =
              save existing.id (λ row. record row { role = role; is_active = true })
                db.workspace_members;
        })
  ok (record { member = changed; was_reactivated = true }, after)

-- The branch for a new row.
unfoldable pub create_member :
    FieldRules → Request → Workspace → ℕ → WorkspaceRole → Db → Result (AddedMember × Db)
unfolding is_seat_of
create_member rules request workspace user_id role db = do
  let member : WorkspaceMember = record {
    id = request.new_id 0;
    workspace_id = workspace.id;
    user_id = user_id;
    role = role;
    is_active = true;
  }
  check_save_workspace_member rules db member
  members ←
      integrity_as
        (if exists (is_seat_of workspace.id user_id) db.workspace_members
          then workspace_membership_conflict
          else integrity_error)
        (insert member db.workspace_members)
  after ←
      write_workspace_membership_audit request (request.new_id 1) workspace member
        "workspace.membership.created" null (role_state (workspace_role_text role) true)
        (record db { workspace_members = members })
  ok (record { member = member; was_reactivated = false }, after)

unfoldable pub add_workspace_member :
    FieldRules → Request → Ref → Ref → Ref → WorkspaceRole → Db → Result (AddedMember × Db)
unfolding is_seat_of
add_workspace_member rules request profile_id workspace_id target_membership_id role db = do
  scope ← lock_workspace_mutation_context request profile_id workspace_id db
  guard (can_mutate_workspace_members db scope.context) permission_denied
  guard (is_within_ceiling scope.actor_membership.role role) permission_denied
  target ←
      or_raise
        (first (is_target_membership db target_membership_id scope.context.profile_id)
          db.profile_memberships)
        (invalid_workspace_membership_reference "target_profile_membership_id")
  elim (first (is_seat_of scope.workspace.id target.user_id) db.workspace_members) [
    | some existing ↦ reactivate_member rules request scope.workspace existing role db
    | none ↦ create_member rules request scope.workspace target.user_id role db
  ]

-- An active row of this Workspace, by its id.
unfoldable pub is_active_seat : Ref → ℕ → WorkspaceMember → Bool
is_active_seat membership_id workspace_id member =
    refers membership_id member.id && member.workspace_id == workspace_id && member.is_active

unfoldable pub is_active_seat_of : Ref → ℕ → ℕ → WorkspaceMember → Bool
unfolding is_active_seat
is_active_seat_of membership_id workspace_id user_id member =
    is_active_seat membership_id workspace_id member && member.user_id == user_id

unfoldable pub update_workspace_member :
    FieldRules → Request → Ref → Ref → Ref → WorkspaceRole → Db → Result (WorkspaceMember × Db)
update_workspace_member rules request profile_id workspace_id membership_id role db = do
  scope ← lock_workspace_mutation_context request profile_id workspace_id db
  guard (can_mutate_workspace_members db scope.context) permission_denied
  seat ←
      or_raise (first (is_active_seat membership_id scope.workspace.id) db.workspace_members)
        tenant_access_not_found
  target ←
      or_raise
        (first (is_target_user db scope.context.profile_id seat.user_id) db.profile_memberships)
        (invalid_workspace_membership_reference "membership_id")
  member ←
      or_raise
        (first (is_active_seat_of membership_id scope.workspace.id target.user_id)
          db.workspace_members)
        tenant_access_not_found
  guard
      (is_within_ceiling scope.actor_membership.role member.role
        && is_within_ceiling scope.actor_membership.role role)
      permission_denied
  elim (member.role == role) [
    | true ↦ ok (member, db)
    | false ↦ do
      let changed = record member { role = role }
      check_save_workspace_member rules db changed
      after ←
          write_workspace_membership_audit request (request.new_id 0) scope.workspace changed
            "workspace.membership.updated" (role_state (workspace_role_text member.role) true)
            (role_state (workspace_role_text role) true)
            (record db {
              workspace_members =
                  save member.id (λ row. record row { role = role }) db.workspace_members;
            })
      ok (changed, after)
  ]

unfoldable pub revoke_workspace_member :
    FieldRules → Request → Ref → Ref → Ref → Db → Result (WorkspaceMember × Db)
revoke_workspace_member rules request profile_id workspace_id membership_id db = do
  scope ← lock_workspace_mutation_context request profile_id workspace_id db
  guard (can_mutate_workspace_members db scope.context) permission_denied
  member ←
      or_raise (first (is_active_seat membership_id scope.workspace.id) db.workspace_members)
        tenant_access_not_found
  target ←
      or_raise
        (first (is_target_user db scope.context.profile_id member.user_id) db.profile_memberships)
        (invalid_workspace_membership_reference "membership_id")
  guard (is_within_ceiling scope.actor_membership.role member.role) permission_denied
  let changed = record member { is_active = false }
  check_save_workspace_member rules db changed
  after ←
      write_workspace_membership_audit request (request.new_id 0) scope.workspace changed
        "workspace.membership.revoked" (role_state (workspace_role_text member.role) true)
        (role_state (workspace_role_text member.role) false)
        (record db {
          workspace_members =
              save member.id (λ row. record row { is_active = false }) db.workspace_members;
        })
  ok (changed, after)
