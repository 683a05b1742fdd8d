-- ===== src/Workspace/Profiles.antt =====
-- backend/apps/workspace/services.py: Profiles and their memberships.
use hustly_tasker.Access.{
  can_manage_profile_lifecycle, is_profile_manager, user_is_active, ProfileAccessContext,
  resolve_profile_access_context, is_membership_of,
}
use hustly_tasker.Prelude.{
  ◌>>=◌, ◌>>◌, guard, or_raise, Result, tenant_access_not_found, permission_denied,
  validation_error, does_not_exist, last_active_profile_owner, Text, strip_or_blank, refers, exists,
  first, save, insert, Ref, uuid, if◌then◌else◌, ◌==◌, nat_eq, string_eq, bool_eq, option_eq,
  list_eq, ℕ, Bool, true, false, ◌&&◌, ◌||◌, not, Option, some, ok, value_or,
}
use hustly_tasker.Store.{
  profile_status_eq, profile_role_eq, workspace_status_eq, workspace_role_eq, task_status_eq,
  task_priority_eq, deliverable_status_eq, review_status_eq, event_type_eq, ProfileStatus,
  ProfileRole, Db, null, Request, FieldRules, user_key, profile_key, profile_membership_key,
  workspace_key, workspace_member_key, task_key, task_assignment_key, task_comment_key,
  deliverable_key, review_key, audit_log_key, notification_key, period_eq, deadline_eq, Profile,
  ProfileMembership,
}
use hustly_tasker.Workspace.Audit.{
  profile_role_text, profile_status_text, role_state, status_state, write_profile_membership_audit,
  write_profile_audit,
}
use hustly_tasker.Workspace.Clean.{full_clean_profile_membership}
use hustly_tasker.Workspace.Scope.{profile_by_id}

-- `create_profile_with_owner`; the owner is the actor, none for a User that is not saved.
unfoldable pub create_profile_with_owner :
    FieldRules → Request → Option ℕ → Option Text → Db → Result (Profile × Db)
create_profile_with_owner rules request owner name db = do
  owner_id ← or_raise owner (validation_error "owner")
  guard (user_is_active db owner_id) (validation_error "owner")
  let profile : Profile = record {
    id = request.new_id 0;
    name = strip_or_blank name;
    status = ProfileStatus.active;
  }
  guard (rules.profile profile) (validation_error "fields")
  profiles ← insert profile db.profiles
  let with_profile = record db { profiles = profiles }
  let membership : ProfileMembership = record {
    id = request.new_id 1;
    profile_id = profile.id;
    user_id = owner_id;
    role = ProfileRole.owner;
    is_active = true;
  }
  full_clean_profile_membership rules with_profile membership
  memberships ← insert membership with_profile.profile_memberships
  after ←
      write_profile_membership_audit (record request { actor = owner_id }) (request.new_id 2)
        membership "profile.membership.created" null
        (role_state (profile_role_text membership.role) membership.is_active)
        (record with_profile { profile_memberships = memberships })
  ok (profile, after)

unfoldable pub is_owner_row : Db → ProfileAccessContext → ProfileMembership → Bool
is_owner_row db context membership =
    is_membership_of db context membership && membership.role == ProfileRole.owner

-- `_set_profile_status`
unfoldable pub set_profile_status :
    FieldRules → Request → Ref → ProfileStatus → Db → Result (Profile × Db)
unfolding is_owner_row
set_profile_status rules request profile_id next_status db = do
  context ← resolve_profile_access_context request.before (some request.actor) profile_id
  profile ← or_raise (profile_by_id db context.profile_id) tenant_access_not_found
  actor_membership ←
      or_raise (first (is_owner_row db context) db.profile_memberships) permission_denied
  locked_context ← resolve_profile_access_context db (some request.actor) (uuid profile.id)
  guard (can_manage_profile_lifecycle db locked_context) permission_denied
  elim (profile.status == next_status) [
    | true ↦ ok (profile, db)
    | false ↦ do
      let changed = record profile { status = next_status }
      guard (rules.profile changed) (validation_error "fields")
      after ←
          write_profile_audit request (request.new_id 0) changed
            (if next_status == ProfileStatus.archived
              then "profile.archived"
              else "profile.restored")
            (status_state (profile_status_text profile.status))
            (status_state (profile_status_text next_status))
            (record db {
              profiles = save profile.id (λ row. record row { status = next_status }) db.profiles;
            })
      ok (changed, after)
  ]

unfoldable pub archive_profile : FieldRules → Request → Ref → Db → Result (Profile × Db)
unfolding set_profile_status
archive_profile rules request profile_id =
    set_profile_status rules request profile_id ProfileStatus.archived

unfoldable pub restore_profile : FieldRules → Request → Ref → Db → Result (Profile × Db)
unfolding set_profile_status
restore_profile rules request profile_id =
    set_profile_status rules request profile_id ProfileStatus.active

-- The row of the Profile with this id.
unfoldable pub is_membership_in : Ref → ℕ → ProfileMembership → Bool
is_membership_in membership_id profile_id membership =
    refers membership_id membership.id && membership.profile_id == profile_id

-- `removes_active_owner`
unfoldable pub removes_active_owner : Db → ProfileMembership → ProfileRole → Bool → Bool
removes_active_owner db membership next_role next_is_active =
    membership.role == ProfileRole.owner
    && membership.is_active
    && user_is_active db membership.user_id
    && (not (next_role == ProfileRole.owner) || not next_is_active)

-- Another active Owner of the Profile, with an active account.
unfoldable pub is_other_owner : Db → ℕ → ProfileMembership → ProfileMembership → Bool
is_other_owner db profile_id membership row =
    row.profile_id == profile_id
    && row.role == ProfileRole.owner
    && row.is_active
    && user_is_active db row.user_id
    && not (row.id == membership.id)

-- `removes_workspace_manager_status`
unfoldable pub removes_workspace_manager_status : ProfileMembership → ProfileRole → Bool → Bool
removes_workspace_manager_status membership next_role next_is_active =
    membership.is_active
    && is_profile_manager membership.role
    && (not next_is_active || not (is_profile_manager next_role))

unfoldable pub owns_workspace : Db → ℕ → ℕ → Bool
owns_workspace db profile_id user_id =
    exists (λ workspace. workspace.profile_id == some profile_id && workspace.owner_id == user_id)
      db.workspaces

-- The end of `update_profile_membership`: nothing for the values that are stored, and otherwise the
-- write and its audit row.
unfoldable pub write_profile_membership :
    FieldRules
    → Request
    → ProfileMembership
    → ProfileRole
    → Bool
    → Db
    → Result (ProfileMembership × Db)
write_profile_membership rules request membership next_role next_is_active db =
    elim (membership.role == next_role && membership.is_active == next_is_active) [
      | true ↦ ok (membership, db)
      | false ↦ do
        let changed = record membership { role = next_role; is_active = next_is_active }
        full_clean_profile_membership rules db changed
        after ←
            write_profile_membership_audit request (request.new_id 0) changed
              "profile.membership.updated"
              (role_state (profile_role_text membership.role) membership.is_active)
              (role_state (profile_role_text next_role) next_is_active)
              (record db {
                profile_memberships =
                    save membership.id
                      (λ row. record row { role = next_role; is_active = next_is_active })
                      db.profile_memberships;
              })
        ok (changed, after)
    ]

-- `update_profile_membership`; an argument that is none keeps the stored value.
unfoldable pub update_profile_membership :
    FieldRules
    → Request
    → Ref
    → Ref
    → Option ProfileRole
    → Option Bool
    → Db
    → Result (ProfileMembership × Db)
unfolding is_membership_in
update_profile_membership rules request profile_id membership_id role is_active db = do
  context ← resolve_profile_access_context request.before (some request.actor) profile_id
  profile ← or_raise (profile_by_id db context.profile_id) does_not_exist
  guard (profile.status == ProfileStatus.active) permission_denied
  actor_membership ←
      or_raise (first (is_membership_of db context) db.profile_memberships) tenant_access_not_found
  guard (is_profile_manager actor_membership.role) permission_denied
  membership ←
      or_raise (first (is_membership_in membership_id context.profile_id) db.profile_memberships)
        tenant_access_not_found
  let next_role = value_or role membership.role
  let next_is_active = value_or is_active membership.is_active
  guard (membership.is_active || not next_is_active) (validation_error "is_active")
  guard
      (not (
        next_role == ProfileRole.owner
        && next_is_active
        && not (user_is_active db membership.user_id)))
      (validation_error "user")
  guard
      (not (
        actor_membership.role == ProfileRole.admin
        && (not (membership.role == ProfileRole.member) || not (next_role == ProfileRole.member))))
      permission_denied
  guard
      (not (removes_active_owner db membership next_role next_is_active)
        || exists (is_other_owner db context.profile_id membership) db.profile_memberships)
      last_active_profile_owner
  guard
      (not (
        removes_workspace_manager_status membership next_role next_is_active
        && owns_workspace db context.profile_id membership.user_id))
      (validation_error "role")
  write_profile_membership rules request membership next_role next_is_active db
