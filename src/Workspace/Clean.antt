-- ===== src/Workspace/Clean.antt =====
-- backend/apps/workspace/models.py: `clean` and `save` of the models, up to the write itself.
use hustly_tasker.Access.{is_profile_manager, user_is_active, is_usable}
use hustly_tasker.Prelude.{
  ◌>>=◌, ◌>>◌, guard, or_raise, Result, validation_error, does_not_exist, exists, first, ◌==◌,
  nat_eq, string_eq, bool_eq, option_eq, list_eq, is_some, ℕ, Bool, true, ◌&&◌, ◌||◌, not, Option,
  none, some,
}
use hustly_tasker.Store.{
  profile_status_eq, profile_role_eq, workspace_status_eq, workspace_role_eq, task_status_eq,
  task_priority_eq, deliverable_status_eq, review_status_eq, event_type_eq, ProfileRole, Db,
  FieldRules, user_key, profile_key, profile_membership_key, workspace_key, workspace_member_key,
  task_key, task_assignment_key, task_comment_key, deliverable_key, review_key, audit_log_key,
  notification_key, period_eq, deadline_eq, ProfileMembership, Period, Workspace, WorkspaceMember,
}
use hustly_tasker.Workspace.Scope.{profile_by_id}

-- The rows that may own a Workspace: active Owners and Admins of the Profile, with active accounts.
unfoldable pub is_managing_row : Db → ℕ → ℕ → ProfileMembership → Bool
is_managing_row db profile_id user_id membership =
    membership.profile_id == profile_id
    && membership.user_id == user_id
    && is_usable db membership
    && is_profile_manager membership.role

-- `ProfileMembership.clean`
unfoldable pub clean_profile_membership : Db → ProfileMembership → Result (Unit {0})
clean_profile_membership db membership =
    guard
      (not (
        membership.is_active
        && membership.role == ProfileRole.owner
        && not (user_is_active db membership.user_id)))
      (validation_error "user")

-- Another active row for the same Profile and user (`uniq_active_profile_user`).
unfoldable pub clashes_membership : ProfileMembership → ProfileMembership → Bool
clashes_membership new row =
    not (row.id == new.id)
    && row.profile_id == new.profile_id
    && row.user_id == new.user_id
    && row.is_active

unfoldable pub full_clean_profile_membership :
    FieldRules → Db → ProfileMembership → Result (Unit {0})
unfolding clean_profile_membership clashes_membership
full_clean_profile_membership rules db membership = do
  guard (rules.profile_membership membership) (validation_error "fields")
  clean_profile_membership db membership
  guard
      (not (membership.is_active && exists (clashes_membership membership) db.profile_memberships))
      (validation_error "uniq_active_profile_user")

abbrev is_first_day : Option Period → Bool
is_first_day none = true
is_first_day (some period) = period.day == 1

unfoldable pub workspace_by_id : Db → ℕ → Option Workspace
workspace_by_id db workspace_id = first (λ workspace. workspace.id == workspace_id) db.workspaces

-- Every member of the Workspace has an active membership of the Profile.
unfoldable pub members_are_mapped : Db → ℕ → ℕ → Bool
members_are_mapped db workspace_id profile_id = not (
    exists
      (λ member.
        member.workspace_id == workspace_id
        && not (
            exists
              (λ membership.
                membership.profile_id == profile_id
                && membership.user_id == member.user_id
                && is_usable db membership)
              db.profile_memberships))
      db.workspace_members)

-- `Workspace.clean` from the period on, given the stored row.
clean_persisted : Option Workspace → Workspace → Result (Unit {0})
clean_persisted none workspace = guard (is_some workspace.period) (validation_error "period")
clean_persisted (some old) workspace =
    guard (not (is_some old.period) || workspace.period == old.period) (validation_error "period")

abbrev stored_profile : Option Workspace → Option ℕ
stored_profile none = none
stored_profile (some old) = old.profile_id

clean_tenant : Db → Option Workspace → Workspace → Option ℕ → Result (Unit {0})
clean_tenant db persisted workspace none =
    guard (is_some persisted && not (is_some (stored_profile persisted)))
      (validation_error "profile")
clean_tenant db persisted workspace (some profile_id) = do
  guard (not (is_some (stored_profile persisted)) || stored_profile persisted == some profile_id)
      (validation_error "profile")
  guard (exists (is_managing_row db profile_id workspace.owner_id) db.profile_memberships)
      (validation_error "owner")
  guard
      (not (is_some persisted && not (is_some (stored_profile persisted)))
        || members_are_mapped db workspace.id profile_id)
      (validation_error "profile")

-- `Workspace.clean`
unfoldable pub clean_workspace : Db → Workspace → Result (Unit {0})
unfolding clean_persisted clean_tenant workspace_by_id
clean_workspace db workspace = do
  guard (is_first_day workspace.period) (validation_error "period")
  clean_persisted (workspace_by_id db workspace.id) workspace
  clean_tenant db (workspace_by_id db workspace.id) workspace workspace.profile_id

-- Another Workspace of the same Profile and period (`uniq_profile_workspace_period`).
unfoldable pub clashes_workspace : Workspace → Workspace → Bool
clashes_workspace new row =
    not (row.id == new.id)
    && is_some new.profile_id
    && is_some new.period
    && row.profile_id == new.profile_id
    && row.period == new.period

unfoldable pub full_clean_workspace : FieldRules → Db → Workspace → Result (Unit {0})
unfolding clean_workspace clashes_workspace
full_clean_workspace rules db workspace = do
  guard (rules.workspace workspace) (validation_error "fields")
  clean_workspace db workspace
  guard (not (exists (clashes_workspace workspace) db.workspaces))
      (validation_error "uniq_profile_workspace_period")

-- `Workspace.save` before it writes: the Profile is locked if there is one.
unfoldable pub check_save_workspace : FieldRules → Db → Workspace → Result (Unit {0})
unfolding full_clean_workspace
check_save_workspace rules db workspace = elim workspace.profile_id [
  | none ↦ full_clean_workspace rules db workspace
  | some profile_id ↦ or_raise (profile_by_id db profile_id) does_not_exist >>= λ profile.
      full_clean_workspace rules db workspace
]

-- `Workspace.objects.filter(id=workspace_id).values_list("profile_id", flat=True).first()`
unfoldable pub profile_of_workspace : Db → ℕ → Option ℕ
unfolding workspace_by_id
profile_of_workspace db workspace_id = stored_profile (workspace_by_id db workspace_id)

unfoldable pub is_member_profile_row : Db → ℕ → ℕ → ProfileMembership → Bool
is_member_profile_row db profile_id user_id membership =
    membership.profile_id == profile_id && membership.user_id == user_id && is_usable db membership

-- `WorkspaceMember.clean`
unfoldable pub clean_workspace_member : Db → WorkspaceMember → Result (Unit {0})
unfolding profile_of_workspace is_member_profile_row
clean_workspace_member db member = elim (profile_of_workspace db member.workspace_id) [
  | none ↦
      guard
        (exists
          (λ row.
            row.id == member.id
            && row.workspace_id == member.workspace_id
            && row.user_id == member.user_id)
          db.workspace_members)
        (validation_error "workspace")
  | some profile_id ↦
      guard
        (not member.is_active
          || exists (is_member_profile_row db profile_id member.user_id) db.profile_memberships)
        (validation_error "user")
]

-- Another row for the same Workspace and user (`unique_together`).
unfoldable pub clashes_member : WorkspaceMember → WorkspaceMember → Bool
clashes_member new row =
    not (row.id == new.id) && row.workspace_id == new.workspace_id && row.user_id == new.user_id

unfoldable pub full_clean_workspace_member : FieldRules → Db → WorkspaceMember → Result (Unit {0})
unfolding clean_workspace_member clashes_member
full_clean_workspace_member rules db member = do
  guard (rules.workspace_member member) (validation_error "fields")
  clean_workspace_member db member
  guard (not (exists (clashes_member member) db.workspace_members))
      (validation_error "unique_together")

-- `WorkspaceMember.save` before it writes.
unfoldable pub check_save_workspace_member : FieldRules → Db → WorkspaceMember → Result (Unit {0})
unfolding full_clean_workspace_member profile_of_workspace
check_save_workspace_member rules db member = elim (profile_of_workspace db member.workspace_id) [
  | none ↦ full_clean_workspace_member rules db member
  | some profile_id ↦ or_raise (profile_by_id db profile_id) does_not_exist >>= λ profile.
      full_clean_workspace_member rules db member
]
