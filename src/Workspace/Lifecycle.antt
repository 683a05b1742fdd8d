-- ===== src/Workspace/Lifecycle.antt =====
-- backend/apps/workspace/services.py: Workspaces, their metadata and their lifecycle.
use hustly_tasker.Access.{
  can_edit_workspace, can_manage_workspace_lifecycle, is_profile_manager,
  resolve_profile_access_context, is_membership_of,
}
use hustly_tasker.Prelude.{
  ◌>>=◌, ◌>>◌, guard, or_raise, integrity_as, Result, tenant_access_not_found, permission_denied,
  validation_error, integrity_error, workspace_period_conflict, Text, strip_or_blank, exists, first,
  save, insert, Ref, if◌then◌else◌, ◌==◌, nat_eq, string_eq, bool_eq, option_eq, list_eq, value_or,
  ℕ, Bool, true, false, ◌&&◌, not, Option, none, some, ok,
}
use hustly_tasker.Store.{
  profile_status_eq, profile_role_eq, workspace_status_eq, workspace_role_eq, task_status_eq,
  task_priority_eq, deliverable_status_eq, review_status_eq, event_type_eq, ProfileStatus,
  WorkspaceStatus, Db, Value, null, number, text, object, Request, FieldRules, user_key,
  profile_key, profile_membership_key, workspace_key, workspace_member_key, task_key,
  task_assignment_key, task_comment_key, deliverable_key, review_key, audit_log_key,
  notification_key, period_eq, deadline_eq, Period, Workspace, entry, nil,
}
use hustly_tasker.Workspace.Audit.{workspace_status_text, status_state, write_workspace_audit}
use hustly_tasker.Workspace.Clean.{check_save_workspace}
use hustly_tasker.Workspace.Scope.{profile_by_id, lock_workspace_mutation_context}

unfoldable pub has_period : Db → ℕ → Period → Bool
has_period db profile_id period =
    exists (λ workspace. workspace.profile_id == some profile_id && workspace.period == some period)
      db.workspaces

unfoldable pub new_workspace_row : Request → ℕ → Option Text → Period → Option Text → Workspace
new_workspace_row request profile_id name period description = record {
  id = request.new_id 0;
  profile_id = some profile_id;
  owner_id = request.actor;
  name = strip_or_blank name;
  description = description;
  period = some period;
  status = WorkspaceStatus.active;
}

abbrev text_or_null : Option Text → Value
text_or_null none = null
text_or_null (some s) = text s

unfoldable pub period_value : Option Period → Value
period_value none = null
period_value (some period) = object (
    entry "year" (number period.year)
      (entry "month" (number period.month) (entry "day" (number period.day) nil)))

-- `workspace.save()` of the new row in `create_workspace`, with its handler.
unfoldable pub save_new_workspace : FieldRules → ℕ → Period → Workspace → Db → Result Db
save_new_workspace rules profile_id period workspace db = do
  check_save_workspace rules db workspace
  workspaces ←
      integrity_as
        (if has_period db profile_id period then workspace_period_conflict else integrity_error)
        (insert workspace db.workspaces)
  ok (record db { workspaces = workspaces })

unfoldable pub create_workspace :
    FieldRules
    → Request
    → Ref
    → Option Text
    → Option Period
    → Option Text
    → Db
    → Result (Workspace × Db)
create_workspace rules request profile_id name period description db = do
  context ← resolve_profile_access_context request.before (some request.actor) profile_id
  profile ← or_raise (profile_by_id db context.profile_id) tenant_access_not_found
  guard (profile.status == ProfileStatus.active) permission_denied
  actor_membership ←
      or_raise (first (is_membership_of db context) db.profile_memberships) tenant_access_not_found
  guard (actor_membership.role == context.profile_role) tenant_access_not_found
  guard (is_profile_manager actor_membership.role) permission_denied
  month ← or_raise period (validation_error "period")
  guard (not (has_period db profile.id month)) workspace_period_conflict
  let workspace = new_workspace_row request profile.id name month description
  saved ← save_new_workspace rules profile.id month workspace db
  after ←
      write_workspace_audit request (request.new_id 1) workspace "workspace.created" null
        (object (
          entry "name" (text workspace.name) (
            entry "description" (text_or_null workspace.description) (
              entry "period" (period_value workspace.period)
                (entry "status" (workspace_status_text workspace.status) nil)))))
        saved
  ok (workspace, after)

-- `{"name": ..., "description": ...}`
unfoldable pub metadata_state : Workspace → Value
metadata_state workspace = object (
    entry "name" (text workspace.name)
      (entry "description" (text_or_null workspace.description) nil))

-- The arguments of `update_workspace`: none for `_UNSET`.
unfoldable pub edited_workspace :
    Workspace → Option (Option Text) → Option (Option Text) → Workspace
edited_workspace workspace name description = record workspace {
  name = elim name [ none ↦ workspace.name | some n ↦ strip_or_blank n ];
  description = value_or description workspace.description;
}

unfoldable pub update_workspace :
    FieldRules
    → Request
    → Ref
    → Ref
    → Option (Option Text)
    → Option (Option Text)
    → Db
    → Result (Workspace × Db)
unfolding edited_workspace
update_workspace rules request profile_id workspace_id name description db = do
  scope ← lock_workspace_mutation_context request profile_id workspace_id db
  guard (can_edit_workspace db scope.context) permission_denied
  let workspace = scope.workspace
  let edited = edited_workspace workspace name description
  elim (workspace.name == edited.name && workspace.description == edited.description) [
    | true ↦ ok (workspace, db)
    | false ↦ do
      check_save_workspace rules db edited
      after ←
          write_workspace_audit request (request.new_id 0) edited "workspace.updated"
            (metadata_state workspace) (metadata_state edited)
            (record db {
              workspaces =
                  save workspace.id
                    (λ row. record row { name = edited.name; description = edited.description })
                    db.workspaces;
            })
      ok (edited, after)
  ]

-- `_set_workspace_status`
unfoldable pub set_workspace_status :
    FieldRules → Request → Ref → Ref → WorkspaceStatus → Db → Result (Workspace × Db)
set_workspace_status rules request profile_id workspace_id next_status db = do
  scope ← lock_workspace_mutation_context request profile_id workspace_id db
  guard (can_manage_workspace_lifecycle db scope.context) permission_denied
  let workspace = scope.workspace
  elim (workspace.status == next_status) [
    | true ↦ ok (workspace, db)
    | false ↦ do
      let changed = record workspace { status = next_status }
      check_save_workspace rules db changed
      after ←
          write_workspace_audit request (request.new_id 0) changed
            (if next_status == WorkspaceStatus.archived
              then "workspace.archived"
              else "workspace.restored")
            (status_state (workspace_status_text workspace.status))
            (status_state (workspace_status_text next_status))
            (record db {
              workspaces =
                  save workspace.id (λ row. record row { status = next_status }) db.workspaces;
            })
      ok (changed, after)
  ]

unfoldable pub archive_workspace : FieldRules → Request → Ref → Ref → Db → Result (Workspace × Db)
unfolding set_workspace_status
archive_workspace rules request profile_id workspace_id =
    set_workspace_status rules request profile_id workspace_id WorkspaceStatus.archived

unfoldable pub restore_workspace : FieldRules → Request → Ref → Ref → Db → Result (Workspace × Db)
unfolding set_workspace_status
restore_workspace rules request profile_id workspace_id =
    set_workspace_status rules request profile_id workspace_id WorkspaceStatus.active
