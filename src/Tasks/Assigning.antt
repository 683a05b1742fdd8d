-- ===== src/Tasks/Assigning.antt =====
-- backend/apps/tasks/services.py: `assign_task` and `start_task`.
use hustly_tasker.Access.{is_usable}
use hustly_tasker.Notify.{emit_task_notifications}
use hustly_tasker.Prelude.{
  ◌>>=◌, ◌>>◌, guard, or_raise, integrity_as, Result, validation_error, task_workflow_conflict,
  task_assignment_conflict, invalid_task_assignment_reference, refers, exists, rows, first, save,
  insert, Ref, if◌then◌else◌, ◌==◌, nat_eq, string_eq, bool_eq, option_eq, list_eq, is_some, ℕ, ◌+◌,
  Bool, true, false, ◌&&◌, ◌||◌, not, Option, none, some, ok,
}
use hustly_tasker.Store.{
  profile_status_eq, profile_role_eq, workspace_status_eq, workspace_role_eq, task_status_eq,
  task_priority_eq, deliverable_status_eq, review_status_eq, event_type_eq, ProfileRole,
  WorkspaceRole, TaskStatus, EventType, Db, id_or_null, id_text, Request, FieldRules, user_key,
  profile_key, profile_membership_key, workspace_key, workspace_member_key, task_key,
  task_assignment_key, task_comment_key, deliverable_key, review_key, audit_log_key,
  notification_key, period_eq, deadline_eq, ProfileMembership, Workspace, WorkspaceMember, Task,
  TaskAssignment, AuditLog, entry, nil,
}
use hustly_tasker.Tasks.Saves.{
  lock_task, create_audit_log, task_event, save_task_status, require_manager, require_executor,
  lock_current_editor_assignment, status_text,
}
use hustly_tasker.Workspace.{lock_workspace_mutation_context}

-- An active Profile membership with the MEMBER role, by its id.
unfoldable pub is_assignable_membership : Db → Ref → ℕ → ProfileMembership → Bool
is_assignable_membership db membership_id profile_id membership =
    refers membership_id membership.id
    && membership.profile_id == profile_id
    && is_usable db membership
    && membership.role == ProfileRole.member

-- An active Editor of the Workspace.
unfoldable pub is_editor_of : ℕ → ℕ → WorkspaceMember → Bool
is_editor_of workspace_id user_id member =
    member.workspace_id == workspace_id
    && member.user_id == user_id
    && member.is_active
    && member.role == WorkspaceRole.member

unfoldable pub is_active_for : ℕ → TaskAssignment → Bool
is_active_for task_id assignment = assignment.task_id == task_id && assignment.is_active

unfoldable pub is_for : ℕ → ℕ → TaskAssignment → Bool
is_for task_id user_id assignment = assignment.task_id == task_id && assignment.user_id == user_id

-- Another row for the same Task and user, or another active one for the Task: `unique_together`
-- and `uniq_active_task_assignment`.
unfoldable pub clashes_assignment : TaskAssignment → TaskAssignment → Bool
clashes_assignment new row =
    not (row.id == new.id)
    && row.task_id == new.task_id
    && (row.user_id == new.user_id || new.is_active && row.is_active)

unfoldable pub full_clean_assignment : FieldRules → Db → TaskAssignment → Result (Unit {0})
unfolding clashes_assignment
full_clean_assignment rules db assignment = do
  guard (rules.task_assignment assignment) (validation_error "fields")
  guard (not (exists (clashes_assignment assignment) db.task_assignments))
      (validation_error "uniq_active_task_assignment")

-- The active assignment is ended before the next one starts.
unfoldable pub end_assignment : Option TaskAssignment → Db → Db
end_assignment none db = db
end_assignment (some active) db = record db {
  task_assignments = save active.id (λ row. record row { is_active = false }) db.task_assignments;
}

-- A new assignment row, or the user's earlier one made active again.
unfoldable pub begin_assignment : FieldRules → Request → ℕ → ℕ → Db → Result (TaskAssignment × Db)
unfolding full_clean_assignment is_for
begin_assignment rules request task_id user_id db =
    elim (first (is_for task_id user_id) db.task_assignments) [
      | none ↦ do
        let assignment : TaskAssignment = record {
          id = request.new_id 0;
          task_id = task_id;
          user_id = user_id;
          is_active = true;
          assigned_at = request.now;
        }
        full_clean_assignment rules db assignment
        rows ← integrity_as task_assignment_conflict (insert assignment db.task_assignments)
        ok (assignment, record db { task_assignments = rows })
      | some earlier ↦ do
        let assignment = record earlier { is_active = true; assigned_at = request.now }
        full_clean_assignment rules db assignment
        ok (
          assignment,
          record db {
            task_assignments =
                save earlier.id (λ row. record row { is_active = true; assigned_at = request.now })
                  db.task_assignments;
          },
        )
    ]

-- `task.status in (PENDING, ASSIGNED, WORKING)`
abbrev pub is_assignable : TaskStatus → Bool
is_assignable status =
    status == TaskStatus.pending || status == TaskStatus.assigned || status == TaskStatus.working

-- `active_assignment is not None and active_assignment.user_id == user_id`
abbrev pub is_held_by : Option TaskAssignment → ℕ → Bool
is_held_by none user_id = false
is_held_by (some active) user_id = active.user_id == user_id

abbrev assignment_id : Option TaskAssignment → Option ℕ
assignment_id none = none
assignment_id (some active) = some active.id

-- The writes of `assign_task` after its checks, up to the audit row.
unfoldable pub write_assignment :
    FieldRules
    → Request
    → Workspace
    → Task
    → ProfileMembership
    → Option TaskAssignment
    → Db
    → Result (TaskAssignment × AuditLog × Task × Db)
unfolding end_assignment begin_assignment
write_assignment rules request workspace task target active db = do
  (assignment, assigned) ←
      begin_assignment rules request task.id target.user_id (end_assignment active db)
  (changed, saved) ← save_task_status rules task TaskStatus.assigned assigned
  let event =
      task_event request (request.new_id 1)
        (if is_some active then "task.reassigned" else "task.assigned") "TaskAssignment"
        assignment.id workspace
        (entry "task_id" (id_text task.id) (
          entry "target_profile_membership_id" (id_text target.id) (
            entry "previous_assignment_id" (id_or_null (assignment_id active)) (
              entry "task_status_before" (status_text task.status)
                (entry "task_status_after" (status_text changed.status) nil)))))
  audited ← create_audit_log event saved
  ok (assignment, event, changed, audited)

unfoldable pub assign_task :
    FieldRules → Request → Ref → Ref → Ref → Ref → Db → Result (TaskAssignment × Db)
unfolding write_assignment
assign_task rules request profile_id workspace_id task_id target_membership_id db = do
  scope ← lock_workspace_mutation_context request profile_id workspace_id db
  require_manager db scope.context
  task ← lock_task db scope.workspace task_id
  guard (is_assignable task.status) task_assignment_conflict
  target ←
      or_raise
        (first (is_assignable_membership db target_membership_id scope.context.profile_id)
          db.profile_memberships)
        invalid_task_assignment_reference
  editor ←
      or_raise (first (is_editor_of scope.workspace.id target.user_id) db.workspace_members)
        invalid_task_assignment_reference
  let active = first (is_active_for task.id) db.task_assignments
  guard (not (is_held_by active target.user_id)) task_assignment_conflict
  (assignment, event, changed, audited) ←
      write_assignment rules request scope.workspace task target active db
  (notified, after) ←
      emit_task_notifications (λ k. request.new_id (k + 2)) event request.actor changed
        EventType.task_assigned none audited
  ok (assignment, after)

unfoldable pub start_task : FieldRules → Request → Ref → Ref → Ref → Db → Result (Task × Db)
start_task rules request profile_id workspace_id task_id db = do
  scope ← lock_workspace_mutation_context request profile_id workspace_id db
  require_executor db scope.context
  task ← lock_task db scope.workspace task_id
  assignment ← lock_current_editor_assignment db task request.actor
  guard (task.status == TaskStatus.assigned) task_workflow_conflict
  (changed, saved) ← save_task_status rules task TaskStatus.working db
  after ←
      create_audit_log
        (task_event request (request.new_id 0) "task.started" "Task" task.id scope.workspace (
          entry "assignment_id" (id_text assignment.id) (
            entry "status_before" (status_text task.status)
              (entry "status_after" (status_text changed.status) nil))))
        saved
  ok (changed, after)
