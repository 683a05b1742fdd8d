-- ===== src/Tasks/Saves.antt =====
-- backend/apps/tasks/services.py: the helpers that the services share.
use hustly_tasker.Access.{
  can_manage_workspace_tasks, can_execute_workspace_tasks, can_review_workspace_deliverables,
  WorkspaceAccessContext,
}
use hustly_tasker.Prelude.{
  ◌>>=◌, ◌>>◌, guard, or_raise, Result, tenant_access_not_found, permission_denied, refers, first,
  save, insert, Ref, ◌==◌, nat_eq, string_eq, bool_eq, option_eq, list_eq, ℕ, String, Bool, false,
  ◌&&◌, some, ok,
}
use hustly_tasker.Store.{
  profile_status_eq, profile_role_eq, workspace_status_eq, workspace_role_eq, task_status_eq,
  task_priority_eq, deliverable_status_eq, review_status_eq, event_type_eq, TaskStatus,
  TaskPriority, Db, id_or_null, Value, Metadata, id_text, string, Request, FieldRules, user_key,
  profile_key, profile_membership_key, workspace_key, workspace_member_key, task_key,
  task_assignment_key, task_comment_key, deliverable_key, review_key, audit_log_key,
  notification_key, period_eq, deadline_eq, Workspace, Task, TaskAssignment, Deliverable, AuditLog,
  entry,
}
use hustly_tasker.Tasks.Clean.{full_clean_task}

unfoldable pub is_task_of : Ref → ℕ → Task → Bool
is_task_of task_id workspace_id task = refers task_id task.id && task.workspace_id == workspace_id

-- `_lock_task`
unfoldable pub lock_task : Db → Workspace → Ref → Result Task
unfolding is_task_of
lock_task db workspace task_id =
    or_raise (first (is_task_of task_id workspace.id) db.tasks) tenant_access_not_found

unfoldable pub is_deliverable_of : Ref → ℕ → Deliverable → Bool
is_deliverable_of deliverable_id task_id deliverable =
    refers deliverable_id deliverable.id && deliverable.task_id == task_id

-- `_lock_deliverable`
unfoldable pub lock_deliverable : Db → Task → Ref → Result Deliverable
unfolding is_deliverable_of
lock_deliverable db task deliverable_id =
    or_raise (first (is_deliverable_of deliverable_id task.id) db.deliverables)
      tenant_access_not_found

-- `AuditLog.objects.create(...)`, with the id that `id` draws.
unfoldable pub create_audit_log : AuditLog → Db → Result Db
create_audit_log event db = do
  audit_logs ← insert event db.audit_logs
  ok (record db { audit_logs = audit_logs })

-- The row that `_write_audit` creates.
unfoldable pub task_event : Request → ℕ → String → String → ℕ → Workspace → Metadata → AuditLog
task_event request id action entity_name entity_id workspace metadata = record {
  id = id;
  user_id = some request.actor;
  action = action;
  entity_name = entity_name;
  entity_id = entity_id;
  metadata =
      entry "profile_id" (id_or_null workspace.profile_id)
        (entry "workspace_id" (id_text workspace.id) metadata);
}

-- `task.save(update_fields=...)` on the row with this id.
unfoldable pub save_task : (Task → Task) → ℕ → Db → Db
save_task change task_id db = record db { tasks = save task_id change db.tasks }

-- `_save_task_status`: the task with its new status, and the database with the saved column.
unfoldable pub save_task_status : FieldRules → Task → TaskStatus → Db → Result (Task × Db)
unfolding save_task
save_task_status rules task next_status db = do
  let changed = record task { status = next_status }
  full_clean_task rules db false changed
  ok (changed, save_task (λ row. record row { status = next_status }) task.id db)

-- `_require_manager`, `_require_executor` and `_require_reviewer`
unfoldable pub require_manager : Db → WorkspaceAccessContext → Result (Unit {0})
require_manager db context = guard (can_manage_workspace_tasks db context) permission_denied

unfoldable pub require_executor : Db → WorkspaceAccessContext → Result (Unit {0})
require_executor db context = guard (can_execute_workspace_tasks db context) permission_denied

unfoldable pub require_reviewer : Db → WorkspaceAccessContext → Result (Unit {0})
require_reviewer db context = guard (can_review_workspace_deliverables db context) permission_denied

unfoldable pub is_active_assignment_of : ℕ → ℕ → TaskAssignment → Bool
is_active_assignment_of task_id user_id assignment =
    assignment.task_id == task_id && assignment.user_id == user_id && assignment.is_active

-- `_lock_current_editor_assignment`
unfoldable pub lock_current_editor_assignment : Db → Task → ℕ → Result TaskAssignment
unfolding is_active_assignment_of
lock_current_editor_assignment db task actor =
    or_raise (first (is_active_assignment_of task.id actor) db.task_assignments) permission_denied

unfoldable pub status_text : TaskStatus → Value
status_text TaskStatus.pending = string "PENDING"
status_text TaskStatus.assigned = string "ASSIGNED"
status_text TaskStatus.working = string "WORKING"
status_text TaskStatus.review = string "REVIEW"
status_text TaskStatus.completed = string "COMPLETED"
status_text TaskStatus.cancelled = string "CANCELLED"

unfoldable pub priority_text : TaskPriority → Value
priority_text TaskPriority.low = string "LOW"
priority_text TaskPriority.medium = string "MEDIUM"
priority_text TaskPriority.high = string "HIGH"
priority_text TaskPriority.urgent = string "URGENT"
