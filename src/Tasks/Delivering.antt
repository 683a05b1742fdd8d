-- ===== src/Tasks/Delivering.antt =====
-- backend/apps/tasks/services.py: `submit_deliverable`.
use hustly_tasker.Notify.{emit_task_notifications}
use hustly_tasker.Prelude.{
  ◌>>=◌, ◌>>◌, guard, integrity_as, Result, validation_error, task_workflow_conflict, Text,
  strip_or_blank, exists, insert, Ref, ltb, if◌then◌else◌, ◌==◌, nat_eq, string_eq, bool_eq,
  option_eq, list_eq, is_some, value_or, ℕ, ◌+◌, Bool, ◌&&◌, ◌||◌, not, Option, some, List, [], ◌∷◌,
  ok,
}
use hustly_tasker.Store.{
  profile_status_eq, profile_role_eq, workspace_status_eq, workspace_role_eq, task_status_eq,
  task_priority_eq, deliverable_status_eq, review_status_eq, event_type_eq, TaskStatus,
  DeliverableStatus, EventType, Db, Value, id_text, number, string, Request, FieldRules, user_key,
  profile_key, profile_membership_key, workspace_key, workspace_member_key, task_key,
  task_assignment_key, task_comment_key, deliverable_key, review_key, audit_log_key,
  notification_key, period_eq, deadline_eq, Workspace, Task, TaskAssignment, Deliverable, AuditLog,
  entry, nil,
}
use hustly_tasker.Tasks.Saves.{
  lock_task, create_audit_log, task_event, save_task_status, require_executor,
  lock_current_editor_assignment, status_text,
}
use hustly_tasker.Workspace.{lock_workspace_mutation_context}

unfoldable pub deliverable_status_text : DeliverableStatus → Value
deliverable_status_text DeliverableStatus.pending = string "PENDING"
deliverable_status_text DeliverableStatus.submitted = string "SUBMITTED"
deliverable_status_text DeliverableStatus.approved = string "APPROVED"
deliverable_status_text DeliverableStatus.rejected = string "REJECTED"

-- A deliverable of the Task that waits for its decision.
unfoldable pub is_unresolved : ℕ → Deliverable → Bool
is_unresolved task_id deliverable =
    deliverable.task_id == task_id
    && (deliverable.status == DeliverableStatus.pending
        || deliverable.status == DeliverableStatus.submitted)

abbrev pub revision_or_zero : Deliverable → ℕ
revision_or_zero deliverable = value_or deliverable.revision 0

-- `latest_revision or 0`: the largest revision of the Task, revisions being at least 1.
unfoldable pub latest_revision : ℕ → List Deliverable → ℕ
latest_revision task_id [] = 0
latest_revision task_id (d ∷ ds) =
    let rest = latest_revision task_id ds in
    if d.task_id == task_id && ltb rest (revision_or_zero d) then revision_or_zero d else rest

-- Another deliverable of the Task with this revision (`uniq_task_deliv_revision`).
unfoldable pub clashes_deliverable : Deliverable → Deliverable → Bool
clashes_deliverable new row =
    not (row.id == new.id)
    && row.task_id == new.task_id
    && is_some new.revision
    && row.revision == new.revision

-- `deliverable.full_clean()`: the fields, `deliverable_revision_positive` and uniqueness.
unfoldable pub full_clean_deliverable : FieldRules → Db → Deliverable → Result (Unit {0})
unfolding clashes_deliverable
full_clean_deliverable rules db deliverable = do
  guard (rules.deliverable deliverable) (validation_error "fields")
  guard (not (is_some deliverable.revision) || ltb 0 (revision_or_zero deliverable))
      (validation_error "deliverable_revision_positive")
  guard (not (exists (clashes_deliverable deliverable) db.deliverables))
      (validation_error "uniq_task_deliv_revision")

-- The writes of `submit_deliverable` after its checks, up to the audit row.
unfoldable pub write_submission :
    FieldRules
    → Request
    → Workspace
    → Task
    → TaskAssignment
    → Option Text
    → Db
    → Result (Deliverable × AuditLog × Task × Db)
unfolding full_clean_deliverable
write_submission rules request workspace task assignment file_url db = do
  let deliverable : Deliverable = record {
    id = request.new_id 0;
    task_id = task.id;
    file_url = strip_or_blank file_url;
    uploaded_by_id = request.actor;
    revision = some (latest_revision task.id db.deliverables + 1);
    status = DeliverableStatus.submitted;
    created_at = request.now;
  }
  full_clean_deliverable rules db deliverable
  deliverables ← integrity_as task_workflow_conflict (insert deliverable db.deliverables)
  (changed, saved) ←
      save_task_status rules task TaskStatus.review (record db { deliverables = deliverables })
  let event =
      task_event request (request.new_id 1) "task.deliverable.submitted" "Deliverable"
        deliverable.id workspace
        (entry "task_id" (id_text task.id) (
          entry "assignment_id" (id_text assignment.id) (
            entry "revision" (number (revision_or_zero deliverable)) (
              entry "deliverable_status" (deliverable_status_text deliverable.status) (
                entry "task_status_before" (status_text task.status)
                  (entry "task_status_after" (status_text changed.status) nil))))))
  audited ← create_audit_log event saved
  ok (deliverable, event, changed, audited)

unfoldable pub submit_deliverable :
    FieldRules → Request → Ref → Ref → Ref → Option Text → Db → Result (Deliverable × Db)
unfolding write_submission
submit_deliverable rules request profile_id workspace_id task_id file_url db = do
  scope ← lock_workspace_mutation_context request profile_id workspace_id db
  require_executor db scope.context
  task ← lock_task db scope.workspace task_id
  assignment ← lock_current_editor_assignment db task request.actor
  guard (task.status == TaskStatus.working) task_workflow_conflict
  guard (not (exists (is_unresolved task.id) db.deliverables)) task_workflow_conflict
  (deliverable, event, changed, audited) ←
      write_submission rules request scope.workspace task assignment file_url db
  (notified, after) ←
      emit_task_notifications (λ k. request.new_id (k + 2)) event request.actor changed
        EventType.review_submitted (some deliverable) audited
  ok (deliverable, after)
