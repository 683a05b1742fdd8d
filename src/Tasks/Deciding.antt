-- ===== src/Tasks/Deciding.antt =====
-- backend/apps/tasks/services.py: the review decisions.
use hustly_tasker.Notify.{emit_task_notifications}
use hustly_tasker.Prelude.{
  ◌>>=◌, ◌>>◌, guard, integrity_as, Result, permission_denied, validation_error,
  deliverable_review_conflict, Text, strip, strip_or_blank, exists, save, insert, Ref, ltb,
  if◌then◌else◌, ◌==◌, nat_eq, string_eq, bool_eq, option_eq, list_eq, ℕ, ◌+◌, String, Bool, false,
  ◌&&◌, ◌||◌, not, Option, none, some, List, [], ◌∷◌, ok, err,
}
use hustly_tasker.Store.{
  profile_status_eq, profile_role_eq, workspace_status_eq, workspace_role_eq, task_status_eq,
  task_priority_eq, deliverable_status_eq, review_status_eq, event_type_eq, TaskStatus,
  DeliverableStatus, ReviewStatus, EventType, Db, Value, null, id_text, number, string, Request,
  FieldRules, user_key, profile_key, profile_membership_key, workspace_key, workspace_member_key,
  task_key, task_assignment_key, task_comment_key, deliverable_key, review_key, audit_log_key,
  notification_key, period_eq, deadline_eq, Workspace, Task, Deliverable, Review, AuditLog, entry,
  nil,
}
use hustly_tasker.Tasks.Saves.{
  lock_task, lock_deliverable, create_audit_log, task_event, save_task_status, require_reviewer,
  status_text,
}
use hustly_tasker.Workspace.{lock_workspace_mutation_context}
use hustly_tasker.Tasks.Delivering.{deliverable_status_text, full_clean_deliverable}

unfoldable pub review_status_text : ReviewStatus → Value
review_status_text ReviewStatus.pending = string "PENDING"
review_status_text ReviewStatus.approved = string "APPROVED"
review_status_text ReviewStatus.request_change = string "REQUEST_CHANGE"

-- `order_by("-created_at", "-id")`: whether the first of two deliverables comes first.
abbrev is_later : Deliverable → Deliverable → Bool
is_later d e = ltb e.created_at d.created_at || d.created_at == e.created_at && ltb e.id d.id

abbrev later_of : Deliverable → Option Deliverable → Deliverable
later_of d none = d
later_of d (some e) = if is_later e d then e else d

-- `Deliverable.objects.filter(task_id=task.id).order_by("-created_at", "-id").first()`
unfoldable pub latest_deliverable : ℕ → List Deliverable → Option Deliverable
latest_deliverable task_id [] = none
latest_deliverable task_id (d ∷ ds) =
    let rest = latest_deliverable task_id ds in
    if d.task_id == task_id then some (later_of d rest) else rest

abbrev pub is_same_deliverable : Option Deliverable → Deliverable → Bool
is_same_deliverable none deliverable = false
is_same_deliverable (some latest) deliverable = latest.id == deliverable.id

unfoldable pub is_decision_on : ℕ → Review → Bool
is_decision_on deliverable_id review = review.deliverable_id == deliverable_id

-- `review.full_clean()`: the fields and `uniq_deliverable_review`.
unfoldable pub full_clean_review : FieldRules → Db → Review → Result (Unit {0})
full_clean_review rules db review = do
  guard (rules.review review) (validation_error "fields")
  guard
      (not (
        exists (λ row. not (row.id == review.id) && row.deliverable_id == review.deliverable_id)
          db.reviews))
      (validation_error "uniq_deliverable_review")

-- What a decision makes of the deliverable and of the Task.
abbrev pub decided_deliverable : ReviewStatus → DeliverableStatus
decided_deliverable ReviewStatus.approved = DeliverableStatus.approved
decided_deliverable _ = DeliverableStatus.rejected

abbrev pub decided_task : ReviewStatus → TaskStatus
decided_task ReviewStatus.approved = TaskStatus.completed
decided_task _ = TaskStatus.working

abbrev decision_action : ReviewStatus → String
decision_action ReviewStatus.approved = "task.deliverable.approved"
decision_action _ = "task.deliverable.changes_requested"

abbrev pub decision_event : ReviewStatus → EventType
decision_event ReviewStatus.approved = EventType.review_approved
decision_event _ = EventType.review_changes_requested

-- The writes of `_review_deliverable` after its checks, up to the audit row.
unfoldable pub write_review :
    FieldRules
    → Request
    → Workspace
    → Task
    → Deliverable
    → ReviewStatus
    → Option Text
    → Db
    → Result (Review × AuditLog × Task × Deliverable × Db)
unfolding full_clean_review
write_review rules request workspace task deliverable status comment db = do
  let review : Review = record {
    id = request.new_id 0;
    deliverable_id = deliverable.id;
    reviewer_id = request.actor;
    status = status;
    comment = comment;
  }
  full_clean_review rules db review
  reviews ← integrity_as deliverable_review_conflict (insert review db.reviews)
  let reviewed = record db { reviews = reviews }
  let decided = record deliverable { status = decided_deliverable status }
  full_clean_deliverable rules reviewed decided
  let resolved = record reviewed {
    deliverables =
        save deliverable.id (λ row. record row { status = decided_deliverable status })
          reviewed.deliverables;
  }
  (changed, saved) ← save_task_status rules task (decided_task status) resolved
  let event =
      task_event request (request.new_id 1) (decision_action status) "Review" review.id workspace (
        entry "task_id" (id_text task.id) (
          entry "deliverable_id" (id_text deliverable.id) (
            entry "revision"
              (elim deliverable.revision [ none ↦ null | some revision ↦ number revision ])
              (entry "review_scope" (string "INTERNAL") (
                entry "review_status" (review_status_text review.status) (
                  entry "deliverable_status_before" (deliverable_status_text deliverable.status) (
                    entry "deliverable_status_after" (deliverable_status_text decided.status) (
                      entry "task_status_before" (status_text task.status)
                        (entry "task_status_after" (status_text changed.status) nil)))))))))
  audited ← create_audit_log event saved
  ok (review, event, changed, decided, audited)

-- `_review_deliverable`
unfoldable pub review_deliverable :
    FieldRules
    → Request
    → Ref
    → Ref
    → Ref
    → Ref
    → ReviewStatus
    → Option Text
    → Db
    → Result (Review × Db)
unfolding write_review
review_deliverable rules request profile_id workspace_id task_id deliverable_id status comment db =
    do
      scope ← lock_workspace_mutation_context request profile_id workspace_id db
      require_reviewer db scope.context
      task ← lock_task db scope.workspace task_id
      deliverable ← lock_deliverable db task deliverable_id
      guard (task.status == TaskStatus.review) deliverable_review_conflict
      guard (is_same_deliverable (latest_deliverable task.id db.deliverables) deliverable)
          deliverable_review_conflict
      guard (deliverable.status == DeliverableStatus.submitted) deliverable_review_conflict
      guard (not (deliverable.uploaded_by_id == request.actor)) permission_denied
      guard (not (exists (is_decision_on deliverable.id) db.reviews)) deliverable_review_conflict
      (review, event, changed, decided, audited) ←
          write_review rules request scope.workspace task deliverable status comment db
      (notified, after) ←
          emit_task_notifications (λ k. request.new_id (k + 2)) event request.actor changed
            (decision_event status) (some decided) audited
      ok (review, after)

-- `str(comment).strip() or None`
abbrev blank_to_none : Text → Option Text
blank_to_none [] = none
blank_to_none (c ∷ s) = some (c ∷ s)

unfoldable pub approve_deliverable :
    FieldRules → Request → Ref → Ref → Ref → Ref → Option Text → Db → Result (Review × Db)
unfolding review_deliverable
approve_deliverable rules request profile_id workspace_id task_id deliverable_id comment =
    review_deliverable rules request profile_id workspace_id task_id deliverable_id
      ReviewStatus.approved (elim comment [ none ↦ none | some s ↦ blank_to_none (strip s) ])

unfoldable pub request_deliverable_changes :
    FieldRules → Request → Ref → Ref → Ref → Ref → Option Text → Db → Result (Review × Db)
unfolding review_deliverable
request_deliverable_changes rules request profile_id workspace_id task_id deliverable_id comment
      db =
    elim (blank_to_none (strip_or_blank comment)) [
      | none ↦ err (validation_error "comment")
      | some reason ↦
          review_deliverable rules request profile_id workspace_id task_id deliverable_id
            ReviewStatus.request_change (some reason) db
    ]
