-- ===== src/Examples/NotifyCalls.antt =====
-- An assignment that is announced to its Editor.
use hustly_tasker.Examples.Office.{office, call_of, db_of, office_workspace, task_row}
use hustly_tasker.Access.{user_is_active}
use hustly_tasker.Notify.{
  is_event_action, event_content, matches_task_context, is_editor_seat, is_admin_seat,
  is_review_proof, audience, users_of, recipients, new_notification, is_delivery_of, deliver,
  is_eligible, emit_if, emit_task_notifications, is_reader_seat, is_readable_membership,
}
use hustly_tasker.Prelude.{
  ok, Result, exists, rows, first, insert, ◌+◌, ◌≡◌, refl, none, some, List, [], ◌∷◌, map,
}
use hustly_tasker.Store.{
  TaskStatus, EventType, Db, get, id_text, user_key, profile_key, profile_membership_key,
  workspace_key, workspace_member_key, task_key, task_assignment_key, task_comment_key,
  deliverable_key, review_key, audit_log_key, notification_key, Task, AuditLog, Notification, entry,
  nil,
}
use hustly_tasker.Tasks.{task_event}
use hustly_tasker.Notify.Replay.{deliver-deliver}

abbrev announced_task : Task
announced_task = task_row 51 (some 50) TaskStatus.assigned

abbrev announcement : AuditLog
announcement =
    task_event (call_of 1) 800 "task.assigned" "TaskAssignment" 60 office_workspace
      (entry "task_id" (id_text 51) (entry "target_profile_membership_id" (id_text 21) nil))

abbrev logged : Db
logged = record office { audit_logs = announcement ∷ [] }

abbrev announced : Result (List Notification × Db)
announced =
    emit_task_notifications (λ k. k + 900) announcement 1 announced_task EventType.task_assigned
      none logged

-- One notification is created, for the Editor.
announced_once : map (λ n. n.user_id) (db_of announced).notifications ≡ 2 ∷ []
unfolding emit_task_notifications emit_if is_event_action matches_task_context is_eligible
    is_readable_membership is_reader_seat audience recipients users_of deliver get is_editor_seat
    is_admin_seat is_review_proof is_delivery_of new_notification event_content user_is_active first
    exists rows insert task_event
announced_once = refl

abbrev delivered : Result (List Notification × Db)
delivered =
    deliver (λ k. k + 900) EventType.task_assigned announcement 10 announced_task (2 ∷ []) logged

deliver-deliver_example :
    (kept : List Notification) × (deliver
        (λ k. k + 950)
        EventType.task_assigned
        announcement
        10
        announced_task
        (2 ∷ [])
        (db_of delivered)
      ≡ ok (kept, db_of delivered))
unfolding deliver is_delivery_of new_notification event_content first insert exists task_event
deliver-deliver_example =
    deliver-deliver (λ k. k + 900) (λ k. k + 950) EventType.task_assigned announcement 10
      announced_task (2 ∷ []) logged refl
