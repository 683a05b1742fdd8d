-- ===== src/Tasks/Effects.antt =====
-- What the shared helpers of the task services write.
use hustly_tasker.Prelude.{
  >>=-elim, ok-injective, refers, insert, Ref, ◌≡◌, sym, ap, subst, true, false, Memᴰ, ok,
  or_raise-eq-ok, first_sound, ℕ, arith, integrity_as, task_assignment_conflict, first,
  Option-cases, refl, inl, inr, Option, none, some, task_workflow_conflict,
  deliverable_review_conflict, Text, save, ◌∙◌,
}
use hustly_tasker.Store.{
  TaskStatus, Db, SameButLogs-logs, SameButLogs, FieldRules, user_key, profile_key,
  profile_membership_key, workspace_key, workspace_member_key, task_key, task_assignment_key,
  task_comment_key, deliverable_key, review_key, audit_log_key, notification_key, Workspace, Task,
  AuditLog, TaskAssignment, Deliverable, Request, ReviewStatus, ProfileMembership, Review,
}
use hustly_tasker.Tasks.Clean.{full_clean_task}
use hustly_tasker.Tasks.Saves.{
  is_task_of, lock_task, create_audit_log, save_task, save_task_status, is_deliverable_of,
  lock_deliverable, is_active_assignment_of, lock_current_editor_assignment,
}
use hustly_tasker.Tasks.Assigning.{
  is_for, full_clean_assignment, end_assignment, begin_assignment, write_assignment,
}
use hustly_tasker.Tasks.Delivering.{full_clean_deliverable, write_submission}
use hustly_tasker.Tasks.Deciding.{
  full_clean_review, decided_deliverable, decided_task, write_review,
}

-- The row of the Task gets its new status; nothing else is written.
pub save_task_status_lem :
    (rules : FieldRules) (task : Task) (next_status : TaskStatus) (db : Db) {changed : Task}
    {after : Db}
    → save_task_status rules task next_status db ≡ ok (changed, after)
    → (after ≡ save_task (λ row. record row { status = next_status }) task.id db)
      × (changed ≡ record task { status = next_status })
unfolding save_task_status
save_task_status_lem rules task next_status db h =
    >>=-elim (full_clean_task rules db false (record task { status = next_status })) _ h
      λ _ _ h₁. (sym (ap (λ p. p.1) (ok-injective h₁)), sym (ap (λ p. p.0) (ok-injective h₁)))

pub create_audit_log-SameButLogs :
    (event : AuditLog) (db : Db) {after : Db}
    → create_audit_log event db ≡ ok after
    → SameButLogs db after
unfolding create_audit_log
create_audit_log-SameButLogs event db h = >>=-elim (insert event db.audit_logs) _ h λ table _ h₁.
    subst (SameButLogs db) (ok-injective h₁) (SameButLogs-logs db table db.notifications)

pub lock_task_lem :
    (db : Db) (workspace : Workspace) (task_id : Ref) {task : Task}
    → lock_task db workspace task_id ≡ ok task
    → Memᴰ task db.tasks × (task.workspace_id ≡ workspace.id) × (refers task_id task.id ≡ true)
unfolding lock_task is_task_of
lock_task_lem db workspace task_id {task} h =
    let (fits, stored) =
      first_sound (is_task_of task_id workspace.id) db.tasks (or_raise-eq-ok _ _ h) in
    (stored, ground arith, ground arith)

pub lock_deliverable_lem :
    (db : Db) (task : Task) (deliverable_id : Ref) {deliverable : Deliverable}
    → lock_deliverable db task deliverable_id ≡ ok deliverable
    → Memᴰ deliverable db.deliverables × (deliverable.task_id ≡ task.id)
unfolding lock_deliverable is_deliverable_of
lock_deliverable_lem db task deliverable_id h =
    let (fits, stored) =
      first_sound (is_deliverable_of deliverable_id task.id) db.deliverables
        (or_raise-eq-ok _ _ h) in
    (stored, ground arith)

pub lock_current_editor_assignment_lem :
    (db : Db) (task : Task) (actor : ℕ) {assignment : TaskAssignment}
    → lock_current_editor_assignment db task actor ≡ ok assignment
    → Memᴰ assignment db.task_assignments
      × (assignment.task_id ≡ task.id)
      × (assignment.user_id ≡ actor)
      × (assignment.is_active ≡ true)
unfolding lock_current_editor_assignment is_active_assignment_of
lock_current_editor_assignment_lem db task actor h =
    let (fits, stored) =
      first_sound (is_active_assignment_of task.id actor) db.task_assignments
        (or_raise-eq-ok _ _ h) in
    (stored, ground arith, ground arith, ground arith)

-- Writing an audit row after the status of the Task.
pub status_then_audit :
    (rules : FieldRules) (task changed : Task) (next_status : TaskStatus) (event : AuditLog)
    (db saved : Db) {after : Db}
    → save_task_status rules task next_status db ≡ ok (changed, saved)
    → create_audit_log event saved ≡ ok after
    → SameButLogs (save_task (λ row. record row { status = next_status }) task.id db) after
status_then_audit rules task changed next_status event db saved {after = last} h₁ h₂ =
    subst (λ d. SameButLogs d last) (save_task_status_lem rules task next_status db h₁).0
      (create_audit_log-SameButLogs event saved h₂)

pub begin_assignment-tasks :
    (rules : FieldRules) (request : Request) (task_id user_id : ℕ) (db : Db)
    {assignment : TaskAssignment} {after : Db}
    → begin_assignment rules request task_id user_id db ≡ ok (assignment, after)
    → after.tasks ≡ db.tasks
unfolding begin_assignment
begin_assignment-tasks rules request task_id user_id db h =
    elim (Option-cases (first (is_for task_id user_id) db.task_assignments)) [
      | inl new ↦
          >>=-elim (full_clean_assignment rules db _) _ (rw (new, begin_assignment) at h) λ _ _ h₁.
            >>=-elim (integrity_as task_assignment_conflict (insert _ db.task_assignments)) _ h₁
              λ table _ h₂. ap (λ p. p.1.tasks) (sym (ok-injective h₂))
      | inr (earlier, found) ↦
          >>=-elim (full_clean_assignment rules db _) _ (rw (found, begin_assignment) at h)
            λ _ _ h₁. ap (λ p. p.1.tasks) (sym (ok-injective h₁))
    ]

pub end_assignment-tasks :
    (active : Option TaskAssignment) (db : Db) → (end_assignment active db).tasks ≡ db.tasks
unfolding end_assignment
end_assignment-tasks none db = refl
end_assignment-tasks (some active) db = refl

-- The three groups of writes leave the table of Tasks with one new status.
pub write_assignment-tasks :
    (rules : FieldRules) (request : Request) (workspace : Workspace) (task : Task)
    (target : ProfileMembership) (active : Option TaskAssignment) (db : Db)
    {assignment : TaskAssignment} {event : AuditLog} {changed : Task} {after : Db}
    → write_assignment rules request workspace task target active db
      ≡ ok (assignment, event, changed, after)
    → after.tasks ≡ save task.id (λ row. record row { status = TaskStatus.assigned }) db.tasks
unfolding write_assignment save_task
write_assignment-tasks rules request workspace task target active db h =
    >>=-elim (begin_assignment rules request task.id target.user_id (end_assignment active db)) _ h
      λ (begun, assigned) begin h₁.
        >>=-elim (save_task_status rules task TaskStatus.assigned assigned) _ h₁
          λ (moved_task, saved) moved h₂.
            >>=-elim (create_audit_log _ saved) _ h₂ λ logged audit h₃.
              let same =
                status_then_audit rules task moved_task TaskStatus.assigned _ assigned saved moved
                  audit in
              let kept =
                begin_assignment-tasks rules request task.id target.user_id
                  (end_assignment active db) begin
                ∙ end_assignment-tasks active db in
              sym (ap (λ p. p.3.tasks) (ok-injective h₃))
              ∙ same.tasks
              ∙ ap (save task.id (λ (row : Task). record row { status = TaskStatus.assigned })) kept

pub write_submission-tasks :
    (rules : FieldRules) (request : Request) (workspace : Workspace) (task : Task)
    (assignment : TaskAssignment) (file_url : Option Text) (db : Db) {deliverable : Deliverable}
    {event : AuditLog} {changed : Task} {after : Db}
    → write_submission rules request workspace task assignment file_url db
      ≡ ok (deliverable, event, changed, after)
    → after.tasks ≡ save task.id (λ row. record row { status = TaskStatus.review }) db.tasks
unfolding write_submission save_task
write_submission-tasks rules request workspace task assignment file_url db h =
    >>=-elim (full_clean_deliverable rules db _) _ h λ _ _ h₁.
      >>=-elim (integrity_as task_workflow_conflict (insert _ db.deliverables)) _ h₁ λ table _ h₂.
        >>=-elim
          (save_task_status rules task TaskStatus.review (record db { deliverables = table })) _ h₂
          λ (moved_task, saved) moved h₃.
            >>=-elim (create_audit_log _ saved) _ h₃ λ logged audit h₄.
              let same =
                status_then_audit rules task moved_task TaskStatus.review _
                  (record db { deliverables = table }) saved moved audit in
              sym (ap (λ p. p.3.tasks) (ok-injective h₄)) ∙ same.tasks

pub write_review-tasks :
    (rules : FieldRules) (request : Request) (workspace : Workspace) (task : Task)
    (deliverable : Deliverable) (status : ReviewStatus) (comment : Option Text) (db : Db)
    {review : Review} {event : AuditLog} {changed : Task} {decided : Deliverable} {after : Db}
    → write_review rules request workspace task deliverable status comment db
      ≡ ok (review, event, changed, decided, after)
    → after.tasks ≡ save task.id (λ row. record row { status = decided_task status }) db.tasks
unfolding write_review save_task
write_review-tasks rules request workspace task deliverable status comment db h =
    >>=-elim (full_clean_review rules db _) _ h λ _ _ h₁.
      >>=-elim (integrity_as deliverable_review_conflict (insert _ db.reviews)) _ h₁ λ table _ h₂.
        >>=-elim (full_clean_deliverable rules (record db { reviews = table }) _) _ h₂ λ _ _ h₃.
          let resolved : Db = record db {
            reviews = table;
            deliverables =
                save deliverable.id
                  (λ (row : Deliverable). record row { status = decided_deliverable status })
                  db.deliverables;
          } in
          >>=-elim (save_task_status rules task (decided_task status) resolved) _ h₃
            λ (moved_task, saved) moved h₄.
              >>=-elim (create_audit_log _ saved) _ h₄ λ logged audit h₅.
                let same =
                  status_then_audit rules task moved_task (decided_task status) _ resolved saved
                    moved audit in
                sym (ap (λ p. p.4.tasks) (ok-injective h₅)) ∙ same.tasks
