-- ===== src/Tasks/Transitions.antt =====
-- The state machine of a Task: the edge along which each service moves the Task that it names.
use hustly_tasker.Prelude.{
  >>=-elim, guard-elim, save, Ref, ◌==◌, nat_eq, string_eq, bool_eq, option_eq, list_eq, ==→≡, ◌≡◌,
  true, Memᴰ, ok, or_raise-elim, ok-injective, first, sym, ap, ◌∙◌, not, none, Text, exists, ◌+◌,
  Option, some, refers, ◌≢◌, arith,
}
use hustly_tasker.Store.{
  profile_status_eq, profile_role_eq, workspace_status_eq, workspace_role_eq, task_status_eq,
  task_priority_eq, deliverable_status_eq, review_status_eq, event_type_eq, TaskStatus, Db, Request,
  FieldRules, user_key, profile_key, profile_membership_key, workspace_key, workspace_member_key,
  task_key, task_assignment_key, task_comment_key, deliverable_key, review_key, audit_log_key,
  notification_key, period_eq, deadline_eq, Task, EventType, TaskAssignment, DeliverableStatus,
  ReviewStatus, Deliverable, Review,
}
use hustly_tasker.Tasks.Assigning.{
  is_assignable, start_task, is_assignable_membership, is_editor_of, is_active_for, is_held_by,
  write_assignment, assign_task,
}
use hustly_tasker.Tasks.Effects.{
  lock_task_lem, status_then_audit, write_assignment-tasks, write_submission-tasks,
  write_review-tasks,
}
use hustly_tasker.Tasks.Saves.{
  lock_task, create_audit_log, save_task_status, require_executor, lock_current_editor_assignment,
  save_task, require_manager, lock_deliverable, require_reviewer,
}
use hustly_tasker.Workspace.{lock_workspace_mutation_context}
use hustly_tasker.Notify.{emit_task_notifications}
use hustly_tasker.Notify.Delivery.{emit-SameButLogs}
use hustly_tasker.Tasks.Delivering.{is_unresolved, write_submission, submit_deliverable}
use hustly_tasker.Tasks.Deciding.{
  latest_deliverable, is_same_deliverable, is_decision_on, decided_task, decision_event,
  write_review, review_deliverable,
}

-- What moves a Task.
pub data Action : Type 0 where
  assigning starting submitting : Action
  reviewing : ReviewStatus → Action

-- The edges of the workflow.
pub data Move : Action → TaskStatus → TaskStatus → Type 0 where
  assign : Move assigning TaskStatus.pending TaskStatus.assigned
  reassign : Move assigning TaskStatus.assigned TaskStatus.assigned
  take_over : Move assigning TaskStatus.working TaskStatus.assigned
  start : Move starting TaskStatus.assigned TaskStatus.working
  submit : Move submitting TaskStatus.working TaskStatus.review
  approve : Move (reviewing ReviewStatus.approved) TaskStatus.review TaskStatus.completed
  request_changes :
      {status : ReviewStatus}
      → status ≢ ReviewStatus.approved
      → Move (reviewing status) TaskStatus.review TaskStatus.working

-- The stored Task that `task_id` names goes along one edge of the action, and the table of Tasks is
-- otherwise as it was.
pub record Moves (action : Action) (task_id : Ref) (db after : Db) : Type 0 where
  pub task : Task
  pub stored : Memᴰ task db.tasks
  pub named : refers task_id task.id ≡ true
  pub next : TaskStatus
  pub move : Move action task.status next
  pub tasks : after.tasks ≡ save task.id (λ row. record row { status = next }) db.tasks

assign-Move :
    (status : TaskStatus) → is_assignable status ≡ true → Move assigning status TaskStatus.assigned
assign-Move TaskStatus.pending h = assign
assign-Move TaskStatus.assigned h = reassign
assign-Move TaskStatus.working h = take_over
assign-Move TaskStatus.review h = absurd (ground arith)
assign-Move TaskStatus.completed h = absurd (ground arith)
assign-Move TaskStatus.cancelled h = absurd (ground arith)

-- A `start_task` that succeeds moves the stored Task that `task_id` names from ASSIGNED to WORKING,
-- and the table of Tasks is otherwise as it was.
pub start_task-Moves :
    (rules : FieldRules) (request : Request) (profile_id workspace_id task_id : Ref) (db : Db)
    {changed : Task} {after : Db}
    → start_task rules request profile_id workspace_id task_id db ≡ ok (changed, after)
    → Moves starting task_id db after
unfolding start_task save_task
start_task-Moves rules request profile_id workspace_id task_id db {after = last} h =
    >>=-elim (lock_workspace_mutation_context request profile_id workspace_id db) _ h λ scope _ h₁.
      >>=-elim (require_executor db scope.context) _ h₁ λ _ _ h₂.
        >>=-elim (lock_task db scope.workspace task_id) _ h₂ λ task locked h₃.
          >>=-elim (lock_current_editor_assignment db task request.actor) _ h₃ λ assignment _ h₄.
            guard-elim (task.status == TaskStatus.assigned) _ _ h₄ λ status h₅.
              >>=-elim (save_task_status rules task TaskStatus.working db) _ h₅
                λ (changed, saved) moved h₆.
                  >>=-elim (create_audit_log _ saved) _ h₆ λ after audited h₇.
                    let same =
                      status_then_audit rules task changed TaskStatus.working _ db saved moved
                        audited in
                    record {
                      task = task;
                      stored = (lock_task_lem db scope.workspace task_id locked).0;
                      named = (lock_task_lem db scope.workspace task_id locked).2;
                      next = TaskStatus.working;
                      move = rw (==→≡ task.status TaskStatus.assigned status) start;
                      tasks = sym (ap (λ p. p.1.tasks) (ok-injective h₇)) ∙ same.tasks;
                    }

-- An `assign_task` that succeeds moves the stored Task that `task_id` names from PENDING, ASSIGNED or
-- WORKING to ASSIGNED, and the table of Tasks is otherwise as it was.
pub assign_task-Moves :
    (rules : FieldRules) (request : Request)
    (profile_id workspace_id task_id target_membership_id : Ref) (db : Db)
    {assignment : TaskAssignment} {after : Db}
    → assign_task rules request profile_id workspace_id task_id target_membership_id db
      ≡ ok (assignment, after)
    → Moves assigning task_id db after
unfolding assign_task write_assignment save_task
assign_task-Moves rules request profile_id workspace_id task_id target_membership_id db h =
    >>=-elim (lock_workspace_mutation_context request profile_id workspace_id db) _ h λ scope _ h₁.
      >>=-elim (require_manager db scope.context) _ h₁ λ _ _ h₂.
        >>=-elim (lock_task db scope.workspace task_id) _ h₂ λ task locked h₃.
          guard-elim (is_assignable task.status) _ _ h₃ λ assignable h₄.
            or_raise-elim
              (first (is_assignable_membership db target_membership_id scope.context.profile_id)
                db.profile_memberships)
              _ _ h₄
              λ target _ h₅.
                or_raise-elim
                  (first (is_editor_of scope.workspace.id target.user_id) db.workspace_members) _ _
                  h₅
                  λ editor _ h₆.
                    let active = first (is_active_for task.id) db.task_assignments in
                    guard-elim (not (is_held_by active target.user_id)) _ _ h₆ λ _ h₇.
                      >>=-elim
                        (write_assignment rules request scope.workspace task target active db) _ h₇
                        λ (made, event, changed, audited) written h₈.
                          >>=-elim
                            (emit_task_notifications (λ k. request.new_id (k + 2)) event
                              request.actor changed EventType.task_assigned none audited)
                            _ h₈
                            λ (notified, last) emitted h₉.
                              let frame =
                                emit-SameButLogs _ event request.actor changed
                                  EventType.task_assigned none audited emitted in
                              record {
                                task = task;
                                stored = (lock_task_lem db scope.workspace task_id locked).0;
                                named = (lock_task_lem db scope.workspace task_id locked).2;
                                next = TaskStatus.assigned;
                                move = assign-Move task.status assignable;
                                tasks =
                                    sym (ap (λ p. p.1.tasks) (ok-injective h₉))
                                    ∙ frame.tasks
                                    ∙ write_assignment-tasks rules request scope.workspace task
                                        target active db written;
                              }

-- A `submit_deliverable` that succeeds moves the stored Task that `task_id` names from WORKING to
-- REVIEW, and the table of Tasks is otherwise as it was.
pub submit_deliverable-Moves :
    (rules : FieldRules) (request : Request) (profile_id workspace_id task_id : Ref)
    (file_url : Option Text) (db : Db) {deliverable : Deliverable} {after : Db}
    → submit_deliverable rules request profile_id workspace_id task_id file_url db
      ≡ ok (deliverable, after)
    → Moves submitting task_id db after
unfolding submit_deliverable
submit_deliverable-Moves rules request profile_id workspace_id task_id file_url db h =
    >>=-elim (lock_workspace_mutation_context request profile_id workspace_id db) _ h λ scope _ h₁.
      >>=-elim (require_executor db scope.context) _ h₁ λ _ _ h₂.
        >>=-elim (lock_task db scope.workspace task_id) _ h₂ λ task locked h₃.
          >>=-elim (lock_current_editor_assignment db task request.actor) _ h₃ λ assignment _ h₄.
            guard-elim (task.status == TaskStatus.working) _ _ h₄ λ status h₅.
              guard-elim (not (exists (is_unresolved task.id) db.deliverables)) _ _ h₅ λ _ h₆.
                >>=-elim
                  (write_submission rules request scope.workspace task assignment file_url db) _ h₆
                  λ (made, event, changed, audited) written h₇.
                    >>=-elim
                      (emit_task_notifications (λ k. request.new_id (k + 2)) event request.actor
                        changed EventType.review_submitted (some made) audited)
                      _ h₇
                      λ (notified, last) emitted h₈.
                        let frame =
                          emit-SameButLogs _ event request.actor changed EventType.review_submitted
                            (some made) audited emitted in
                        record {
                          task = task;
                          stored = (lock_task_lem db scope.workspace task_id locked).0;
                          named = (lock_task_lem db scope.workspace task_id locked).2;
                          next = TaskStatus.review;
                          move = rw (==→≡ task.status TaskStatus.working status) submit;
                          tasks =
                              sym (ap (λ p. p.1.tasks) (ok-injective h₈))
                              ∙ frame.tasks
                              ∙ write_submission-tasks rules request scope.workspace task assignment
                                  file_url db written;
                        }

decision-Move :
    (status : ReviewStatus) → Move (reviewing status) TaskStatus.review (decided_task status)
decision-Move ReviewStatus.approved = approve
decision-Move ReviewStatus.pending = request_changes λ e. ground (arith, e)
decision-Move ReviewStatus.request_change = request_changes λ e. ground (arith, e)

-- A review decision that succeeds moves the stored Task that `task_id` names from REVIEW, to COMPLETED
-- if the decision is APPROVED and to WORKING if it is another one, and the table of Tasks is otherwise
-- as it was.
pub review_deliverable-Moves :
    (rules : FieldRules) (request : Request) (profile_id workspace_id task_id deliverable_id : Ref)
    (status : ReviewStatus) (comment : Option Text) (db : Db) {review : Review} {after : Db}
    → review_deliverable rules request profile_id workspace_id task_id deliverable_id status comment
        db
      ≡ ok (review, after)
    → Moves (reviewing status) task_id db after
unfolding review_deliverable
review_deliverable-Moves rules request profile_id workspace_id task_id deliverable_id status comment
      db h =
    >>=-elim (lock_workspace_mutation_context request profile_id workspace_id db) _ h λ scope _ h₁.
      >>=-elim (require_reviewer db scope.context) _ h₁ λ _ _ h₂.
        >>=-elim (lock_task db scope.workspace task_id) _ h₂ λ task locked h₃.
          >>=-elim (lock_deliverable db task deliverable_id) _ h₃ λ deliverable _ h₄.
            guard-elim (task.status == TaskStatus.review) _ _ h₄ λ in_review h₅.
              guard-elim
                (is_same_deliverable (latest_deliverable task.id db.deliverables) deliverable) _ _
                h₅
                λ _ h₆.
                  guard-elim (deliverable.status == DeliverableStatus.submitted) _ _ h₆ λ _ h₇.
                    guard-elim (not (deliverable.uploaded_by_id == request.actor)) _ _ h₇ λ _ h₈.
                      guard-elim (not (exists (is_decision_on deliverable.id) db.reviews)) _ _ h₈
                        λ _ h₉.
                          >>=-elim
                            (write_review rules request scope.workspace task deliverable status
                              comment db)
                            _ h₉
                            λ (made, event, changed, decided, audited) written hₐ.
                              >>=-elim
                                (emit_task_notifications (λ k. request.new_id (k + 2)) event
                                  request.actor changed (decision_event status) (some decided)
                                  audited)
                                _ hₐ
                                λ (notified, last) emitted hₑ.
                                  let frame =
                                    emit-SameButLogs _ event request.actor changed
                                      (decision_event status) (some decided) audited emitted in
                                  record {
                                    task = task;
                                    stored = (lock_task_lem db scope.workspace task_id locked).0;
                                    named = (lock_task_lem db scope.workspace task_id locked).2;
                                    next = decided_task status;
                                    move =
                                        rw (==→≡ task.status TaskStatus.review in_review)
                                          (decision-Move status);
                                    tasks =
                                        sym (ap (λ p. p.1.tasks) (ok-injective hₑ))
                                        ∙ frame.tasks
                                        ∙ write_review-tasks rules request scope.workspace task
                                            deliverable status comment db written;
                                  }
