-- ===== src/Tasks/Revisions.antt =====
-- The revisions of a Task's deliverables.
use hustly_tasker.Notify.Delivery.{emit-SameButLogs}
use hustly_tasker.Notify.{emit_task_notifications}
use hustly_tasker.Prelude.{
  integrity_as, >>=-elim, guard-elim, integrity_as-eq-ok, ok-injective, task_workflow_conflict,
  Text, strip_or_blank, exists, uncons, exists_none, insert, Ref, ◌==◌, nat_eq, string_eq, bool_eq,
  option_eq, list_eq, insert_lem, ℕ, ◌+◌, ◌≤◌, ◌<◌, ◌≡◌, refl, ap, ◌∙◌, subst, inl, inr, false, not,
  Option, some, List, [], ◌∷◌, ◌++◌, Memᴰ, arith, ok,
}
use hustly_tasker.Store.{
  profile_status_eq, profile_role_eq, workspace_status_eq, workspace_role_eq, task_status_eq,
  task_priority_eq, deliverable_status_eq, review_status_eq, event_type_eq, TaskStatus,
  DeliverableStatus, EventType, Db, Request, FieldRules, user_key, profile_key,
  profile_membership_key, workspace_key, workspace_member_key, task_key, task_assignment_key,
  task_comment_key, deliverable_key, review_key, audit_log_key, notification_key, period_eq,
  deadline_eq, Workspace, Task, TaskAssignment, Deliverable, AuditLog,
}
use hustly_tasker.Tasks.Delivering.{
  is_unresolved, revision_or_zero, latest_revision, full_clean_deliverable, write_submission,
  submit_deliverable,
}
use hustly_tasker.Tasks.Effects.{status_then_audit}
use hustly_tasker.Tasks.Saves.{
  lock_task, create_audit_log, save_task, save_task_status, require_executor,
  lock_current_editor_assignment,
}
use hustly_tasker.Workspace.{lock_workspace_mutation_context}

latest_revision-bounds :
    (task_id : ℕ) (ds : List Deliverable) {d : Deliverable}
    → Memᴰ d ds
    → d.task_id ≡ task_id
    → revision_or_zero d ≤ latest_revision task_id ds
unfolding latest_revision
latest_revision-bounds task_id [] m same = elim m [ ]
latest_revision-bounds task_id (e ∷ ds) {d} m same = elim (uncons m) [
  | inl is ↦ ground (arith, ap (λ x. x.task_id) is, ap revision_or_zero is)
  | inr rest ↦ ground (arith, latest_revision-bounds task_id ds rest same)
]

-- The deliverable that a submission adds: by the actor, submitted, and newer than every earlier
-- one of its Task, all of which are decided.
pub record IsNextRevision (db after : Db) (actor : ℕ) (deliverable : Deliverable) : Type 0 where
  pub added : after.deliverables ≡ db.deliverables ++ deliverable ∷ []
  pub by_actor : deliverable.uploaded_by_id ≡ actor
  pub waits : deliverable.status ≡ DeliverableStatus.submitted
  pub newest :
      (d : Deliverable)
      → Memᴰ d db.deliverables
      → d.task_id ≡ deliverable.task_id
      → revision_or_zero d < revision_or_zero deliverable
  pub resolved :
      (d : Deliverable) → Memᴰ d db.deliverables → is_unresolved deliverable.task_id d ≡ false

write_submission-IsNextRevision :
    (rules : FieldRules) (request : Request) (workspace : Workspace) (task : Task)
    (assignment : TaskAssignment) (file_url : Option Text) (db : Db) {deliverable : Deliverable}
    {event : AuditLog} {changed : Task} {after : Db}
    → exists (is_unresolved task.id) db.deliverables ≡ false
    → write_submission rules request workspace task assignment file_url db
      ≡ ok (deliverable, event, changed, after)
    → IsNextRevision db after request.actor deliverable
unfolding write_submission save_task
write_submission-IsNextRevision rules request workspace task assignment file_url db none_open h =
    let new : Deliverable = record {
      id = request.new_id 0;
      task_id = task.id;
      file_url = strip_or_blank file_url;
      uploaded_by_id = request.actor;
      revision = some (latest_revision task.id db.deliverables + 1);
      status = DeliverableStatus.submitted;
      created_at = request.now;
    } in
    >>=-elim (full_clean_deliverable rules db new) _ h λ _ _ h₁.
      >>=-elim (integrity_as task_workflow_conflict (insert new db.deliverables)) _ h₁
        λ table put h₂.
          >>=-elim
            (save_task_status rules task TaskStatus.review (record db { deliverables = table })) _
            h₂
            λ (moved_task, saved) moved h₃.
              >>=-elim (create_audit_log _ saved) _ h₃ λ logged audit h₄.
                let same =
                  status_then_audit rules task moved_task TaskStatus.review _
                    (record db { deliverables = table }) saved moved audit in
                let grown = (insert_lem new db.deliverables (integrity_as-eq-ok _ _ put)).0 in
                subst (λ p. IsNextRevision db p.3 request.actor p.0) (ok-injective h₄)
                  (record {
                    added = same.deliverables ∙ grown;
                    by_actor = refl;
                    waits = refl;
                    newest = λ d md t.
                        let bound = latest_revision-bounds task.id db.deliverables md t in
                        omega arith;
                    resolved =
                        λ d md. exists_none (is_unresolved task.id) db.deliverables none_open md;
                  })

-- A `submit_deliverable` that succeeds adds one deliverable, submitted by the actor, whose revision
-- exceeds that of every earlier deliverable of its Task, all of which are decided.
pub submit_deliverable-IsNextRevision :
    (rules : FieldRules) (request : Request) (profile_id workspace_id task_id : Ref)
    (file_url : Option Text) (db : Db) {deliverable : Deliverable} {after : Db}
    → submit_deliverable rules request profile_id workspace_id task_id file_url db
      ≡ ok (deliverable, after)
    → IsNextRevision db after request.actor deliverable
unfolding submit_deliverable
submit_deliverable-IsNextRevision rules request profile_id workspace_id task_id file_url db
      {deliverable = given} {after = final} h =
    >>=-elim (lock_workspace_mutation_context request profile_id workspace_id db) _ h λ scope _ h₁.
      >>=-elim (require_executor db scope.context) _ h₁ λ _ _ h₂.
        >>=-elim (lock_task db scope.workspace task_id) _ h₂ λ task locked h₃.
          >>=-elim (lock_current_editor_assignment db task request.actor) _ h₃ λ assignment _ h₄.
            guard-elim (task.status == TaskStatus.working) _ _ h₄ λ status h₅.
              guard-elim (not (exists (is_unresolved task.id) db.deliverables)) _ _ h₅ λ free h₆.
                >>=-elim
                  (write_submission rules request scope.workspace task assignment file_url db) _ h₆
                  λ (made, event, changed, audited) written h₇.
                    >>=-elim
                      (emit_task_notifications (λ k. request.new_id (k + 2)) event request.actor
                        changed EventType.review_submitted (some made) audited)
                      _ h₇
                      λ (notified, last) emitted h₈.
                        let frame =
                          emit-SameButLogs _ event request.actor changed EventType.review_submitted
                            (some made) audited emitted in
                        let none_open : exists (is_unresolved task.id) db.deliverables ≡ false =
                          ground arith in
                        let next =
                          write_submission-IsNextRevision rules request scope.workspace task
                            assignment file_url db none_open written in
                        subst (λ p. IsNextRevision db p.1 request.actor p.0) (ok-injective h₈)
                          (record {
                            added = frame.deliverables ∙ next.added;
                            by_actor = next.by_actor;
                            waits = next.waits;
                            newest = next.newest;
                            resolved = next.resolved;
                          })
