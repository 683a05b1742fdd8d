-- ===== src/Tasks/Reviewing.antt =====
-- The review that a decision adds: of a stored deliverable of the Task's that waited for it, by
-- somebody other than its uploader, where there was none.
use hustly_tasker.Notify.Delivery.{emit-SameButLogs}
use hustly_tasker.Notify.{emit_task_notifications}
use hustly_tasker.Prelude.{
  integrity_as, >>=-elim, guard-elim, integrity_as-eq-ok, ok-injective, deliverable_review_conflict,
  Text, exists, save, exists_none, insert, Ref, ◌==◌, nat_eq, string_eq, bool_eq, option_eq,
  list_eq, ==→≡, insert_lem, ℕ, ◌+◌, ◌≡◌, sym, ap, ◌∙◌, subst, ◌≢◌, false, not, Option, some, [],
  ◌∷◌, ◌++◌, Memᴰ, arith, ok,
}
use hustly_tasker.Store.{
  profile_status_eq, profile_role_eq, workspace_status_eq, workspace_role_eq, task_status_eq,
  task_priority_eq, deliverable_status_eq, review_status_eq, event_type_eq, TaskStatus,
  DeliverableStatus, ReviewStatus, Db, Request, FieldRules, user_key, profile_key,
  profile_membership_key, workspace_key, workspace_member_key, task_key, task_assignment_key,
  task_comment_key, deliverable_key, review_key, audit_log_key, notification_key, period_eq,
  deadline_eq, Workspace, Task, Deliverable, Review, AuditLog,
}
use hustly_tasker.Tasks.Delivering.{full_clean_deliverable}
use hustly_tasker.Tasks.Deciding.{
  latest_deliverable, is_same_deliverable, is_decision_on, full_clean_review, decided_deliverable,
  decided_task, decision_event, write_review, review_deliverable,
}
use hustly_tasker.Tasks.Effects.{lock_deliverable_lem, status_then_audit}
use hustly_tasker.Tasks.Saves.{
  lock_task, lock_deliverable, create_audit_log, save_task, save_task_status, require_reviewer,
}
use hustly_tasker.Workspace.{lock_workspace_mutation_context}

pub record IsReviewed (db after : Db) (actor : ℕ) (review : Review) : Type 0 where
  pub deliverable : Deliverable
  pub stored : Memᴰ deliverable db.deliverables
  pub reviews_it : review.deliverable_id ≡ deliverable.id
  pub by_actor : review.reviewer_id ≡ actor
  pub by_another : deliverable.uploaded_by_id ≢ actor
  pub waited : deliverable.status ≡ DeliverableStatus.submitted
  pub undecided : (r : Review) → Memᴰ r db.reviews → (r.deliverable_id == deliverable.id) ≡ false
  pub added : after.reviews ≡ db.reviews ++ review ∷ []

write_review-reviews :
    (rules : FieldRules) (request : Request) (workspace : Workspace) (task : Task)
    (deliverable : Deliverable) (status : ReviewStatus) (comment : Option Text) (db : Db)
    {review : Review} {event : AuditLog} {changed : Task} {decided : Deliverable} {after : Db}
    → write_review rules request workspace task deliverable status comment db
      ≡ ok (review, event, changed, decided, after)
    → (after.reviews ≡ db.reviews ++ review ∷ [])
      × (review.deliverable_id ≡ deliverable.id)
      × (review.reviewer_id ≡ request.actor)
unfolding write_review save_task
write_review-reviews rules request workspace task deliverable status comment db h =
    >>=-elim (full_clean_review rules db _) _ h λ _ _ h₁.
      >>=-elim (integrity_as deliverable_review_conflict (insert _ db.reviews)) _ h₁ λ table put h₂.
        >>=-elim (full_clean_deliverable rules (record db { reviews = table }) _) _ h₂ λ _ _ h₃.
          let resolved : Db = record db {
            reviews = table;
            deliverables =
                save deliverable.id
                  (λ (row : Deliverable). record row { status = decided_deliverable status })
                  db.deliverables;
          } in
          >>=-elim (save_task_status rules task (decided_task status) resolved) _ h₃
            λ (moved_task, saved) moved h₄.
              >>=-elim (create_audit_log _ saved) _ h₄ λ logged audit h₅.
                let same =
                  status_then_audit rules task moved_task (decided_task status) _ resolved saved
                    moved audit in
                let made = ap (λ p. p.0) (ok-injective h₅) in
                let grown = (insert_lem _ db.reviews (integrity_as-eq-ok _ _ put)).0 in
                (
                  sym (ap (λ p. p.4.reviews) (ok-injective h₅))
                      ∙ same.reviews
                      ∙ grown
                      ∙ ap (λ r. db.reviews ++ r ∷ []) made,
                  ap (λ r. r.deliverable_id) (sym made),
                  ap (λ r. r.reviewer_id) (sym made),
                )

-- A review decision that succeeds adds one review, by the actor, of a stored deliverable that was
-- submitted by somebody else and had no review.
pub review_deliverable-IsReviewed :
    (rules : FieldRules) (request : Request) (profile_id workspace_id task_id deliverable_id : Ref)
    (status : ReviewStatus) (comment : Option Text) (db : Db) {review : Review} {after : Db}
    → review_deliverable rules request profile_id workspace_id task_id deliverable_id status comment
        db
      ≡ ok (review, after)
    → IsReviewed db after request.actor review
unfolding review_deliverable is_decision_on
review_deliverable-IsReviewed rules request profile_id workspace_id task_id deliverable_id status
      comment db {review = given} {after = final} h =
    >>=-elim (lock_workspace_mutation_context request profile_id workspace_id db) _ h λ scope _ h₁.
      >>=-elim (require_reviewer db scope.context) _ h₁ λ _ _ h₂.
        >>=-elim (lock_task db scope.workspace task_id) _ h₂ λ task locked h₃.
          >>=-elim (lock_deliverable db task deliverable_id) _ h₃ λ deliverable held h₄.
            guard-elim (task.status == TaskStatus.review) _ _ h₄ λ in_review h₅.
              guard-elim
                (is_same_deliverable (latest_deliverable task.id db.deliverables) deliverable) _ _
                h₅
                λ _ h₆.
                  guard-elim (deliverable.status == DeliverableStatus.submitted) _ _ h₆ λ waits h₇.
                    guard-elim (not (deliverable.uploaded_by_id == request.actor)) _ _ h₇
                      λ other h₈.
                        guard-elim (not (exists (is_decision_on deliverable.id) db.reviews)) _ _ h₈
                          λ free h₉.
                            >>=-elim
                              (write_review rules request scope.workspace task deliverable status
                                comment db)
                              _ h₉
                              λ (made, event, changed, decided, audited) written hₐ.
                                >>=-elim
                                  (emit_task_notifications (λ k. request.new_id (k + 2)) event
                                    request.actor changed (decision_event status) (some decided)
                                    audited)
                                  _ hₐ
                                  λ (notified, last) emitted hₑ.
                                    let frame =
                                      emit-SameButLogs _ event request.actor changed
                                        (decision_event status) (some decided) audited emitted in
                                    let (grown, what, who) =
                                      write_review-reviews rules request scope.workspace task
                                        deliverable status comment db written in
                                    let no : exists (is_decision_on deliverable.id) db.reviews
                                        ≡ false =
                                      ground arith in
                                    subst (λ p. IsReviewed db p.1 request.actor p.0)
                                      (ok-injective hₑ)
                                      (record {
                                        deliverable = deliverable;
                                        stored =
                                            (lock_deliverable_lem db task deliverable_id held).0;
                                        reviews_it = what;
                                        by_actor = who;
                                        by_another = λ e. ground (arith, e);
                                        waited =
                                            ==→≡ deliverable.status DeliverableStatus.submitted
                                              waits;
                                        undecided = λ r mr.
                                            exists_none (is_decision_on deliverable.id) db.reviews
                                              no mr;
                                        added = frame.reviews ∙ grown;
                                      })
