-- ===== src/Tasks/Threads.antt =====
-- What one comment call does to the table of comments.
use hustly_tasker.Store.{
  task_comment_key, profile_status_eq, profile_role_eq, workspace_status_eq, workspace_role_eq,
  task_status_eq, task_priority_eq, deliverable_status_eq, review_status_eq, event_type_eq,
  EventType, invitation_role_eq, invitation_status_eq, delivery_status_eq, token_purpose_eq,
  token_status_eq, profile_invitation_key, account_security_token_key, Db, Request, FieldRules,
  user_key, profile_key, profile_membership_key, workspace_key, workspace_member_key, task_key,
  task_assignment_key, deliverable_key, review_key, audit_log_key, notification_key, period_eq,
  deadline_eq, Task, TaskComment,
}
use hustly_tasker.Access.{can_manage_workspace_tasks}
use hustly_tasker.Notify.Delivery.{emit-SameButLogs}
use hustly_tasker.Notify.{emit_task_notifications}
use hustly_tasker.Prelude.{
  >>=-elim, guard-elim, ok-injective, or_raise-eq-ok, Text, save, first_sound, insert, Ref, ◌==◌,
  nat_eq, string_eq, bool_eq, option_eq, list_eq, ==→≡, Bool-cases, is_some, ℕ, ◌+◌, ◌≡◌, refl, sym,
  ap, ◌∙◌, subst, inl, inr, false, ◌||◌, not, Option, none, some, List, Memᴰ, arith, ok,
}
use hustly_tasker.Tasks.Discussing.{
  content, is_comment_of, lock_comment, mutation_scope, full_clean_comment,
  full_clean_comment_but_content, create_comment, update_comment, delete_comment,
}
use hustly_tasker.Tasks.Effects.{create_audit_log-SameButLogs}
use hustly_tasker.Tasks.Saves.{create_audit_log}

-- What one call of the comment services does to the table of comments.
pub data Discusses (actor : ℕ) (before : List TaskComment) : List TaskComment → Type 0 where
  unchanged : Discusses actor before before
  posted :
      {after : List TaskComment} (comment : TaskComment)
      → comment.user_id ≡ actor
      → comment.deleted_at ≡ none
      → insert comment before ≡ ok after
      → Discusses actor before after
  edited :
      (comment : TaskComment) (body : Text) (at : ℕ)
      → Memᴰ comment before
      → comment.user_id ≡ actor
      → comment.deleted_at ≡ none
      → Discusses actor before
          (save comment.id (λ row. record row { content = body; edited_at = some at }) before)
  deleted :
      (comment : TaskComment) (at : ℕ)
      → Memᴰ comment before
      → comment.deleted_at ≡ none
      → Discusses actor before (save comment.id (λ row. record row { deleted_at = some at }) before)

not_some : {A : Type 0} (o : Option A) → is_some o ≡ false → o ≡ none
not_some none h = refl
not_some (some a) h = cc

lock_comment_lem :
    (db : Db) (task : Task) (comment_id : Ref) {comment : TaskComment}
    → lock_comment db task comment_id ≡ ok comment
    → Memᴰ comment db.task_comments
unfolding lock_comment
lock_comment_lem db task comment_id h =
    (first_sound (is_comment_of comment_id task.id) db.task_comments (or_raise-eq-ok _ _ h)).1

-- A `create_comment` that succeeds adds one comment by the actor, and does nothing else to the
-- comments.
pub create_comment-Discusses :
    (rules : FieldRules) (request : Request) (profile_id workspace_id task_id : Ref)
    (value : Option Text) (db : Db) {comment : TaskComment} {after : Db}
    → create_comment rules request profile_id workspace_id task_id value db ≡ ok (comment, after)
    → Discusses request.actor db.task_comments after.task_comments
unfolding create_comment
create_comment-Discusses rules request profile_id workspace_id task_id value db h =
    >>=-elim (mutation_scope request profile_id workspace_id task_id db) _ h λ scope _ h₁.
      >>=-elim (content value) _ h₁ λ body _ h₂.
        let new : TaskComment = record {
          id = request.new_id 0;
          task_id = scope.task.id;
          user_id = request.actor;
          content = body;
          created_at = request.now;
          edited_at = none;
          deleted_at = none;
        } in
        >>=-elim (full_clean_comment rules new) _ h₂ λ _ _ h₃.
          >>=-elim (insert new db.task_comments) _ h₃ λ table put h₄.
            >>=-elim (create_audit_log _ (record db { task_comments = table })) _ h₄
              λ audited audit h₅.
                >>=-elim
                  (emit_task_notifications (λ k. request.new_id (k + 2)) _ request.actor scope.task
                    EventType.task_commented none audited)
                  _ h₅
                  λ (notified, last) emitted h₆.
                    let saved : Db = record db { task_comments = table } in
                    let quiet = create_audit_log-SameButLogs _ saved audit in
                    let frame =
                      emit-SameButLogs _ _ request.actor scope.task EventType.task_commented none
                        audited emitted in
                    subst (Discusses request.actor db.task_comments)
                      (sym quiet.task_comments
                        ∙ sym frame.task_comments
                        ∙ ap (λ p. p.1.task_comments) (ok-injective h₆))
                      (posted new refl refl put)

-- An `update_comment` that succeeds leaves the comments as they are or writes the text of one
-- stored comment by the actor that is not deleted.
pub update_comment-Discusses :
    (rules : FieldRules) (request : Request) (profile_id workspace_id task_id comment_id : Ref)
    (value : Option Text) (db : Db) {comment : TaskComment} {after : Db}
    → update_comment rules request profile_id workspace_id task_id comment_id value db
      ≡ ok (comment, after)
    → Discusses request.actor db.task_comments after.task_comments
unfolding update_comment
update_comment-Discusses rules request profile_id workspace_id task_id comment_id value db h =
    >>=-elim (mutation_scope request profile_id workspace_id task_id db) _ h λ scope _ h₁.
      >>=-elim (lock_comment db scope.task comment_id) _ h₁ λ c locked h₂.
        guard-elim (c.user_id == request.actor) _ _ h₂ λ own h₃.
          guard-elim (not (is_some c.deleted_at)) _ _ h₃ λ standing h₄.
            >>=-elim (content value) _ h₄ λ body _ h₅.
              elim (Bool-cases (list_eq.equals c.content body)) [
                | inl same ↦
                    subst (Discusses request.actor db.task_comments)
                      (ap (λ p. p.1.task_comments) (ok-injective (rw same at h₅))) unchanged
                | inr other ↦
                    let changed = record c { content = body; edited_at = some request.now } in
                    >>=-elim (full_clean_comment rules changed) _ (rw other at h₅) λ _ _ h₆.
                      >>=-elim (create_audit_log _ _) _ h₆ λ last audit h₇.
                        let quiet = create_audit_log-SameButLogs _ _ audit in
                        subst (Discusses request.actor db.task_comments)
                          (sym quiet.task_comments ∙ ap (λ p. p.1.task_comments) (ok-injective h₇))
                          (edited c body request.now
                            (lock_comment_lem db scope.task comment_id locked)
                            (==→≡ c.user_id request.actor own)
                            (not_some c.deleted_at (ground arith)))
              ]

-- A `delete_comment` that succeeds leaves the comments as they are or marks one stored comment that
-- is not deleted.
pub delete_comment-Discusses :
    (rules : FieldRules) (request : Request) (profile_id workspace_id task_id comment_id : Ref)
    (db : Db) {comment : TaskComment} {after : Db}
    → delete_comment rules request profile_id workspace_id task_id comment_id db
      ≡ ok (comment, after)
    → Discusses request.actor db.task_comments after.task_comments
unfolding delete_comment
delete_comment-Discusses rules request profile_id workspace_id task_id comment_id db h =
    >>=-elim (mutation_scope request profile_id workspace_id task_id db) _ h λ scope _ h₁.
      >>=-elim (lock_comment db scope.task comment_id) _ h₁ λ c locked h₂.
        guard-elim (c.user_id == request.actor || can_manage_workspace_tasks db scope.context) _ _
          h₂
          λ _ h₃. elim (Bool-cases (is_some c.deleted_at)) [
            | inl gone ↦
                subst (Discusses request.actor db.task_comments)
                  (ap (λ p. p.1.task_comments) (ok-injective (rw gone at h₃))) unchanged
            | inr standing ↦
                let changed = record c { deleted_at = some request.now } in
                >>=-elim (full_clean_comment_but_content rules changed) _ (rw standing at h₃)
                  λ _ _ h₄. >>=-elim (create_audit_log _ _) _ h₄ λ last audit h₅.
                    let quiet = create_audit_log-SameButLogs _ _ audit in
                    subst (Discusses request.actor db.task_comments)
                      (sym quiet.task_comments ∙ ap (λ p. p.1.task_comments) (ok-injective h₅))
                      (deleted c request.now (lock_comment_lem db scope.task comment_id locked)
                        (not_some c.deleted_at standing))
          ]
