-- ===== src/Tasks/Discussing.antt =====
-- backend/apps/tasks/comment_services.py: the discussion of a Task.
use hustly_tasker.Access.{
  can_manage_workspace_tasks, can_execute_workspace_tasks, WorkspaceAccessContext,
}
use hustly_tasker.Notify.{emit_task_notifications}
use hustly_tasker.Prelude.{
  guard, or_raise, ◌>>=◌, ◌>>◌, Result, tenant_access_not_found, permission_denied,
  validation_error, task_workflow_conflict, Text, length, is_encodable, strip, refers, exists, rows,
  first, save, insert, Ref, leb, ◌==◌, nat_eq, string_eq, bool_eq, option_eq, list_eq, is_some, ℕ,
  ◌+◌, String, Bool, true, false, ◌&&◌, ◌||◌, not, Option, none, some, List, [], err, ok,
}
use hustly_tasker.Store.{
  profile_status_eq, profile_role_eq, workspace_status_eq, workspace_role_eq, task_status_eq,
  task_priority_eq, deliverable_status_eq, review_status_eq, event_type_eq, EventType,
  invitation_role_eq, invitation_status_eq, delivery_status_eq, token_purpose_eq, token_status_eq,
  profile_invitation_key, account_security_token_key, Db, id_text, Request, FieldRules, user_key,
  profile_key, profile_membership_key, workspace_key, workspace_member_key, task_key,
  task_assignment_key, task_comment_key, deliverable_key, review_key, audit_log_key,
  notification_key, period_eq, deadline_eq, Workspace, Task, TaskComment, AuditLog, entry, nil,
}
use hustly_tasker.Tasks.Saves.{lock_task, create_audit_log, task_event}
use hustly_tasker.Tasks.Visible.{tasks_visible_to}
use hustly_tasker.Workspace.{lock_workspace_mutation_context}

unfoldable pub can_comment_on_task : Db → WorkspaceAccessContext → Bool
can_comment_on_task db context =
    can_manage_workspace_tasks db context || can_execute_workspace_tasks db context

abbrev pub content_max_length : ℕ
content_max_length = 4000

-- `_content`, none for a value that is not a string.
unfoldable pub content : Option Text → Result Text
content none = err (validation_error "content")
content (some value) = do
  guard (not (list_eq.equals (strip value) [])) (validation_error "content")
  guard (is_encodable value) (validation_error "content")
  guard (not (exists (λ c. c == 0) value)) (validation_error "content")
  guard (leb (length (strip value)) content_max_length) (validation_error "content")
  ok (strip value)

unfoldable pub is_comment_of : Ref → ℕ → TaskComment → Bool
is_comment_of comment_id task_id comment =
    refers comment_id comment.id && comment.task_id == task_id

-- `_lock_comment`
unfoldable pub lock_comment : Db → Task → Ref → Result TaskComment
unfolding is_comment_of
lock_comment db task comment_id =
    or_raise (first (is_comment_of comment_id task.id) db.task_comments) tenant_access_not_found

-- What `_mutation_scope` returns; the Workspace is `task.workspace`.
pub record DiscussionScope : Type 0 where
  pub context : WorkspaceAccessContext
  pub workspace : Workspace
  pub task : Task

-- `_mutation_scope`
unfoldable pub mutation_scope : Request → Ref → Ref → Ref → Db → Result DiscussionScope
mutation_scope request profile_id workspace_id task_id db = do
  scope ← lock_workspace_mutation_context request profile_id workspace_id db
  task ← lock_task db scope.workspace task_id
  guard (can_comment_on_task db scope.context) permission_denied
  ok (record { context = scope.context; workspace = scope.workspace; task = task })

-- The row that `_audit` creates.
unfoldable pub comment_event : Request → ℕ → String → Workspace → TaskComment → AuditLog
unfolding task_event
comment_event request id action workspace comment =
    task_event request id action "TaskComment" comment.id workspace
      (entry "task_id" (id_text comment.task_id) (entry "comment_id" (id_text comment.id) nil))

abbrev is_none_or_from : Option ℕ → ℕ → Bool
is_none_or_from none t = true
is_none_or_from (some at) t = leb t at

-- The constraints `comment_edit_after_create` and `comment_delete_after_create`.
unfoldable pub has_ordered_times : TaskComment → Bool
has_ordered_times comment =
    is_none_or_from comment.edited_at comment.created_at
    && is_none_or_from comment.deleted_at comment.created_at

-- `comment.full_clean()`
unfoldable pub full_clean_comment : FieldRules → TaskComment → Result (Unit {0})
unfolding has_ordered_times
full_clean_comment rules comment = do
  guard (rules.task_comment comment) (validation_error "fields")
  guard (has_ordered_times comment) (validation_error "comment_after_create")

-- `comment.full_clean(exclude=("content",))`
unfoldable pub full_clean_comment_but_content : FieldRules → TaskComment → Result (Unit {0})
unfolding has_ordered_times
full_clean_comment_but_content rules comment = do
  guard (rules.task_comment_but_content comment) (validation_error "fields")
  guard (has_ordered_times comment) (validation_error "comment_after_create")

unfoldable pub create_comment :
    FieldRules → Request → Ref → Ref → Ref → Option Text → Db → Result (TaskComment × Db)
create_comment rules request profile_id workspace_id task_id value db = do
  scope ← mutation_scope request profile_id workspace_id task_id db
  body ← content value
  let comment : TaskComment = record {
    id = request.new_id 0;
    task_id = scope.task.id;
    user_id = request.actor;
    content = body;
    created_at = request.now;
    edited_at = none;
    deleted_at = none;
  }
  full_clean_comment rules comment
  comments ← insert comment db.task_comments
  let event =
      comment_event request (request.new_id 1) "task.comment.created" scope.workspace comment
  audited ← create_audit_log event (record db { task_comments = comments })
  (notified, after) ←
      emit_task_notifications (λ k. request.new_id (k + 2)) event request.actor scope.task
        EventType.task_commented none audited
  ok (comment, after)

unfoldable pub update_comment :
    FieldRules → Request → Ref → Ref → Ref → Ref → Option Text → Db → Result (TaskComment × Db)
update_comment rules request profile_id workspace_id task_id comment_id value db = do
  scope ← mutation_scope request profile_id workspace_id task_id db
  comment ← lock_comment db scope.task comment_id
  guard (comment.user_id == request.actor) permission_denied
  guard (not (is_some comment.deleted_at)) task_workflow_conflict
  normalized ← content value
  elim (list_eq.equals comment.content normalized) [
    | true ↦ ok (comment, db)
    | false ↦ do
      let changed = record comment { content = normalized; edited_at = some request.now }
      full_clean_comment rules changed
      after ←
          create_audit_log
            (comment_event request (request.new_id 0) "task.comment.updated" scope.workspace
              changed)
            (record db {
              task_comments =
                  save comment.id
                    (λ row. record row { content = normalized; edited_at = some request.now })
                    db.task_comments;
            })
      ok (changed, after)
  ]

unfoldable pub delete_comment :
    FieldRules → Request → Ref → Ref → Ref → Ref → Db → Result (TaskComment × Db)
delete_comment rules request profile_id workspace_id task_id comment_id db = do
  scope ← mutation_scope request profile_id workspace_id task_id db
  comment ← lock_comment db scope.task comment_id
  guard (comment.user_id == request.actor || can_manage_workspace_tasks db scope.context)
      permission_denied
  elim (is_some comment.deleted_at) [
    | true ↦ ok (comment, db)
    | false ↦ do
      let changed = record comment { deleted_at = some request.now }
      full_clean_comment_but_content rules changed
      after ←
          create_audit_log
            (comment_event request (request.new_id 0) "task.comment.deleted" scope.workspace
              changed)
            (record db {
              task_comments =
                  save comment.id (λ row. record row { deleted_at = some request.now })
                    db.task_comments;
            })
      ok (changed, after)
  ]

-- The rows of `comments_visible_to`, without the annotation with the author's membership.
unfoldable pub comments_visible_to : Db → WorkspaceAccessContext → Ref → Result (List TaskComment)
comments_visible_to db context task_id = do
  visible ← tasks_visible_to db context
  let scoped = rows (λ task. refers task_id task.id) visible
  ok (rows (λ comment. exists (λ task. task.id == comment.task_id) scoped) db.task_comments)
