-- ===== src/Tasks/Planning.antt =====
-- backend/apps/tasks/services.py: `create_task` and `update_task`.
use hustly_tasker.Prelude.{
  ◌>>=◌, ◌>>◌, Result, Text, strip_or_blank, insert, Ref, if◌then◌else◌, ◌==◌, nat_eq, string_eq,
  bool_eq, option_eq, list_eq, ℕ, String, Bool, true, false, ◌&&◌, Option, none, some, List, [],
  ◌∷◌, ok,
}
use hustly_tasker.Store.{
  profile_status_eq, profile_role_eq, workspace_status_eq, workspace_role_eq, task_status_eq,
  task_priority_eq, deliverable_status_eq, review_status_eq, event_type_eq, TaskStatus,
  TaskPriority, Db, id_or_null, Metadata, strings, Request, FieldRules, user_key, profile_key,
  profile_membership_key, workspace_key, workspace_member_key, task_key, task_assignment_key,
  task_comment_key, deliverable_key, review_key, audit_log_key, notification_key, period_eq,
  deadline_eq, Workspace, Deadline, Task, nil, entry,
}
use hustly_tasker.Tasks.Clean.{full_clean_task}
use hustly_tasker.Tasks.Saves.{
  lock_task, create_audit_log, task_event, save_task, require_manager, status_text, priority_text,
}
use hustly_tasker.Workspace.{lock_workspace_mutation_context}

-- The keyword arguments of `create_task` after the ids.
pub record NewTask : Type 0 where
  pub title : Option Text
  pub description : Option Text
  pub priority : TaskPriority
  pub deadline : Option Deadline
  pub parent_id : Option Ref

-- `parent = None if parent_id is None else _lock_task(...)`, as the id of the parent.
unfoldable pub lock_parent : Db → Workspace → Option Ref → Result (Option ℕ)
unfolding lock_task
lock_parent db workspace none = ok none
lock_parent db workspace (some parent_id) = do
  parent ← lock_task db workspace parent_id
  ok (some parent.id)

unfoldable pub new_task_row : Request → Workspace → Option ℕ → NewTask → Task
new_task_row request workspace parent_id args = record {
  id = request.new_id 0;
  workspace_id = workspace.id;
  parent_id = parent_id;
  title = strip_or_blank args.title;
  description = args.description;
  status = TaskStatus.pending;
  priority = args.priority;
  deadline = args.deadline;
  created_by_id = request.actor;
}

unfoldable pub create_task : FieldRules → Request → Ref → Ref → NewTask → Db → Result (Task × Db)
unfolding new_task_row
create_task rules request profile_id workspace_id args db = do
  scope ← lock_workspace_mutation_context request profile_id workspace_id db
  require_manager db scope.context
  parent_id ← lock_parent db scope.workspace args.parent_id
  let task = new_task_row request scope.workspace parent_id args
  full_clean_task rules db true task
  tasks ← insert task db.tasks
  after ←
      create_audit_log
        (task_event request (request.new_id 1) "task.created" "Task" task.id scope.workspace (
          entry "status" (status_text task.status) (
            entry "priority" (priority_text task.priority)
              (entry "parent_id" (id_or_null task.parent_id) nil))))
        (record db { tasks = tasks })
  ok (task, after)

-- The keyword arguments of `update_task`: none for `_UNSET`.
pub record TaskChanges : Type 0 where
  pub title : Option (Option Text)
  pub description : Option (Option Text)
  pub priority : Option TaskPriority
  pub deadline : Option (Option Deadline)
  pub parent_id : Option (Option Ref)

-- The parent after the call: as it was, or the locked row that the argument names.
unfoldable pub next_parent : Db → Workspace → Task → Option (Option Ref) → Result (Option ℕ)
next_parent db workspace task none = ok task.parent_id
next_parent db workspace task (some parent_id) = lock_parent db workspace parent_id

-- The values after the call, of the fields that are not `_UNSET`.
unfoldable pub edited_task : Task → Option ℕ → TaskChanges → Task
edited_task task parent_id changes = record task {
  parent_id = parent_id;
  title = elim changes.title [ none ↦ task.title | some title ↦ strip_or_blank title ];
  description = elim changes.description [
    | none ↦ task.description
    | some description ↦ description
  ];
  priority = elim changes.priority [ none ↦ task.priority | some priority ↦ priority ];
  deadline = elim changes.deadline [ none ↦ task.deadline | some deadline ↦ deadline ];
}

abbrev changed_field : Bool → String → List String → List String
changed_field same name rest = if same then rest else name ∷ rest

-- `changed_fields`, in the order in which the source appends them.
unfoldable pub changed_fields : Task → Task → List String
changed_fields old new = changed_field (old.parent_id == new.parent_id) "parent" (
    changed_field (old.title == new.title) "title" (
      changed_field (old.description == new.description) "description" (
        changed_field (old.priority == new.priority) "priority"
          (changed_field (old.deadline == new.deadline) "deadline" []))))

unfoldable pub is_unchanged : Task → Task → Bool
is_unchanged old new =
    old.parent_id == new.parent_id
    && old.title == new.title
    && old.description == new.description
    && old.priority == new.priority
    && old.deadline == new.deadline

-- `task.save(update_fields=(*changed_fields, "updated_at"))`: an unchanged field is not written,
-- and writing it would put back the value that is there.
unfoldable pub write_edited : Task → Task → Task
write_edited new row = record row {
  parent_id = new.parent_id;
  title = new.title;
  description = new.description;
  priority = new.priority;
  deadline = new.deadline;
}

unfoldable pub parent_change : Task → Task → Metadata
parent_change old new =
    if old.parent_id == new.parent_id
    then nil
    else entry "parent_id_before" (id_or_null old.parent_id)
        (entry "parent_id_after" (id_or_null new.parent_id) nil)

unfoldable pub update_task :
    FieldRules → Request → Ref → Ref → Ref → TaskChanges → Db → Result (Task × Db)
unfolding edited_task is_unchanged
update_task rules request profile_id workspace_id task_id changes db = do
  scope ← lock_workspace_mutation_context request profile_id workspace_id db
  require_manager db scope.context
  task ← lock_task db scope.workspace task_id
  parent_id ← next_parent db scope.workspace task changes.parent_id
  let edited = edited_task task parent_id changes
  elim (is_unchanged task edited) [
    | true ↦ ok (task, db)
    | false ↦ do
      full_clean_task rules db false edited
      let saved = save_task (write_edited edited) task.id db
      after ←
          create_audit_log
            (task_event request (request.new_id 0) "task.updated" "Task" task.id scope.workspace (
              entry "changed_fields" (strings (changed_fields task edited))
                (parent_change task edited)))
            saved
      ok (edited, after)
  ]
