-- ===== src/Examples/HierarchyCalls.antt =====
-- `create_task` and `update_task` on the forest of the office.
use hustly_tasker.Examples.Office.{
  office, call_of, all_accepted, profile_ref, workspace_ref, db_of, task_row,
}
use hustly_tasker.Tasks.Hierarchy.Chains.{Rooted, root, under}
use hustly_tasker.Access.{
  profile_is_active, has_active_workspace_state, can_manage_workspace_tasks,
  can_execute_workspace_tasks, can_review_workspace_deliverables, user_is_active, is_actor_row,
  in_actor_scope, is_member_workspace, is_in_manager_scope, is_in_member_scope,
  is_current_workspace_context, is_usable_membership, resolve_profile_access_context,
  is_membership_of, refresh_profile_access_context, is_visible_to_valid_context,
  workspaces_visible_to_valid_context, is_assignment_to, member_workspace_role,
  resolve_workspace_role, visible_workspace, resolve_workspace_access_context,
}
use hustly_tasker.Prelude.{
  Result, is_space, lstrip, strip, strip_or_blank, exists, rows, update_where, first, uncons,
  insert, uuid, distinct-UniqueBy, refl, inl, inr, none, some, [], ◌∷◌, Memᴰ, arith,
}
use hustly_tasker.Store.{
  TaskStatus, TaskPriority, Db, user_key, profile_key, profile_membership_key, workspace_key,
  workspace_member_key, task_key, task_assignment_key, task_comment_key, deliverable_key,
  review_key, audit_log_key, notification_key, Task,
}
use hustly_tasker.Tasks.{
  contains, task_by_id, climb, is_child_of, check_children, descend, clean_deadline, is_moved,
  clean_task, full_clean_task, lock_parent, new_task_row, create_task, next_parent, edited_task,
  changed_fields, is_unchanged, write_edited, parent_change, update_task, NewTask, TaskChanges,
  is_task_of, lock_task, create_audit_log, task_event, save_task, save_task_status, require_manager,
  require_executor, require_reviewer, is_active_assignment_of, lock_current_editor_assignment,
  status_text, priority_text,
}
use hustly_tasker.Tasks.Hierarchy.Forest.{IsForest, create_task-IsForest}
use hustly_tasker.Tasks.Hierarchy.Update.{update_task-IsForest}
use hustly_tasker.Workspace.{
  profile_by_id, workspace_in_profile, is_effective_assignment, locked_workspace_role,
  lock_workspace_mutation_context,
}

-- The chains of the office's Tasks.
office_root : Rooted office.tasks 30 [] none 0
office_root = root

office_first : Rooted office.tasks 30 [] (some 50) 1
unfolding contains exists
office_first = under (task_row 50 none TaskStatus.pending) (Memᴰ.head refl) refl refl refl root

office_second : Rooted office.tasks 30 [] (some 51) 2
unfolding contains exists
office_second =
    under (task_row 51 (some 50) TaskStatus.assigned) (Memᴰ.tail (Memᴰ.head refl)) refl refl refl
      office_first

office-IsForest : IsForest office.tasks
office-IsForest task m = elim (uncons m) [
  | inl e ↦ rw e (0, root, omega arith)
  | inr m₁ ↦ elim (uncons m₁) [
    | inl e ↦ rw e (1, office_first, omega arith)
    | inr m₂ ↦ elim (uncons m₂) [
      | inl e ↦ rw e (2, office_second, omega arith)
      | inr m₃ ↦ elim (uncons m₃) [ inl e ↦ rw e (0, root, omega arith) | inr m₄ ↦ elim m₄ [ ] ]
    ]
  ]
]

abbrev new_task : NewTask
new_task = record {
  title = some (84 ∷ []);
  description = none;
  priority = TaskPriority.high;
  deadline = none;
  parent_id = some (uuid 52);
}

abbrev created : Result (Task × Db)
created = create_task all_accepted (call_of 1) profile_ref workspace_ref new_task office

create_task-IsForest_example : IsForest (db_of created).tasks
unfolding create_task lock_workspace_mutation_context resolve_profile_access_context
    is_usable_membership user_is_active resolve_workspace_access_context
    refresh_profile_access_context is_membership_of visible_workspace
    workspaces_visible_to_valid_context is_visible_to_valid_context in_actor_scope is_actor_row
    resolve_workspace_role member_workspace_role is_assignment_to is_member_workspace profile_by_id
    workspace_in_profile locked_workspace_role is_effective_assignment is_current_workspace_context
    is_in_manager_scope is_in_member_scope has_active_workspace_state profile_is_active first exists
    rows require_manager require_executor require_reviewer can_manage_workspace_tasks
    can_execute_workspace_tasks can_review_workspace_deliverables lock_task is_task_of
    lock_current_editor_assignment is_active_assignment_of save_task_status save_task
    full_clean_task clean_task clean_deadline climb contains task_by_id is_moved descend
    check_children is_child_of create_audit_log task_event status_text insert update_where
    lock_parent new_task_row priority_text strip_or_blank strip lstrip is_space
create_task-IsForest_example =
    create_task-IsForest all_accepted (call_of 1) profile_ref workspace_ref new_task office refl
      office-IsForest

-- The subtree of 51, with its child 52, is moved under 53.
abbrev new_parent : TaskChanges
new_parent = record {
  title = none;
  description = none;
  priority = none;
  deadline = none;
  parent_id = some (some (uuid 53));
}

abbrev updated : Result (Task × Db)
updated = update_task all_accepted (call_of 1) profile_ref workspace_ref (uuid 51) new_parent office

update_task-IsForest_example : IsForest (db_of updated).tasks
unfolding update_task lock_workspace_mutation_context resolve_profile_access_context
    is_usable_membership user_is_active resolve_workspace_access_context
    refresh_profile_access_context is_membership_of visible_workspace
    workspaces_visible_to_valid_context is_visible_to_valid_context in_actor_scope is_actor_row
    resolve_workspace_role member_workspace_role is_assignment_to is_member_workspace profile_by_id
    workspace_in_profile locked_workspace_role is_effective_assignment is_current_workspace_context
    is_in_manager_scope is_in_member_scope has_active_workspace_state profile_is_active first exists
    rows require_manager require_executor require_reviewer can_manage_workspace_tasks
    can_execute_workspace_tasks can_review_workspace_deliverables lock_task is_task_of
    lock_current_editor_assignment is_active_assignment_of save_task_status save_task
    full_clean_task clean_task clean_deadline climb contains task_by_id is_moved descend
    check_children is_child_of create_audit_log task_event status_text insert update_where
    lock_parent next_parent edited_task is_unchanged write_edited changed_fields parent_change
update_task-IsForest_example =
    update_task-IsForest all_accepted (call_of 1) profile_ref workspace_ref (uuid 51) new_parent
      office (distinct-UniqueBy (λ t. t.id) office.tasks refl) refl office-IsForest
