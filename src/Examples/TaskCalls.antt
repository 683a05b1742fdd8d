-- ===== src/Examples/TaskCalls.antt =====
-- The services of tasks/services.py at calls that succeed.
use hustly_tasker.Examples.Office.{office, call_of, all_accepted, profile_ref, workspace_ref, db_of}
use hustly_tasker.Access.{
  profile_is_active, has_active_workspace_state, can_manage_workspace_tasks,
  can_execute_workspace_tasks, can_review_workspace_deliverables, user_is_active, is_actor_row,
  in_actor_scope, is_member_workspace, is_in_manager_scope, is_in_member_scope,
  is_current_workspace_context, is_usable_membership, resolve_profile_access_context,
  is_membership_of, refresh_profile_access_context, is_visible_to_valid_context,
  workspaces_visible_to_valid_context, is_assignment_to, member_workspace_role,
  resolve_workspace_role, visible_workspace, resolve_workspace_access_context,
}
use hustly_tasker.Prelude.{
  Result, exists, rows, update_where, first, insert, uuid, refl, is_space, lstrip, strip,
  strip_or_blank, distinct-UniqueBy, ℕ, ◌+◌, ◌≤◌, ◌≡◌, none, some, [], ◌∷◌,
}
use hustly_tasker.Store.{
  Db, user_key, profile_key, profile_membership_key, workspace_key, workspace_member_key, task_key,
  task_assignment_key, task_comment_key, deliverable_key, review_key, audit_log_key,
  notification_key, Task, ReviewStatus, get, TaskAssignment, Deliverable, Review, DeliverableStatus,
}
use hustly_tasker.Tasks.{
  start_task, contains, task_by_id, climb, is_child_of, check_children, descend, clean_deadline,
  is_moved, clean_task, full_clean_task, is_task_of, lock_task, create_audit_log, task_event,
  save_task, save_task_status, require_manager, require_executor, require_reviewer,
  is_active_assignment_of, lock_current_editor_assignment, status_text, is_assignable_membership,
  is_editor_of, is_active_for, is_for, clashes_assignment, full_clean_assignment, end_assignment,
  begin_assignment, write_assignment, assign_task, deliverable_status_text, review_status_text,
  is_unresolved, latest_revision, clashes_deliverable, full_clean_deliverable, write_submission,
  submit_deliverable, latest_deliverable, is_decision_on, full_clean_review, write_review,
  review_deliverable, is_deliverable_of, lock_deliverable,
}
use hustly_tasker.Tasks.Transitions.{
  starting, assigning, submitting, reviewing, start_task-Moves, Moves, assign_task-Moves,
  submit_deliverable-Moves, review_deliverable-Moves,
}
use hustly_tasker.Workspace.{
  profile_by_id, workspace_in_profile, is_effective_assignment, locked_workspace_role,
  lock_workspace_mutation_context,
}
use hustly_tasker.Notify.{
  is_event_action, event_content, matches_task_context, is_editor_seat, is_admin_seat,
  is_review_proof, audience, users_of, recipients, new_notification, is_delivery_of, deliver,
  is_eligible, emit_if, emit_task_notifications, is_reader_seat, is_readable_membership,
}
use hustly_tasker.Tasks.Hierarchy.Chains.{climb-Rooted, Rooted}
use hustly_tasker.Tasks.Holders.{OneHolder, assign_task-OneHolder}
use hustly_tasker.Tasks.Reviewing.{review_deliverable-IsReviewed, IsReviewed}
use hustly_tasker.Tasks.Revisions.{submit_deliverable-IsNextRevision, IsNextRevision}

abbrev started : Result (Task × Db)
started = start_task all_accepted (call_of 2) profile_ref workspace_ref (uuid 51) office

start_task-Moves_example : Moves starting (uuid 51) office (db_of started)
unfolding start_task lock_workspace_mutation_context resolve_profile_access_context
    is_usable_membership user_is_active resolve_workspace_access_context
    refresh_profile_access_context is_membership_of visible_workspace
    workspaces_visible_to_valid_context is_visible_to_valid_context in_actor_scope is_actor_row
    resolve_workspace_role member_workspace_role is_assignment_to is_member_workspace profile_by_id
    workspace_in_profile locked_workspace_role is_effective_assignment is_current_workspace_context
    is_in_manager_scope is_in_member_scope has_active_workspace_state profile_is_active first exists
    rows require_manager require_executor require_reviewer can_manage_workspace_tasks
    can_execute_workspace_tasks can_review_workspace_deliverables lock_task is_task_of
    lock_current_editor_assignment is_active_assignment_of save_task_status save_task
    full_clean_task clean_task clean_deadline climb contains task_by_id is_moved descend
    check_children is_child_of create_audit_log task_event status_text insert update_where
start_task-Moves_example =
    start_task-Moves all_accepted (call_of 2) profile_ref workspace_ref (uuid 51) office refl

abbrev assigned : Result (TaskAssignment × Db)
assigned = assign_task all_accepted (call_of 1) profile_ref workspace_ref (uuid 50) (uuid 21) office

assign_task-Moves_example : Moves assigning (uuid 50) office (db_of assigned)
unfolding assign_task lock_workspace_mutation_context resolve_profile_access_context
    is_usable_membership user_is_active resolve_workspace_access_context
    refresh_profile_access_context is_membership_of visible_workspace
    workspaces_visible_to_valid_context is_visible_to_valid_context in_actor_scope is_actor_row
    resolve_workspace_role member_workspace_role is_assignment_to is_member_workspace profile_by_id
    workspace_in_profile locked_workspace_role is_effective_assignment is_current_workspace_context
    is_in_manager_scope is_in_member_scope has_active_workspace_state profile_is_active first exists
    rows require_manager require_executor require_reviewer can_manage_workspace_tasks
    can_execute_workspace_tasks can_review_workspace_deliverables lock_task is_task_of
    lock_current_editor_assignment is_active_assignment_of save_task_status save_task
    full_clean_task clean_task clean_deadline climb contains task_by_id is_moved descend
    check_children is_child_of create_audit_log task_event status_text insert update_where
    emit_task_notifications emit_if is_event_action matches_task_context is_eligible
    is_readable_membership is_reader_seat audience recipients users_of deliver get is_editor_seat
    is_admin_seat is_review_proof is_delivery_of new_notification event_content
    is_assignable_membership is_editor_of is_active_for write_assignment begin_assignment
    end_assignment is_for full_clean_assignment clashes_assignment
assign_task-Moves_example =
    assign_task-Moves all_accepted (call_of 1) profile_ref workspace_ref (uuid 50) (uuid 21) office
      refl

assign_task-OneHolder_example : OneHolder (db_of assigned).task_assignments
unfolding assign_task lock_workspace_mutation_context resolve_profile_access_context
    is_usable_membership user_is_active resolve_workspace_access_context
    refresh_profile_access_context is_membership_of visible_workspace
    workspaces_visible_to_valid_context is_visible_to_valid_context in_actor_scope is_actor_row
    resolve_workspace_role member_workspace_role is_assignment_to is_member_workspace profile_by_id
    workspace_in_profile locked_workspace_role is_effective_assignment is_current_workspace_context
    is_in_manager_scope is_in_member_scope has_active_workspace_state profile_is_active first exists
    rows require_manager require_executor require_reviewer can_manage_workspace_tasks
    can_execute_workspace_tasks can_review_workspace_deliverables lock_task is_task_of
    lock_current_editor_assignment is_active_assignment_of save_task_status save_task
    full_clean_task clean_task clean_deadline climb contains task_by_id is_moved descend
    check_children is_child_of create_audit_log task_event status_text insert update_where
    emit_task_notifications emit_if is_event_action matches_task_context is_eligible
    is_readable_membership is_reader_seat audience recipients users_of deliver get is_editor_seat
    is_admin_seat is_review_proof is_delivery_of new_notification event_content
    is_assignable_membership is_editor_of is_active_for write_assignment begin_assignment
    end_assignment is_for full_clean_assignment clashes_assignment
assign_task-OneHolder_example =
    assign_task-OneHolder all_accepted (call_of 1) profile_ref workspace_ref (uuid 50) (uuid 21)
      office (distinct-UniqueBy (λ a. a.id) office.task_assignments refl) refl
      (λ a b ma mb same _ _.
        distinct-UniqueBy (λ a. a.task_id) office.task_assignments refl a b ma mb same)

abbrev submitted : Result (Deliverable × Db)
submitted =
    submit_deliverable all_accepted (call_of 2) profile_ref workspace_ref (uuid 52) (some (85 ∷ []))
      office

submit_deliverable-Moves_example : Moves submitting (uuid 52) office (db_of submitted)
unfolding submit_deliverable lock_workspace_mutation_context resolve_profile_access_context
    is_usable_membership user_is_active resolve_workspace_access_context
    refresh_profile_access_context is_membership_of visible_workspace
    workspaces_visible_to_valid_context is_visible_to_valid_context in_actor_scope is_actor_row
    resolve_workspace_role member_workspace_role is_assignment_to is_member_workspace profile_by_id
    workspace_in_profile locked_workspace_role is_effective_assignment is_current_workspace_context
    is_in_manager_scope is_in_member_scope has_active_workspace_state profile_is_active first exists
    rows require_manager require_executor require_reviewer can_manage_workspace_tasks
    can_execute_workspace_tasks can_review_workspace_deliverables lock_task is_task_of
    lock_current_editor_assignment is_active_assignment_of save_task_status save_task
    full_clean_task clean_task clean_deadline climb contains task_by_id is_moved descend
    check_children is_child_of create_audit_log task_event status_text insert update_where
    emit_task_notifications emit_if is_event_action matches_task_context is_eligible
    is_readable_membership is_reader_seat audience recipients users_of deliver get is_editor_seat
    is_admin_seat is_review_proof is_delivery_of new_notification event_content is_unresolved
    write_submission latest_revision full_clean_deliverable clashes_deliverable
    deliverable_status_text strip_or_blank strip lstrip is_space
submit_deliverable-Moves_example =
    submit_deliverable-Moves all_accepted (call_of 2) profile_ref workspace_ref (uuid 52)
      (some (85 ∷ [])) office refl

abbrev reviewed : Result (Review × Db)
reviewed =
    review_deliverable all_accepted (call_of 1) profile_ref workspace_ref (uuid 53) (uuid 70)
      ReviewStatus.approved none office

review_deliverable-Moves_example :
    Moves (reviewing ReviewStatus.approved) (uuid 53) office (db_of reviewed)
unfolding review_deliverable lock_workspace_mutation_context resolve_profile_access_context
    is_usable_membership user_is_active resolve_workspace_access_context
    refresh_profile_access_context is_membership_of visible_workspace
    workspaces_visible_to_valid_context is_visible_to_valid_context in_actor_scope is_actor_row
    resolve_workspace_role member_workspace_role is_assignment_to is_member_workspace profile_by_id
    workspace_in_profile locked_workspace_role is_effective_assignment is_current_workspace_context
    is_in_manager_scope is_in_member_scope has_active_workspace_state profile_is_active first exists
    rows require_manager require_executor require_reviewer can_manage_workspace_tasks
    can_execute_workspace_tasks can_review_workspace_deliverables lock_task is_task_of
    lock_current_editor_assignment is_active_assignment_of save_task_status save_task
    full_clean_task clean_task clean_deadline climb contains task_by_id is_moved descend
    check_children is_child_of create_audit_log task_event status_text insert update_where
    emit_task_notifications emit_if is_event_action matches_task_context is_eligible
    is_readable_membership is_reader_seat audience recipients users_of deliver get is_editor_seat
    is_admin_seat is_review_proof is_delivery_of new_notification event_content lock_deliverable
    is_deliverable_of latest_deliverable is_decision_on write_review full_clean_review
    full_clean_deliverable clashes_deliverable deliverable_status_text review_status_text
review_deliverable-Moves_example =
    review_deliverable-Moves all_accepted (call_of 1) profile_ref workspace_ref (uuid 53) (uuid 70)
      ReviewStatus.approved none office refl

climb-Rooted_example :
    (n : ℕ) × Rooted office.tasks 30 (54 ∷ []) (some 52) n × (3 ≡ 0 + n) × (n ≤ 3)
unfolding climb contains exists task_by_id first
climb-Rooted_example = climb-Rooted office 30 3 0 (54 ∷ []) (some 52) refl

abbrev decision : Review
decision = record {
  id = 900;
  deliverable_id = 70;
  reviewer_id = 1;
  status = ReviewStatus.approved;
  comment = none;
}

review_deliverable-IsReviewed_example : IsReviewed office (db_of reviewed) 1 decision
unfolding review_deliverable lock_workspace_mutation_context resolve_profile_access_context
    is_usable_membership user_is_active resolve_workspace_access_context
    refresh_profile_access_context is_membership_of visible_workspace
    workspaces_visible_to_valid_context is_visible_to_valid_context in_actor_scope is_actor_row
    resolve_workspace_role member_workspace_role is_assignment_to is_member_workspace profile_by_id
    workspace_in_profile locked_workspace_role is_effective_assignment is_current_workspace_context
    is_in_manager_scope is_in_member_scope has_active_workspace_state profile_is_active first exists
    rows require_manager require_executor require_reviewer can_manage_workspace_tasks
    can_execute_workspace_tasks can_review_workspace_deliverables lock_task is_task_of
    lock_current_editor_assignment is_active_assignment_of save_task_status save_task
    full_clean_task clean_task clean_deadline climb contains task_by_id is_moved descend
    check_children is_child_of create_audit_log task_event status_text insert update_where
    emit_task_notifications emit_if is_event_action matches_task_context is_eligible
    is_readable_membership is_reader_seat audience recipients users_of deliver get is_editor_seat
    is_admin_seat is_review_proof is_delivery_of new_notification event_content lock_deliverable
    is_deliverable_of latest_deliverable is_decision_on write_review full_clean_review
    full_clean_deliverable clashes_deliverable deliverable_status_text review_status_text
review_deliverable-IsReviewed_example =
    review_deliverable-IsReviewed all_accepted (call_of 1) profile_ref workspace_ref (uuid 53)
      (uuid 70) ReviewStatus.approved none office refl

abbrev first_revision : Deliverable
first_revision = record {
  id = 900;
  task_id = 52;
  file_url = 85 ∷ [];
  uploaded_by_id = 2;
  revision = some 1;
  status = DeliverableStatus.submitted;
  created_at = 9;
}

submit_deliverable-IsNextRevision_example : IsNextRevision office (db_of submitted) 2 first_revision
unfolding submit_deliverable lock_workspace_mutation_context resolve_profile_access_context
    is_usable_membership user_is_active resolve_workspace_access_context
    refresh_profile_access_context is_membership_of visible_workspace
    workspaces_visible_to_valid_context is_visible_to_valid_context in_actor_scope is_actor_row
    resolve_workspace_role member_workspace_role is_assignment_to is_member_workspace profile_by_id
    workspace_in_profile locked_workspace_role is_effective_assignment is_current_workspace_context
    is_in_manager_scope is_in_member_scope has_active_workspace_state profile_is_active first exists
    rows require_manager require_executor require_reviewer can_manage_workspace_tasks
    can_execute_workspace_tasks can_review_workspace_deliverables lock_task is_task_of
    lock_current_editor_assignment is_active_assignment_of save_task_status save_task
    full_clean_task clean_task clean_deadline climb contains task_by_id is_moved descend
    check_children is_child_of create_audit_log task_event status_text insert update_where
    emit_task_notifications emit_if is_event_action matches_task_context is_eligible
    is_readable_membership is_reader_seat audience recipients users_of deliver get is_editor_seat
    is_admin_seat is_review_proof is_delivery_of new_notification event_content is_unresolved
    write_submission latest_revision full_clean_deliverable clashes_deliverable
    deliverable_status_text strip_or_blank strip lstrip is_space
submit_deliverable-IsNextRevision_example =
    submit_deliverable-IsNextRevision all_accepted (call_of 2) profile_ref workspace_ref (uuid 52)
      (some (85 ∷ [])) office refl
