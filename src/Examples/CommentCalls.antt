-- ===== src/Examples/CommentCalls.antt =====
-- Comments and notifications at calls that succeed.
use hustly_tasker.Tasks.Discussion.{
  create, delete, caller, perform_comment, discussion, perform_comment-Discusses, discussion-keeps,
  CommentCall,
}
use hustly_tasker.Prelude.{
  err, ok, Result, is_space, lstrip, is_encodable, strip, exists, rows, update_where, first, insert,
  uuid, distinct-UniqueBy, refl, true, some, [], ◌∷◌, Memᴰ, List,
}
use hustly_tasker.Access.{
  profile_is_active, has_active_workspace_state, can_manage_workspace_tasks,
  can_execute_workspace_tasks, can_review_workspace_deliverables, user_is_active, is_actor_row,
  in_actor_scope, is_member_workspace, is_in_manager_scope, is_in_member_scope,
  is_current_workspace_context, is_usable_membership, resolve_profile_access_context,
  is_membership_of, refresh_profile_access_context, is_visible_to_valid_context,
  workspaces_visible_to_valid_context, is_assignment_to, member_workspace_role,
  resolve_workspace_role, visible_workspace, resolve_workspace_access_context,
}
use hustly_tasker.Examples.Inbox.{deleted_comment, inbox, call_on, note}
use hustly_tasker.Examples.Office.{office, call_of, all_accepted, profile_ref, workspace_ref, db_of}
use hustly_tasker.Notify.{
  is_event_action, event_content, matches_task_context, is_editor_seat, is_admin_seat,
  is_review_proof, audience, users_of, recipients, new_notification, is_delivery_of, deliver,
  is_eligible, emit_if, emit_task_notifications, is_reader_seat, is_readable_membership,
  is_own_membership, is_own_seat, is_visible_notification, notifications_visible_to,
  visible_notification, mark_notification_read,
}
use hustly_tasker.Notify.Marked.{mark_notification_read-IsMarked, IsMarked}
use hustly_tasker.Store.{
  profile_invitation_key, account_security_token_key, Db, get, user_key, profile_key,
  profile_membership_key, workspace_key, workspace_member_key, task_key, task_assignment_key,
  task_comment_key, deliverable_key, review_key, audit_log_key, notification_key, TaskComment,
  Notification,
}
use hustly_tasker.Tasks.{
  contains, task_by_id, climb, is_child_of, check_children, descend, clean_deadline, is_moved,
  clean_task, full_clean_task, can_comment_on_task, content, mutation_scope, comment_event,
  has_ordered_times, full_clean_comment, create_comment, is_task_of, lock_task, create_audit_log,
  task_event, save_task, save_task_status, require_manager, require_executor, require_reviewer,
  is_active_assignment_of, lock_current_editor_assignment, status_text,
}
use hustly_tasker.Tasks.Threads.{Discusses}
use hustly_tasker.Workspace.{
  profile_by_id, workspace_in_profile, is_effective_assignment, locked_workspace_role,
  lock_workspace_mutation_context,
}

abbrev remark : CommentCall
remark = create (call_of 2) profile_ref workspace_ref (uuid 51) (some (72 ∷ []))

abbrev remarked : Result (TaskComment × Db)
remarked =
    create_comment all_accepted (call_of 2) profile_ref workspace_ref (uuid 51) (some (72 ∷ []))
      office

abbrev first_comment : Result (TaskComment × Db) → TaskComment
first_comment (ok (comment, after)) = comment
first_comment (err e) = deleted_comment

perform_comment-Discusses_example :
    Discusses (caller remark) office.task_comments (db_of remarked).task_comments
unfolding lock_workspace_mutation_context resolve_profile_access_context is_usable_membership
    user_is_active resolve_workspace_access_context refresh_profile_access_context is_membership_of
    visible_workspace workspaces_visible_to_valid_context is_visible_to_valid_context in_actor_scope
    is_actor_row resolve_workspace_role member_workspace_role is_assignment_to is_member_workspace
    profile_by_id workspace_in_profile locked_workspace_role is_effective_assignment
    is_current_workspace_context is_in_manager_scope is_in_member_scope has_active_workspace_state
    profile_is_active first exists rows require_manager require_executor require_reviewer
    can_manage_workspace_tasks can_execute_workspace_tasks can_review_workspace_deliverables
    lock_task is_task_of lock_current_editor_assignment is_active_assignment_of save_task_status
    save_task full_clean_task clean_task clean_deadline climb contains task_by_id is_moved descend
    check_children is_child_of create_audit_log task_event status_text insert update_where
    emit_task_notifications emit_if is_event_action matches_task_context is_eligible
    is_readable_membership is_reader_seat audience recipients users_of deliver get is_editor_seat
    is_admin_seat is_review_proof is_delivery_of new_notification event_content create_comment
    perform_comment mutation_scope can_comment_on_task content strip lstrip is_space is_encodable
    full_clean_comment has_ordered_times comment_event
perform_comment-Discusses_example =
    perform_comment-Discusses all_accepted remark office (first_comment remarked) (db_of remarked)
      refl

abbrev talk : List CommentCall
talk = delete (call_of 1) profile_ref workspace_ref (uuid 51) (uuid 90) ∷ remark ∷ []

discussion-keeps_example : Memᴰ deleted_comment (discussion all_accepted talk inbox).task_comments
unfolding exists
discussion-keeps_example =
    discussion-keeps all_accepted talk inbox deleted_comment
      (distinct-UniqueBy (λ c. c.id) inbox.task_comments refl) refl (Memᴰ.head refl)

abbrev read : Result (Notification × Db)
read = mark_notification_read (call_on 2 inbox) (uuid 95) inbox

mark_notification_read-IsMarked_example :
    IsMarked 2 inbox (record note { is_read = true }) (db_of read)
unfolding lock_workspace_mutation_context resolve_profile_access_context is_usable_membership
    user_is_active resolve_workspace_access_context refresh_profile_access_context is_membership_of
    visible_workspace workspaces_visible_to_valid_context is_visible_to_valid_context in_actor_scope
    is_actor_row resolve_workspace_role member_workspace_role is_assignment_to is_member_workspace
    profile_by_id workspace_in_profile locked_workspace_role is_effective_assignment
    is_current_workspace_context is_in_manager_scope is_in_member_scope has_active_workspace_state
    profile_is_active first exists rows mark_notification_read visible_notification
    notifications_visible_to is_visible_notification is_own_membership is_own_seat update_where
mark_notification_read-IsMarked_example =
    mark_notification_read-IsMarked (call_on 2 inbox) (uuid 95) inbox
      (record note { is_read = true }) (db_of read) refl
