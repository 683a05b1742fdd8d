-- ===== src/Examples/WorkspaceCalls.antt =====
-- The tenant boundary and the services of workspace/services.py at calls that succeed.
use hustly_tasker.Examples.Office.{
  user_row, office, call_of, all_accepted, profile_ref, workspace_ref, db_of, editor_membership,
  office_workspace, february,
}
use hustly_tasker.Access.{
  profile_is_active, has_active_workspace_state, can_edit_workspace, can_manage_workspace_tasks,
  can_execute_workspace_tasks, can_review_workspace_deliverables, can_mutate_workspace_members,
  can_manage_workspace_lifecycle, build_profile_access_context, build_workspace_access_context,
  user_is_active, is_actor_row, in_actor_scope, is_member_workspace, is_in_manager_scope,
  is_in_member_scope, is_current_workspace_context, ProfileAccessContext, WorkspaceAccessContext,
  is_usable_membership, resolve_profile_access_context, is_membership_of,
  refresh_profile_access_context, is_visible_to_valid_context, workspaces_visible_to_valid_context,
  is_assignment_to, member_workspace_role, resolve_workspace_role, visible_workspace,
  resolve_workspace_access_context,
}
use hustly_tasker.Access.Current.{resolve-is_current, resolve_keeps}
use hustly_tasker.Access.Separation.{manage-excludes_execute}
use hustly_tasker.Prelude.{
  Result, is_space, lstrip, strip, strip_or_blank, refers, exists, rows, update_where, first,
  insert, uuid, distinct-UniqueBy, ◌≡◌, refl, true, false, none, some, [], ◌∷◌, uncons, sym, ◌∙◌,
  inl, inr, Memᴰ, ◌≢◌, ok,
}
use hustly_tasker.Store.{
  ProfileRole, WorkspaceRole, Db, user_key, profile_key, profile_membership_key, workspace_key,
  workspace_member_key, task_key, task_assignment_key, task_comment_key, deliverable_key,
  review_key, audit_log_key, notification_key, ProfileMembership, Workspace,
}
use hustly_tasker.Workspace.{
  profile_role_text, workspace_status_text, role_state, add_audit_log,
  write_profile_membership_audit, write_workspace_audit, clean_profile_membership,
  clashes_membership, full_clean_profile_membership, workspace_by_id, clean_workspace,
  clashes_workspace, full_clean_workspace, check_save_workspace, has_period, new_workspace_row,
  period_value, save_new_workspace, create_workspace, is_membership_in, removes_active_owner,
  is_other_owner, removes_workspace_manager_status, owns_workspace, write_profile_membership,
  update_profile_membership, profile_by_id, workspace_in_profile, is_effective_assignment,
  locked_workspace_role, lock_workspace_mutation_context, LockedScope, is_managing_row,
}
use hustly_tasker.Workspace.Locked.{lock_workspace_mutation_context-IsLocked, IsLocked}
use hustly_tasker.Workspace.Owners.{
  is_active_owner, HasActiveOwner, update_profile_membership-HasActiveOwner,
}
use hustly_tasker.Workspace.Periods.{OnePerPeriod, create_workspace-OnePerPeriod}
use hustly_tasker.Workspace.Suspension.{lock_workspace_mutation_context-refuses}

abbrev editor_profile : ProfileAccessContext
editor_profile = build_profile_access_context editor_membership

abbrev editor_context : WorkspaceAccessContext
editor_context = build_workspace_access_context editor_profile 30 (some WorkspaceRole.member)

abbrev editor_scope : LockedScope
editor_scope = record {
  context = editor_context;
  workspace = office_workspace;
  actor_membership = editor_membership;
}

resolve-is_current_example : is_current_workspace_context office editor_context ≡ true
unfolding lock_workspace_mutation_context resolve_profile_access_context is_usable_membership
    user_is_active resolve_workspace_access_context refresh_profile_access_context is_membership_of
    visible_workspace workspaces_visible_to_valid_context is_visible_to_valid_context in_actor_scope
    is_actor_row resolve_workspace_role member_workspace_role is_assignment_to is_member_workspace
    profile_by_id workspace_in_profile locked_workspace_role is_effective_assignment
    is_current_workspace_context is_in_manager_scope is_in_member_scope has_active_workspace_state
    profile_is_active first exists rows
resolve-is_current_example = resolve-is_current office editor_profile workspace_ref refl

resolve_keeps_example :
    (editor_context.user_id ≡ editor_profile.user_id)
    × (editor_context.profile_id ≡ editor_profile.profile_id)
    × (editor_context.membership_id ≡ editor_profile.membership_id)
    × (editor_context.profile_context.verification ≡ true)
    × (editor_context.verification ≡ true)
    × (refers workspace_ref editor_context.workspace_id ≡ true)
unfolding lock_workspace_mutation_context resolve_profile_access_context is_usable_membership
    user_is_active resolve_workspace_access_context refresh_profile_access_context is_membership_of
    visible_workspace workspaces_visible_to_valid_context is_visible_to_valid_context in_actor_scope
    is_actor_row resolve_workspace_role member_workspace_role is_assignment_to is_member_workspace
    profile_by_id workspace_in_profile locked_workspace_role is_effective_assignment
    is_current_workspace_context is_in_manager_scope is_in_member_scope has_active_workspace_state
    profile_is_active first exists rows
resolve_keeps_example = resolve_keeps office editor_profile workspace_ref refl

lock_workspace_mutation_context-IsLocked_example : IsLocked office 2 editor_scope
unfolding lock_workspace_mutation_context resolve_profile_access_context is_usable_membership
    user_is_active resolve_workspace_access_context refresh_profile_access_context is_membership_of
    visible_workspace workspaces_visible_to_valid_context is_visible_to_valid_context in_actor_scope
    is_actor_row resolve_workspace_role member_workspace_role is_assignment_to is_member_workspace
    profile_by_id workspace_in_profile locked_workspace_role is_effective_assignment
    is_current_workspace_context is_in_manager_scope is_in_member_scope has_active_workspace_state
    profile_is_active first exists rows
lock_workspace_mutation_context-IsLocked_example =
    lock_workspace_mutation_context-IsLocked (call_of 2) profile_ref workspace_ref office refl

-- The office after the Editor's account was suspended.
abbrev suspended : Db
suspended = record office { users = user_row 1 true ∷ user_row 2 false ∷ [] }

lock_workspace_mutation_context-refuses_example :
    lock_workspace_mutation_context (call_of 2) profile_ref workspace_ref suspended
    ≢ ok editor_scope
unfolding user_is_active exists
lock_workspace_mutation_context-refuses_example =
    lock_workspace_mutation_context-refuses (call_of 2) profile_ref workspace_ref suspended
      editor_scope refl

manage-excludes_execute_example :
    (can_manage_workspace_tasks office editor_context ≡ false)
    × (can_review_workspace_deliverables office editor_context ≡ false)
    × (can_edit_workspace office editor_context ≡ false)
    × (can_mutate_workspace_members office editor_context ≡ false)
    × (can_manage_workspace_lifecycle office editor_context ≡ false)
unfolding lock_workspace_mutation_context resolve_profile_access_context is_usable_membership
    user_is_active resolve_workspace_access_context refresh_profile_access_context is_membership_of
    visible_workspace workspaces_visible_to_valid_context is_visible_to_valid_context in_actor_scope
    is_actor_row resolve_workspace_role member_workspace_role is_assignment_to is_member_workspace
    profile_by_id workspace_in_profile locked_workspace_role is_effective_assignment
    is_current_workspace_context is_in_manager_scope is_in_member_scope has_active_workspace_state
    profile_is_active first exists rows can_execute_workspace_tasks
manage-excludes_execute_example = manage-excludes_execute office editor_context refl

-- The Owner makes the Editor an Owner.
abbrev promoted : Result (ProfileMembership × Db)
promoted =
    update_profile_membership all_accepted (call_of 1) profile_ref (uuid 21)
      (some ProfileRole.owner) none office

update_profile_membership-HasActiveOwner_example : HasActiveOwner (db_of promoted) 10
unfolding update_profile_membership lock_workspace_mutation_context resolve_profile_access_context
    is_usable_membership user_is_active resolve_workspace_access_context
    refresh_profile_access_context is_membership_of visible_workspace
    workspaces_visible_to_valid_context is_visible_to_valid_context in_actor_scope is_actor_row
    resolve_workspace_role member_workspace_role is_assignment_to is_member_workspace profile_by_id
    workspace_in_profile locked_workspace_role is_effective_assignment is_current_workspace_context
    is_in_manager_scope is_in_member_scope has_active_workspace_state profile_is_active first exists
    rows is_membership_in removes_active_owner is_other_owner removes_workspace_manager_status
    owns_workspace write_profile_membership full_clean_profile_membership clean_profile_membership
    clashes_membership write_profile_membership_audit add_audit_log insert update_where
    is_active_owner role_state profile_role_text
update_profile_membership-HasActiveOwner_example =
    update_profile_membership-HasActiveOwner all_accepted (call_of 1) profile_ref (uuid 21)
      (some ProfileRole.owner) none office 10
      (distinct-UniqueBy (λ m. m.id) office.profile_memberships refl) refl refl

abbrev opened : Result (Workspace × Db)
opened =
    create_workspace all_accepted (call_of 1) profile_ref (some (87 ∷ [])) (some february) none
      office

only_workspace : (v : Workspace) → Memᴰ v office.workspaces → v ≡ office_workspace
only_workspace v m = elim (uncons m) [ inl e ↦ e | inr m' ↦ elim m' [ ] ]

create_workspace-OnePerPeriod_example : OnePerPeriod (db_of opened).workspaces
unfolding create_workspace lock_workspace_mutation_context resolve_profile_access_context
    is_usable_membership user_is_active resolve_workspace_access_context
    refresh_profile_access_context is_membership_of visible_workspace
    workspaces_visible_to_valid_context is_visible_to_valid_context in_actor_scope is_actor_row
    resolve_workspace_role member_workspace_role is_assignment_to is_member_workspace profile_by_id
    workspace_in_profile locked_workspace_role is_effective_assignment is_current_workspace_context
    is_in_manager_scope is_in_member_scope has_active_workspace_state profile_is_active first exists
    rows has_period new_workspace_row save_new_workspace check_save_workspace full_clean_workspace
    clean_workspace clashes_workspace workspace_by_id write_workspace_audit add_audit_log insert
    strip_or_blank strip lstrip is_space period_value workspace_status_text is_managing_row
create_workspace-OnePerPeriod_example =
    create_workspace-OnePerPeriod all_accepted (call_of 1) profile_ref (some (87 ∷ []))
      (some february) none office refl
      (λ v w _ _ mv mw _ _ _ _. only_workspace v mv ∙ sym (only_workspace w mw))
