-- ===== src/Examples/MemberCalls.antt =====
-- A Workspace Admin who is an ordinary member of the Profile (3) changes seats.
use hustly_tasker.Examples.Office.{
  user_row, office, all_accepted, profile_ref, workspace_ref, owner_membership, editor_membership,
}
use hustly_tasker.Access.{
  profile_is_active, has_active_workspace_state, can_manage_workspace_members,
  can_mutate_workspace_members, user_is_active, is_actor_row, in_actor_scope, is_member_workspace,
  is_in_manager_scope, is_in_member_scope, is_current_workspace_context, is_usable_membership,
  resolve_profile_access_context, is_membership_of, refresh_profile_access_context,
  is_visible_to_valid_context, workspaces_visible_to_valid_context, is_assignment_to,
  member_workspace_role, resolve_workspace_role, visible_workspace,
  resolve_workspace_access_context,
}
use hustly_tasker.Prelude.{
  ok, err, Result, exists, rows, update_where, first, uncons, insert, uuid, distinct-UniqueBy, ℕ,
  ◌+◌, refl, ap, inl, inr, true, List, [], ◌∷◌, arith,
}
use hustly_tasker.Store.{
  ProfileRole, WorkspaceRole, Db, Request, user_key, profile_key, profile_membership_key,
  workspace_key, workspace_member_key, task_key, task_assignment_key, task_comment_key,
  deliverable_key, review_key, audit_log_key, notification_key, ProfileMembership, WorkspaceMember,
  profile_invitation_key, account_security_token_key,
}
use hustly_tasker.Workspace.{
  workspace_role_text, role_state, add_audit_log, write_workspace_membership_audit, workspace_by_id,
  profile_of_workspace, is_member_profile_row, clean_workspace_member, clashes_member,
  full_clean_workspace_member, check_save_workspace_member, is_within_ceiling, is_target_membership,
  is_seat_of, is_target_user, reactivate_member, create_member, add_workspace_member,
  is_active_seat, is_active_seat_of, update_workspace_member, revoke_workspace_member, AddedMember,
  profile_by_id, workspace_in_profile, is_effective_assignment, locked_workspace_role,
  lock_workspace_mutation_context,
}
use hustly_tasker.Workspace.Ceiling.{
  SameManagers, update_workspace_member-SameManagers, revoke_workspace_member-SameManagers,
}
use hustly_tasker.Workspace.Ordinary.{IsOrdinary}
use hustly_tasker.Workspace.Joining.{add_workspace_member-SameManagers}

abbrev member_row : ℕ → ℕ → ProfileMembership
member_row id user_id = record {
  id = id;
  profile_id = 10;
  user_id = user_id;
  role = ProfileRole.member;
  is_active = true;
}

abbrev seat_row : ℕ → ℕ → WorkspaceRole → WorkspaceMember
seat_row id user_id role = record {
  id = id;
  workspace_id = 30;
  user_id = user_id;
  role = role;
  is_active = true;
}

-- The actor owns another Profile.
abbrev other_owner_row : ProfileMembership
other_owner_row = record {
  id = 24;
  profile_id = 11;
  user_id = 3;
  role = ProfileRole.owner;
  is_active = true;
}

abbrev agency : Db
agency = record office {
  users = user_row 1 true ∷ user_row 2 true ∷ user_row 3 true ∷ user_row 4 true ∷ [];
  profile_memberships =
      owner_membership
      ∷ editor_membership
      ∷ member_row 22 3
      ∷ member_row 23 4
      ∷ other_owner_row
      ∷ [];
  workspace_members = seat_row 40 2 WorkspaceRole.member ∷ seat_row 41 3 WorkspaceRole.admin ∷ [];
}

abbrev admin_call : Request
admin_call = record { actor = 3; now = 9; new_id = λ k. k + 900; before = agency }

admin-IsOrdinary : IsOrdinary agency 3 profile_ref
admin-IsOrdinary m stored same tenant = elim (uncons stored) [
  | inl e ↦ absurd (ground (arith, ap (λ r. r.user_id) e))
  | inr m₁ ↦ elim (uncons m₁) [
    | inl e ↦ absurd (ground (arith, ap (λ r. r.user_id) e))
    | inr m₂ ↦ elim (uncons m₂) [
      | inl e ↦ ap (λ r. r.role) e
      | inr m₃ ↦ elim (uncons m₃) [
        | inl e ↦ ap (λ r. r.role) e
        | inr m₄ ↦ elim (uncons m₄) [
          | inl e ↦ absurd (ground (arith, ap (λ r. r.profile_id) e))
          | inr m₅ ↦ elim m₅ [ ]
        ]
      ]
    ]
  ]
]

abbrev members_after : {A : Type 0} → Result (A × Db) → List WorkspaceMember
members_after (ok (a, after)) = after.workspace_members
members_after (err e) = []

abbrev demoted : Result (WorkspaceMember × Db)
demoted =
    update_workspace_member all_accepted admin_call profile_ref workspace_ref (uuid 40)
      WorkspaceRole.viewer agency

update_workspace_member-SameManagers_example :
    SameManagers agency.workspace_members (members_after demoted)
unfolding update_workspace_member lock_workspace_mutation_context resolve_profile_access_context
    is_usable_membership user_is_active resolve_workspace_access_context
    refresh_profile_access_context is_membership_of visible_workspace
    workspaces_visible_to_valid_context is_visible_to_valid_context in_actor_scope is_actor_row
    resolve_workspace_role member_workspace_role is_assignment_to is_member_workspace profile_by_id
    workspace_in_profile locked_workspace_role is_effective_assignment is_current_workspace_context
    is_in_manager_scope is_in_member_scope has_active_workspace_state profile_is_active first exists
    rows can_mutate_workspace_members can_manage_workspace_members is_active_seat is_active_seat_of
    is_target_user is_within_ceiling check_save_workspace_member full_clean_workspace_member
    clean_workspace_member clashes_member profile_of_workspace is_member_profile_row workspace_by_id
    write_workspace_membership_audit add_audit_log insert update_where workspace_role_text
    role_state
update_workspace_member-SameManagers_example =
    update_workspace_member-SameManagers all_accepted admin_call profile_ref workspace_ref (uuid 40)
      WorkspaceRole.viewer agency (distinct-UniqueBy (λ s. s.id) agency.workspace_members refl)
      admin-IsOrdinary refl

abbrev revoked : Result (WorkspaceMember × Db)
revoked = revoke_workspace_member all_accepted admin_call profile_ref workspace_ref (uuid 40) agency

revoke_workspace_member-SameManagers_example :
    SameManagers agency.workspace_members (members_after revoked)
unfolding revoke_workspace_member lock_workspace_mutation_context resolve_profile_access_context
    is_usable_membership user_is_active resolve_workspace_access_context
    refresh_profile_access_context is_membership_of visible_workspace
    workspaces_visible_to_valid_context is_visible_to_valid_context in_actor_scope is_actor_row
    resolve_workspace_role member_workspace_role is_assignment_to is_member_workspace profile_by_id
    workspace_in_profile locked_workspace_role is_effective_assignment is_current_workspace_context
    is_in_manager_scope is_in_member_scope has_active_workspace_state profile_is_active first exists
    rows can_mutate_workspace_members can_manage_workspace_members is_active_seat is_active_seat_of
    is_target_user is_within_ceiling check_save_workspace_member full_clean_workspace_member
    clean_workspace_member clashes_member profile_of_workspace is_member_profile_row workspace_by_id
    write_workspace_membership_audit add_audit_log insert update_where workspace_role_text
    role_state
revoke_workspace_member-SameManagers_example =
    revoke_workspace_member-SameManagers all_accepted admin_call profile_ref workspace_ref (uuid 40)
      agency (distinct-UniqueBy (λ s. s.id) agency.workspace_members refl) admin-IsOrdinary refl

abbrev joined : Result (AddedMember × Db)
joined =
    add_workspace_member all_accepted admin_call profile_ref workspace_ref (uuid 23)
      WorkspaceRole.member agency

add_workspace_member-SameManagers_example :
    SameManagers agency.workspace_members (members_after joined)
unfolding add_workspace_member lock_workspace_mutation_context resolve_profile_access_context
    is_usable_membership user_is_active resolve_workspace_access_context
    refresh_profile_access_context is_membership_of visible_workspace
    workspaces_visible_to_valid_context is_visible_to_valid_context in_actor_scope is_actor_row
    resolve_workspace_role member_workspace_role is_assignment_to is_member_workspace profile_by_id
    workspace_in_profile locked_workspace_role is_effective_assignment is_current_workspace_context
    is_in_manager_scope is_in_member_scope has_active_workspace_state profile_is_active first exists
    rows can_mutate_workspace_members can_manage_workspace_members is_target_membership is_seat_of
    create_member reactivate_member is_within_ceiling check_save_workspace_member
    full_clean_workspace_member clean_workspace_member clashes_member profile_of_workspace
    is_member_profile_row workspace_by_id write_workspace_membership_audit add_audit_log insert
    update_where workspace_role_text role_state
add_workspace_member-SameManagers_example =
    add_workspace_member-SameManagers all_accepted admin_call profile_ref workspace_ref (uuid 23)
      WorkspaceRole.member agency (distinct-UniqueBy (λ s. s.id) agency.workspace_members refl)
      admin-IsOrdinary refl
