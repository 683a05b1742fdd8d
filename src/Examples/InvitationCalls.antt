-- ===== src/Examples/InvitationCalls.antt =====
-- Invitations at calls that succeed.
use hustly_tasker.Invitations.History.{
  create, revoke, accept, perform, history, perform-Steps, history-IsLedger, history-keeps,
  InvitationCall,
}
use hustly_tasker.Prelude.{
  err, ok, returned, Result, Outcome, is_space, lstrip, is_encodable, strip, strip_or_blank, exists,
  rows, update_where, first, insert, uuid, distinct-UniqueBy, ◌≡◌, refl, sym, ap, ◌∙◌, ◌≢◌, true,
  some, List, [], ◌∷◌, Memᴰ, arith,
}
use hustly_tasker.Access.{
  can_manage_profile_invitations, user_is_active, ProfileAccessContext, is_usable_membership,
  resolve_profile_access_context, is_membership_of, refresh_profile_access_context,
}
use hustly_tasker.Accounts.{normalize_account_email, sole_match, resolve_unique_user_for_email}
use hustly_tasker.Examples.Inbox.{
  zeros, plain, inbox_with, sent_invitation, declined_invitation, inbox, call_on, a_token,
}
use hustly_tasker.Examples.Office.{office, call_of, all_accepted, profile_ref, db_of, alone}
use hustly_tasker.Invitations.{
  is_stale_seat, order_by_id, revoke_seats, revoke_stale_workspace_access, join_profile,
  answered_by, set_accepted, is_row_of, accept_usable, accept_profile_invitation, is_due,
  save_invitation, materialize_expiration, issue_invitation_locked, is_pending_for_email,
  is_pending_for_user, clear_pending, is_joined, pending_for_recipient, create_profile_invitation,
  resolve_unique_user_for_invitation_email, resolve_recipient_account, can_issue_role, can_issue,
  is_manager_row, lock_manager_context, is_recent, is_issued_by, inviter_count, recipient_count,
  enforce_issuance_limits, role_of, marks, marks_of_status, has_valid_marks, is_used_if_sent,
  is_delivery, has_valid_delivery, satisfies_constraints, clashes_on_email, clashes_on_user,
  clashes_on_column, is_hex_digit, is_digest, inviter_is_of_profile, clean_invitation,
  full_clean_invitation, invitation_status_text, invitation_role_text, delivery_status_text,
  write_invitation_audit, write_membership_audit, lookup_token_candidate, is_account_of,
  validate_recipient_locked, is_inviter_of, validate_original_inviter_locked, is_invitation_of,
  lock_usable_token,
}
use hustly_tasker.Invitations.Joining.{accept_profile_invitation-IsJoined, IsJoined}
use hustly_tasker.Invitations.Ledger.{IsLedger}
use hustly_tasker.Invitations.Limits.{IsWithinLimits, create_profile_invitation-limits}
use hustly_tasker.Invitations.SingleUse.{history-accepts_not}
use hustly_tasker.Invitations.Steps.{is_sound, Steps}
use hustly_tasker.Invitations.Visible.{
  is_context_row, profile_invitations_visible_to_managers,
  profile_invitations_visible_to_managers-IsBelow,
}
use hustly_tasker.Store.{
  ProfileRole, profile_invitation_key, account_security_token_key, InvitationRole, InvitationStatus,
  ProfileInvitation, Db, user_key, profile_key, profile_membership_key, workspace_key,
  workspace_member_key, task_key, task_assignment_key, task_comment_key, deliverable_key,
  review_key, audit_log_key, notification_key, ProfileMembership,
}
use hustly_tasker.Workspace.{
  profile_role_text, role_state, status_state, add_audit_log, clean_profile_membership,
  clashes_membership, full_clean_profile_membership, profile_by_id,
}

abbrev joining_call : InvitationCall
joining_call = accept (call_on 3 inbox) (some a_token)

perform-Steps_example :
    Steps inbox.profile_invitations
      (perform plain all_accepted joining_call inbox).profile_invitations
perform-Steps_example = perform-Steps plain all_accepted joining_call inbox

single-IsLedger : (row : ProfileInvitation) → is_sound row ≡ true → IsLedger (row ∷ [])
single-IsLedger row sound = record {
  ids = λ x y mx my _. alone mx ∙ sym (alone my);
  digests = λ x y mx my _. alone mx ∙ sym (alone my);
  one_pending = λ x y mx my _ _ _ _. alone mx ∙ sym (alone my);
  sound = λ x mx. ap is_sound (alone mx) ∙ sound;
}

abbrev later_calls : List InvitationCall
later_calls =
    joining_call
    ∷ revoke (call_on 1 inbox) profile_ref (uuid 80)
    ∷ create (call_on 1 inbox) a_token profile_ref (some (101 ∷ [])) InvitationRole.admin
    ∷ []

history-IsLedger_example :
    IsLedger (history plain all_accepted later_calls inbox).profile_invitations
unfolding is_sound has_valid_marks marks marks_of_status is_used_if_sent
history-IsLedger_example =
    history-IsLedger plain all_accepted later_calls inbox (single-IsLedger sent_invitation refl)

abbrev declined_inbox : Db
declined_inbox = inbox_with declined_invitation

declined_not_pending : InvitationStatus.declined ≢ InvitationStatus.pending
declined_not_pending e = ground arith

history-keeps_example :
    Memᴰ declined_invitation
      (history plain all_accepted later_calls declined_inbox).profile_invitations
unfolding exists
history-keeps_example =
    history-keeps plain all_accepted later_calls declined_inbox declined_invitation
      (distinct-UniqueBy (λ row. row.id) declined_inbox.profile_invitations refl)
      declined_not_pending (Memᴰ.head refl)

abbrev new_member : ProfileMembership
new_member = record {
  id = 901;
  profile_id = 10;
  user_id = 3;
  role = ProfileRole.member;
  is_active = true;
}

history-accepts_not_example :
    accept_profile_invitation plain all_accepted
      (call_on 3 inbox)
      (some a_token)
      (history plain all_accepted later_calls declined_inbox)
    ≢ ok (returned new_member, inbox)
unfolding is_sound has_valid_marks marks marks_of_status is_used_if_sent
history-accepts_not_example =
    history-accepts_not plain all_accepted later_calls declined_inbox declined_invitation
      (call_on 3 inbox) a_token (returned new_member) inbox
      (single-IsLedger declined_invitation refl) (Memᴰ.head refl) declined_not_pending refl

abbrev joined : Result (Outcome ProfileMembership × Db)
joined = accept_profile_invitation plain all_accepted (call_on 3 inbox) (some a_token) inbox

accept_profile_invitation-IsJoined_example :
    (invitation : ProfileInvitation) × Memᴰ invitation inbox.profile_invitations
    × (invitation.status ≡ InvitationStatus.pending)
    × (invitation.token_digest ≡ zeros 64)
    × IsJoined
        (call_on 3 inbox)
        (role_of invitation.requested_role)
        invitation.profile_id
        new_member
        (db_of joined).profile_memberships
unfolding first exists rows insert update_where user_is_active is_usable_membership is_membership_of
    is_manager_row profile_by_id resolve_profile_access_context add_audit_log write_invitation_audit
    save_invitation is_due materialize_expiration normalize_account_email sole_match
    resolve_unique_user_for_email resolve_unique_user_for_invitation_email resolve_recipient_account
    strip_or_blank strip lstrip is_space status_state role_state invitation_status_text
    invitation_role_text profile_role_text accept_profile_invitation lookup_token_candidate
    is_encodable is_invitation_of lock_usable_token validate_recipient_locked is_account_of
    accept_usable validate_original_inviter_locked is_inviter_of can_issue_role is_row_of
    join_profile full_clean_profile_membership clean_profile_membership clashes_membership
    revoke_stale_workspace_access is_stale_seat order_by_id revoke_seats write_membership_audit
    answered_by set_accepted
accept_profile_invitation-IsJoined_example =
    accept_profile_invitation-IsJoined plain all_accepted (call_on 3 inbox) a_token inbox new_member
      (db_of joined) (distinct-UniqueBy (λ m. m.id) inbox.profile_memberships refl) refl

abbrev invited : Result (ProfileInvitation × Db)
invited =
    create_profile_invitation plain all_accepted (call_of 1) a_token profile_ref
      (some (32 ∷ 101 ∷ [])) InvitationRole.admin office

abbrev invitation_of : Result (ProfileInvitation × Db) → ProfileInvitation
invitation_of (ok (invitation, after)) = invitation
invitation_of (err e) = sent_invitation

create_profile_invitation-limits_example :
    IsWithinLimits
      (call_of 1)
      (normalize_account_email plain (some (32 ∷ 101 ∷ [])))
      (invitation_of invited)
      (db_of invited)
unfolding first exists rows insert update_where user_is_active is_usable_membership is_membership_of
    is_manager_row profile_by_id resolve_profile_access_context add_audit_log write_invitation_audit
    save_invitation is_due materialize_expiration normalize_account_email sole_match
    resolve_unique_user_for_email resolve_unique_user_for_invitation_email resolve_recipient_account
    strip_or_blank strip lstrip is_space status_state role_state invitation_status_text
    invitation_role_text profile_role_text create_profile_invitation lock_manager_context can_issue
    can_issue_role enforce_issuance_limits inviter_count recipient_count is_recent is_issued_by
    clear_pending is_pending_for_email is_pending_for_user pending_for_recipient is_joined
    issue_invitation_locked full_clean_invitation clean_invitation is_digest is_hex_digit
    inviter_is_of_profile clashes_on_column clashes_on_email clashes_on_user satisfies_constraints
    has_valid_marks marks marks_of_status is_used_if_sent has_valid_delivery is_delivery
    delivery_status_text
create_profile_invitation-limits_example =
    create_profile_invitation-limits plain all_accepted (call_of 1) a_token profile_ref
      (some (32 ∷ 101 ∷ [])) InvitationRole.admin office (invitation_of invited) (db_of invited)
      refl

abbrev owner_profile : ProfileAccessContext
owner_profile = record {
  user_id = 1;
  profile_id = 10;
  membership_id = 20;
  profile_role = ProfileRole.owner;
  verification = true;
}

profile_invitations_visible_to_managers-IsBelow_example :
    (current : ProfileAccessContext) × (refresh_profile_access_context inbox owner_profile
      ≡ ok current)
    × Memᴰ sent_invitation inbox.profile_invitations
    × (sent_invitation.profile_id ≡ current.profile_id)
    × (can_issue_role current.profile_role sent_invitation.requested_role ≡ true)
unfolding first exists rows user_is_active is_membership_of refresh_profile_access_context
    profile_invitations_visible_to_managers can_manage_profile_invitations is_context_row
profile_invitations_visible_to_managers-IsBelow_example =
    profile_invitations_visible_to_managers-IsBelow inbox owner_profile (sent_invitation ∷ [])
      sent_invitation refl (Memᴰ.head refl)
