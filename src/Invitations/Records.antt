-- ===== src/Invitations/Records.antt =====
-- `ProfileInvitation` of backend/apps/workspace/models.py: `clean` and the constraints; and the
-- audit rows of backend/apps/workspace/invitation_services.py.
use hustly_tasker.Prelude.{
  leb, guard, ◌>>◌, Result, validation_error, Text, length, exists, ltb, ◌==◌, nat_eq, string_eq,
  bool_eq, option_eq, list_eq, is_some, ℕ, String, Bool, true, false, ◌&&◌, ◌||◌, not, Option, some,
  List, [], ◌∷◌, if◌then◌else◌,
}
use hustly_tasker.Accounts.{normalize_account_email}
use hustly_tasker.Store.{
  profile_status_eq, profile_role_eq, workspace_status_eq, workspace_role_eq, task_status_eq,
  task_priority_eq, deliverable_status_eq, review_status_eq, event_type_eq, ProfileRole,
  invitation_role_eq, invitation_status_eq, delivery_status_eq, token_purpose_eq, token_status_eq,
  InvitationRole, InvitationStatus, DeliveryStatus, ProfileInvitation, Db, Value, id_text, string,
  Platform, FieldRules, period_eq, deadline_eq, ProfileMembership, WorkspaceMember, entry, nil,
}
use hustly_tasker.Workspace.{workspace_role_text, role_state, add_audit_log}

abbrev pub role_of : InvitationRole → ProfileRole
role_of InvitationRole.admin = ProfileRole.admin
role_of InvitationRole.member = ProfileRole.member

-- Which of `accepted_at`, `accepted_by`, `declined_at`, `declined_by`, `revoked_at`, `revoked_by`
-- and `expired_at` are set.
unfoldable pub marks : ProfileInvitation → List Bool
marks invitation =
    is_some invitation.accepted_at
    ∷ is_some invitation.accepted_by_id
    ∷ is_some invitation.declined_at
    ∷ is_some invitation.declined_by_id
    ∷ is_some invitation.revoked_at
    ∷ is_some invitation.revoked_by_id
    ∷ is_some invitation.expired_at
    ∷ []

unfoldable pub marks_of_status : InvitationStatus → List Bool
marks_of_status InvitationStatus.pending =
    false ∷ false ∷ false ∷ false ∷ false ∷ false ∷ false ∷ []
marks_of_status InvitationStatus.accepted = true ∷ true ∷ false ∷ false ∷ false ∷ false ∷ false ∷ []
marks_of_status InvitationStatus.declined = false ∷ false ∷ true ∷ true ∷ false ∷ false ∷ false ∷ []
marks_of_status InvitationStatus.revoked = false ∷ false ∷ false ∷ false ∷ true ∷ true ∷ false ∷ []
marks_of_status InvitationStatus.expired = false ∷ false ∷ false ∷ false ∷ false ∷ false ∷ true ∷ []

-- The constraint `pinv_terminal_state_valid`.
unfoldable pub has_valid_marks : ProfileInvitation → Bool
unfolding marks marks_of_status
has_valid_marks invitation = list_eq.equals (marks invitation) (marks_of_status invitation.status)

-- The constraint `pinv_use_requires_sent`.
unfoldable pub is_used_if_sent : ProfileInvitation → Bool
is_used_if_sent invitation =
    not (
      invitation.status == InvitationStatus.accepted
      || invitation.status == InvitationStatus.declined)
    || invitation.delivery_status == DeliveryStatus.sent

-- The columns of a delivery that goes with its status.
unfoldable pub is_delivery : DeliveryStatus → Option ℕ → Option ℕ → Bool
is_delivery DeliveryStatus.queued attempted_at delivered_at = not (is_some delivered_at)
is_delivery DeliveryStatus.failed attempted_at delivered_at =
    is_some attempted_at && not (is_some delivered_at)
is_delivery DeliveryStatus.sent attempted_at delivered_at =
    is_some attempted_at && is_some delivered_at

-- The constraint `pinv_delivery_state_valid`.
unfoldable pub has_valid_delivery : ProfileInvitation → Bool
unfolding is_delivery
has_valid_delivery invitation =
    is_delivery invitation.delivery_status invitation.delivery_attempted_at invitation.delivered_at

-- The check constraints of the table, without those on the choices, which the types keep.
unfoldable pub satisfies_constraints : ProfileInvitation → Bool
unfolding has_valid_marks is_used_if_sent has_valid_delivery
satisfies_constraints invitation =
    has_valid_marks invitation
    && is_used_if_sent invitation
    && ltb invitation.created_at invitation.expires_at
    && has_valid_delivery invitation

-- Another pending row for the same Profile and address (`uniq_pending_profile_email`).
unfoldable pub clashes_on_email : ProfileInvitation → ProfileInvitation → Bool
clashes_on_email new row =
    not (row.id == new.id)
    && row.profile_id == new.profile_id
    && list_eq.equals row.recipient_email_normalized new.recipient_email_normalized
    && row.status == InvitationStatus.pending

-- Another pending row for the same Profile and account (`uniq_pending_profile_user`).
unfoldable pub clashes_on_user : ProfileInvitation → ProfileInvitation → Bool
clashes_on_user new row =
    not (row.id == new.id)
    && is_some new.recipient_user_id
    && row.profile_id == new.profile_id
    && row.recipient_user_id == new.recipient_user_id
    && row.status == InvitationStatus.pending

-- Another row with the same `token_digest` or the same `replaces`, which are unique columns.
unfoldable pub clashes_on_column : ProfileInvitation → ProfileInvitation → Bool
clashes_on_column new row =
    not (row.id == new.id)
    && (list_eq.equals row.token_digest new.token_digest
        || is_some new.replaces_id && row.replaces_id == new.replaces_id)

-- `ch in "0123456789abcdef"`
unfoldable pub is_hex_digit : ℕ → Bool
is_hex_digit c = leb 48 c && leb c 57 || leb 97 c && leb c 102

-- `len(digest) == 64` and only such characters.
unfoldable pub is_digest : Text → Bool
unfolding is_hex_digit
is_digest digest = length digest == 64 && not (exists (λ c. not (is_hex_digit c)) digest)

unfoldable pub inviter_is_of_profile : Db → ProfileInvitation → Bool
inviter_is_of_profile db invitation =
    exists
      (λ membership.
        membership.id == invitation.invited_by_membership_id
        && membership.profile_id == invitation.profile_id)
      db.profile_memberships

-- `ProfileInvitation.clean`
unfoldable pub clean_invitation : Platform → Db → ProfileInvitation → Result (Unit {0})
unfolding is_digest inviter_is_of_profile
clean_invitation platform db invitation = do
  guard
      (list_eq.equals invitation.recipient_email_normalized
        (normalize_account_email platform (some invitation.recipient_email_normalized)))
      (validation_error "recipient_email_normalized")
  guard (inviter_is_of_profile db invitation) (validation_error "invited_by_membership")
  guard (not (leb invitation.expires_at invitation.created_at)) (validation_error "expires_at")
  guard (is_digest invitation.token_digest) (validation_error "token_digest")

-- `invitation.full_clean()`
unfoldable pub full_clean_invitation :
    Platform → FieldRules → Db → ProfileInvitation → Result (Unit {0})
unfolding clean_invitation clashes_on_column satisfies_constraints clashes_on_email clashes_on_user
full_clean_invitation platform rules db invitation = do
  guard (rules.profile_invitation invitation) (validation_error "fields")
  clean_invitation platform db invitation
  guard (not (exists (clashes_on_column invitation) db.profile_invitations))
      (validation_error "unique")
  guard (satisfies_constraints invitation) (validation_error "constraints")
  guard
      (not (
        invitation.status == InvitationStatus.pending
        && exists (clashes_on_email invitation) db.profile_invitations))
      (validation_error "uniq_pending_profile_email")
  guard
      (not (
        invitation.status == InvitationStatus.pending
        && exists (clashes_on_user invitation) db.profile_invitations))
      (validation_error "uniq_pending_profile_user")

-- The property `effective_status`.
unfoldable pub effective_status : ℕ → ProfileInvitation → InvitationStatus
effective_status now invitation =
    if invitation.status == InvitationStatus.pending && leb invitation.expires_at now
    then InvitationStatus.expired
    else invitation.status

unfoldable pub invitation_status_text : InvitationStatus → Value
invitation_status_text InvitationStatus.pending = string "PENDING"
invitation_status_text InvitationStatus.accepted = string "ACCEPTED"
invitation_status_text InvitationStatus.declined = string "DECLINED"
invitation_status_text InvitationStatus.revoked = string "REVOKED"
invitation_status_text InvitationStatus.expired = string "EXPIRED"

unfoldable pub invitation_role_text : InvitationRole → Value
invitation_role_text InvitationRole.admin = string "ADMIN"
invitation_role_text InvitationRole.member = string "MEMBER"

unfoldable pub delivery_status_text : DeliveryStatus → Value
delivery_status_text DeliveryStatus.queued = string "QUEUED"
delivery_status_text DeliveryStatus.sent = string "SENT"
delivery_status_text DeliveryStatus.failed = string "FAILED"

-- `_write_invitation_audit`; the ids are those of the new row and of its user.
unfoldable pub write_invitation_audit :
    ℕ → ℕ → ProfileInvitation → String → (before after : Value) → Db → Result Db
unfolding invitation_role_text
write_invitation_audit id actor invitation action before after = add_audit_log record {
  id = id;
  user_id = some actor;
  action = action;
  entity_name = "ProfileInvitation";
  entity_id = invitation.id;
  metadata = entry "profile_id" (id_text invitation.profile_id) (
      entry "requested_role" (invitation_role_text invitation.requested_role)
        (entry "before" before (entry "after" after nil)));
}

-- `_write_profile_membership_audit`
unfoldable pub write_membership_audit :
    ℕ → ℕ → ProfileMembership → String → (before after : Value) → Db → Result Db
write_membership_audit id actor membership action before after = add_audit_log record {
  id = id;
  user_id = some actor;
  action = action;
  entity_name = "ProfileMembership";
  entity_id = membership.id;
  metadata = entry "profile_id" (id_text membership.profile_id) (
      entry "target_user_id" (id_text membership.user_id)
        (entry "before" before (entry "after" after nil)));
}

-- `_write_workspace_rejoin_revoke_audit`, for a Workspace of the Profile `profile_id`.
unfoldable pub write_workspace_rejoin_revoke_audit : ℕ → ℕ → ℕ → WorkspaceMember → Db → Result Db
write_workspace_rejoin_revoke_audit id actor profile_id member = add_audit_log record {
  id = id;
  user_id = some actor;
  action = "workspace.membership.revoked_on_profile_rejoin";
  entity_name = "WorkspaceMember";
  entity_id = member.id;
  metadata = entry "profile_id" (id_text profile_id) (
      entry "workspace_id" (id_text member.workspace_id) (
        entry "target_user_id" (id_text member.user_id) (
          entry "before" (role_state (workspace_role_text member.role) true)
            (entry "after" (role_state (workspace_role_text member.role) false) nil))));
}
