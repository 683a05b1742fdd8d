-- ===== src/Invitations/Answering.antt =====
-- backend/apps/workspace/invitation_services.py: accepting and declining an invitation.
use hustly_tasker.Prelude.{
  ok, leb, guard, ◌>>=◌, ◌>>◌, Result, Outcome, invitation_conflict, returned, raised, Text, exists,
  rows, save, insert, if◌then◌else◌, ◌==◌, nat_eq, string_eq, bool_eq, option_eq, list_eq, value_or,
  ℕ, ◌+◌, String, Bool, true, false, ◌&&◌, not, Option, some, List, [], ◌∷◌, err,
}
use hustly_tasker.Invitations.Issuing.{save_invitation}
use hustly_tasker.Invitations.Records.{
  role_of, invitation_status_text, write_invitation_audit, write_membership_audit,
  write_workspace_rejoin_revoke_audit,
}
use hustly_tasker.Invitations.Tokens.{
  lookup_token_candidate, validate_original_inviter_locked, lock_usable_token,
}
use hustly_tasker.Store.{
  profile_status_eq, profile_role_eq, workspace_status_eq, workspace_role_eq, task_status_eq,
  task_priority_eq, deliverable_status_eq, review_status_eq, event_type_eq, ProfileRole,
  invitation_role_eq, invitation_status_eq, delivery_status_eq, token_purpose_eq, token_status_eq,
  profile_invitation_key, account_security_token_key, InvitationStatus, ProfileInvitation, Db,
  Platform, Value, null, Request, FieldRules, user_key, profile_key, profile_membership_key,
  workspace_key, workspace_member_key, task_key, task_assignment_key, task_comment_key,
  deliverable_key, review_key, audit_log_key, notification_key, period_eq, deadline_eq, Profile,
  ProfileMembership, WorkspaceMember,
}
use hustly_tasker.Workspace.{
  profile_role_text, role_state, status_state, full_clean_profile_membership,
}

unfoldable pub is_stale_seat : Db → ℕ → ℕ → WorkspaceMember → Bool
is_stale_seat db profile_id user_id member =
    exists
      (λ workspace. workspace.id == member.workspace_id && workspace.profile_id == some profile_id)
      db.workspaces
    && member.user_id == user_id
    && member.is_active

-- `.order_by("id")`
insert_by_id : WorkspaceMember → List WorkspaceMember → List WorkspaceMember
insert_by_id x [] = x ∷ []
insert_by_id x (y ∷ ys) =
    let rest = insert_by_id x ys in if leb x.id y.id then x ∷ y ∷ ys else y ∷ rest

unfoldable pub order_by_id : List WorkspaceMember → List WorkspaceMember
unfolding insert_by_id
order_by_id [] = []
order_by_id (x ∷ xs) = insert_by_id x (order_by_id xs)

-- The loop of `_revoke_stale_workspace_access`; the ids of the audit rows count from `new_id 0`.
unfoldable pub revoke_seats : ℕ → ℕ → (ℕ → ℕ) → List WorkspaceMember → Db → Result Db
revoke_seats actor profile_id new_id [] db = ok db
revoke_seats actor profile_id new_id (member ∷ members) db = do
  after ← write_workspace_rejoin_revoke_audit (new_id 0) actor profile_id member (record db {
    workspace_members =
        save member.id (λ row. record row { is_active = false }) db.workspace_members;
  })
  revoke_seats actor profile_id (λ k. new_id (k + 1)) members after

-- `_revoke_stale_workspace_access`
unfoldable pub revoke_stale_workspace_access : ℕ → ℕ → (ℕ → ℕ) → Db → Result Db
unfolding is_stale_seat order_by_id revoke_seats
revoke_stale_workspace_access actor profile_id new_id db =
    revoke_seats actor profile_id new_id
      (order_by_id (rows (is_stale_seat db profile_id actor) db.workspace_members)) db

-- The membership that `accept_profile_invitation` gives, and what its audit row says of it.
pub record Joining : Type 0 where
  pub membership : ProfileMembership
  pub before : Value
  pub action : String

-- The branches of `accept_profile_invitation` on the inactive memberships of the actor.
unfoldable pub join_profile :
    FieldRules
    → Request
    → ProfileInvitation
    → ℕ
    → List ProfileMembership
    → Db
    → Result (Joining × Db)
join_profile rules request invitation profile_id [] db = do
  let membership : ProfileMembership = record {
    id = request.new_id 1;
    profile_id = profile_id;
    user_id = request.actor;
    role = role_of invitation.requested_role;
    is_active = true;
  }
  full_clean_profile_membership rules db membership
  memberships ← insert membership db.profile_memberships
  ok (
    record {
      membership = membership;
      before = null;
      action = "profile.membership.created_by_invitation";
    },
    record db { profile_memberships = memberships },
  )
join_profile rules request invitation profile_id (membership ∷ []) db = do
  guard
      (not (membership.role == ProfileRole.owner)
        && membership.role == role_of invitation.requested_role)
      invitation_conflict
  let changed = record membership { is_active = true }
  full_clean_profile_membership rules db changed
  ok (
    record {
      membership = changed;
      before = role_state (profile_role_text membership.role) membership.is_active;
      action = "profile.membership.reactivated_by_invitation";
    },
    record db {
      profile_memberships =
          save membership.id (λ row. record row { is_active = true }) db.profile_memberships;
    },
  )
join_profile rules request invitation profile_id (membership ∷ other ∷ more) db =
    err invitation_conflict

-- The recipient that an answer stores: the account of the invitation, or the actor.
unfoldable pub answered_by : ℕ → ProfileInvitation → Option ℕ
answered_by actor invitation = some (value_or invitation.recipient_user_id actor)

unfoldable pub set_accepted : ℕ → ℕ → Option ℕ → ProfileInvitation → ProfileInvitation
set_accepted now actor recipient row = record row {
  status = InvitationStatus.accepted;
  accepted_at = some now;
  accepted_by_id = some actor;
  recipient_user_id = recipient;
}

unfoldable pub set_declined : ℕ → ℕ → Option ℕ → ProfileInvitation → ProfileInvitation
set_declined now actor recipient row = record row {
  status = InvitationStatus.declined;
  declined_at = some now;
  declined_by_id = some actor;
  recipient_user_id = recipient;
}

-- The rows of the actor in this Profile.
unfoldable pub is_row_of : ℕ → ℕ → ProfileMembership → Bool
is_row_of profile_id user_id membership =
    membership.profile_id == profile_id && membership.user_id == user_id

-- The rest of `accept_profile_invitation` for a usable token.
unfoldable pub accept_usable :
    FieldRules → Request → Profile → ProfileInvitation → Db → Result (ProfileMembership × Db)
unfolding is_row_of revoke_stale_workspace_access join_profile answered_by set_accepted
    save_invitation
accept_usable rules request profile invitation db = do
  validate_original_inviter_locked invitation db
  let memberships = rows (is_row_of profile.id request.actor) db.profile_memberships
  guard (not (exists (λ row. row.is_active) memberships)) invitation_conflict
  (joining, joined) ← join_profile rules request invitation profile.id memberships db
  revoked ←
      revoke_stale_workspace_access request.actor profile.id (λ k. request.new_id (k + 4)) joined
  audited ←
      write_membership_audit (request.new_id 2) request.actor joining.membership joining.action
        joining.before
        (role_state (profile_role_text joining.membership.role) joining.membership.is_active)
        revoked
  let accepted = set_accepted request.now request.actor (answered_by request.actor invitation)
  after ←
      write_invitation_audit (request.new_id 3) request.actor (accepted invitation)
        "profile.invitation.accepted" (status_state (invitation_status_text invitation.status))
        (status_state (invitation_status_text InvitationStatus.accepted))
        (save_invitation invitation accepted audited)
  ok (joining.membership, after)

unfoldable pub accept_profile_invitation :
    Platform → FieldRules → Request → Option Text → Db → Result (Outcome ProfileMembership × Db)
accept_profile_invitation platform rules request token db = do
  candidate ← lookup_token_candidate platform request.before token
  (locked, checked) ← lock_usable_token platform request candidate db
  elim locked.has_expired [
    | true ↦ ok (raised invitation_conflict, checked)
    | false ↦ do
      (membership, after) ← accept_usable rules request locked.profile locked.invitation checked
      ok (returned membership, after)
  ]

-- The rest of `decline_profile_invitation` for a usable token.
unfoldable pub decline_usable : Request → ProfileInvitation → Db → Result (ProfileInvitation × Db)
unfolding answered_by set_declined save_invitation
decline_usable request invitation db = do
  let declined = set_declined request.now request.actor (answered_by request.actor invitation)
  after ←
      write_invitation_audit (request.new_id 1) request.actor (declined invitation)
        "profile.invitation.declined" (status_state (invitation_status_text invitation.status))
        (status_state (invitation_status_text InvitationStatus.declined))
        (save_invitation invitation declined db)
  ok (declined invitation, after)

unfoldable pub decline_profile_invitation :
    Platform → Request → Option Text → Db → Result (Outcome ProfileInvitation × Db)
decline_profile_invitation platform request token db = do
  candidate ← lookup_token_candidate platform request.before token
  (locked, checked) ← lock_usable_token platform request candidate db
  elim locked.has_expired [
    | true ↦ ok (raised invitation_conflict, checked)
    | false ↦ do
      (invitation, after) ← decline_usable request locked.invitation checked
      ok (returned invitation, after)
  ]
