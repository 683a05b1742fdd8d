-- ===== src/Invitations/Steps.antt =====
-- The life of the invitations: a row is issued as pending, may be delivered while it is pending, and
-- is settled at most once.
use hustly_tasker.Prelude.{
  leb, exists, update_where, save, insert, ltb, UniqueBy, insert-UniqueBy, save-UniqueBy,
  update_where-UniqueBy, ℕ, ◌≡◌, refl, Bool, true, false, ◌&&◌, Option, List, Memᴰ, ok, ◌==◌,
  nat_eq, string_eq, bool_eq, option_eq, list_eq, is_some, ◌||◌, not, some,
}
use hustly_tasker.Invitations.Answering.{set_accepted, set_declined}
use hustly_tasker.Invitations.Delivery.{set_queued, set_failed, set_sent}
use hustly_tasker.Invitations.Issuing.{set_expired, set_revoked}
use hustly_tasker.Invitations.Records.{
  has_valid_marks, is_used_if_sent, clashes_on_email, clashes_on_column,
}
use hustly_tasker.Store.{
  profile_invitation_key, account_security_token_key, InvitationStatus, DeliveryStatus,
  ProfileInvitation, user_key, profile_key, profile_membership_key, workspace_key,
  workspace_member_key, task_key, task_assignment_key, task_comment_key, deliverable_key,
  review_key, audit_log_key, notification_key, profile_status_eq, profile_role_eq,
  workspace_status_eq, workspace_role_eq, task_status_eq, task_priority_eq, deliverable_status_eq,
  review_status_eq, event_type_eq, invitation_role_eq, invitation_status_eq, delivery_status_eq,
  token_purpose_eq, token_status_eq, period_eq, deadline_eq,
}

-- How an invitation leaves the status PENDING, with the columns that are written.
pub data Settlement : Type 0 where
  expiry : (now : ℕ) → Settlement
  revocation : (now actor : ℕ) → Settlement
  acceptance : (now actor : ℕ) (recipient : Option ℕ) → Settlement
  refusal : (now actor : ℕ) (recipient : Option ℕ) → Settlement

unfoldable pub settled : Settlement → ProfileInvitation → ProfileInvitation
unfolding set_expired set_revoked set_accepted set_declined
settled (expiry now) = set_expired now
settled (revocation now actor) = set_revoked now actor
settled (acceptance now actor recipient) = set_accepted now actor recipient
settled (refusal now actor recipient) = set_declined now actor recipient

-- The invitation names the user's account, or none.
unfoldable pub is_addressed_to : ℕ → ProfileInvitation → Bool
is_addressed_to user_id row =
    not (is_some row.recipient_user_id) || row.recipient_user_id == some user_id

-- When it may: an expiry is due; a revocation and an answer come before that, and an answer is to an
-- invitation that was sent, by a user whom it may be for.
unfoldable pub IsAllowed : Settlement → ProfileInvitation → Type 0
IsAllowed (expiry now) row = leb row.expires_at now ≡ true
IsAllowed (revocation now actor) row = leb row.expires_at now ≡ false
IsAllowed (acceptance now actor recipient) row =
    (row.delivery_status ≡ DeliveryStatus.sent)
    × (leb row.expires_at now ≡ false)
    × (is_addressed_to actor row ≡ true)
IsAllowed (refusal now actor recipient) row =
    (row.delivery_status ≡ DeliveryStatus.sent)
    × (leb row.expires_at now ≡ false)
    × (is_addressed_to actor row ≡ true)

-- What a delivery writes.
pub data Dispatch : Type 0 where
  queueing : (attempted_at : ℕ) → Dispatch
  failure : (attempted_at : ℕ) → Dispatch
  success : (attempted_at delivered_at : ℕ) → Dispatch

unfoldable pub dispatched : Dispatch → ProfileInvitation → ProfileInvitation
unfolding set_queued set_failed set_sent
dispatched (queueing attempted_at) = set_queued attempted_at
dispatched (failure attempted_at) = set_failed attempted_at
dispatched (success attempted_at delivered_at) = set_sent attempted_at delivered_at

-- What the steps keep of one row, besides the columns that never change.
unfoldable pub is_sound : ProfileInvitation → Bool
is_sound row = has_valid_marks row && is_used_if_sent row && ltb row.created_at row.expires_at

-- A row that `full_clean` has passed for this table.
pub record IsIssued (row : ProfileInvitation) (table : List ProfileInvitation) : Type 0 where
  pub pending : row.status ≡ InvitationStatus.pending
  pub sound : is_sound row ≡ true
  pub new_columns : exists (clashes_on_column row) table ≡ false
  pub sole : exists (clashes_on_email row) table ≡ false

pub data Steps (before : List ProfileInvitation) : List ProfileInvitation → Type 0 where
  unchanged : Steps before before
  settles :
      {now : List ProfileInvitation} (how : Settlement) (row : ProfileInvitation)
      → Steps before now
      → Memᴰ row now
      → row.status ≡ InvitationStatus.pending
      → IsAllowed how row
      → Steps before (save row.id (settled how) now)
  issues :
      {now later : List ProfileInvitation} (row : ProfileInvitation)
      → Steps before now
      → IsIssued row now
      → insert row now ≡ ok later
      → Steps before later
  delivers :
      {now : List ProfileInvitation} (how : Dispatch) (test : ProfileInvitation → Bool)
      → Steps before now
      → ((row : ProfileInvitation) → test row ≡ true → row.status ≡ InvitationStatus.pending)
      → Steps before (update_where test (dispatched how) now)

pub Steps-trans : {a b c : List ProfileInvitation} → Steps a b → Steps b c → Steps a c
Steps-trans first_part unchanged = first_part
Steps-trans first_part (settles how row earlier stored pending allowed) =
    settles how row (Steps-trans first_part earlier) stored pending allowed
Steps-trans first_part (issues row earlier issued put) =
    issues row (Steps-trans first_part earlier) issued put
Steps-trans first_part (delivers how test earlier only) =
    delivers how test (Steps-trans first_part earlier) only

pub settled-id : (how : Settlement) (row : ProfileInvitation) → (settled how row).id ≡ row.id
unfolding settled
settled-id (expiry _) row = refl
settled-id (revocation _ _) row = refl
settled-id (acceptance _ _ _) row = refl
settled-id (refusal _ _ _) row = refl

pub dispatched-id : (how : Dispatch) (row : ProfileInvitation) → (dispatched how row).id ≡ row.id
unfolding dispatched
dispatched-id (queueing _) row = refl
dispatched-id (failure _) row = refl
dispatched-id (success _ _) row = refl

-- Steps keep invitation ids unique.
pub Steps-ids :
    {before after : List ProfileInvitation}
    → UniqueBy profile_invitation_key.key before
    → Steps before after
    → UniqueBy profile_invitation_key.key after
Steps-ids unique unchanged = unique
Steps-ids unique (settles how row earlier _ _ _) =
    save-UniqueBy row.id (settled how) _ (settled-id how) (Steps-ids unique earlier)
Steps-ids unique (issues row earlier _ put) = insert-UniqueBy row _ put (Steps-ids unique earlier)
Steps-ids unique (delivers how test earlier _) =
    update_where-UniqueBy test (dispatched how) _ (dispatched-id how) (Steps-ids unique earlier)
