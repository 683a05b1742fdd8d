-- ===== src/Examples/Inbox.antt =====
-- The office with an outsider (3), an invitation to them that was sent, a reset token of the Editor that
-- was sent, a deleted comment, and a notification of the Editor.
use hustly_tasker.Prelude.{
  nat_eq, Text, list_eq, ℕ, zero, suc, true, false, not, none, some, [], ◌∷◌, ◌++◌,
}
use hustly_tasker.Examples.Office.{user_row, call_of, office}
use hustly_tasker.Store.{
  EventType, InvitationRole, InvitationStatus, DeliveryStatus, TokenPurpose, TokenStatus,
  ProfileInvitation, AccountSecurityToken, Db, Platform, Request, TaskComment, Notification,
}

abbrev pub zeros : ℕ → Text
zeros zero = []
zeros (suc n) = 48 ∷ zeros n

-- A platform whose digests are all alike.
abbrev pub plain : Platform
plain = record {
  casefold = λ s. s;
  sha256_hexdigest = λ s. zeros 64;
  iexact = λ a b. list_eq.equals a b;
  is_usable_password = λ p. not (list_eq.equals p []);
  is_valid_password = λ user p. not (list_eq.equals p []);
  make_password = λ salt p. salt ++ p;
  is_delivery_available = true;
}

abbrev pub invitation_row : InvitationStatus → DeliveryStatus → ProfileInvitation
invitation_row status delivery_status = record {
  id = 80;
  profile_id = 10;
  recipient_email_normalized = 100 ∷ [];
  recipient_user_id = none;
  requested_role = InvitationRole.member;
  invited_by_membership_id = 20;
  token_digest = zeros 64;
  status = status;
  expires_at = 604800000000;
  delivery_status = delivery_status;
  delivery_attempted_at = some 1;
  delivered_at = some 2;
  accepted_at = none;
  accepted_by_id = none;
  declined_at = none;
  declined_by_id = none;
  revoked_at = none;
  revoked_by_id = none;
  expired_at = none;
  replaces_id = none;
  created_at = 0;
}

abbrev pub reset_token : AccountSecurityToken
reset_token = record {
  id = 85;
  user_id = 2;
  purpose = TokenPurpose.password_reset;
  email_normalized = 99 ∷ [];
  token_digest = zeros 64;
  password_fingerprint = some (zeros 64);
  status = TokenStatus.pending;
  expires_at = 3600000000;
  delivery_status = DeliveryStatus.sent;
  delivery_attempted_at = some 1;
  delivered_at = some 2;
  consumed_at = none;
  revoked_at = none;
  expired_at = none;
  replaces_id = none;
  created_at = 0;
}

abbrev pub deleted_comment : TaskComment
deleted_comment = record {
  id = 90;
  task_id = 51;
  user_id = 2;
  content = 72 ∷ [];
  created_at = 1;
  edited_at = none;
  deleted_at = some 2;
}

abbrev pub note : Notification
note = record {
  id = 95;
  user_id = 2;
  title = "Task assigned";
  message = "A task was assigned to you.";
  is_read = false;
  event_type = some EventType.task_assigned;
  profile_id = some 10;
  workspace_id = some 30;
  task_id = some 51;
  event_id = some 800;
}

abbrev pub inbox_with : ProfileInvitation → Db
inbox_with invitation = record office {
  users = user_row 1 true ∷ user_row 2 true ∷ user_row 3 true ∷ [];
  task_comments = deleted_comment ∷ [];
  notifications = note ∷ [];
  profile_invitations = invitation ∷ [];
  account_security_tokens = reset_token ∷ [];
}

abbrev pub sent_invitation : ProfileInvitation
sent_invitation = invitation_row InvitationStatus.pending DeliveryStatus.sent

abbrev pub declined_invitation : ProfileInvitation
declined_invitation = record (invitation_row InvitationStatus.declined DeliveryStatus.sent) {
  declined_at = some 3;
  declined_by_id = some 3;
}

abbrev pub inbox : Db
inbox = inbox_with sent_invitation

-- The call of a user on this database.
abbrev pub call_on : ℕ → Db → Request
call_on actor db = record (call_of actor) { before = db }

abbrev pub a_token : Text
a_token = 116 ∷ []
