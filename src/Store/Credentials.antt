-- ===== src/Store/Credentials.antt =====
-- The choices and rows of the single-use credentials: `ProfileInvitation` of
-- backend/apps/workspace/models.py and `AccountSecurityToken` of backend/apps/accounts/models.py.
use hustly_tasker.Prelude.{ℕ, ◌≡◌, ◌↔◌, Bool, true, Eq, nat_eq, arith, Option, Text, Keyed}

pub data InvitationRole : Type 0 where
  admin member : InvitationRole

abbrev pub invitation_role_code : InvitationRole → ℕ
invitation_role_code InvitationRole.admin = 0
invitation_role_code InvitationRole.member = 1

abbrev pub invitation_role_beq : InvitationRole → InvitationRole → Bool
invitation_role_beq a b = nat_eq.equals (invitation_role_code a) (invitation_role_code b)

pub invitation_role_beq_iff : (a b : InvitationRole) → (invitation_role_beq a b ≡ true) ↔ (a ≡ b)
invitation_role_beq_iff a b = ground arith

instance abbrev pub invitation_role_eq : Eq InvitationRole
invitation_role_eq = record { equals_iff = invitation_role_beq_iff; equals = invitation_role_beq }

pub data InvitationStatus : Type 0 where
  pending accepted declined revoked expired : InvitationStatus

abbrev pub invitation_status_code : InvitationStatus → ℕ
invitation_status_code InvitationStatus.pending = 0
invitation_status_code InvitationStatus.accepted = 1
invitation_status_code InvitationStatus.declined = 2
invitation_status_code InvitationStatus.revoked = 3
invitation_status_code InvitationStatus.expired = 4

abbrev pub invitation_status_beq : InvitationStatus → InvitationStatus → Bool
invitation_status_beq a b = nat_eq.equals (invitation_status_code a) (invitation_status_code b)

pub invitation_status_beq_iff :
    (a b : InvitationStatus) → (invitation_status_beq a b ≡ true) ↔ (a ≡ b)
invitation_status_beq_iff a b = ground arith

instance abbrev pub invitation_status_eq : Eq InvitationStatus
invitation_status_eq = record {
  equals_iff = invitation_status_beq_iff;
  equals = invitation_status_beq;
}

-- `DeliveryStatus` of both models.
pub data DeliveryStatus : Type 0 where
  queued sent failed : DeliveryStatus

abbrev pub delivery_status_code : DeliveryStatus → ℕ
delivery_status_code DeliveryStatus.queued = 0
delivery_status_code DeliveryStatus.sent = 1
delivery_status_code DeliveryStatus.failed = 2

abbrev pub delivery_status_beq : DeliveryStatus → DeliveryStatus → Bool
delivery_status_beq a b = nat_eq.equals (delivery_status_code a) (delivery_status_code b)

pub delivery_status_beq_iff : (a b : DeliveryStatus) → (delivery_status_beq a b ≡ true) ↔ (a ≡ b)
delivery_status_beq_iff a b = ground arith

instance abbrev pub delivery_status_eq : Eq DeliveryStatus
delivery_status_eq = record { equals_iff = delivery_status_beq_iff; equals = delivery_status_beq }

pub data TokenPurpose : Type 0 where
  email_verification password_reset : TokenPurpose

abbrev pub token_purpose_code : TokenPurpose → ℕ
token_purpose_code TokenPurpose.email_verification = 0
token_purpose_code TokenPurpose.password_reset = 1

abbrev pub token_purpose_beq : TokenPurpose → TokenPurpose → Bool
token_purpose_beq a b = nat_eq.equals (token_purpose_code a) (token_purpose_code b)

pub token_purpose_beq_iff : (a b : TokenPurpose) → (token_purpose_beq a b ≡ true) ↔ (a ≡ b)
token_purpose_beq_iff a b = ground arith

instance abbrev pub token_purpose_eq : Eq TokenPurpose
token_purpose_eq = record { equals_iff = token_purpose_beq_iff; equals = token_purpose_beq }

pub data TokenStatus : Type 0 where
  pending consumed revoked expired : TokenStatus

abbrev pub token_status_code : TokenStatus → ℕ
token_status_code TokenStatus.pending = 0
token_status_code TokenStatus.consumed = 1
token_status_code TokenStatus.revoked = 2
token_status_code TokenStatus.expired = 3

abbrev pub token_status_beq : TokenStatus → TokenStatus → Bool
token_status_beq a b = nat_eq.equals (token_status_code a) (token_status_code b)

pub token_status_beq_iff : (a b : TokenStatus) → (token_status_beq a b ≡ true) ↔ (a ≡ b)
token_status_beq_iff a b = ground arith

instance abbrev pub token_status_eq : Eq TokenStatus
token_status_eq = record { equals_iff = token_status_beq_iff; equals = token_status_beq }

pub record ProfileInvitation : Type 0 where
  pub id : ℕ
  pub profile_id : ℕ
  pub recipient_email_normalized : Text
  pub recipient_user_id : Option ℕ
  pub requested_role : InvitationRole
  pub invited_by_membership_id : ℕ
  pub token_digest : Text
  pub status : InvitationStatus
  pub expires_at : ℕ
  pub delivery_status : DeliveryStatus
  pub delivery_attempted_at : Option ℕ
  pub delivered_at : Option ℕ
  pub accepted_at : Option ℕ
  pub accepted_by_id : Option ℕ
  pub declined_at : Option ℕ
  pub declined_by_id : Option ℕ
  pub revoked_at : Option ℕ
  pub revoked_by_id : Option ℕ
  pub expired_at : Option ℕ
  pub replaces_id : Option ℕ
  pub created_at : ℕ

pub record AccountSecurityToken : Type 0 where
  pub id : ℕ
  pub user_id : ℕ
  pub purpose : TokenPurpose
  pub email_normalized : Text
  pub token_digest : Text
  pub password_fingerprint : Option Text
  pub status : TokenStatus
  pub expires_at : ℕ
  pub delivery_status : DeliveryStatus
  pub delivery_attempted_at : Option ℕ
  pub delivered_at : Option ℕ
  pub consumed_at : Option ℕ
  pub revoked_at : Option ℕ
  pub expired_at : Option ℕ
  pub replaces_id : Option ℕ
  pub created_at : ℕ

instance abbrev pub profile_invitation_key : Keyed ProfileInvitation
profile_invitation_key = record { key = λ row. row.id }

instance abbrev pub account_security_token_key : Keyed AccountSecurityToken
account_security_token_key = record { key = λ row. row.id }
