-- ===== src/Invitations/History.antt =====
-- Any number of calls on invitations, by any users and in any order, with the deliveries in between.
use hustly_tasker.Prelude.{
  ok, err, Result, Text, Ref, UniqueBy, ℕ, ◌≡◌, refl, ◌≢◌, Bool, Option, List, [], ◌∷◌, Memᴰ,
}
use hustly_tasker.Invitations.Answering.{accept_profile_invitation, decline_profile_invitation}
use hustly_tasker.Invitations.Answers.{
  accept_profile_invitation-Steps, decline_profile_invitation-Steps, claim_delivery-Steps,
  finish_delivery-Steps,
}
use hustly_tasker.Invitations.CallSteps.{
  create_profile_invitation-Steps, revoke_profile_invitation-Steps, resend_profile_invitation-Steps,
}
use hustly_tasker.Invitations.Delivery.{claim_delivery, finish_delivery}
use hustly_tasker.Invitations.Issuing.{create_profile_invitation}
use hustly_tasker.Invitations.Kept.{Steps-IsLedger, Steps-keeps}
use hustly_tasker.Invitations.Ledger.{IsLedger}
use hustly_tasker.Invitations.Managing.{revoke_profile_invitation, resend_profile_invitation}
use hustly_tasker.Invitations.Steps.{unchanged, Steps-trans, Steps, unchanged}
use hustly_tasker.Store.{
  profile_invitation_key, InvitationRole, InvitationStatus, ProfileInvitation, Db, Platform,
  Request, FieldRules,
}

-- The calls with their arguments, and the two writes of a delivery.
pub data InvitationCall : Type 0 where
  create : Request → Text → Ref → Option Text → InvitationRole → InvitationCall
  revoke : Request → Ref → Ref → InvitationCall
  resend : Request → Text → Ref → Ref → InvitationCall
  accept : Request → Option Text → InvitationCall
  decline : Request → Option Text → InvitationCall
  claim : ℕ → Text → ℕ → InvitationCall
  finish : ℕ → Text → ℕ → Bool → ℕ → InvitationCall

-- The database that is committed: the old one if the transaction raised.
unfoldable pub committed : {A : Type 0} → Result (A × Db) → Db → Db
committed (err e) db = db
committed (ok (value, after)) db = after

unfoldable pub claimed : Result Db → Db → Db
claimed (err e) db = db
claimed (ok after) db = after

unfoldable pub perform : Platform → FieldRules → InvitationCall → Db → Db
unfolding committed claimed
perform platform rules (create request raw_token profile_id email role) db =
    committed (create_profile_invitation platform rules request raw_token profile_id email role db)
      db
perform platform rules (revoke request profile_id invitation_id) db =
    committed (revoke_profile_invitation request profile_id invitation_id db) db
perform platform rules (resend request raw_token profile_id invitation_id) db =
    committed
      (resend_profile_invitation platform rules request raw_token profile_id invitation_id db) db
perform platform rules (accept request token) db =
    committed (accept_profile_invitation platform rules request token db) db
perform platform rules (decline request token) db =
    committed (decline_profile_invitation platform request token db) db
perform platform rules (claim invitation_id digest attempted_at) db =
    claimed (claim_delivery invitation_id digest attempted_at db) db
perform platform rules (finish invitation_id digest attempted_at was_sent finished_at) db =
    (finish_delivery invitation_id digest attempted_at was_sent finished_at db).1

unfoldable pub history : Platform → FieldRules → List InvitationCall → Db → Db
unfolding perform
history platform rules [] db = db
history platform rules (call ∷ calls) db =
    history platform rules calls (perform platform rules call db)

committed-Steps :
    {A : Type 0} (result : Result (A × Db)) (db : Db)
    → ((value : A) (after : Db)
        → result ≡ ok (value, after)
        → Steps db.profile_invitations after.profile_invitations)
    → Steps db.profile_invitations (committed result db).profile_invitations
unfolding committed
committed-Steps (err e) db steps = unchanged
committed-Steps (ok (value, after)) db steps = steps _ _ refl

claimed-Steps :
    (result : Result Db) (db : Db)
    → ((after : Db) → result ≡ ok after → Steps db.profile_invitations after.profile_invitations)
    → Steps db.profile_invitations (claimed result db).profile_invitations
unfolding claimed
claimed-Steps (err e) db steps = unchanged
claimed-Steps (ok after) db steps = steps _ refl

-- Every call changes the invitations by steps alone: it issues a fresh pending invitation, settles
-- a stored pending one, writes the delivery of pending ones, or does several of these in a row. An
-- invitation expires only when that is due, is revoked or answered only before that, and is answered
-- only if it was sent and names the actor's account or none.
pub perform-Steps :
    (platform : Platform) (rules : FieldRules) (call : InvitationCall) (db : Db)
    → Steps db.profile_invitations (perform platform rules call db).profile_invitations
unfolding perform
perform-Steps platform rules (create request raw_token profile_id email role) db =
    committed-Steps _ db (λ _ _.
      create_profile_invitation-Steps platform rules request raw_token profile_id email role db)
perform-Steps platform rules (revoke request profile_id invitation_id) db =
    committed-Steps _ db
      (λ _ _. revoke_profile_invitation-Steps request profile_id invitation_id db)
perform-Steps platform rules (resend request raw_token profile_id invitation_id) db =
    committed-Steps _ db (λ _ _.
      resend_profile_invitation-Steps platform rules request raw_token profile_id invitation_id db)
perform-Steps platform rules (accept request token) db =
    committed-Steps _ db (λ _ _. accept_profile_invitation-Steps platform rules request token db)
perform-Steps platform rules (decline request token) db =
    committed-Steps _ db (λ _ _. decline_profile_invitation-Steps platform request token db)
perform-Steps platform rules (claim invitation_id digest attempted_at) db =
    claimed-Steps _ db (λ _. claim_delivery-Steps invitation_id digest attempted_at db)
perform-Steps platform rules (finish invitation_id digest attempted_at was_sent finished_at) db =
    finish_delivery-Steps invitation_id digest attempted_at was_sent finished_at db

pub history-Steps :
    (platform : Platform) (rules : FieldRules) (calls : List InvitationCall) (db : Db)
    → Steps db.profile_invitations (history platform rules calls db).profile_invitations
unfolding history
history-Steps platform rules [] db = unchanged
history-Steps platform rules (call ∷ calls) db =
    Steps-trans (perform-Steps platform rules call db)
      (history-Steps platform rules calls (perform platform rules call db))

-- If invitation ids and digests are unique, no Profile has two pending invitations for one address
-- and the columns of each invitation go with its status, then that is so after any calls.
pub history-IsLedger :
    (platform : Platform) (rules : FieldRules) (calls : List InvitationCall) (db : Db)
    → IsLedger db.profile_invitations
    → IsLedger (history platform rules calls db).profile_invitations
history-IsLedger platform rules calls db ledger =
    Steps-IsLedger ledger (history-Steps platform rules calls db)

-- If invitation ids are unique, an invitation that is not pending stays exactly as it is, whatever
-- calls follow.
pub history-keeps :
    (platform : Platform) (rules : FieldRules) (calls : List InvitationCall) (db : Db)
    (invitation : ProfileInvitation)
    → UniqueBy profile_invitation_key.key db.profile_invitations
    → invitation.status ≢ InvitationStatus.pending
    → Memᴰ invitation db.profile_invitations
    → Memᴰ invitation (history platform rules calls db).profile_invitations
history-keeps platform rules calls db invitation unique over stored =
    Steps-keeps invitation unique over (history-Steps platform rules calls db) stored
