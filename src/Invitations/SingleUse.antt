-- ===== src/Invitations/SingleUse.antt =====
-- The token of a settled invitation accepts nothing more.
use hustly_tasker.Prelude.{
  nat_eq, ok, >>=-elim, or_raise-elim, guard-elim, ok-injective, Outcome, Text, is_encodable, first,
  list_eq, ◌≡◌, sym, ap, ◌∙◌, ◌≢◌, not, some, List, [], Memᴰ,
}
use hustly_tasker.Invitations.History.{history, history-IsLedger, history-keeps, InvitationCall}
use hustly_tasker.Invitations.Ledger.{IsLedger}
use hustly_tasker.Invitations.Locking.{lock_usable_token-IsLocked}
use hustly_tasker.Store.{
  profile_invitation_key, account_security_token_key, InvitationStatus, ProfileInvitation, Db,
  Platform, Request, FieldRules, user_key, profile_key, profile_membership_key, workspace_key,
  workspace_member_key, task_key, task_assignment_key, task_comment_key, deliverable_key,
  review_key, audit_log_key, notification_key, ProfileMembership,
}
use hustly_tasker.Invitations.Answering.{accept_profile_invitation}
use hustly_tasker.Invitations.Tokens.{
  lookup_token_candidate, lock_usable_token, Candidate, LockedToken,
}

pub lookup_token_candidate-digest :
    (platform : Platform) (db : Db) (raw_token : Text) {candidate : Candidate}
    → lookup_token_candidate platform db (some raw_token) ≡ ok candidate
    → candidate.digest ≡ platform.sha256_hexdigest raw_token
unfolding lookup_token_candidate
lookup_token_candidate-digest platform db raw_token h =
    let digest = platform.sha256_hexdigest raw_token in
    guard-elim (not (list_eq.equals raw_token [])) _ _ h λ _ h₁.
      guard-elim (is_encodable raw_token) _ _ h₁ λ _ h₂.
        or_raise-elim
          (first (λ (row : ProfileInvitation). list_eq.equals row.token_digest digest)
            db.profile_invitations)
          _ _ h₂ λ row _ h₃. sym (ap (λ c. c.digest) (ok-injective h₃))

-- A token whose invitation is settled is locked no more.
settled-locks_not :
    (platform : Platform) (request : Request) (raw_token : Text) (db : Db)
    (invitation : ProfileInvitation) {candidate : Candidate} {locked : LockedToken} {after : Db}
    → IsLedger db.profile_invitations
    → Memᴰ invitation db.profile_invitations
    → invitation.status ≢ InvitationStatus.pending
    → invitation.token_digest ≡ platform.sha256_hexdigest raw_token
    → lookup_token_candidate platform request.before (some raw_token) ≡ ok candidate
    → lock_usable_token platform request candidate db ≢ ok (locked, after)
settled-locks_not platform request raw_token db invitation {candidate} ledger stored over own looked
      locks =
    let facts = lock_usable_token-IsLocked platform request candidate db locks in
    let same = ledger.digests _ invitation facts.stored stored (
      facts.digest
      ∙ lookup_token_candidate-digest platform request.before raw_token looked
      ∙ sym own) in
    over (ap (λ r. r.status) (sym same) ∙ facts.pending)

-- If the invitations are a ledger and the one with this token's digest is no more pending, then after
-- any further calls nobody accepts with the token.
pub history-accepts_not :
    (platform : Platform) (rules : FieldRules) (calls : List InvitationCall) (db : Db)
    (invitation : ProfileInvitation) (request : Request) (raw_token : Text)
    (outcome : Outcome ProfileMembership) (after : Db)
    → IsLedger db.profile_invitations
    → Memᴰ invitation db.profile_invitations
    → invitation.status ≢ InvitationStatus.pending
    → invitation.token_digest ≡ platform.sha256_hexdigest raw_token
    → accept_profile_invitation platform rules request
        (some raw_token)
        (history platform rules calls db)
      ≢ ok (outcome, after)
unfolding accept_profile_invitation
history-accepts_not platform rules calls db invitation request raw_token outcome after ledger stored
      over own accepted =
    let later = history platform rules calls db in
    >>=-elim (lookup_token_candidate platform request.before (some raw_token)) _ accepted
      λ candidate looked h₁.
        >>=-elim (lock_usable_token platform request candidate later) _ h₁ λ _ locks _.
          settled-locks_not platform request raw_token later invitation
            (history-IsLedger platform rules calls db ledger)
            (history-keeps platform rules calls db invitation ledger.ids over stored) over own
            looked locks
