-- ===== src/Invitations/Answers.antt =====
-- The steps that accepting, declining and delivering make.
use hustly_tasker.Invitations.Steps.{
  refusal, queueing, failure, success, delivers, unchanged, settles, settled, IsAllowed, dispatched,
  Steps-trans, Steps, acceptance,
}
use hustly_tasker.Prelude.{
  ok, >>=-elim, guard-elim, ok-injective, Outcome, Text, length, rows, ◌==◌, nat_eq, string_eq,
  bool_eq, option_eq, list_eq, ==→≡, ℕ, ◌≡◌, sym, ap, ◌∙◌, subst, inl, inr, Bool, true, false,
  Option, Memᴰ, arith,
}
use hustly_tasker.Invitations.Accepting.{accept_usable-IsAccepted}
use hustly_tasker.Invitations.Delivery.{is_scheduled, is_claimable, claim_delivery, finish_delivery}
use hustly_tasker.Invitations.Effects.{write_invitation_audit-SameButLogs}
use hustly_tasker.Invitations.Locking.{lock_usable_token-IsLocked}
use hustly_tasker.Invitations.Records.{write_invitation_audit}
use hustly_tasker.Store.{
  profile_status_eq, profile_role_eq, workspace_status_eq, workspace_role_eq, task_status_eq,
  task_priority_eq, deliverable_status_eq, review_status_eq, event_type_eq, invitation_role_eq,
  invitation_status_eq, delivery_status_eq, token_purpose_eq, token_status_eq, InvitationStatus,
  ProfileInvitation, Db, Platform, Request, FieldRules, period_eq, deadline_eq, Profile,
  ProfileMembership,
}
use hustly_tasker.Invitations.Answering.{
  answered_by, accept_usable, accept_profile_invitation, decline_usable, decline_profile_invitation,
}
use hustly_tasker.Invitations.Tokens.{lookup_token_candidate, lock_usable_token}

accept_usable-Steps :
    (rules : FieldRules) (request : Request) (profile : Profile) (invitation : ProfileInvitation)
    (db : Db) {membership : ProfileMembership} {after : Db}
    → Memᴰ invitation db.profile_invitations
    → invitation.status ≡ InvitationStatus.pending
    → IsAllowed
        (acceptance request.now request.actor (answered_by request.actor invitation))
        invitation
    → accept_usable rules request profile invitation db ≡ ok (membership, after)
    → Steps db.profile_invitations after.profile_invitations
unfolding IsAllowed
accept_usable-Steps rules request profile invitation db stored pending sent h =
    let accepted = accept_usable-IsAccepted rules request profile invitation db h in
    subst (Steps db.profile_invitations) (sym accepted.invitations)
      (settles _ invitation unchanged stored pending sent)

decline_usable-Steps :
    (request : Request) (invitation : ProfileInvitation) (db : Db) {declined : ProfileInvitation}
    {after : Db}
    → Memᴰ invitation db.profile_invitations
    → invitation.status ≡ InvitationStatus.pending
    → IsAllowed
        (refusal request.now request.actor (answered_by request.actor invitation))
        invitation
    → decline_usable request invitation db ≡ ok (declined, after)
    → Steps db.profile_invitations after.profile_invitations
unfolding decline_usable settled IsAllowed
decline_usable-Steps request invitation db stored pending sent h =
    >>=-elim (write_invitation_audit _ _ _ _ _ _ _) _ h λ last write h₁.
      let frame = write_invitation_audit-SameButLogs _ _ _ _ _ _ _ write in
      subst (Steps db.profile_invitations)
        (sym frame.profile_invitations ∙ ap (λ p. p.1.profile_invitations) (ok-injective h₁))
        (settles (refusal request.now request.actor (answered_by request.actor invitation))
          invitation unchanged stored pending sent)

pub accept_profile_invitation-Steps :
    (platform : Platform) (rules : FieldRules) (request : Request) (token : Option Text) (db : Db)
    {outcome : Outcome ProfileMembership} {after : Db}
    → accept_profile_invitation platform rules request token db ≡ ok (outcome, after)
    → Steps db.profile_invitations after.profile_invitations
unfolding accept_profile_invitation IsAllowed
accept_profile_invitation-Steps platform rules request token db h =
    >>=-elim (lookup_token_candidate platform request.before token) _ h λ candidate _ h₁.
      >>=-elim (lock_usable_token platform request candidate db) _ h₁ λ (locked, checked) lock h₂.
        let facts = lock_usable_token-IsLocked platform request candidate db lock in
        elim facts.fate [
          | inl expired ↦
              subst (Steps db.profile_invitations)
                (ap (λ p. p.1.profile_invitations) (ok-injective (rw expired at h₂))) facts.steps
          | inr (usable, same, fresh) ↦
              >>=-elim (accept_usable rules request locked.profile locked.invitation checked) _
                (rw usable at h₂)
                λ (membership, last) accepted h₃.
                  subst (Steps db.profile_invitations)
                    (ap (λ p. p.1.profile_invitations) (ok-injective h₃))
                    (Steps-trans facts.steps (
                      accept_usable-Steps rules request locked.profile locked.invitation checked
                        (subst (λ d. Memᴰ locked.invitation d.profile_invitations) (sym same)
                          facts.stored)
                        facts.pending (facts.sent, fresh, facts.addressed) accepted))
        ]

pub decline_profile_invitation-Steps :
    (platform : Platform) (request : Request) (token : Option Text) (db : Db)
    {outcome : Outcome ProfileInvitation} {after : Db}
    → decline_profile_invitation platform request token db ≡ ok (outcome, after)
    → Steps db.profile_invitations after.profile_invitations
unfolding decline_profile_invitation IsAllowed
decline_profile_invitation-Steps platform request token db h =
    >>=-elim (lookup_token_candidate platform request.before token) _ h λ candidate _ h₁.
      >>=-elim (lock_usable_token platform request candidate db) _ h₁ λ (locked, checked) lock h₂.
        let facts = lock_usable_token-IsLocked platform request candidate db lock in
        elim facts.fate [
          | inl expired ↦
              subst (Steps db.profile_invitations)
                (ap (λ p. p.1.profile_invitations) (ok-injective (rw expired at h₂))) facts.steps
          | inr (usable, same, fresh) ↦
              >>=-elim (decline_usable request locked.invitation checked) _ (rw usable at h₂)
                λ (declined, last) done h₃.
                  subst (Steps db.profile_invitations)
                    (ap (λ p. p.1.profile_invitations) (ok-injective h₃))
                    (Steps-trans facts.steps (
                      decline_usable-Steps request locked.invitation checked
                        (subst (λ d. Memᴰ locked.invitation d.profile_invitations) (sym same)
                          facts.stored)
                        facts.pending (facts.sent, fresh, facts.addressed) done))
        ]

claimable_pending :
    (invitation_id : ℕ) (digest : Text) (attempted_at : ℕ) (row : ProfileInvitation)
    → is_claimable invitation_id digest attempted_at row ≡ true
    → row.status ≡ InvitationStatus.pending
unfolding is_claimable is_scheduled
claimable_pending invitation_id digest attempted_at row h =
    ==→≡ row.status InvitationStatus.pending (ground arith)

scheduled_pending :
    (invitation_id : ℕ) (digest : Text) (row : ProfileInvitation)
    → is_scheduled invitation_id digest row ≡ true
    → row.status ≡ InvitationStatus.pending
unfolding is_scheduled
scheduled_pending invitation_id digest row h =
    ==→≡ row.status InvitationStatus.pending (ground arith)

pub claim_delivery-Steps :
    (invitation_id : ℕ) (digest : Text) (attempted_at : ℕ) (db : Db) {after : Db}
    → claim_delivery invitation_id digest attempted_at db ≡ ok after
    → Steps db.profile_invitations after.profile_invitations
unfolding claim_delivery dispatched
claim_delivery-Steps invitation_id digest attempted_at db h =
    guard-elim
      (length (rows (is_claimable invitation_id digest attempted_at) db.profile_invitations) == 1) _
      _ h
      λ _ h₁.
        subst (Steps db.profile_invitations) (ap (λ d. d.profile_invitations) (ok-injective h₁)) (
          delivers (queueing attempted_at) (is_claimable invitation_id digest attempted_at)
            unchanged (claimable_pending invitation_id digest attempted_at))

pub finish_delivery-Steps :
    (invitation_id : ℕ) (digest : Text) (attempted_at : ℕ) (was_sent : Bool) (finished_at : ℕ)
    (db : Db)
    → Steps db.profile_invitations
        (finish_delivery invitation_id digest attempted_at was_sent finished_at
          db).1.profile_invitations
unfolding finish_delivery dispatched
finish_delivery-Steps invitation_id digest attempted_at false finished_at db =
    delivers (failure attempted_at) (is_scheduled invitation_id digest) unchanged
      (scheduled_pending invitation_id digest)
finish_delivery-Steps invitation_id digest attempted_at true finished_at db =
    delivers (success attempted_at finished_at) (is_scheduled invitation_id digest) unchanged
      (scheduled_pending invitation_id digest)
