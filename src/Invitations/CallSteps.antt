-- ===== src/Invitations/CallSteps.antt =====
-- The steps that the calls of a manager make of the invitations.
use hustly_tasker.Prelude.{
  option_eq, nat_eq, exists, ◌||◌, ok, >>=-elim, or_raise-elim, guard-elim, ok-injective, Outcome,
  Text, first, first_sound, Ref, ◌==◌, nat_eq, string_eq, bool_eq, option_eq, list_eq, ==→≡,
  Bool-cases, ℕ, String, ◌≡◌, sym, ap, ◌∙◌, subst, inl, inr, Bool, false, ◌&&◌, not, Option, none,
  some, [], Memᴰ, arith, leb,
}
use hustly_tasker.Accounts.{normalize_account_email}
use hustly_tasker.Invitations.Effects.{
  write_invitation_audit-SameButLogs, materialize_expiration_lem, clear_pending-Steps,
  issue_invitation_locked-Steps, not_due,
}
use hustly_tasker.Invitations.Issuing.{
  materialize_expiration, issue_invitation_locked, is_pending_for_email, is_pending_for_user,
  clear_pending, is_joined, pending_for_recipient, create_profile_invitation, is_due,
}
use hustly_tasker.Invitations.Managers.{
  resolve_recipient_account, can_issue_role, lock_manager_context, enforce_issuance_limits,
}
use hustly_tasker.Invitations.Managing.{
  is_invitation_in, get_locked_manager_invitation, write_revoked, revoke_profile_invitation, rotate,
  resend_profile_invitation, ManagedInvitation,
}
use hustly_tasker.Invitations.Records.{write_invitation_audit}
use hustly_tasker.Invitations.Steps.{
  revocation, unchanged, settles, settled, IsAllowed, Steps-trans, Steps, unchanged, settles,
  revocation,
}
use hustly_tasker.Store.{
  profile_status_eq, profile_role_eq, workspace_status_eq, workspace_role_eq, task_status_eq,
  task_priority_eq, deliverable_status_eq, review_status_eq, event_type_eq, invitation_role_eq,
  invitation_status_eq, delivery_status_eq, token_purpose_eq, token_status_eq,
  profile_invitation_key, account_security_token_key, InvitationRole, InvitationStatus,
  ProfileInvitation, Db, Platform, Request, FieldRules, user_key, profile_key,
  profile_membership_key, workspace_key, workspace_member_key, task_key, task_assignment_key,
  task_comment_key, deliverable_key, review_key, audit_log_key, notification_key, period_eq,
  deadline_eq, User,
}

first-stored :
    (test : ProfileInvitation → Bool) (db : Db) (x : ProfileInvitation)
    → first test db.profile_invitations ≡ some x
    → Memᴰ x db.profile_invitations
first-stored test db x found = (first_sound test db.profile_invitations found).1

pending_for_recipient-stored :
    (db : Db) (profile_id : ℕ) (recipient : Option User) (x : ProfileInvitation)
    → pending_for_recipient db profile_id recipient ≡ some x
    → Memᴰ x db.profile_invitations
unfolding pending_for_recipient
pending_for_recipient-stored db profile_id none x found = cc
pending_for_recipient-stored db profile_id (some user) x found =
    first-stored (is_pending_for_user profile_id user.id) db x found

pub create_profile_invitation-Steps :
    (platform : Platform) (rules : FieldRules) (request : Request) (raw_token : Text)
    (profile_id : Ref) (recipient_email : Option Text) (role : InvitationRole) (db : Db)
    {invitation : ProfileInvitation} {after : Db}
    → create_profile_invitation platform rules request raw_token profile_id recipient_email role db
      ≡ ok (invitation, after)
    → Steps db.profile_invitations after.profile_invitations
unfolding create_profile_invitation
create_profile_invitation-Steps platform rules request raw_token profile_id recipient_email role db
      h =
    let email = normalize_account_email platform recipient_email in
    guard-elim (not (list_eq.equals email [])) _ _ h λ _ h₁.
      >>=-elim (lock_manager_context request profile_id (some role) db) _ h₁ λ scope _ h₂.
        guard-elim platform.is_delivery_available _ _ h₂ λ _ h₃.
          >>=-elim (enforce_issuance_limits request.actor email request.now db) _ h₃ λ _ _ h₄.
            >>=-elim (clear_pending request _ _ db) _ h₄ λ cleared first_clear h₅.
              >>=-elim (resolve_recipient_account platform cleared email) _ h₅ λ recipient _ h₆.
                guard-elim (not (is_joined cleared scope.profile.id recipient)) _ _ h₆ λ _ h₇.
                  >>=-elim (clear_pending request _ _ cleared) _ h₇ λ free second_clear h₈.
                    Steps-trans
                      (clear_pending-Steps request _ _ db
                        (first-stored (is_pending_for_email scope.profile.id email) db) first_clear)
                      (Steps-trans
                        (clear_pending-Steps request _ _ cleared
                          (pending_for_recipient-stored cleared scope.profile.id recipient)
                          second_clear)
                        (issue_invitation_locked-Steps platform rules request raw_token _ scope
                          email role recipient none free h₈))

get_locked_manager_invitation-stored :
    (request : Request) (profile_id invitation_id : Ref) (db : Db) {managed : ManagedInvitation}
    → get_locked_manager_invitation request profile_id invitation_id db ≡ ok managed
    → Memᴰ managed.invitation db.profile_invitations
unfolding get_locked_manager_invitation
get_locked_manager_invitation-stored request profile_id invitation_id db h =
    >>=-elim (lock_manager_context request profile_id none db) _ h λ scope _ h₁.
      or_raise-elim (first (is_invitation_in invitation_id scope.profile.id) db.profile_invitations)
        _ _ h₁
        λ invitation found h₂.
          guard-elim (can_issue_role scope.membership.role invitation.requested_role) _ _ h₂ λ _ h₃.
            subst (λ m. Memᴰ m.invitation db.profile_invitations) (ok-injective h₃)
              (first-stored _ db invitation found)

write_revoked-Steps :
    (request : Request) (id : ℕ) (action : String) (invitation : ProfileInvitation) (db : Db)
    {after : Db}
    → Memᴰ invitation db.profile_invitations
    → invitation.status ≡ InvitationStatus.pending
    → leb invitation.expires_at request.now ≡ false
    → write_revoked request id action invitation db ≡ ok after
    → Steps db.profile_invitations after.profile_invitations
unfolding write_revoked settled IsAllowed
write_revoked-Steps request id action invitation db stored pending unexpired h =
    let frame = write_invitation_audit-SameButLogs _ _ _ _ _ _ _ h in
    subst (Steps db.profile_invitations) (sym frame.profile_invitations)
      (settles (revocation request.now request.actor) invitation unchanged stored pending unexpired)

pub revoke_profile_invitation-Steps :
    (request : Request) (profile_id invitation_id : Ref) (db : Db)
    {outcome : Outcome ProfileInvitation} {after : Db}
    → revoke_profile_invitation request profile_id invitation_id db ≡ ok (outcome, after)
    → Steps db.profile_invitations after.profile_invitations
unfolding revoke_profile_invitation
revoke_profile_invitation-Steps request profile_id invitation_id db h =
    >>=-elim (get_locked_manager_invitation request profile_id invitation_id db) _ h
      λ managed locked h₁.
        let row = managed.invitation in
        let stored =
          get_locked_manager_invitation-stored request profile_id invitation_id db locked in
        >>=-elim (materialize_expiration request _ row db) _ h₁ λ (expired, checked) done h₂.
          let (steps, fate) = materialize_expiration_lem request _ row db stored done in
          elim fate [
            | inl due ↦
                subst (Steps db.profile_invitations)
                  (ap (λ p. p.1.profile_invitations) (ok-injective (rw due at h₂))) steps
            | inr (fresh, same, unexpired) ↦
                guard-elim (row.status == InvitationStatus.pending) _ _ (rw fresh at h₂)
                  λ pending h₃.
                    >>=-elim (write_revoked request _ _ row checked) _ h₃ λ last written h₄.
                      subst (Steps db.profile_invitations)
                        (ap (λ p. p.1.profile_invitations) (ok-injective h₄))
                        (Steps-trans steps (
                          write_revoked-Steps request _ _ row checked
                            (subst (λ d. Memᴰ row d.profile_invitations) (sym same) stored)
                            (==→≡ row.status InvitationStatus.pending pending)
                            (not_due row request.now unexpired
                              (==→≡ row.status InvitationStatus.pending pending))
                            written))
          ]

rotate-Steps :
    (request : Request) (expired : Bool) (invitation : ProfileInvitation) (db : Db) {after : Db}
    → (expired ≡ false
        → Memᴰ invitation db.profile_invitations × (is_due invitation request.now ≡ false))
    → rotate request expired invitation db ≡ ok after
    → Steps db.profile_invitations after.profile_invitations
unfolding rotate
rotate-Steps request expired invitation db still h =
    elim (Bool-cases (not expired && invitation.status == InvitationStatus.pending)) [
      | inl open_row ↦
          let (here, fresh) = still (ground arith) in
          let pending = ==→≡ invitation.status InvitationStatus.pending (ground arith) in
          write_revoked-Steps request _ _ invitation db here pending
            (not_due invitation request.now fresh pending) (rw (open_row, rotate) at h)
      | inr settled_row ↦
          subst (Steps db.profile_invitations)
            (ap (λ d. d.profile_invitations) (ok-injective (rw (settled_row, rotate) at h)))
            unchanged
    ]

pub resend_profile_invitation-Steps :
    (platform : Platform) (rules : FieldRules) (request : Request) (raw_token : Text)
    (profile_id invitation_id : Ref) (db : Db) {invitation : ProfileInvitation} {after : Db}
    → resend_profile_invitation platform rules request raw_token profile_id invitation_id db
      ≡ ok (invitation, after)
    → Steps db.profile_invitations after.profile_invitations
unfolding resend_profile_invitation
resend_profile_invitation-Steps platform rules request raw_token profile_id invitation_id db h =
    >>=-elim (get_locked_manager_invitation request profile_id invitation_id db) _ h
      λ managed locked h₁. guard-elim platform.is_delivery_available _ _ h₁ λ _ h₂.
        let old = managed.invitation in
        let stored =
          get_locked_manager_invitation-stored request profile_id invitation_id db locked in
        >>=-elim (materialize_expiration request _ old db) _ h₂ λ (expired, checked) done h₃.
          let (steps, fate) = materialize_expiration_lem request _ old db stored done in
          let still : expired ≡ false
              → Memᴰ old checked.profile_invitations × (is_due old request.now ≡ false) =
            λ fresh. elim fate [
              | inl due ↦ absurd (cc)
              | inr (_, same, unexpired) ↦
                  (subst (λ d. Memᴰ old d.profile_invitations) (sym same) stored, unexpired)
            ] in
          guard-elim
            (expired
              || old.status == InvitationStatus.pending
              || old.status == InvitationStatus.expired)
            _ _ h₃
            λ _ h₄.
              guard-elim
                (not (
                  exists (λ (row : ProfileInvitation). row.replaces_id == some old.id)
                    checked.profile_invitations))
                _ _ h₄
                λ _ h₅.
                  >>=-elim
                    (enforce_issuance_limits request.actor old.recipient_email_normalized
                      request.now checked)
                    _ h₅
                    λ _ _ h₆.
                      >>=-elim (rotate request expired old checked) _ h₆ λ rotated rotation h₇.
                        >>=-elim
                          (resolve_recipient_account platform rotated
                            old.recipient_email_normalized)
                          _ h₇
                          λ recipient _ h₈.
                            guard-elim (not (is_joined rotated managed.scope.profile.id recipient))
                              _ _ h₈
                              λ _ h₉.
                                >>=-elim
                                  (issue_invitation_locked platform rules request raw_token _ _ _ _
                                    _ _ rotated)
                                  _ h₉
                                  λ (replacement, issued) issue h₁₀.
                                    >>=-elim (write_invitation_audit _ _ _ _ _ _ issued) _ h₁₀
                                      λ last audit h₁₁.
                                        let frame =
                                          write_invitation_audit-SameButLogs _ _ _ _ _ _ _ audit in
                                        subst (Steps db.profile_invitations)
                                          (sym frame.profile_invitations
                                            ∙ ap (λ p. p.1.profile_invitations) (ok-injective h₁₁))
                                          (Steps-trans steps (
                                            Steps-trans
                                              (rotate-Steps request expired old checked still
                                                rotation)
                                              (issue_invitation_locked-Steps platform rules request
                                                raw_token _ managed.scope _ _ recipient (some old)
                                                rotated issue)))
