-- ===== src/Invitations/Effects.antt =====
-- The steps that creating, revoking and resending make.
use hustly_tasker.Prelude.{
  ok, raising, raising-eq-ok, >>=-elim, guard-elim, ok-injective, invitation_conflict, Text, exists,
  insert, ◌==◌, nat_eq, string_eq, bool_eq, option_eq, list_eq, ==→≡, Bool-cases, ℕ, String, ◌≡◌,
  refl, sym, ap, ◌∙◌, subst, ◌⊎◌, inl, inr, Bool, true, false, ◌&&◌, not, Option, none, some, Memᴰ,
  arith, leb,
}
use hustly_tasker.Invitations.Issuing.{
  is_due, expire, materialize_expiration, issue_invitation_locked, clear_pending,
}
use hustly_tasker.Invitations.Managers.{ManagerScope}
use hustly_tasker.Invitations.Records.{
  satisfies_constraints, clashes_on_email, clashes_on_column, clean_invitation,
  full_clean_invitation, write_invitation_audit,
}
use hustly_tasker.Invitations.Steps.{
  expiry, unchanged, settles, issues, settled, IsAllowed, is_sound, IsIssued, Steps, unchanged,
  issues, settles, expiry,
}
use hustly_tasker.Store.{
  profile_status_eq, profile_role_eq, workspace_status_eq, workspace_role_eq, task_status_eq,
  task_priority_eq, deliverable_status_eq, review_status_eq, event_type_eq, invitation_role_eq,
  invitation_status_eq, delivery_status_eq, token_purpose_eq, token_status_eq,
  profile_invitation_key, account_security_token_key, InvitationRole, InvitationStatus,
  ProfileInvitation, Db, Platform, SameButLogs, Value, Request, FieldRules, user_key, profile_key,
  profile_membership_key, workspace_key, workspace_member_key, task_key, task_assignment_key,
  task_comment_key, deliverable_key, review_key, audit_log_key, notification_key, period_eq,
  deadline_eq, User,
}
use hustly_tasker.Workspace.Logged.{add_audit_log-SameButLogs}

pub write_invitation_audit-SameButLogs :
    (id actor : ℕ) (invitation : ProfileInvitation) (action : String) (was is : Value) (db : Db)
    {after : Db}
    → write_invitation_audit id actor invitation action was is db ≡ ok after
    → SameButLogs db after
unfolding write_invitation_audit
write_invitation_audit-SameButLogs id actor invitation action was is db h =
    add_audit_log-SameButLogs _ db h

expire-Steps :
    (request : Request) (id : ℕ) (invitation : ProfileInvitation) (db : Db) {after : Db}
    → Memᴰ invitation db.profile_invitations
    → is_due invitation request.now ≡ true
    → expire request id invitation db ≡ ok after
    → Steps db.profile_invitations after.profile_invitations
unfolding expire settled IsAllowed is_due
expire-Steps request id invitation db stored due h =
    let frame = write_invitation_audit-SameButLogs _ _ _ _ _ _ _ h in
    subst (Steps db.profile_invitations) (sym frame.profile_invitations) (
      settles (expiry request.now) invitation unchanged stored
        (==→≡ invitation.status InvitationStatus.pending (ground arith)) (ground arith))

-- A due invitation is expired, and otherwise nothing happens.
pub materialize_expiration_lem :
    (request : Request) (id : ℕ) (invitation : ProfileInvitation) (db : Db) {due : Bool}
    {after : Db}
    → Memᴰ invitation db.profile_invitations
    → materialize_expiration request id invitation db ≡ ok (due, after)
    → Steps db.profile_invitations after.profile_invitations
      × ((due ≡ true) ⊎ (due ≡ false) × (after ≡ db) × (is_due invitation request.now ≡ false))
unfolding materialize_expiration
materialize_expiration_lem request id invitation db stored h =
    elim (Bool-cases (is_due invitation request.now)) [
      | inl due ↦
          >>=-elim (expire request id invitation db) _ (rw (due, materialize_expiration) at h)
            λ last expired h₁.
              let e = ok-injective h₁ in
              (
                subst (Steps db.profile_invitations) (ap (λ p. p.1.profile_invitations) e)
                    (expire-Steps request id invitation db stored due expired),
                inl (sym (ap (λ p. p.0) e)),
              )
      | inr fresh ↦
          let e = ok-injective (rw (fresh, materialize_expiration) at h) in
          (
            subst (Steps db.profile_invitations) (ap (λ p. p.1.profile_invitations) e) unchanged,
            inr (sym (ap (λ p. p.0) e), sym (ap (λ p. p.1) e), fresh),
          )
    ]

-- A pending invitation that is not due has not expired.
pub not_due :
    (invitation : ProfileInvitation) (now : ℕ)
    → is_due invitation now ≡ false
    → invitation.status ≡ InvitationStatus.pending
    → leb invitation.expires_at now ≡ false
unfolding is_due
not_due invitation now fresh pending = ground arith

pub clear_pending-Steps :
    (request : Request) (id : ℕ) (found : Option ProfileInvitation) (db : Db) {after : Db}
    → ((x : ProfileInvitation) → found ≡ some x → Memᴰ x db.profile_invitations)
    → clear_pending request id found db ≡ ok after
    → Steps db.profile_invitations after.profile_invitations
unfolding clear_pending
clear_pending-Steps request id none db stored h =
    subst (Steps db.profile_invitations) (ap (λ d. d.profile_invitations) (ok-injective h))
      unchanged
clear_pending-Steps request id (some pending) db stored h =
    >>=-elim (materialize_expiration request id pending db) _ h λ (due, checked) done h₁.
      guard-elim due _ _ h₁ λ _ h₂.
        subst (Steps db.profile_invitations) (ap (λ d. d.profile_invitations) (ok-injective h₂))
          (materialize_expiration_lem request id pending db (stored pending refl) done).0

full_clean_invitation-IsIssued :
    (platform : Platform) (rules : FieldRules) (db : Db) (row : ProfileInvitation)
    → row.status ≡ InvitationStatus.pending
    → full_clean_invitation platform rules db row ≡ ok tt
    → IsIssued row db.profile_invitations
unfolding full_clean_invitation is_sound
full_clean_invitation-IsIssued platform rules db row pending h =
    guard-elim (rules.profile_invitation row) _ _ h λ _ h₁.
      >>=-elim (clean_invitation platform db row) _ h₁ λ _ _ h₂.
        guard-elim (not (exists (clashes_on_column row) db.profile_invitations)) _ _ h₂
          λ columns h₃. guard-elim (satisfies_constraints row) _ _ h₃ λ constraints h₄.
            guard-elim
              (not (
                row.status == InvitationStatus.pending
                && exists (clashes_on_email row) db.profile_invitations))
              _ _ h₄
              λ sole _. record {
                pending = pending;
                sound = ground arith;
                new_columns = ground arith;
                sole = ground arith;
              }

pub issue_invitation_locked-Steps :
    (platform : Platform) (rules : FieldRules) (request : Request) (raw_token : Text)
    (new_id : ℕ → ℕ) (scope : ManagerScope) (email : Text) (role : InvitationRole)
    (recipient : Option User) (replaces : Option ProfileInvitation) (db : Db)
    {invitation : ProfileInvitation} {after : Db}
    → issue_invitation_locked platform rules request raw_token new_id scope email role recipient
        replaces db
      ≡ ok (invitation, after)
    → Steps db.profile_invitations after.profile_invitations
unfolding issue_invitation_locked
issue_invitation_locked-Steps platform rules request raw_token new_id scope email role recipient
      replaces db h =
    >>=-elim (raising invitation_conflict (full_clean_invitation platform rules db _)) _ h
      λ _ clean h₁.
        >>=-elim (raising invitation_conflict (insert _ db.profile_invitations)) _ h₁
          λ table put h₂.
            >>=-elim
              (write_invitation_audit _ _ _ _ _ _ (record db { profile_invitations = table })) _ h₂
              λ last audit h₃.
                let frame = write_invitation_audit-SameButLogs _ _ _ _ _ _ _ audit in
                subst (Steps db.profile_invitations)
                  (sym frame.profile_invitations
                    ∙ ap (λ p. p.1.profile_invitations) (ok-injective h₃))
                  (issues _ unchanged
                    (full_clean_invitation-IsIssued platform rules db _ refl
                      (raising-eq-ok _ _ clean))
                    (raising-eq-ok _ _ put))
