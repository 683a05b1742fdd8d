-- ===== src/Accounts/ConfirmSteps.antt =====
-- The steps that confirming and delivering make.
use hustly_tasker.Prelude.{
  ok, integrity_as, >>=-elim, guard-elim, integrity_as-eq-ok, ok-injective, Outcome,
  account_security_conflict, Text, ◌==◌, nat_eq, string_eq, bool_eq, option_eq, list_eq, Bool-cases,
  ℕ, ◌≡◌, sym, ap, ◌∙◌, subst, inl, inr, Bool, true, false, ◌&&◌, Option, none, some,
}
use hustly_tasker.Accounts.Steps.{
  unchanged, writes, TokenSteps-trans, consumed-IsTame, delivered-IsTame, IsTame, TokenSteps,
}
use hustly_tasker.Accounts.CallSteps.{materialize-TokenSteps, save_user-TokenSteps}
use hustly_tasker.Accounts.Confirming.{
  lookup_candidate, lock_candidate, validate_locked_identity, set_token_consumed,
  verification_fields, password_fields, confirm_email_verification, fingerprint_or_blank,
  confirm_password_reset,
}
use hustly_tasker.Accounts.Delivery.{
  set_token_queued, set_token_failed, set_token_sent, claim_token_delivery, finish_token_delivery,
}
use hustly_tasker.Accounts.Issuing.{password_fingerprint, save_token, materialize_token_expiration}
use hustly_tasker.Accounts.Records.{write_security_audit}
use hustly_tasker.Accounts.Resetting.{write_security_audit-SameButLogs}
use hustly_tasker.Accounts.Saving.{save_user}
use hustly_tasker.Store.{
  profile_status_eq, profile_role_eq, workspace_status_eq, workspace_role_eq, task_status_eq,
  task_priority_eq, deliverable_status_eq, review_status_eq, event_type_eq, invitation_role_eq,
  invitation_status_eq, delivery_status_eq, token_purpose_eq, token_status_eq, DeliveryStatus,
  TokenPurpose, Db, Platform, Request, period_eq, deadline_eq, User,
}

pub confirm_email_verification-TokenSteps :
    (platform : Platform) (request : Request) (raw_token : Option Text) (db : Db)
    {outcome : Outcome User} {after : Db}
    → confirm_email_verification platform request raw_token db ≡ ok (outcome, after)
    → TokenSteps db.account_security_tokens after.account_security_tokens
unfolding confirm_email_verification save_token
confirm_email_verification-TokenSteps platform request raw_token db h =
    let purpose = TokenPurpose.email_verification in
    >>=-elim (lookup_candidate platform request.before raw_token purpose) _ h λ candidate _ h₁.
      >>=-elim (lock_candidate candidate purpose db) _ h₁ λ locked _ h₂.
        guard-elim (locked.user.id == request.actor) _ _ h₂ λ _ h₃.
          >>=-elim (materialize_token_expiration request (request.new_id 0) locked.token db) _ h₃
            λ (expired, checked) done h₄.
              let steps = materialize-TokenSteps request _ locked.token db done in
              elim (Bool-cases expired) [
                | inl due ↦
                    subst (λ p. TokenSteps db.account_security_tokens p.1.account_security_tokens)
                      (ok-injective (rw due at h₄)) steps
                | inr fresh ↦
                    >>=-elim (validate_locked_identity platform checked locked) _ (rw fresh at h₄)
                      λ email _ h₅.
                        let verified = record locked.user {
                          email_verified_at = some request.now;
                          verified_email_normalized = some email;
                        } in
                        >>=-elim
                          (integrity_as account_security_conflict
                            (save_user platform request.now verification_fields verified checked))
                          _ h₅
                          λ (user, saved) save_done h₆.
                            >>=-elim
                              (write_security_audit _ _ _ _ _ _
                                (save_token locked.token (set_token_consumed request.now) saved))
                              _ h₆
                              λ last audit h₇.
                                let frame = write_security_audit-SameButLogs _ _ _ _ _ _ _ audit in
                                subst (TokenSteps db.account_security_tokens)
                                  (sym frame.account_security_tokens
                                    ∙ ap (λ p. p.1.account_security_tokens) (ok-injective h₇))
                                  (writes (λ r. r.id == locked.token.id)
                                    (set_token_consumed request.now)
                                    (TokenSteps-trans steps (
                                      save_user-TokenSteps platform request.now verification_fields
                                        verified user checked saved
                                        (integrity_as-eq-ok _ _ save_done)))
                                    (consumed-IsTame request.now))
              ]

pub confirm_password_reset-TokenSteps :
    (platform : Platform) (request : Request) (salt : Text) (raw_token : Option Text)
    (new_password : Text) (db : Db) {outcome : Outcome User} {after : Db}
    → confirm_password_reset platform request salt raw_token new_password db ≡ ok (outcome, after)
    → TokenSteps db.account_security_tokens after.account_security_tokens
unfolding confirm_password_reset save_token
confirm_password_reset-TokenSteps platform request salt raw_token new_password db h =
    let purpose = TokenPurpose.password_reset in
    >>=-elim (lookup_candidate platform request.before raw_token purpose) _ h λ candidate _ h₁.
      >>=-elim (lock_candidate candidate purpose db) _ h₁ λ locked _ h₂.
        >>=-elim (materialize_token_expiration request (request.new_id 0) locked.token db) _ h₂
          λ (expired, checked) done h₃.
            let steps = materialize-TokenSteps request _ locked.token db done in
            elim (Bool-cases expired) [
              | inl due ↦
                  subst (λ p. TokenSteps db.account_security_tokens p.1.account_security_tokens)
                    (ok-injective (rw due at h₃)) steps
              | inr fresh ↦
                  >>=-elim (validate_locked_identity platform checked locked) _ (rw fresh at h₃)
                    λ email _ h₄.
                      guard-elim
                        (platform.is_usable_password locked.user.password
                          && list_eq.equals (fingerprint_or_blank locked.token.password_fingerprint)
                              (password_fingerprint platform locked.user))
                        _ _ h₄
                        λ _ h₅.
                          guard-elim (platform.is_valid_password locked.user new_password) _ _ h₅
                            λ _ h₆.
                              let consumed =
                                save_token locked.token (set_token_consumed request.now) checked in
                              let changed = record locked.user {
                                password = platform.make_password salt new_password;
                              } in
                              >>=-elim
                                (save_user platform request.now password_fields changed consumed) _
                                h₆
                                λ (user, saved) save_done h₇.
                                  >>=-elim (write_security_audit _ _ _ _ _ _ saved) _ h₇
                                    λ last audit h₈.
                                      let frame =
                                        write_security_audit-SameButLogs _ _ _ _ _ _ _ audit in
                                      subst (TokenSteps db.account_security_tokens)
                                        (sym frame.account_security_tokens
                                          ∙ ap (λ p. p.1.account_security_tokens) (ok-injective h₈))
                                        (TokenSteps-trans
                                          (writes (λ r. r.id == locked.token.id)
                                            (set_token_consumed request.now) steps
                                            (consumed-IsTame request.now))
                                          (save_user-TokenSteps platform request.now password_fields
                                            changed user consumed saved save_done))
            ]

queued-IsTame : (attempted_at : ℕ) → IsTame (set_token_queued attempted_at)
unfolding set_token_queued
queued-IsTame attempted_at =
    delivered-IsTame DeliveryStatus.queued attempted_at (λ row. row.delivered_at)

failed-IsTame : (attempted_at : ℕ) → IsTame (set_token_failed attempted_at)
unfolding set_token_failed
failed-IsTame attempted_at = delivered-IsTame DeliveryStatus.failed attempted_at (λ _. none)

sent-IsTame : (attempted_at delivered_at : ℕ) → IsTame (set_token_sent attempted_at delivered_at)
unfolding set_token_sent
sent-IsTame attempted_at delivered_at =
    delivered-IsTame DeliveryStatus.sent attempted_at (λ _. some delivered_at)

pub claim_token_delivery-TokenSteps :
    (token_id : ℕ) (purpose : TokenPurpose) (digest : Text) (attempted_at : ℕ) (db : Db)
    → TokenSteps db.account_security_tokens
        (claim_token_delivery token_id purpose digest attempted_at db).1.account_security_tokens
unfolding claim_token_delivery
claim_token_delivery-TokenSteps token_id purpose digest attempted_at db =
    writes _ (set_token_queued attempted_at) unchanged (queued-IsTame attempted_at)

pub finish_token_delivery-TokenSteps :
    (token_id : ℕ) (purpose : TokenPurpose) (digest : Text) (raise_on_failure : Bool)
    (attempted_at : ℕ) (was_sent : Bool) (finished_at : ℕ) (db : Db)
    → TokenSteps db.account_security_tokens
        (finish_token_delivery token_id purpose digest raise_on_failure attempted_at was_sent
          finished_at db).1.account_security_tokens
unfolding finish_token_delivery
finish_token_delivery-TokenSteps token_id purpose digest raise_on_failure attempted_at false
      finished_at db =
    writes _ (set_token_failed attempted_at) unchanged (failed-IsTame attempted_at)
finish_token_delivery-TokenSteps token_id purpose digest raise_on_failure attempted_at true
      finished_at db =
    writes _ (set_token_sent attempted_at finished_at) unchanged
      (sent-IsTame attempted_at finished_at)
