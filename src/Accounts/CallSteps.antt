-- ===== src/Accounts/CallSteps.antt =====
-- The steps that saving a user and requesting a token make of the tokens.
use hustly_tasker.Prelude.{
  ok, raising, raising-eq-ok, >>=-elim, or_raise-elim, guard-elim, ok-injective, guard-eq-ok,
  account_security_conflict, Text, exists, first, insert, ◌==◌, nat_eq, string_eq, bool_eq,
  option_eq, list_eq, Bool-cases, Option-cases, ℕ, ◌≡◌, refl, sym, ap, ◌∙◌, subst, inl, inr, Bool,
  true, false, ◌&&◌, ◌||◌, not, Option, none, some, List, arith,
}
use hustly_tasker.Accounts.Steps.{
  unchanged, writes, issues, TokenSteps-trans, expired-IsTame, revoked-IsTame, TokenSteps,
}
use hustly_tasker.Accounts.Identity.{normalize_account_email, resolve_unique_user_for_email}
use hustly_tasker.Accounts.Issuing.{
  email_verification_ttl, password_reset_ttl, digest_account_security_token, set_token_expired,
  save_token, is_due_token, materialize_token_expiration, retire_token, is_pending_for,
  issue_token_locked,
}
use hustly_tasker.Accounts.Records.{
  satisfies_token_constraints, clashes_on_token_column, clean_token, full_clean_token,
  write_security_audit,
}
use hustly_tasker.Accounts.Requesting.{
  is_sole_account, resolve_current_unique_user, request_email_verification, unique_or_none,
  eligible, lock_for_reset, request_password_reset,
}
use hustly_tasker.Accounts.Resetting.{save_user_row-tokens, write_security_audit-SameButLogs}
use hustly_tasker.Accounts.Saving.{
  is_email_verified, is_email_changed, is_password_changed, save_user_row, set_token_revoked,
  is_pending_token_of, is_pending_reset_of, revoke_tokens, unverified_if, save_user, UserFields,
}
use hustly_tasker.Store.{
  profile_status_eq, profile_role_eq, workspace_status_eq, workspace_role_eq, task_status_eq,
  task_priority_eq, deliverable_status_eq, review_status_eq, event_type_eq, invitation_role_eq,
  invitation_status_eq, delivery_status_eq, token_purpose_eq, token_status_eq,
  profile_invitation_key, account_security_token_key, TokenPurpose, TokenStatus,
  AccountSecurityToken, Db, Platform, Request, FieldRules, user_key, profile_key,
  profile_membership_key, workspace_key, workspace_member_key, task_key, task_assignment_key,
  task_comment_key, deliverable_key, review_key, audit_log_key, notification_key, period_eq,
  deadline_eq, User,
}

pub materialize-TokenSteps :
    (request : Request) (id : ℕ) (token : AccountSecurityToken) (db : Db) {expired : Bool}
    {after : Db}
    → materialize_token_expiration request id token db ≡ ok (expired, after)
    → TokenSteps db.account_security_tokens after.account_security_tokens
unfolding materialize_token_expiration save_token
materialize-TokenSteps request id token db h = elim (Bool-cases (is_due_token token request.now)) [
  | inl due ↦
      >>=-elim
        (write_security_audit id token.user_id (set_token_expired request.now token) _ _ _
          (save_token token (set_token_expired request.now) db))
        _ (rw (due, materialize_token_expiration) at h)
        λ last audit h₁.
          let frame = write_security_audit-SameButLogs _ _ _ _ _ _ _ audit in
          subst (TokenSteps db.account_security_tokens)
            (sym frame.account_security_tokens
              ∙ ap (λ p. p.1.account_security_tokens) (ok-injective h₁))
            (writes (λ r. r.id == token.id) (set_token_expired request.now) unchanged
              (expired-IsTame request.now))
  | inr fresh ↦
      subst (TokenSteps db.account_security_tokens)
        (ap (λ p. p.1.account_security_tokens)
          (ok-injective (rw (fresh, materialize_token_expiration) at h)))
        unchanged
]

retire-TokenSteps :
    (request : Request) (user : User) (previous : Option AccountSecurityToken) (db : Db)
    {after : Db}
    → retire_token request user previous db ≡ ok after
    → TokenSteps db.account_security_tokens after.account_security_tokens
unfolding retire_token save_token
retire-TokenSteps request user none db h =
    subst (TokenSteps db.account_security_tokens)
      (ap (λ d. d.account_security_tokens) (ok-injective h)) unchanged
retire-TokenSteps request user (some previous) db {after} h =
    >>=-elim (materialize_token_expiration request (request.new_id 0) previous db) _ h
      λ (expired, checked) done h₁.
        let steps = materialize-TokenSteps request _ previous db done in
        elim (Bool-cases expired) [
          | inl due ↦
              subst (λ d. TokenSteps db.account_security_tokens d.account_security_tokens)
                (ok-injective (rw due at h₁)) steps
          | inr fresh ↦
              let frame = write_security_audit-SameButLogs _ _ _ _ _ _ _ (rw fresh at h₁) in
              subst (TokenSteps db.account_security_tokens) (sym frame.account_security_tokens) (
                writes (λ r. r.id == previous.id) (set_token_revoked request.now) steps
                  (revoked-IsTame request.now))
        ]

-- What `full_clean` has checked of a pending token.
full_clean_token-issues :
    (platform : Platform) (rules : FieldRules) (db : Db) (row : AccountSecurityToken)
    {later : List AccountSecurityToken}
    → row.status ≡ TokenStatus.pending
    → full_clean_token platform rules db row ≡ ok tt
    → insert row db.account_security_tokens ≡ ok later
    → TokenSteps db.account_security_tokens later
unfolding full_clean_token
full_clean_token-issues platform rules db row pending h put =
    guard-elim (rules.account_security_token row) _ _ h λ _ h₁.
      >>=-elim (clean_token platform db row) _ h₁ λ _ _ h₂.
        guard-elim (not (exists (clashes_on_token_column row) db.account_security_tokens)) _ _ h₂
          λ columns h₃. guard-elim (satisfies_token_constraints row) _ _ h₃ λ _ h₄.
            let sole = guard-eq-ok _ _ h₄ in issues row unchanged (ground arith) (ground arith) put

issue-TokenSteps :
    (platform : Platform) (rules : FieldRules) (request : Request) (raw_token : Text) (user : User)
    (purpose : TokenPurpose) (ttl : ℕ) (db : Db) {token : AccountSecurityToken} {after : Db}
    → issue_token_locked platform rules request raw_token user purpose ttl db ≡ ok (token, after)
    → TokenSteps db.account_security_tokens after.account_security_tokens
unfolding issue_token_locked
issue-TokenSteps platform rules request raw_token user purpose ttl db h =
    let previous = first (is_pending_for user.id purpose) db.account_security_tokens in
    >>=-elim (retire_token request user previous db) _ h λ retired retire h₁.
      >>=-elim (digest_account_security_token platform (some raw_token) purpose) _ h₁ λ digest _ h₂.
        >>=-elim (raising account_security_conflict (full_clean_token platform rules retired _)) _
          h₂
          λ _ clean h₃.
            >>=-elim (raising account_security_conflict (insert _ retired.account_security_tokens))
              _ h₃
              λ table put h₄.
                >>=-elim
                  (write_security_audit _ _ _ _ _ _
                    (record retired { account_security_tokens = table }))
                  _ h₄
                  λ last audit h₅.
                    let frame = write_security_audit-SameButLogs _ _ _ _ _ _ _ audit in
                    subst (TokenSteps db.account_security_tokens)
                      (sym frame.account_security_tokens
                        ∙ ap (λ p. p.1.account_security_tokens) (ok-injective h₅))
                      (TokenSteps-trans (retire-TokenSteps request user previous db retire) (
                        full_clean_token-issues platform rules retired _ refl
                          (raising-eq-ok _ _ clean) (raising-eq-ok _ _ put)))

revoke_tokens-TokenSteps :
    (now user_id : ℕ) (email_changed password_changed : Bool) (db : Db)
    → TokenSteps db.account_security_tokens
        (revoke_tokens now user_id email_changed password_changed db).account_security_tokens
unfolding revoke_tokens
revoke_tokens-TokenSteps now user_id false false db = unchanged
revoke_tokens-TokenSteps now user_id true false db =
    writes (is_pending_token_of user_id) (set_token_revoked now) unchanged (revoked-IsTame now)
revoke_tokens-TokenSteps now user_id false true db =
    writes (is_pending_reset_of user_id) (set_token_revoked now) unchanged (revoked-IsTame now)
revoke_tokens-TokenSteps now user_id true true db =
    writes (is_pending_reset_of user_id) (set_token_revoked now)
      (writes (is_pending_token_of user_id) (set_token_revoked now) unchanged (revoked-IsTame now))
      (revoked-IsTame now)

pub save_user-TokenSteps :
    (platform : Platform) (now : ℕ) (fields : UserFields) (user saved : User) (db after : Db)
    → save_user platform now fields user db ≡ ok (saved, after)
    → TokenSteps db.account_security_tokens after.account_security_tokens
unfolding save_user
save_user-TokenSteps platform now fields user saved db after h =
    or_raise-elim (first (λ (row : User). row.id == user.id) db.users) _ _ h λ previous _ h₁.
      let changed = is_email_changed platform fields previous user in
      let wide = record fields { verification = fields.verification || changed } in
      let stored = unverified_if changed user in
      >>=-elim (save_user_row wide previous stored db) _ h₁ λ written wrote h₂.
        subst (λ d. TokenSteps db.account_security_tokens d.account_security_tokens)
          (ap (λ p. p.1) (ok-injective h₂))
          (subst
            (λ t.
              TokenSteps t
                (revoke_tokens now user.id changed (is_password_changed fields previous user)
                  written).account_security_tokens)
            (save_user_row-tokens wide previous stored db wrote)
            (revoke_tokens-TokenSteps now user.id changed (is_password_changed fields previous user)
              written))

pub request_email_verification-TokenSteps :
    (platform : Platform) (rules : FieldRules) (request : Request) (raw_token : Text) (db : Db)
    {token : Option AccountSecurityToken} {after : Db}
    → request_email_verification platform rules request raw_token db ≡ ok (token, after)
    → TokenSteps db.account_security_tokens after.account_security_tokens
unfolding request_email_verification
request_email_verification-TokenSteps platform rules request raw_token db h =
    let steps = TokenSteps db.account_security_tokens in
    guard-elim platform.is_delivery_available _ _ h λ _ h₁.
      or_raise-elim (first (λ (row : User). row.id == request.actor && row.is_active) db.users) _ _
        h₁
        λ user _ h₂.
          >>=-elim
            (resolve_current_unique_user platform db
              (normalize_account_email platform (some user.email)))
            _ h₂
            λ resolved _ h₃. guard-elim (is_sole_account user.id resolved) _ _ h₃ λ _ h₄.
              elim (Bool-cases (is_email_verified platform user)) [
                | inl verified ↦
                    subst (λ p. steps p.1.account_security_tokens)
                      (ok-injective (rw verified at h₄)) unchanged
                | inr unverified ↦
                    >>=-elim
                      (issue_token_locked platform rules request raw_token user
                        TokenPurpose.email_verification email_verification_ttl db)
                      _ (rw unverified at h₄)
                      λ (issued, last) issue h₅.
                        subst (steps) (ap (λ p. p.1.account_security_tokens) (ok-injective h₅))
                          (issue-TokenSteps platform rules request raw_token user _ _ db issue)
              ]

pub request_password_reset-TokenSteps :
    (platform : Platform) (rules : FieldRules) (request : Request) (raw_token : Text)
    (value : Option Text) (db : Db) {token : Option AccountSecurityToken} {after : Db}
    → request_password_reset platform rules request raw_token value db ≡ ok (token, after)
    → TokenSteps db.account_security_tokens after.account_security_tokens
unfolding request_password_reset
request_password_reset-TokenSteps platform rules request raw_token value db h =
    let steps = TokenSteps db.account_security_tokens in
    let email = normalize_account_email platform value in
    let found = unique_or_none (resolve_unique_user_for_email platform request.before email) in
    guard-elim platform.is_delivery_available _ _ h λ _ h₁.
      elim (Option-cases (eligible platform found)) [
        | inl nobody ↦
            subst (λ p. steps p.1.account_security_tokens) (ok-injective (rw nobody at h₁))
              unchanged
        | inr (user, one) ↦ elim (Option-cases (lock_for_reset platform db email user)) [
          | inl nobody ↦
              subst (λ p. steps p.1.account_security_tokens) (ok-injective (rw (one, nobody) at h₁))
                unchanged
          | inr (locked, two) ↦
              >>=-elim
                (issue_token_locked platform rules request raw_token locked
                  TokenPurpose.password_reset password_reset_ttl db)
                _ (rw (one, two) at h₁)
                λ (issued, last) issue h₂.
                  subst steps (ap (λ p. p.1.account_security_tokens) (ok-injective h₂))
                    (issue-TokenSteps platform rules request raw_token locked _ _ db issue)
        ]
      ]
