-- ===== src/Accounts/History.antt =====
-- Any number of calls on accounts, by any users and in any order, with the deliveries in between.
use hustly_tasker.Prelude.{
  ok, err, Result, Outcome, Text, ℕ, ◌≡◌, refl, ◌≢◌, Bool, Option, List, [], ◌∷◌,
}
use hustly_tasker.Accounts.Steps.{
  unchanged, TokenSteps-trans, OnePendingToken, TokenSteps-OnePendingToken, TokenSteps,
}
use hustly_tasker.Accounts.CallSteps.{
  save_user-TokenSteps, request_email_verification-TokenSteps, request_password_reset-TokenSteps,
}
use hustly_tasker.Accounts.ConfirmSteps.{
  confirm_email_verification-TokenSteps, confirm_password_reset-TokenSteps,
  claim_token_delivery-TokenSteps, finish_token_delivery-TokenSteps,
}
use hustly_tasker.Accounts.Confirming.{confirm_email_verification, confirm_password_reset}
use hustly_tasker.Accounts.Delivery.{claim_token_delivery, finish_token_delivery}
use hustly_tasker.Accounts.Issuing.{digest_account_security_token}
use hustly_tasker.Accounts.Once.{confirm_password_reset-refuses}
use hustly_tasker.Accounts.Requesting.{request_email_verification, request_password_reset}
use hustly_tasker.Accounts.Saving.{save_user, UserFields}
use hustly_tasker.Accounts.Used.{TokenSteps-IsUsed, IsUsed}
use hustly_tasker.Store.{
  profile_invitation_key, account_security_token_key, TokenPurpose, Db, Platform, Request,
  FieldRules, user_key, profile_key, profile_membership_key, workspace_key, workspace_member_key,
  task_key, task_assignment_key, task_comment_key, deliverable_key, review_key, audit_log_key,
  notification_key, User,
}

-- The calls with their arguments, a save of a user by other code, and the two writes of a delivery.
pub data AccountCall : Type 0 where
  request_verification : Request → Text → AccountCall
  request_reset : Request → Text → Option Text → AccountCall
  confirm_verification : Request → Option Text → AccountCall
  confirm_reset : Request → Text → Option Text → Text → AccountCall
  save : ℕ → UserFields → User → AccountCall
  claim : ℕ → TokenPurpose → Text → ℕ → AccountCall
  finish : ℕ → TokenPurpose → Text → Bool → ℕ → Bool → ℕ → AccountCall

-- The database that is committed: the old one if the transaction raised.
unfoldable pub account_committed : {A : Type 0} → Result (A × Db) → Db → Db
account_committed (err e) db = db
account_committed (ok (value, after)) db = after

unfoldable pub account_call : Platform → FieldRules → AccountCall → Db → Db
unfolding account_committed
account_call platform rules (request_verification request raw_token) db =
    account_committed (request_email_verification platform rules request raw_token db) db
account_call platform rules (request_reset request raw_token value) db =
    account_committed (request_password_reset platform rules request raw_token value db) db
account_call platform rules (confirm_verification request raw_token) db =
    account_committed (confirm_email_verification platform request raw_token db) db
account_call platform rules (confirm_reset request salt raw_token new_password) db =
    account_committed (confirm_password_reset platform request salt raw_token new_password db) db
account_call platform rules (save now fields user) db =
    account_committed (save_user platform now fields user db) db
account_call platform rules (claim token_id purpose digest attempted_at) db =
    (claim_token_delivery token_id purpose digest attempted_at db).1
account_call platform rules
      (finish token_id purpose digest raise_on_failure attempted_at was_sent finished_at) db =
    (finish_token_delivery token_id purpose digest raise_on_failure attempted_at was_sent
      finished_at db).1

unfoldable pub account_history : Platform → FieldRules → List AccountCall → Db → Db
unfolding account_call
account_history platform rules [] db = db
account_history platform rules (call ∷ calls) db =
    account_history platform rules calls (account_call platform rules call db)

committed-TokenSteps :
    {A : Type 0} (result : Result (A × Db)) (db : Db)
    → ((value : A) (after : Db)
        → result ≡ ok (value, after)
        → TokenSteps db.account_security_tokens after.account_security_tokens)
    → TokenSteps db.account_security_tokens (account_committed result db).account_security_tokens
unfolding account_committed
committed-TokenSteps (err e) db steps = unchanged
committed-TokenSteps (ok (value, after)) db steps = steps value after refl

account_call-TokenSteps :
    (platform : Platform) (rules : FieldRules) (call : AccountCall) (db : Db)
    → TokenSteps db.account_security_tokens
        (account_call platform rules call db).account_security_tokens
unfolding account_call
account_call-TokenSteps platform rules (request_verification request raw_token) db =
    committed-TokenSteps _ db
      λ _ _. request_email_verification-TokenSteps platform rules request raw_token db
account_call-TokenSteps platform rules (request_reset request raw_token value) db =
    committed-TokenSteps _ db
      λ _ _. request_password_reset-TokenSteps platform rules request raw_token value db
account_call-TokenSteps platform rules (confirm_verification request raw_token) db =
    committed-TokenSteps _ db
      λ _ _. confirm_email_verification-TokenSteps platform request raw_token db
account_call-TokenSteps platform rules (confirm_reset request salt raw_token new_password) db =
    committed-TokenSteps _ db
      λ _ _. confirm_password_reset-TokenSteps platform request salt raw_token new_password db
account_call-TokenSteps platform rules (save now fields user) db =
    committed-TokenSteps _ db
      λ saved after. save_user-TokenSteps platform now fields user saved db after
account_call-TokenSteps platform rules (claim token_id purpose digest attempted_at) db =
    claim_token_delivery-TokenSteps token_id purpose digest attempted_at db
account_call-TokenSteps platform rules
      (finish token_id purpose digest raise_on_failure attempted_at was_sent finished_at) db =
    finish_token_delivery-TokenSteps token_id purpose digest raise_on_failure attempted_at was_sent
      finished_at db

account_history-TokenSteps :
    (platform : Platform) (rules : FieldRules) (calls : List AccountCall) (db : Db)
    → TokenSteps db.account_security_tokens
        (account_history platform rules calls db).account_security_tokens
unfolding account_history
account_history-TokenSteps platform rules [] db = unchanged
account_history-TokenSteps platform rules (call ∷ calls) db =
    TokenSteps-trans (account_call-TokenSteps platform rules call db)
      (account_history-TokenSteps platform rules calls (account_call platform rules call db))

-- If no user has two pending tokens of one purpose, then that is so after any calls.
pub account_history-OnePendingToken :
    (platform : Platform) (rules : FieldRules) (calls : List AccountCall) (db : Db)
    → OnePendingToken db.account_security_tokens
    → OnePendingToken (account_history platform rules calls db).account_security_tokens
account_history-OnePendingToken platform rules calls db one =
    TokenSteps-OnePendingToken one (account_history-TokenSteps platform rules calls db)

-- Once a stored token has the digest of a raw token and no pending one has it, no later call of
-- `confirm_password_reset` succeeds with that raw token, whatever calls come in between and whatever
-- the reads before the locks saw.
pub account_history-refuses :
    (platform : Platform) (rules : FieldRules) (calls : List AccountCall) (db : Db)
    (request : Request) (salt : Text) (raw_token : Option Text) (new_password digest : Text)
    (outcome : Outcome User) (after : Db)
    → IsUsed digest db.account_security_tokens
    → digest_account_security_token platform raw_token TokenPurpose.password_reset ≡ ok digest
    → confirm_password_reset platform request salt raw_token new_password
        (account_history platform rules calls db)
      ≢ ok (outcome, after)
account_history-refuses platform rules calls db request salt raw_token new_password digest outcome
      after used known =
    let later =
      TokenSteps-IsUsed digest used (account_history-TokenSteps platform rules calls db) in
    confirm_password_reset-refuses platform request salt raw_token new_password
      (account_history platform rules calls db) digest outcome after known later.over
