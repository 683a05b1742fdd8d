-- ===== src/Accounts/Steps.antt =====
-- The life of the security tokens: a write never makes a token pending, and a new one is single.
use hustly_tasker.Prelude.{
  ok, exists, update_where, exists_none, insert, if◌then◌else◌, ◌==◌, nat_eq, string_eq, bool_eq,
  option_eq, list_eq, mem-append_one, update_where-mem, insert_lem, ℕ, ◌≡◌, refl, sym, ap, ◌∙◌, ◌≢◌,
  inl, inr, Bool, false, Option, some, List, Memᴰ, arith,
}
use hustly_tasker.Accounts.Confirming.{set_token_consumed}
use hustly_tasker.Accounts.Issuing.{set_token_expired}
use hustly_tasker.Accounts.Records.{clashes_on_purpose, clashes_on_token_column}
use hustly_tasker.Accounts.Saving.{set_token_revoked}
use hustly_tasker.Store.{
  profile_status_eq, profile_role_eq, workspace_status_eq, workspace_role_eq, task_status_eq,
  task_priority_eq, deliverable_status_eq, review_status_eq, event_type_eq, invitation_role_eq,
  invitation_status_eq, delivery_status_eq, token_purpose_eq, token_status_eq,
  profile_invitation_key, account_security_token_key, DeliveryStatus, TokenStatus,
  AccountSecurityToken, user_key, profile_key, profile_membership_key, workspace_key,
  workspace_member_key, task_key, task_assignment_key, task_comment_key, deliverable_key,
  review_key, audit_log_key, notification_key, period_eq, deadline_eq,
}

-- What every write keeps of a token.
pub record IsTame (change : AccountSecurityToken → AccountSecurityToken) : Type 0 where
  pub user : (row : AccountSecurityToken) → (change row).user_id ≡ row.user_id
  pub purpose : (row : AccountSecurityToken) → (change row).purpose ≡ row.purpose
  pub digest : (row : AccountSecurityToken) → (change row).token_digest ≡ row.token_digest
  pub pending :
      (row : AccountSecurityToken)
      → (change row).status ≡ TokenStatus.pending
      → row.status ≡ TokenStatus.pending

pub data TokenSteps (before : List AccountSecurityToken) : List AccountSecurityToken → Type 0 where
  unchanged : TokenSteps before before
  writes :
      {now : List AccountSecurityToken} (test : AccountSecurityToken → Bool)
      (change : AccountSecurityToken → AccountSecurityToken)
      → TokenSteps before now
      → IsTame change
      → TokenSteps before (update_where test change now)
  issues :
      {now later : List AccountSecurityToken} (row : AccountSecurityToken)
      → TokenSteps before now
      → exists (clashes_on_purpose row) now ≡ false
      → exists (clashes_on_token_column row) now ≡ false
      → insert row now ≡ ok later
      → TokenSteps before later

pub TokenSteps-trans :
    {a b c : List AccountSecurityToken} → TokenSteps a b → TokenSteps b c → TokenSteps a c
TokenSteps-trans first_part unchanged = first_part
TokenSteps-trans first_part (writes test change earlier tame) =
    writes test change (TokenSteps-trans first_part earlier) tame
TokenSteps-trans first_part (issues row earlier single fresh put) =
    issues row (TokenSteps-trans first_part earlier) single fresh put

pub expired-IsTame : (now : ℕ) → IsTame (set_token_expired now)
unfolding set_token_expired
expired-IsTame now = record {
  user = λ _. refl;
  purpose = λ _. refl;
  digest = λ _. refl;
  pending = λ _ h. absurd (ground arith);
}

pub revoked-IsTame : (now : ℕ) → IsTame (set_token_revoked now)
unfolding set_token_revoked
revoked-IsTame now = record {
  user = λ _. refl;
  purpose = λ _. refl;
  digest = λ _. refl;
  pending = λ _ h. absurd (ground arith);
}

pub consumed-IsTame : (now : ℕ) → IsTame (set_token_consumed now)
unfolding set_token_consumed
consumed-IsTame now = record {
  user = λ _. refl;
  purpose = λ _. refl;
  digest = λ _. refl;
  pending = λ _ h. absurd (ground arith);
}

pub delivered-IsTame :
    (status : DeliveryStatus) (attempted_at : ℕ) (delivered_at : AccountSecurityToken → Option ℕ)
    → IsTame (λ row. record row {
      delivery_status = status;
      delivery_attempted_at = some attempted_at;
      delivered_at = delivered_at row;
    })
delivered-IsTame status attempted_at delivered_at = record {
  user = λ _. refl;
  purpose = λ _. refl;
  digest = λ _. refl;
  pending = λ _ h. h;
}

-- No user has two pending tokens of one purpose.
abbrev pub OnePendingToken : List AccountSecurityToken → Type 0
OnePendingToken tokens =
    (x y : AccountSecurityToken)
    → Memᴰ x tokens
    → Memᴰ y tokens
    → x.status ≡ TokenStatus.pending
    → y.status ≡ TokenStatus.pending
    → x.user_id ≡ y.user_id
    → x.purpose ≡ y.purpose
    → x ≡ y

-- A pending row of a written table comes from a pending row.
pub record Source (change : AccountSecurityToken → AccountSecurityToken)
    (test : AccountSecurityToken → Bool) (tokens : List AccountSecurityToken)
    (y : AccountSecurityToken) : Type 0 where
  pub row : AccountSecurityToken
  pub stored : Memᴰ row tokens
  pub pending : row.status ≡ TokenStatus.pending
  pub user : y.user_id ≡ row.user_id
  pub purpose : y.purpose ≡ row.purpose
  pub digest : y.token_digest ≡ row.token_digest
  pub written : y ≡ (if test row then change row else row)

pub source :
    (change : AccountSecurityToken → AccountSecurityToken) (test : AccountSecurityToken → Bool)
    (tokens : List AccountSecurityToken) {y : AccountSecurityToken}
    → IsTame change
    → Memᴰ y (update_where test change tokens)
    → y.status ≡ TokenStatus.pending
    → Source change test tokens y
source change test tokens tame m pending =
    let (x, mx, fate) = update_where-mem test change tokens m in
    elim fate [
      | inl (hit, e) ↦ record {
        row = x;
        stored = mx;
        pending = tame.pending x (ap (λ r. r.status) (sym e) ∙ pending);
        user = ap (λ r. r.user_id) e ∙ tame.user x;
        purpose = ap (λ r. r.purpose) e ∙ tame.purpose x;
        digest = ap (λ r. r.token_digest) e ∙ tame.digest x;
        written = rw hit e;
      }
      | inr (miss, e) ↦ record {
        row = x;
        stored = mx;
        pending = ap (λ r. r.status) (sym e) ∙ pending;
        user = ap (λ r. r.user_id) e;
        purpose = ap (λ r. r.purpose) e;
        digest = ap (λ r. r.token_digest) e;
        written = rw miss e;
      }
    ]

apart :
    (row old : AccountSecurityToken) (tokens : List AccountSecurityToken)
    → exists (clashes_on_purpose row) tokens ≡ false
    → Memᴰ old tokens
    → (old.id == row.id) ≡ false
    → old.status ≡ TokenStatus.pending
    → old.user_id ≡ row.user_id
    → old.purpose ≢ row.purpose
unfolding clashes_on_purpose
apart row old tokens free stored other pending user purpose =
    let clear = exists_none (clashes_on_purpose row) tokens free stored in absurd (ground arith)

pub TokenSteps-OnePendingToken :
    {before after : List AccountSecurityToken}
    → OnePendingToken before
    → TokenSteps before after
    → OnePendingToken after
TokenSteps-OnePendingToken one unchanged = one
TokenSteps-OnePendingToken one (writes {now} test change earlier tame) =
    λ x y mx my px py user purpose.
      let of_x = source change test now tame mx px in
      let of_y = source change test now tame my py in
      let same =
        TokenSteps-OnePendingToken one earlier of_x.row of_y.row of_x.stored of_y.stored
          of_x.pending of_y.pending (sym of_x.user ∙ user ∙ of_y.user)
          (sym of_x.purpose ∙ purpose ∙ of_y.purpose) in
      of_x.written ∙ ap (λ r. if test r then change r else r) same ∙ sym of_y.written
TokenSteps-OnePendingToken one (issues {now} row earlier single fresh put) =
    let (grown, new) = insert_lem row now put in
    rw grown λ x y mx my px py user purpose. elim (mem-append_one now row mx) [
      | inl ox ↦ elim (mem-append_one now row my) [
        | inl oy ↦ TokenSteps-OnePendingToken one earlier x y ox oy px py user purpose
        | inr ey ↦ absurd (
            apart row x now single ox (new x ox) px (user ∙ ap (λ r. r.user_id) ey)
              (purpose ∙ ap (λ r. r.purpose) ey))
      ]
      | inr ex ↦ elim (mem-append_one now row my) [
        | inl oy ↦ absurd (
            apart row y now single oy (new y oy) py (sym user ∙ ap (λ r. r.user_id) ex)
              (sym purpose ∙ ap (λ r. r.purpose) ex))
        | inr ey ↦ ex ∙ sym ey
      ]
    ]
