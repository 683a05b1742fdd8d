-- ===== src/Accounts/Used.antt =====
-- A digest that was used stays used.
use hustly_tasker.Prelude.{
  Text, exists, update_where, exists_none, ◌==◌, nat_eq, string_eq, bool_eq, option_eq, list_eq,
  Bool-cases, mem-append_left, mem-append_one, mem-update_where_hit, mem-update_where_miss,
  insert_lem, ◌≡◌, sym, ap, ◌∙◌, ◌≢◌, inl, inr, Bool, false, List, [], ◌∷◌, Memᴰ, arith,
}
use hustly_tasker.Accounts.Steps.{unchanged, writes, issues, source, IsTame, TokenSteps}
use hustly_tasker.Accounts.Records.{clashes_on_token_column}
use hustly_tasker.Accounts.Resetting.{NoneWith}
use hustly_tasker.Store.{
  account_security_token_key, profile_status_eq, profile_role_eq, workspace_status_eq,
  workspace_role_eq, task_status_eq, task_priority_eq, deliverable_status_eq, review_status_eq,
  event_type_eq, invitation_role_eq, invitation_status_eq, delivery_status_eq, token_purpose_eq,
  token_status_eq, AccountSecurityToken, period_eq, deadline_eq,
}

-- Some token has the digest, and none that has it is pending.
pub record IsUsed (digest : Text) (tokens : List AccountSecurityToken) : Type 0 where
  pub token : AccountSecurityToken
  pub stored : Memᴰ token tokens
  pub own : token.token_digest ≡ digest
  pub over : NoneWith digest tokens

written-IsUsed :
    (change : AccountSecurityToken → AccountSecurityToken) (test : AccountSecurityToken → Bool)
    (digest : Text) (tokens : List AccountSecurityToken)
    → IsTame change
    → IsUsed digest tokens
    → IsUsed digest (update_where test change tokens)
written-IsUsed change test digest tokens tame used =
    let over : NoneWith digest (update_where test change tokens) = λ y m own pending.
      let from = source change test tokens tame m pending in
      used.over from.row from.stored (sym from.digest ∙ own) from.pending in
    elim (Bool-cases (test used.token)) [
      | inl hit ↦ record {
        token = change used.token;
        stored = mem-update_where_hit test change tokens used.stored hit;
        own = tame.digest used.token ∙ used.own;
        over = over;
      }
      | inr miss ↦ record {
        token = used.token;
        stored = mem-update_where_miss test change tokens used.stored miss;
        own = used.own;
        over = over;
      }
    ]

new_digest :
    (row old : AccountSecurityToken) (tokens : List AccountSecurityToken)
    → exists (clashes_on_token_column row) tokens ≡ false
    → Memᴰ old tokens
    → (old.id == row.id) ≡ false
    → old.token_digest ≢ row.token_digest
unfolding clashes_on_token_column
new_digest row old tokens free stored other same =
    let clear = exists_none (clashes_on_token_column row) tokens free stored in
    let equal = (list_eq.equals_iff old.token_digest row.token_digest).1 same in
    absurd (ground arith)

pub TokenSteps-IsUsed :
    (digest : Text) {before after : List AccountSecurityToken}
    → IsUsed digest before
    → TokenSteps before after
    → IsUsed digest after
TokenSteps-IsUsed digest used unchanged = used
TokenSteps-IsUsed digest used (writes {now} test change earlier tame) =
    written-IsUsed change test digest now tame (TokenSteps-IsUsed digest used earlier)
TokenSteps-IsUsed digest used (issues {now} row earlier single fresh put) =
    let was = TokenSteps-IsUsed digest used earlier in
    let (grown, new) = insert_lem row now put in
    rw grown record {
      token = was.token;
      stored = mem-append_left now (row ∷ []) was.stored;
      own = was.own;
      over = λ y m own pending. elim (mem-append_one now row m) [
        | inl old ↦ was.over y old own pending
        | inr e ↦
            new_digest row was.token now fresh was.stored (new was.token was.stored)
              (was.own ∙ sym own ∙ ap (λ r. r.token_digest) e)
      ];
    }
