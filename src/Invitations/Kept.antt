-- ===== src/Invitations/Kept.antt =====
-- What a history of an invitation table keeps: the ledger, and each settled row.
use hustly_tasker.Prelude.{
  ok, update_where, exists_none, insert, ◌==◌, nat_eq, string_eq, bool_eq, option_eq, list_eq, ==→≡,
  Bool-cases, UniqueBy, mem-append_left, mem-append_one, mem-update_where_miss, insert_lem,
  insert-UniqueBy, ◌≡◌, sym, ap, ◌∙◌, subst, ◌≢◌, inl, inr, Bool, true, false, List, [], ◌∷◌, Memᴰ,
  arith,
}
use hustly_tasker.Invitations.Ledger.{
  settled-IsModest, dispatched-IsModest, update-IsLedger, IsLedger,
}
use hustly_tasker.Invitations.Records.{
  has_valid_marks, is_used_if_sent, clashes_on_email, clashes_on_column,
}
use hustly_tasker.Invitations.Steps.{
  expiry, revocation, acceptance, refusal, queueing, failure, success, unchanged, settles, issues,
  delivers, settled, IsAllowed, dispatched, is_sound, Steps-ids, Settlement, Dispatch, IsIssued,
  Steps,
}
use hustly_tasker.Store.{
  profile_status_eq, profile_role_eq, workspace_status_eq, workspace_role_eq, task_status_eq,
  task_priority_eq, deliverable_status_eq, review_status_eq, event_type_eq, invitation_role_eq,
  invitation_status_eq, delivery_status_eq, token_purpose_eq, token_status_eq,
  profile_invitation_key, account_security_token_key, InvitationStatus, ProfileInvitation, user_key,
  profile_key, profile_membership_key, workspace_key, workspace_member_key, task_key,
  task_assignment_key, task_comment_key, deliverable_key, review_key, audit_log_key,
  notification_key, period_eq, deadline_eq,
}

settled_sound :
    (how : Settlement) (row : ProfileInvitation)
    → row.status ≡ InvitationStatus.pending
    → IsAllowed how row
    → is_sound row ≡ true
    → is_sound (settled how row) ≡ true
unfolding settled is_sound has_valid_marks is_used_if_sent IsAllowed
settled_sound (expiry now) row pending allowed sound = ground arith
settled_sound (revocation now actor) row pending allowed sound = ground arith
settled_sound (acceptance now actor recipient) row pending (sent, _, _) sound = ground arith
settled_sound (refusal now actor recipient) row pending (sent, _, _) sound = ground arith

dispatched_sound :
    (how : Dispatch) (row : ProfileInvitation)
    → row.status ≡ InvitationStatus.pending
    → is_sound row ≡ true
    → is_sound (dispatched how row) ≡ true
unfolding dispatched is_sound has_valid_marks is_used_if_sent
dispatched_sound (queueing _) row pending sound = ground arith
dispatched_sound (failure _) row pending sound = ground arith
dispatched_sound (success _ _) row pending sound = ground arith

-- An old row does not clash with an issued one.
apart_columns :
    (row old : ProfileInvitation) (table : List ProfileInvitation)
    → IsIssued row table
    → Memᴰ old table
    → (old.id == row.id) ≡ false
    → old.token_digest ≢ row.token_digest
unfolding clashes_on_column
apart_columns row old table issued stored other same =
    let free = exists_none (clashes_on_column row) table issued.new_columns stored in
    let equal = (list_eq.equals_iff old.token_digest row.token_digest).1 same in
    absurd (ground arith)

apart_email :
    (row old : ProfileInvitation) (table : List ProfileInvitation)
    → IsIssued row table
    → Memᴰ old table
    → (old.id == row.id) ≡ false
    → old.status ≡ InvitationStatus.pending
    → old.profile_id ≡ row.profile_id
    → old.recipient_email_normalized ≢ row.recipient_email_normalized
unfolding clashes_on_email
apart_email row old table issued stored other pending profile same =
    let free = exists_none (clashes_on_email row) table issued.sole stored in
    let equal =
      (list_eq.equals_iff old.recipient_email_normalized row.recipient_email_normalized).1 same in
    absurd (ground arith)

issue-IsLedger :
    (row : ProfileInvitation) {table later : List ProfileInvitation}
    → IsLedger table
    → IsIssued row table
    → insert row table ≡ ok later
    → IsLedger later
issue-IsLedger row {table} {later} ledger issued put =
    let (grown, fresh) = insert_lem row table put in
    rw grown record {
      ids = rw (← grown) (insert-UniqueBy row table put ledger.ids);
      digests = λ x y mx my same. elim (mem-append_one table row mx) [
        | inl ox ↦ elim (mem-append_one table row my) [
          | inl oy ↦ ledger.digests x y ox oy same
          | inr ey ↦ absurd (
              apart_columns row x table issued ox (fresh x ox) (same ∙ ap (λ r. r.token_digest) ey))
        ]
        | inr ex ↦ elim (mem-append_one table row my) [
          | inl oy ↦ absurd (
              apart_columns row y table issued oy (fresh y oy)
                (sym same ∙ ap (λ r. r.token_digest) ex))
          | inr ey ↦ ex ∙ sym ey
        ]
      ];
      one_pending = λ x y mx my px py profile email. elim (mem-append_one table row mx) [
        | inl ox ↦ elim (mem-append_one table row my) [
          | inl oy ↦ ledger.one_pending x y ox oy px py profile email
          | inr ey ↦ absurd (
              apart_email row x table issued ox (fresh x ox) px
                (profile ∙ ap (λ r. r.profile_id) ey)
                (email ∙ ap (λ r. r.recipient_email_normalized) ey))
        ]
        | inr ex ↦ elim (mem-append_one table row my) [
          | inl oy ↦ absurd (
              apart_email row y table issued oy (fresh y oy) py
                (sym profile ∙ ap (λ r. r.profile_id) ex)
                (sym email ∙ ap (λ r. r.recipient_email_normalized) ex))
          | inr ey ↦ ex ∙ sym ey
        ]
      ];
      sound = λ x mx. elim (mem-append_one table row mx) [
        | inl ox ↦ ledger.sound x ox
        | inr ex ↦ ap is_sound ex ∙ issued.sound
      ];
    }

pub Steps-IsLedger :
    {before after : List ProfileInvitation} → IsLedger before → Steps before after → IsLedger after
Steps-IsLedger ledger unchanged = ledger
Steps-IsLedger ledger (settles how row earlier stored pending allowed) =
    let now = Steps-IsLedger ledger earlier in
    update-IsLedger (settled how) (λ r. r.id == row.id) (settled-IsModest how)
      (λ r m same sound.
        let e = now.ids r row m stored (==→≡ r.id row.id same) in
        settled_sound how r (ap (λ x. x.status) e ∙ pending) (subst (IsAllowed how) (sym e) allowed)
          sound)
      now
Steps-IsLedger ledger (issues row earlier issued put) =
    issue-IsLedger row (Steps-IsLedger ledger earlier) issued put
Steps-IsLedger ledger (delivers how test earlier only) =
    update-IsLedger (dispatched how) test (dispatched-IsModest how)
      (λ r m t sound. dispatched_sound how r (only r t) sound) (Steps-IsLedger ledger earlier)

-- A row that a write of pending rows does not touch.
kept :
    (f : ProfileInvitation → ProfileInvitation) (test : ProfileInvitation → Bool)
    (x : ProfileInvitation) (table : List ProfileInvitation)
    → (test x ≡ true → x.status ≡ InvitationStatus.pending)
    → x.status ≢ InvitationStatus.pending
    → Memᴰ x table
    → Memᴰ x (update_where test f table)
kept f test x table only over m = elim (Bool-cases (test x)) [
  | inl t ↦ absurd (over (only t))
  | inr t ↦ mem-update_where_miss test f table m t
]

pub Steps-keeps :
    {before after : List ProfileInvitation} (x : ProfileInvitation)
    → UniqueBy profile_invitation_key.key before
    → x.status ≢ InvitationStatus.pending
    → Steps before after
    → Memᴰ x before
    → Memᴰ x after
Steps-keeps x unique over unchanged m = m
Steps-keeps x unique over (settles {now} how row earlier stored pending _) m =
    let mx = Steps-keeps x unique over earlier m in
    kept (settled how) (λ r. r.id == row.id) x now
      (λ t.
        ap (λ r. r.status) (Steps-ids unique earlier x row mx stored (==→≡ x.id row.id t))
        ∙ pending)
      over mx
Steps-keeps x unique over (issues {now} row earlier _ put) m =
    subst (Memᴰ x) (sym (insert_lem row now put).0)
      (mem-append_left now (row ∷ []) (Steps-keeps x unique over earlier m))
Steps-keeps x unique over (delivers {now} how test earlier only) m =
    kept (dispatched how) test x now (only x) over (Steps-keeps x unique over earlier m)
