-- ===== src/Invitations/Ledger.antt =====
-- What the steps of an invitation table keep.
use hustly_tasker.Prelude.{
  update_where, UniqueBy, update_where-mem, update_where-UniqueBy, ◌≡◌, refl, sym, ap, ◌∙◌, ◌⊎◌,
  inl, inr, Bool, true, false, List, Memᴰ, arith,
}
use hustly_tasker.Invitations.Steps.{
  settled, dispatched, is_sound, Settlement, Dispatch, expiry, queueing, revocation, failure,
  acceptance, success, refusal,
}
use hustly_tasker.Store.{profile_invitation_key, InvitationStatus, ProfileInvitation}

-- No two pending rows share a Profile and an address.
abbrev pub OnePending : List ProfileInvitation → Type 0
OnePending table =
    (x y : ProfileInvitation)
    → Memᴰ x table
    → Memᴰ y table
    → x.status ≡ InvitationStatus.pending
    → y.status ≡ InvitationStatus.pending
    → x.profile_id ≡ y.profile_id
    → x.recipient_email_normalized ≡ y.recipient_email_normalized
    → x ≡ y

-- Unique ids and digests, one pending invitation for a Profile and an address, and in each row the
-- columns that go with its status.
pub record IsLedger (table : List ProfileInvitation) : Type 0 where
  pub ids : UniqueBy profile_invitation_key.key table
  pub digests : UniqueBy (λ (row : ProfileInvitation). row.token_digest) table
  pub one_pending : OnePending table
  pub sound : (row : ProfileInvitation) → Memᴰ row table → is_sound row ≡ true

-- What a change keeps of a row, if it makes no row pending.
pub record IsModest (change : ProfileInvitation → ProfileInvitation) : Type 0 where
  pub id : (row : ProfileInvitation) → (change row).id ≡ row.id
  pub digest : (row : ProfileInvitation) → (change row).token_digest ≡ row.token_digest
  pub profile : (row : ProfileInvitation) → (change row).profile_id ≡ row.profile_id
  pub email :
      (row : ProfileInvitation)
      → (change row).recipient_email_normalized ≡ row.recipient_email_normalized
  pub pending :
      (row : ProfileInvitation)
      → (change row).status ≡ InvitationStatus.pending
      → row.status ≡ InvitationStatus.pending

pub settled-IsModest : (how : Settlement) → IsModest (settled how)
unfolding settled
settled-IsModest (expiry _) = record {
  id = λ _. refl;
  digest = λ _. refl;
  profile = λ _. refl;
  email = λ _. refl;
  pending = λ _ h. absurd (ground arith);
}
settled-IsModest (revocation _ _) = record {
  id = λ _. refl;
  digest = λ _. refl;
  profile = λ _. refl;
  email = λ _. refl;
  pending = λ _ h. absurd (ground arith);
}
settled-IsModest (acceptance _ _ _) = record {
  id = λ _. refl;
  digest = λ _. refl;
  profile = λ _. refl;
  email = λ _. refl;
  pending = λ _ h. absurd (ground arith);
}
settled-IsModest (refusal _ _ _) = record {
  id = λ _. refl;
  digest = λ _. refl;
  profile = λ _. refl;
  email = λ _. refl;
  pending = λ _ h. absurd (ground arith);
}

pub dispatched-IsModest : (how : Dispatch) → IsModest (dispatched how)
unfolding dispatched
dispatched-IsModest (queueing _) = record {
  id = λ _. refl;
  digest = λ _. refl;
  profile = λ _. refl;
  email = λ _. refl;
  pending = λ _ h. h;
}
dispatched-IsModest (failure _) = record {
  id = λ _. refl;
  digest = λ _. refl;
  profile = λ _. refl;
  email = λ _. refl;
  pending = λ _ h. h;
}
dispatched-IsModest (success _ _) = record {
  id = λ _. refl;
  digest = λ _. refl;
  profile = λ _. refl;
  email = λ _. refl;
  pending = λ _ h. h;
}

-- The row from which a written table has one of its rows.
pub record Origin (change : ProfileInvitation → ProfileInvitation) (test : ProfileInvitation → Bool)
    (table : List ProfileInvitation) (y : ProfileInvitation) : Type 0 where
  pub row : ProfileInvitation
  pub stored : Memᴰ row table
  pub fate : ((test row ≡ true) × (y ≡ change row)) ⊎ ((test row ≡ false) × (y ≡ row))

origin :
    (change : ProfileInvitation → ProfileInvitation) (test : ProfileInvitation → Bool)
    (table : List ProfileInvitation) {y : ProfileInvitation}
    → Memᴰ y (update_where test change table)
    → Origin change test table y
origin change test table m =
    let (x, stored, fate) = update_where-mem test change table m in
    record { row = x; stored = stored; fate = fate }

-- A column that the change keeps is the same in the row and its origin.
Origin-column :
    {B : Type 0} (change : ProfileInvitation → ProfileInvitation) (test : ProfileInvitation → Bool)
    (table : List ProfileInvitation) {y : ProfileInvitation} (column : ProfileInvitation → B)
    → ((row : ProfileInvitation) → column (change row) ≡ column row)
    → (from : Origin change test table y) → column y ≡ column from.row
Origin-column change test table column keeps from = elim from.fate [
  | inl (_, e) ↦ ap column e ∙ keeps from.row
  | inr (_, e) ↦ ap column e
]

Origin-pending :
    (change : ProfileInvitation → ProfileInvitation) (test : ProfileInvitation → Bool)
    (table : List ProfileInvitation) {y : ProfileInvitation}
    → IsModest change
    → (from : Origin change test table y) → y.status ≡ InvitationStatus.pending
    → from.row.status ≡ InvitationStatus.pending
Origin-pending change test table modest from h = elim from.fate [
  | inl (_, e) ↦ modest.pending from.row (ap (λ r. r.status) (sym e) ∙ h)
  | inr (_, e) ↦ ap (λ r. r.status) (sym e) ∙ h
]

-- Two rows with the same origin are the same row.
Origin-unique :
    (change : ProfileInvitation → ProfileInvitation) (test : ProfileInvitation → Bool)
    (table : List ProfileInvitation) {y z : ProfileInvitation} (of_y : Origin change test table y)
    (of_z : Origin change test table z)
    → of_y.row ≡ of_z.row
    → y ≡ z
Origin-unique change test table of_y of_z same = elim of_y.fate [
  | inl (ty, ey) ↦ elim of_z.fate [
    | inl (tz, ez) ↦ ey ∙ ap change same ∙ sym ez
    | inr (tz, ez) ↦ absurd (cc (ap test same))
  ]
  | inr (ty, ey) ↦ elim of_z.fate [
    | inl (tz, ez) ↦ absurd (cc (ap test same))
    | inr (tz, ez) ↦ ey ∙ same ∙ sym ez
  ]
]

-- A modest change that keeps rows sound keeps a ledger.
pub update-IsLedger :
    (change : ProfileInvitation → ProfileInvitation) (test : ProfileInvitation → Bool)
    {table : List ProfileInvitation}
    → IsModest change
    → ((row : ProfileInvitation)
        → Memᴰ row table
        → test row ≡ true
        → is_sound row ≡ true
        → is_sound (change row) ≡ true)
    → IsLedger table
    → IsLedger (update_where test change table)
update-IsLedger change test {table} modest keeps ledger = record {
  ids = update_where-UniqueBy test change table modest.id ledger.ids;
  digests = λ x y mx my same.
      let of_x = origin change test table mx in
      let of_y = origin change test table my in
      let digest = λ (row : ProfileInvitation). row.token_digest in
      Origin-unique change test table of_x of_y (
        ledger.digests of_x.row of_y.row of_x.stored of_y.stored (
          sym (Origin-column change test table digest modest.digest of_x)
          ∙ same
          ∙ Origin-column change test table digest modest.digest of_y));
  one_pending = λ x y mx my px py same_profile same_email.
      let of_x = origin change test table mx in
      let of_y = origin change test table my in
      let profile = λ (row : ProfileInvitation). row.profile_id in
      let email = λ (row : ProfileInvitation). row.recipient_email_normalized in
      Origin-unique change test table of_x of_y (
        ledger.one_pending of_x.row of_y.row of_x.stored of_y.stored
          (Origin-pending change test table modest of_x px)
          (Origin-pending change test table modest of_y py)
          (sym (Origin-column change test table profile modest.profile of_x)
            ∙ same_profile
            ∙ Origin-column change test table profile modest.profile of_y)
          (sym (Origin-column change test table email modest.email of_x)
            ∙ same_email
            ∙ Origin-column change test table email modest.email of_y));
  sound = λ x mx.
      let of_x = origin change test table mx in
      let was = ledger.sound of_x.row of_x.stored in
      elim of_x.fate [
        | inl (t, e) ↦ ap is_sound e ∙ keeps of_x.row of_x.stored t was
        | inr (t, e) ↦ ap is_sound e ∙ was
      ];
}
