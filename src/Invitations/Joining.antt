-- ===== src/Invitations/Joining.antt =====
-- The membership that an acceptance gives.
use hustly_tasker.Prelude.{
  returned, ok, >>=-elim, guard-elim, ok-injective, exists, rows, rows-mem, mem-rows, insert, ◌==◌,
  nat_eq, string_eq, bool_eq, option_eq, list_eq, ==→≡, UniqueBy, mem-append_last, mem-append_one,
  update_where-mem, mem-update_where_hit, insert_lem, ℕ, ◌≡◌, refl, sym, ap, ◌∙◌, subst, inl, inr,
  true, false, ◌&&◌, not, List, [], ◌∷◌, Memᴰ, arith, Text, uncons, ◌≢◌, some, raised_not,
}
use hustly_tasker.Invitations.Records.{role_of}
use hustly_tasker.Store.{
  profile_status_eq, profile_role_eq, workspace_status_eq, workspace_role_eq, task_status_eq,
  task_priority_eq, deliverable_status_eq, review_status_eq, event_type_eq, ProfileRole,
  invitation_role_eq, invitation_status_eq, delivery_status_eq, token_purpose_eq, token_status_eq,
  profile_invitation_key, account_security_token_key, ProfileInvitation, Db, Request, FieldRules,
  user_key, profile_key, profile_membership_key, workspace_key, workspace_member_key, task_key,
  task_assignment_key, task_comment_key, deliverable_key, review_key, audit_log_key,
  notification_key, period_eq, deadline_eq, ProfileMembership, InvitationStatus, Platform,
}
use hustly_tasker.Workspace.{full_clean_profile_membership}
use hustly_tasker.Invitations.Locking.{lock_usable_token-IsLocked}
use hustly_tasker.Invitations.SingleUse.{lookup_token_candidate-digest}
use hustly_tasker.Invitations.Accepting.{accept_usable-IsAccepted}
use hustly_tasker.Invitations.Answering.{
  join_profile, is_row_of, accept_usable, accept_profile_invitation, Joining,
}
use hustly_tasker.Invitations.Tokens.{lookup_token_candidate, lock_usable_token, LockedToken}

-- What the memberships are after an acceptance that gave `membership`.
pub record IsJoined (request : Request) (role : ProfileRole) (profile_id : ℕ)
    (membership : ProfileMembership) (table : List ProfileMembership) : Type 0 where
  pub profile : membership.profile_id ≡ profile_id
  pub user : membership.user_id ≡ request.actor
  pub given : membership.role ≡ role
  pub active : membership.is_active ≡ true
  pub stored : Memᴰ membership table
  pub only :
      (row : ProfileMembership)
      → Memᴰ row table
      → is_row_of profile_id request.actor row ≡ true
      → row.is_active ≡ true
      → row ≡ membership

none_there : {A : Type 0} (x : A) → ¬ Memᴰ x []
none_there x m = elim m [ ]

sole : {A : Type 0} {x y : A} → Memᴰ x (y ∷ []) → x ≡ y
sole m = elim (uncons m) [ inl e ↦ e | inr m' ↦ elim m' [ ] ]

elsewhere : (x y : ProfileMembership) → (x.id == y.id) ≡ false → x ≢ y
elsewhere x y other same = ground (arith, ap (λ r. r.id) same)

given_same : {A : Type 0} {a b : A} → returned a ≡ returned b → a ≡ b
given_same h = cc

of_user :
    (profile_id user_id : ℕ) (row : ProfileMembership)
    → is_row_of profile_id user_id row ≡ true
    → row.user_id ≡ user_id
unfolding is_row_of
of_user profile_id user_id row own = ==→≡ row.user_id user_id (ground arith)

of_profile :
    (profile_id user_id : ℕ) (row : ProfileMembership)
    → is_row_of profile_id user_id row ≡ true
    → row.profile_id ≡ profile_id
unfolding is_row_of
of_profile profile_id user_id row own = ==→≡ row.profile_id profile_id (ground arith)

-- The actor's rows are all inactive, so a row that is active is the new one.
join_profile-IsJoined :
    (rules : FieldRules) (request : Request) (invitation : ProfileInvitation) (profile_id : ℕ)
    (found : List ProfileMembership) (db : Db) {joining : Joining} {after : Db}
    → UniqueBy profile_membership_key.key db.profile_memberships
    → found ≡ rows (is_row_of profile_id request.actor) db.profile_memberships
    → exists (λ (row : ProfileMembership). row.is_active) found ≡ false
    → join_profile rules request invitation profile_id found db ≡ ok (joining, after)
    → IsJoined request
        (role_of invitation.requested_role)
        profile_id
        joining.membership
        after.profile_memberships
unfolding join_profile
join_profile-IsJoined rules request invitation profile_id [] db unique all free h =
    let of_actor = is_row_of profile_id request.actor in
    >>=-elim (full_clean_profile_membership rules db _) _ h λ _ _ h₁.
      >>=-elim (insert _ db.profile_memberships) _ h₁ λ table put h₂.
        let (grown, _) = insert_lem _ db.profile_memberships put in
        subst
          (λ p.
            IsJoined request (role_of invitation.requested_role) profile_id p.0.membership
              p.1.profile_memberships)
          (ok-injective h₂)
          record {
            profile = refl;
            user = refl;
            given = refl;
            active = refl;
            stored = subst (Memᴰ _) (sym grown) (mem-append_last db.profile_memberships _);
            only = λ row m own active.
                elim (mem-append_one db.profile_memberships _ (subst (Memᴰ row) grown m)) [
                  | inl old ↦ absurd (
                      none_there row (
                        subst (Memᴰ row) (sym all)
                          (mem-rows of_actor db.profile_memberships old own)))
                  | inr new ↦ new
                ];
          }
join_profile-IsJoined rules request invitation profile_id (seat ∷ []) db unique all free h =
    let of_actor = is_row_of profile_id request.actor in
    let f : ProfileMembership → ProfileMembership = λ row. record row { is_active = true } in
    let (stored, own) =
      rows-mem of_actor db.profile_memberships (subst (Memᴰ seat) all (Memᴰ.head refl)) in
    guard-elim
      (not (seat.role == ProfileRole.owner) && seat.role == role_of invitation.requested_role) _ _ h
      λ fits h₁. >>=-elim (full_clean_profile_membership rules db (f seat)) _ h₁ λ _ _ h₂.
        subst
          (λ p.
            IsJoined request (role_of invitation.requested_role) profile_id p.0.membership
              p.1.profile_memberships)
          (ok-injective h₂)
          record {
            profile = of_profile profile_id request.actor seat own;
            user = of_user profile_id request.actor seat own;
            given = ==→≡ seat.role (role_of invitation.requested_role) (ground arith);
            active = refl;
            stored =
                mem-update_where_hit (λ (r : ProfileMembership). r.id == seat.id) f
                  db.profile_memberships stored (ground arith);
            only = λ row m mine active.
                let (x, mx, fate) =
                  update_where-mem (λ (r : ProfileMembership). r.id == seat.id) f
                    db.profile_memberships m in
                elim fate [
                  | inl (same, e) ↦ e ∙ ap f (unique x seat mx stored (==→≡ x.id seat.id same))
                  | inr (other, e) ↦ absurd (
                      elsewhere x seat other (
                        sole (
                          subst (Memᴰ x) (sym all) (
                            mem-rows of_actor db.profile_memberships mx
                              (ap of_actor (sym e) ∙ mine)))))
                ];
          }
join_profile-IsJoined rules request invitation profile_id (seat ∷ other ∷ more) db unique all free
      h =
    cc

moved :
    (request : Request) (locked : LockedToken) {given membership : ProfileMembership}
    {role : ProfileRole} {joined last after : List ProfileMembership}
    → last ≡ joined
    → locked.invitation.profile_id ≡ locked.profile.id
    → given ≡ membership
    → last ≡ after
    → IsJoined request role locked.profile.id given joined
    → IsJoined request role locked.invitation.profile_id membership after
moved request locked {given} {membership} {role} {joined = table} {after} kept tenant same last
      joined =
    subst (λ i. IsJoined request role i membership after) (sym tenant)
      (subst (λ m. IsJoined request role locked.profile.id m after) same
        (subst (IsJoined request role locked.profile.id given) (sym kept ∙ last) joined))

-- If membership ids are unique, an `accept_profile_invitation` that returns a membership gives the
-- actor an active membership of the Profile, and with the role, of a stored pending invitation with
-- this token's digest, and the actor has no other active membership of that Profile.
pub accept_profile_invitation-IsJoined :
    (platform : Platform) (rules : FieldRules) (request : Request) (raw_token : Text) (db : Db)
    (membership : ProfileMembership) (after : Db)
    → UniqueBy profile_membership_key.key db.profile_memberships
    → accept_profile_invitation platform rules request (some raw_token) db
      ≡ ok (returned membership, after)
    → (invitation : ProfileInvitation) × Memᴰ invitation db.profile_invitations
      × (invitation.status ≡ InvitationStatus.pending)
      × (invitation.token_digest ≡ platform.sha256_hexdigest raw_token)
      × IsJoined request
          (role_of invitation.requested_role)
          invitation.profile_id
          membership
          after.profile_memberships
unfolding accept_profile_invitation
accept_profile_invitation-IsJoined platform rules request raw_token db membership after unique h =
    >>=-elim (lookup_token_candidate platform request.before (some raw_token)) _ h
      λ candidate looked h₁.
        >>=-elim (lock_usable_token platform request candidate db) _ h₁ λ (locked, checked) lock h₂.
          let facts = lock_usable_token-IsLocked platform request candidate db lock in
          elim facts.fate [
            | inl expired ↦ absurd (raised_not (ap (λ p. p.0) (ok-injective (rw expired at h₂))))
            | inr (usable, same, _) ↦
                >>=-elim (accept_usable rules request locked.profile locked.invitation checked) _
                  (rw usable at h₂)
                  λ (given, last) accepted h₃.
                    let e = ok-injective h₃ in
                    let how =
                      accept_usable-IsAccepted rules request locked.profile locked.invitation
                        checked accepted in
                    let joined =
                      join_profile-IsJoined rules request locked.invitation locked.profile.id _
                        checked
                        (subst (λ d. UniqueBy profile_membership_key.key d.profile_memberships)
                          (sym same) unique)
                        refl how.free how.join in
                    (
                      locked.invitation,
                      facts.stored,
                      facts.pending,
                      facts.digest
                          ∙ lookup_token_candidate-digest platform request.before raw_token looked,
                      moved request locked how.memberships facts.tenant
                          (how.result ∙ given_same (ap (λ p. p.0) e))
                          (ap (λ p. p.1.profile_memberships) e) joined,
                    )
          ]
