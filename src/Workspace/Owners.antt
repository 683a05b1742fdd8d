-- ===== src/Workspace/Owners.antt =====
-- `update_profile_membership` never takes the last active Owner from a Profile.

use hustly_tasker.Store.{
  profile_membership_key, profile_status_eq, profile_role_eq, workspace_status_eq,
  workspace_role_eq, task_status_eq, task_priority_eq, deliverable_status_eq, review_status_eq,
  event_type_eq, ProfileRole, Db, user_key, profile_key, workspace_key, workspace_member_key,
  task_key, task_assignment_key, task_comment_key, deliverable_key, review_key, audit_log_key,
  notification_key, period_eq, deadline_eq, ProfileMembership, ProfileStatus, Value, Request,
  FieldRules,
}
use hustly_tasker.Access.{
  user_is_active, is_profile_manager, resolve_profile_access_context, is_membership_of,
}
use hustly_tasker.Prelude.{
  exists, save, exists_intro, exists_elim, ◌==◌, nat_eq, string_eq, bool_eq, option_eq, list_eq,
  ==→≡, ==-refl, Bool-cases, UniqueBy, mem-update_where_hit, mem-update_where_miss, ℕ, ◌≡◌, inl,
  inr, Bool, true, false, ◌&&◌, ◌||◌, not, Memᴰ, arith, >>=-elim, or_raise-elim, guard-elim,
  ok-injective, first, first_sound, insert, Ref, value_or, String, sym, ap, Option, some, ok, subst,
  List,
}
use hustly_tasker.Workspace.Profiles.{
  removes_active_owner, is_other_owner, is_membership_in, update_profile_membership,
  write_profile_membership, removes_workspace_manager_status, owns_workspace,
}
use hustly_tasker.Workspace.Audit.{add_audit_log, write_profile_membership_audit}
use hustly_tasker.Workspace.Scope.{profile_by_id}
use hustly_tasker.Workspace.Clean.{full_clean_profile_membership}

-- An active Owner of this Profile, with an active account.
unfoldable pub is_active_owner : Db → ℕ → ProfileMembership → Bool
is_active_owner db profile_id row =
    row.profile_id == profile_id
    && row.role == ProfileRole.owner
    && row.is_active
    && user_is_active db row.user_id

abbrev pub HasActiveOwner : Db → ℕ → Type 0
HasActiveOwner db profile_id = exists (is_active_owner db profile_id) db.profile_memberships ≡ true

-- The check of `removes_active_owner` leaves an Owner after the write.
kept_owner :
    (db : Db) (m : ProfileMembership) (role : ProfileRole) (active : Bool) (p q : ℕ)
    → UniqueBy profile_membership_key.key db.profile_memberships
    → Memᴰ m db.profile_memberships
    → m.profile_id ≡ q
    → (not (removes_active_owner db m role active)
        || exists (is_other_owner db q m) db.profile_memberships)
      ≡ true
    → HasActiveOwner db p
    → exists
        (is_active_owner db p)
        (save m.id (λ row. record row { role = role; is_active = active }) db.profile_memberships)
      ≡ true
unfolding is_active_owner removes_active_owner is_other_owner
kept_owner db m role active p q unique stored at_q safe has =
    let f : ProfileMembership → ProfileMembership =
      λ row. record row { role = role; is_active = active } in
    let (o, mo, own) = exists_elim (is_active_owner db p) db.profile_memberships has in
    let other : (r : ProfileMembership)
        → Memᴰ r db.profile_memberships
        → is_active_owner db p r ≡ true
        → (r.id == m.id) ≡ false
        → exists (is_active_owner db p) (save m.id f db.profile_memberships) ≡ true =
      λ r mr pr away.
        exists_intro (is_active_owner db p) (save m.id f db.profile_memberships)
          (mem-update_where_miss (λ (r : ProfileMembership). r.id == m.id) f db.profile_memberships
            mr away)
          pr in
    elim (Bool-cases (o.id == m.id)) [
      | inr away ↦ other o mo own away
      | inl same ↦
          let is : o ≡ m = unique o m mo stored (==→≡ o.id m.id same) in
          let mine : is_active_owner db p m ≡ true = rw is at own in
          elim (Bool-cases (removes_active_owner db m role active)) [
            | inl gone ↦
                let (r, mr, pr) =
                  exists_elim (is_other_owner db q m) db.profile_memberships (ground arith) in
                other r mr (ground arith) (ground arith)
            | inr stays ↦
                exists_intro (is_active_owner db p) (save m.id f db.profile_memberships)
                  (mem-update_where_hit (λ (r : ProfileMembership). r.id == m.id) f
                    db.profile_memberships stored (==-refl m.id))
                  (ground arith)
          ]
    ]

-- The audit row leaves the users and the memberships as they are.
write_profile_membership_audit_lem :
    (request : Request) (id : ℕ) (membership : ProfileMembership) (action : String)
    (before after : Value) (db : Db) {last : Db}
    → write_profile_membership_audit request id membership action before after db ≡ ok last
    → (last.users ≡ db.users) × (last.profile_memberships ≡ db.profile_memberships)
unfolding write_profile_membership_audit add_audit_log
write_profile_membership_audit_lem request id membership action before after db h =
    >>=-elim (insert _ db.audit_logs) _ h λ table _ h₁. (
      ap (λ d. d.users) (sym (ok-injective h₁)),
      ap (λ d. d.profile_memberships) (sym (ok-injective h₁)),
    )

HasActiveOwner-same :
    (db after : Db) (p : ℕ) (table : List ProfileMembership)
    → after.users ≡ db.users
    → after.profile_memberships ≡ table
    → exists (is_active_owner db p) table ≡ true
    → HasActiveOwner after p
unfolding is_active_owner user_is_active
HasActiveOwner-same db after p table users memberships has = rw (users, memberships) has

-- The write, after the check.
write_profile_membership-HasActiveOwner :
    (rules : FieldRules) (request : Request) (m : ProfileMembership) (role : ProfileRole)
    (active : Bool) (db : Db) (p q : ℕ) {membership : ProfileMembership} {after : Db}
    → UniqueBy profile_membership_key.key db.profile_memberships
    → Memᴰ m db.profile_memberships
    → m.profile_id ≡ q
    → (not (removes_active_owner db m role active)
        || exists (is_other_owner db q m) db.profile_memberships)
      ≡ true
    → write_profile_membership rules request m role active db ≡ ok (membership, after)
    → HasActiveOwner db p
    → HasActiveOwner after p
unfolding write_profile_membership
write_profile_membership-HasActiveOwner rules request m role active db p q unique stored at_q safe h
      has =
    elim (Bool-cases (m.role == role && m.is_active == active)) [
      | inl same ↦
          subst (λ d. HasActiveOwner d p)
            (ap (λ q. q.1) (ok-injective (rw (write_profile_membership, same) at h))) has
      | inr other ↦
          >>=-elim (full_clean_profile_membership rules db _) _
            (rw (write_profile_membership, other) at h)
            λ _ _ h₁.
              >>=-elim (write_profile_membership_audit request _ _ _ _ _ _) _ h₁ λ last audited h₂.
                let (users, table) =
                  write_profile_membership_audit_lem request _ _ _ _ _ _ audited in
                subst (λ d. HasActiveOwner d p) (ap (λ q. q.1) (ok-injective h₂))
                  (HasActiveOwner-same db last p _ users table
                    (kept_owner db m role active p q unique stored at_q safe has))
    ]

-- If membership ids are unique, a Profile that has an active Owner with an active account still has
-- one after an `update_profile_membership` that succeeds.
pub update_profile_membership-HasActiveOwner :
    (rules : FieldRules) (request : Request) (profile_id membership_id : Ref)
    (role : Option ProfileRole) (is_active : Option Bool) (db : Db) (p : ℕ)
    {membership : ProfileMembership} {after : Db}
    → UniqueBy profile_membership_key.key db.profile_memberships
    → update_profile_membership rules request profile_id membership_id role is_active db
      ≡ ok (membership, after)
    → HasActiveOwner db p
    → HasActiveOwner after p
unfolding update_profile_membership is_membership_in is_active_owner user_is_active
update_profile_membership-HasActiveOwner rules request profile_id membership_id role is_active db p
      unique h has =
    >>=-elim (resolve_profile_access_context request.before (some request.actor) profile_id) _ h
      λ context _ h₁. or_raise-elim (profile_by_id db context.profile_id) _ _ h₁ λ profile _ h₂.
        guard-elim (profile.status == ProfileStatus.active) _ _ h₂ λ _ h₃.
          or_raise-elim (first (is_membership_of db context) db.profile_memberships) _ _ h₃
            λ actor _ h₄. guard-elim (is_profile_manager actor.role) _ _ h₄ λ _ h₅.
              or_raise-elim
                (first (is_membership_in membership_id context.profile_id) db.profile_memberships) _
                _ h₅
                λ m found h₆.
                  let (named, stored) =
                    first_sound (is_membership_in membership_id context.profile_id)
                      db.profile_memberships found in
                  let next_role = value_or role m.role in
                  let next_active = value_or is_active m.is_active in
                  guard-elim (m.is_active || not next_active) _ _ h₆ λ _ h₇.
                    guard-elim
                      (not (
                        next_role == ProfileRole.owner
                        && next_active
                        && not (user_is_active db m.user_id)))
                      _ _ h₇
                      λ _ h₈.
                        guard-elim
                          (not (
                            actor.role == ProfileRole.admin
                            && (not (m.role == ProfileRole.member)
                                || not (next_role == ProfileRole.member))))
                          _ _ h₈
                          λ _ h₉.
                            guard-elim
                              (not (removes_active_owner db m next_role next_active)
                                || exists (is_other_owner db context.profile_id m)
                                    db.profile_memberships)
                              _ _ h₉
                              λ safe hₐ.
                                guard-elim
                                  (not (
                                    removes_workspace_manager_status m next_role next_active
                                    && owns_workspace db context.profile_id m.user_id))
                                  _ _ hₐ
                                  λ _ hₑ.
                                    write_profile_membership-HasActiveOwner rules request m
                                      next_role next_active db p context.profile_id unique stored
                                      (ground arith) safe hₑ has
