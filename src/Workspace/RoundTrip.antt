-- ===== src/Workspace/RoundTrip.antt =====
-- Archiving a Profile and restoring it gives the Profiles back.
use hustly_tasker.Prelude.{
  ok, >>=-elim, or_raise-elim, guard-elim, ok-injective, update_where, first, save, first_sound,
  Ref, uuid, ◌==◌, nat_eq, string_eq, bool_eq, option_eq, list_eq, ==→≡, Bool-cases, UniqueBy,
  save-UniqueBy, ◌≡◌, refl, sym, ap, ◌∙◌, subst, inl, inr, Bool, true, some, List, [], ◌∷◌, Memᴰ,
  arith,
}
use hustly_tasker.Access.{can_manage_profile_lifecycle, resolve_profile_access_context}
use hustly_tasker.Store.{
  profile_status_eq, profile_role_eq, workspace_status_eq, workspace_role_eq, task_status_eq,
  task_priority_eq, deliverable_status_eq, review_status_eq, event_type_eq, ProfileStatus,
  invitation_role_eq, invitation_status_eq, delivery_status_eq, token_purpose_eq, token_status_eq,
  profile_invitation_key, account_security_token_key, Db, Request, FieldRules, user_key,
  profile_key, profile_membership_key, workspace_key, workspace_member_key, task_key,
  task_assignment_key, task_comment_key, deliverable_key, review_key, audit_log_key,
  notification_key, period_eq, deadline_eq, Profile,
}
use hustly_tasker.Workspace.Audit.{write_profile_audit}
use hustly_tasker.Workspace.Logged.{write_profile_audit-SameButLogs}
use hustly_tasker.Workspace.Profiles.{
  is_owner_row, set_profile_status, archive_profile, restore_profile,
}
use hustly_tasker.Workspace.Scope.{profile_by_id}

module _ {A : Type 0} (test : A → Bool) where
  -- Two writes of the same rows that cancel on them.
  update-update :
      (f g : A → A) (table : List A)
      → ((x : A) → Memᴰ x table → test x ≡ true → (test (g x) ≡ true) × (f (g x) ≡ x))
      → update_where test f (update_where test g table) ≡ table
  unfolding update_where
  update-update f g [] cancels = refl
  update-update f g (x ∷ table) cancels =
      let rest = update-update f g table (λ y m. cancels y (Memᴰ.tail m)) in
      elim (Bool-cases (test x)) [
        | inl hit ↦
            let (again, back) = cancels x (Memᴰ.head refl) hit in ground (arith, rest, again, back)
        | inr miss ↦ ground (arith, rest)
      ]

  -- A write that changes none of the rows that it hits.
  update-same :
      (f : A → A) (table : List A)
      → ((x : A) → Memᴰ x table → test x ≡ true → f x ≡ x)
      → update_where test f table ≡ table
  unfolding update_where
  update-same f [] idle = refl
  update-same f (x ∷ table) idle =
      let rest = update-same f table (λ y m. idle y (Memᴰ.tail m)) in
      elim (Bool-cases (test x)) [
        | inl hit ↦ ground (arith, rest, idle x (Memᴰ.head refl) hit)
        | inr miss ↦ ground (arith, rest)
      ]

set_status : ProfileStatus → Profile → Profile
set_status status row = record row { status = status }

-- What a change of status that succeeds has written.
record IsWritten (status : ProfileStatus) (db : Db) (profile : Profile) (after : Db) : Type 0 where
  old : Profile
  stored : Memᴰ old db.profiles
  result : profile ≡ set_status status old
  profiles : after.profiles ≡ save old.id (set_status status) db.profiles

set_status-same :
    (status : ProfileStatus) (row : Profile) → row.status ≡ status → set_status status row ≡ row
unfolding set_status
set_status-same status row same = ap (λ s. record row { status = s }) (sym same)

set_profile_status-IsWritten :
    (rules : FieldRules) (request : Request) (profile_id : Ref) (status : ProfileStatus) (db : Db)
    {profile : Profile} {after : Db}
    → UniqueBy profile_key.key db.profiles
    → set_profile_status rules request profile_id status db ≡ ok (profile, after)
    → IsWritten status db profile after
unfolding set_profile_status profile_by_id set_status
set_profile_status-IsWritten rules request profile_id status db unique h =
    >>=-elim (resolve_profile_access_context request.before (some request.actor) profile_id) _ h
      λ context _ h₁.
        or_raise-elim (first (λ (row : Profile). row.id == context.profile_id) db.profiles) _ _ h₁
          λ old found h₂.
            let stored =
              (first_sound (λ (row : Profile). row.id == context.profile_id) db.profiles found).1 in
            or_raise-elim (first (is_owner_row db context) db.profile_memberships) _ _ h₂ λ _ _ h₃.
              >>=-elim (resolve_profile_access_context db (some request.actor) (uuid old.id)) _ h₃
                λ locked _ h₄. guard-elim (can_manage_profile_lifecycle db locked) _ _ h₄ λ _ h₅.
                  elim (Bool-cases (old.status == status)) [
                    | inl same ↦
                        let e = ok-injective (rw same at h₅) in
                        let idle = set_status-same status old (==→≡ old.status status same) in
                        record {
                          old = old;
                          stored = stored;
                          result = sym (ap (λ p. p.0) e) ∙ sym idle;
                          profiles =
                              sym (ap (λ p. p.1.profiles) e)
                              ∙ sym (
                                  update-same (λ (r : Profile). r.id == old.id) (set_status status)
                                    db.profiles
                                    λ x m hit.
                                      let here = unique x old m stored (==→≡ x.id old.id hit) in
                                      ap (set_status status) here ∙ idle ∙ sym here);
                        }
                    | inr other ↦
                        guard-elim (rules.profile (set_status status old)) _ _ (rw other at h₅)
                          λ _ h₆.
                            >>=-elim (write_profile_audit request _ _ _ _ _ _) _ h₆ λ last audit h₇.
                              let e = ok-injective h₇ in
                              record {
                                old = old;
                                stored = stored;
                                result = sym (ap (λ p. p.0) e);
                                profiles =
                                    sym (ap (λ p. p.1.profiles) e)
                                    ∙ (write_profile_audit-SameButLogs request _ _ _ _ _ _
                                        audit).profiles;
                              }
                  ]

-- If Profile ids are unique and the Profile that `archive_profile` returns was active, then a
-- `restore_profile` that later returns the Profile with that id gives the table of Profiles back.
pub archive_profile-restore_profile :
    (rules : FieldRules) (by later : Request) (profile_id again : Ref) (db archived restored : Db)
    (profile result : Profile)
    → UniqueBy profile_key.key db.profiles
    → ((row : Profile)
        → Memᴰ row db.profiles
        → row.id ≡ profile.id
        → row.status ≡ ProfileStatus.active)
    → archive_profile rules by profile_id db ≡ ok (profile, archived)
    → restore_profile rules later again archived ≡ ok (result, restored)
    → result.id ≡ profile.id
    → restored.profiles ≡ db.profiles
unfolding archive_profile restore_profile set_status
archive_profile-restore_profile rules by later profile_id again db archived restored profile result
      unique active h k same =
    let one = set_profile_status-IsWritten rules by profile_id ProfileStatus.archived db unique h in
    let kept = subst (UniqueBy profile_key.key) (sym one.profiles) (
      save-UniqueBy one.old.id (set_status ProfileStatus.archived) db.profiles (λ _. refl)
        unique) in
    let two = set_profile_status-IsWritten rules later again ProfileStatus.active archived kept k in
    let id_one : profile.id ≡ one.old.id = ap (λ p. p.id) one.result in
    let id_two : result.id ≡ two.old.id = ap (λ p. p.id) two.result in
    two.profiles
    ∙ ap (λ i. save i (set_status ProfileStatus.active) archived.profiles)
        (sym id_two ∙ same ∙ id_one)
    ∙ ap (save one.old.id (set_status ProfileStatus.active)) one.profiles
    ∙ update-update (λ (r : Profile). r.id == one.old.id) (set_status ProfileStatus.active)
        (set_status ProfileStatus.archived) db.profiles
        λ x m hit. (
          hit,
          set_status-same ProfileStatus.active x
              (active x m (==→≡ x.id one.old.id hit ∙ sym id_one)),
        )
