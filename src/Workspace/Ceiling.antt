-- ===== src/Workspace/Ceiling.antt =====
-- Updating and revoking seats: an ordinary Profile member leaves the active Admin seats as they were.
use hustly_tasker.Store.{
  workspace_member_key, profile_status_eq, profile_role_eq, workspace_status_eq, workspace_role_eq,
  task_status_eq, task_priority_eq, deliverable_status_eq, review_status_eq, event_type_eq,
  ProfileRole, WorkspaceRole, Db, user_key, profile_key, profile_membership_key, workspace_key,
  task_key, task_assignment_key, task_comment_key, deliverable_key, review_key, audit_log_key,
  notification_key, period_eq, deadline_eq, WorkspaceMember, Value, Request, FieldRules, Workspace,
  invitation_role_eq, invitation_status_eq, delivery_status_eq, token_purpose_eq, token_status_eq,
  profile_invitation_key, account_security_token_key,
}
use hustly_tasker.Access.{can_mutate_workspace_members}
use hustly_tasker.Prelude.{
  save, ◌==◌, nat_eq, string_eq, bool_eq, option_eq, list_eq, ==→≡, Bool-cases, UniqueBy,
  mem-append_left, mem-append_one, update_where-mem, mem-update_where_miss, ℕ, ◌≡◌, ap, inl, inr,
  Bool, true, false, ◌&&◌, List, [], ◌∷◌, ◌++◌, Memᴰ, arith, >>=-elim, or_raise-elim, guard-elim,
  ok-injective, first, first_sound, insert, Ref, &&-true, String, sym, ◌∙◌, subst, ok,
}
use hustly_tasker.Workspace.Ordinary.{IsOrdinary, ordinary_scope}
use hustly_tasker.Workspace.Members.{
  is_within_ceiling, is_target_user, is_active_seat, is_active_seat_of, update_workspace_member,
  revoke_workspace_member,
}
use hustly_tasker.Workspace.Scope.{lock_workspace_mutation_context}
use hustly_tasker.Workspace.Audit.{add_audit_log, write_workspace_membership_audit}
use hustly_tasker.Workspace.Clean.{check_save_workspace_member}

-- An active seat with the Admin role.
unfoldable pub is_manager_seat : WorkspaceMember → Bool
is_manager_seat seat = seat.role == WorkspaceRole.admin && seat.is_active

-- The active Admin seats are the same in both tables.
abbrev pub SameManagers : (before after : List WorkspaceMember) → Type 0
SameManagers before after =
    (seat : WorkspaceMember)
    → is_manager_seat seat ≡ true
    → (Memᴰ seat before → Memᴰ seat after) × (Memᴰ seat after → Memᴰ seat before)

pub SameManagers-save :
    (f : WorkspaceMember → WorkspaceMember) (m : WorkspaceMember) (seats : List WorkspaceMember)
    → UniqueBy workspace_member_key.key seats
    → Memᴰ m seats
    → is_manager_seat m ≡ false
    → is_manager_seat (f m) ≡ false
    → SameManagers seats (save m.id f seats)
SameManagers-save f m seats unique stored was becomes seat manager = (
  (λ here. elim (Bool-cases (seat.id == m.id)) [
    | inl same ↦
        absurd (cc (ap is_manager_seat (unique seat m here stored (==→≡ seat.id m.id same))))
    | inr other ↦ mem-update_where_miss (λ (r : WorkspaceMember). r.id == m.id) f seats here other
  ]),
  λ here.
      let (old, mo, c) = update_where-mem (λ (r : WorkspaceMember). r.id == m.id) f seats here in
      elim c [
        | inl (same, e) ↦ absurd (
            cc (
              ap is_manager_seat e,
              ap (λ r. is_manager_seat (f r)) (unique old m mo stored (==→≡ old.id m.id same)),
            ))
        | inr (other, e) ↦ rw e mo
      ],
)

pub SameManagers-add :
    (new : WorkspaceMember) (seats : List WorkspaceMember)
    → is_manager_seat new ≡ false
    → SameManagers seats (seats ++ new ∷ [])
SameManagers-add new seats ordinary seat manager = (
  mem-append_left seats (new ∷ []),
  λ here. elim (mem-append_one seats new here) [
    | inl old ↦ old
    | inr e ↦ absurd (cc (ap is_manager_seat e))
  ],
)

-- Below the ceiling of an ordinary member no seat manages.
pub below_ceiling :
    (seat : WorkspaceMember) (actor_role : ProfileRole)
    → actor_role ≡ ProfileRole.member
    → is_within_ceiling actor_role seat.role ≡ true
    → is_manager_seat seat ≡ false
unfolding is_within_ceiling is_manager_seat
below_ceiling seat actor_role ordinary h = elim (Bool-cases (seat.role == WorkspaceRole.admin)) [
  | inl e ↦ absurd (ground (arith, ==→≡ seat.role WorkspaceRole.admin e))
  | inr e ↦ ground arith
]

pub write_workspace_membership_audit_lem :
    (request : Request) (id : ℕ) (workspace : Workspace) (member : WorkspaceMember)
    (action : String) (before after : Value) (db : Db) {last : Db}
    → write_workspace_membership_audit request id workspace member action before after db ≡ ok last
    → last.workspace_members ≡ db.workspace_members
unfolding write_workspace_membership_audit add_audit_log
write_workspace_membership_audit_lem request id workspace member action before after db h =
    >>=-elim (insert _ db.audit_logs) _ h
      λ table _ h₁. ap (λ d. d.workspace_members) (sym (ok-injective h₁))

-- If seat ids are unique and the actor's rows in the Profile of the call all have the Member role, an
-- `update_workspace_member` that succeeds leaves the active Admin seats as they were.
pub update_workspace_member-SameManagers :
    (rules : FieldRules) (request : Request) (profile_id workspace_id membership_id : Ref)
    (role : WorkspaceRole) (db : Db) {member : WorkspaceMember} {after : Db}
    → UniqueBy workspace_member_key.key db.workspace_members
    → IsOrdinary db request.actor profile_id
    → update_workspace_member rules request profile_id workspace_id membership_id role db
      ≡ ok (member, after)
    → SameManagers db.workspace_members after.workspace_members
unfolding update_workspace_member
update_workspace_member-SameManagers rules request profile_id workspace_id membership_id role db
      unique ordinary h =
    >>=-elim (lock_workspace_mutation_context request profile_id workspace_id db) _ h
      λ scope locked h₁. guard-elim (can_mutate_workspace_members db scope.context) _ _ h₁ λ _ h₂.
        or_raise-elim (first (is_active_seat membership_id scope.workspace.id) db.workspace_members)
          _ _ h₂
          λ seat _ h₃.
            or_raise-elim
              (first (is_target_user db scope.context.profile_id seat.user_id)
                db.profile_memberships)
              _ _ h₃
              λ target _ h₄.
                or_raise-elim
                  (first (is_active_seat_of membership_id scope.workspace.id target.user_id)
                    db.workspace_members)
                  _ _ h₄
                  λ m found h₅.
                    guard-elim
                      (is_within_ceiling scope.actor_membership.role m.role
                        && is_within_ceiling scope.actor_membership.role role)
                      _ _ h₅
                      λ allowed h₆.
                        let stored =
                          (first_sound
                            (is_active_seat_of membership_id scope.workspace.id target.user_id)
                            db.workspace_members found).1 in
                        let member_role =
                          ordinary_scope request profile_id workspace_id db locked ordinary in
                        let (old, new) =
                          &&-true (is_within_ceiling scope.actor_membership.role m.role)
                            (is_within_ceiling scope.actor_membership.role role) allowed in
                        let f : WorkspaceMember → WorkspaceMember =
                          λ row. record row { role = role } in
                        elim (Bool-cases (m.role == role)) [
                          | inl same ↦
                              subst (λ d. SameManagers db.workspace_members d.workspace_members)
                                (ap (λ p. p.1) (ok-injective (rw same at h₆)))
                                (λ s _. ((λ x. x), λ x. x))
                          | inr other ↦
                              >>=-elim (check_save_workspace_member rules db (f m)) _
                                (rw other at h₆)
                                λ _ _ h₇.
                                  >>=-elim (write_workspace_membership_audit request _ _ _ _ _ _ _)
                                    _ h₇
                                    λ last audited h₈.
                                      let frame =
                                        write_workspace_membership_audit_lem request _ _ _ _ _ _ _
                                          audited in
                                      subst (SameManagers db.workspace_members)
                                        (sym frame
                                          ∙ ap (λ p. p.1.workspace_members) (ok-injective h₈))
                                        (SameManagers-save f m db.workspace_members unique stored
                                          (below_ceiling m scope.actor_membership.role member_role
                                            old)
                                          (below_ceiling (f m) scope.actor_membership.role
                                            member_role new))
                        ]

-- If seat ids are unique and the actor's rows in the Profile of the call all have the Member role, a
-- `revoke_workspace_member` that succeeds leaves the active Admin seats as they were.
pub revoke_workspace_member-SameManagers :
    (rules : FieldRules) (request : Request) (profile_id workspace_id membership_id : Ref) (db : Db)
    {member : WorkspaceMember} {after : Db}
    → UniqueBy workspace_member_key.key db.workspace_members
    → IsOrdinary db request.actor profile_id
    → revoke_workspace_member rules request profile_id workspace_id membership_id db
      ≡ ok (member, after)
    → SameManagers db.workspace_members after.workspace_members
unfolding revoke_workspace_member
revoke_workspace_member-SameManagers rules request profile_id workspace_id membership_id db unique
      ordinary h =
    >>=-elim (lock_workspace_mutation_context request profile_id workspace_id db) _ h
      λ scope locked h₁. guard-elim (can_mutate_workspace_members db scope.context) _ _ h₁ λ _ h₂.
        or_raise-elim (first (is_active_seat membership_id scope.workspace.id) db.workspace_members)
          _ _ h₂
          λ m found h₃.
            or_raise-elim
              (first (is_target_user db scope.context.profile_id m.user_id) db.profile_memberships)
              _ _ h₃
              λ target _ h₄.
                guard-elim (is_within_ceiling scope.actor_membership.role m.role) _ _ h₄ λ old h₅.
                  let stored =
                    (first_sound (is_active_seat membership_id scope.workspace.id)
                      db.workspace_members found).1 in
                  let member_role =
                    ordinary_scope request profile_id workspace_id db locked ordinary in
                  let f : WorkspaceMember → WorkspaceMember =
                    λ row. record row { is_active = false } in
                  >>=-elim (check_save_workspace_member rules db (f m)) _ h₅ λ _ _ h₆.
                    >>=-elim (write_workspace_membership_audit request _ _ _ _ _ _ _) _ h₆
                      λ last audited h₇.
                        let frame =
                          write_workspace_membership_audit_lem request _ _ _ _ _ _ _ audited in
                        subst (SameManagers db.workspace_members)
                          (sym frame ∙ ap (λ p. p.1.workspace_members) (ok-injective h₇))
                          (SameManagers-save f m db.workspace_members unique stored
                            (below_ceiling m scope.actor_membership.role member_role old)
                            (below_ceiling (f m) scope.actor_membership.role member_role old))
