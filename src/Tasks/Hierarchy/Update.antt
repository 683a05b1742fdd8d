-- ===== src/Tasks/Hierarchy/Update.antt =====
-- `update_task` keeps the Tasks a forest of bounded height, also when it moves a subtree.
use hustly_tasker.Tasks.Hierarchy.Chains.{Rooted, root, under, climb-Rooted}
use hustly_tasker.Store.{
  task_key, profile_status_eq, profile_role_eq, workspace_status_eq, workspace_role_eq,
  task_status_eq, task_priority_eq, deliverable_status_eq, review_status_eq, event_type_eq,
  user_key, profile_key, profile_membership_key, workspace_key, workspace_member_key,
  task_assignment_key, task_comment_key, deliverable_key, review_key, audit_log_key,
  notification_key, period_eq, deadline_eq, Task, Db, FieldRules, Request,
}
use hustly_tasker.Prelude.{
  save, ◌==◌, nat_eq, string_eq, bool_eq, option_eq, list_eq, ==-refl, Bool-cases, UniqueBy,
  update_where-mem, mem-update_where_hit, mem-update_where_miss, ℕ, ◌≡◌, sym, ap, ◌∙◌, ◌⊎◌, inl,
  inr, false, Option, List, [], Memᴰ, arith, ◌+◌, ◌≤◌, refl, subst, ◌∷◌, >>=-elim, guard-elim,
  first_unique, some, ok, ok-injective, Ref, if◌then◌else◌, ==→≡, true, ◌&&◌, not,
}
use hustly_tasker.Tasks.Planning.{
  write_edited, next_parent, edited_task, is_unchanged, update_task, TaskChanges,
}
use hustly_tasker.Tasks.Hierarchy.Forest.{IsForest}
use hustly_tasker.Tasks.Hierarchy.Paths.{
  Rooted-save, split_chain, Below-workspace, Below-Rooted, Below,
}
use hustly_tasker.Tasks.Clean.{
  max_hierarchy_depth, task_by_id, climb, descend, clean_deadline, is_moved, clean_task,
  full_clean_task,
}
use hustly_tasker.Tasks.Effects.{create_audit_log-SameButLogs, lock_task_lem}
use hustly_tasker.Tasks.Hierarchy.Moved.{descend_bound}
use hustly_tasker.Tasks.Saves.{lock_task, create_audit_log, save_task, require_manager}
use hustly_tasker.Workspace.{lock_workspace_mutation_context}

module _ (tasks : List Task) (x edited : Task) (unique : UniqueBy task_key.key tasks)
    (stored : Memᴰ x tasks) where
  abbrev written : List Task
  written = save x.id (write_edited edited) tasks

  -- The rows after the write: the edited one, and the others as they were.
  written-mem :
      {t : Task}
      → Memᴰ t written
      → (t ≡ write_edited edited x) ⊎ (Memᴰ t tasks × ((t.id == x.id) ≡ false))
  unfolding write_edited
  written-mem {t} m =
      let (old, mo, c) =
        update_where-mem (λ (r : Task). r.id == x.id) (write_edited edited) tasks m in
      elim c [
        | inl (same, e) ↦ inl (e ∙ ap (write_edited edited) (unique old x mo stored (ground arith)))
        | inr (other, e) ↦ inr (rw e mo, rw e other)
      ]

  written-hit : Memᴰ (write_edited edited x) written
  unfolding write_edited
  written-hit =
      mem-update_where_hit (λ (r : Task). r.id == x.id) (write_edited edited) tasks stored
        (==-refl x.id)

  -- Without another parent, chains stay as they are.
  Rooted-unmoved :
      {ws : ℕ} {from : Option ℕ} {n : ℕ}
      → edited.parent_id ≡ x.parent_id
      → Rooted tasks ws [] from n
      → Rooted written ws [] from n
  unfolding write_edited
  Rooted-unmoved kept root = root
  Rooted-unmoved {ws} kept (under {i} {n = l} task m e w free rest) =
      elim (Bool-cases (task.id == x.id)) [
        | inl same ↦
            let is : task ≡ x = unique task x m stored (ground arith) in
            let parent : edited.parent_id ≡ task.parent_id =
              kept ∙ ap (λ t. t.parent_id) (sym is) in
            under (write_edited edited x) written-hit (ap (λ t. t.id) (sym is) ∙ e)
              (ap (λ t. t.workspace_id) (sym is) ∙ w) free
              (subst (λ p. Rooted written ws [] p l) (sym parent) (Rooted-unmoved kept rest))
        | inr other ↦
            under task
              (mem-update_where_miss (λ (r : Task). r.id == x.id) (write_edited edited) tasks m
                other)
              e w free (Rooted-unmoved kept rest)
      ]

  IsForest-unmoved : edited.parent_id ≡ x.parent_id → IsForest tasks → IsForest written
  unfolding write_edited
  IsForest-unmoved kept forest t m = elim (written-mem m) [
    | inl e ↦
        let (n, chain, bound) = forest x stored in
        rw e (
          n,
          subst (λ p. Rooted written x.workspace_id [] p n) (sym kept) (Rooted-unmoved kept chain),
          bound,
        )
    | inr (old, other) ↦
        let (n, chain, bound) = forest t old in (n, Rooted-unmoved kept chain, bound)
  ]

  -- With another parent, the chains through the edited Task get its new chain.
  Rooted-moved :
      (t : Task) {m n : ℕ}
      → Memᴰ t tasks
      → Rooted tasks x.workspace_id (x.id ∷ []) edited.parent_id m
      → ((k : ℕ) → Below tasks x.workspace_id x.id t.parent_id k → k ≤ 3 → m + k ≤ 3)
      → Rooted tasks t.workspace_id [] t.parent_id n
      → n ≤ 3
      → (l : ℕ) × Rooted written t.workspace_id [] t.parent_id l × (l ≤ 3)
  unfolding write_edited
  Rooted-moved t {m} {n} mt chain short old bound =
      elim (split_chain tasks t.workspace_id x.id old) [
        | inl away ↦ (n, Rooted-save tasks x.id t.workspace_id (write_edited edited) away, bound)
        | inr (k, below, near) ↦
            let same = Below-workspace tasks t.workspace_id x unique stored below in
            let after = Rooted-save tasks x.id x.workspace_id (write_edited edited) chain in
            let (l, path, total) =
              Below-Rooted tasks x.id x.workspace_id (write_edited edited) (write_edited edited x)
                written-hit refl refl after
                (subst (λ ws. Below tasks ws x.id t.parent_id k) same below) in
            let close =
              short k (subst (λ ws. Below tasks ws x.id t.parent_id k) same below) (omega arith) in
            (l, subst (λ ws. Rooted written ws [] t.parent_id l) (sym same) path, omega arith)
      ]

  IsForest-moved :
      {m : ℕ}
      → Rooted tasks x.workspace_id (x.id ∷ []) edited.parent_id m
      → m ≤ 3
      → ((t : Task) (k : ℕ)
          → Memᴰ t tasks
          → Below tasks x.workspace_id x.id t.parent_id k
          → k ≤ 3
          → m + k ≤ 3)
      → IsForest tasks
      → IsForest written
  unfolding write_edited
  IsForest-moved {m} chain bound short forest t mt = elim (written-mem mt) [
    | inl e ↦ rw e (m, Rooted-save tasks x.id x.workspace_id (write_edited edited) chain, bound)
    | inr (old, other) ↦
        let (n, was, near) = forest t old in Rooted-moved t old chain (λ k. short t k old) was near
  ]

moved_then_descend :
    (db : Db) (x edited : Task) (depth : ℕ)
    → task_by_id db edited.id ≡ some x
    → (if not false && is_moved db edited
        then descend db edited.workspace_id depth 4 1 (edited.id ∷ []) (edited.id ∷ [])
        else ok tt)
      ≡ ok tt
    → (edited.parent_id ≡ x.parent_id)
      ⊎ (descend db edited.workspace_id depth 4 1 (edited.id ∷ []) (edited.id ∷ []) ≡ ok tt)
unfolding is_moved
moved_then_descend db x edited depth found h = elim (Bool-cases (x.parent_id == edited.parent_id)) [
  | inl same ↦ inl (sym (==→≡ x.parent_id edited.parent_id same))
  | inr other ↦
      let moved : is_moved db edited ≡ true = rw (is_moved, found) (ground arith) in
      inr (rw moved at h)
]

-- What `Task.clean` establishes of a stored Task with a new parent.
clean_edited :
    (rules : FieldRules) (db : Db) (x : Task) (parent : Option ℕ) (changes : TaskChanges)
    → UniqueBy task_key.key db.tasks
    → Memᴰ x db.tasks
    → full_clean_task rules db false (edited_task x parent changes) ≡ ok tt
    → (m : ℕ) × Rooted db.tasks x.workspace_id (x.id ∷ []) parent m
      × (m ≤ 3)
      × ((parent ≡ x.parent_id) ⊎ (descend db x.workspace_id m 4 1 (x.id ∷ []) (x.id ∷ []) ≡ ok tt))
unfolding full_clean_task clean_task edited_task task_by_id
clean_edited rules db x parent changes unique stored h =
    let edited = edited_task x parent changes in
    guard-elim (rules.task edited) _ _ h λ _ h₁.
      >>=-elim (clean_task db false edited) _ h₁ λ _ cleaned h₂.
        >>=-elim (clean_deadline edited.deadline) _ cleaned λ _ _ h₃.
          >>=-elim (climb db x.workspace_id max_hierarchy_depth 0 (x.id ∷ []) parent) _ h₃
            λ depth climbed h₄.
              let (m, chain, total, bound) =
                climb-Rooted db x.workspace_id max_hierarchy_depth 0 (x.id ∷ []) parent climbed in
              let depth_is : depth ≡ m = omega arith in
              let found : task_by_id db edited.id ≡ some x =
                first_unique (λ (t : Task). t.id == x.id) db.tasks stored (==-refl x.id)
                  (λ y my named. unique y x my stored (==→≡ y.id x.id named)) in
              (m, chain, bound, rw depth_is at (moved_then_descend db x edited depth found h₄))

-- If Task ids are unique and every Task has a chain of at most three parents, all stored in its own
-- Workspace, up to a root, then that is so after an `update_task` that succeeds, also when it moves a
-- subtree.
pub update_task-IsForest :
    (rules : FieldRules) (request : Request) (profile_id workspace_id task_id : Ref)
    (changes : TaskChanges) (db : Db) {task : Task} {after : Db}
    → UniqueBy task_key.key db.tasks
    → update_task rules request profile_id workspace_id task_id changes db ≡ ok (task, after)
    → IsForest db.tasks
    → IsForest after.tasks
unfolding update_task save_task edited_task
update_task-IsForest rules request profile_id workspace_id task_id changes db {after = last} unique
      h forest =
    >>=-elim (lock_workspace_mutation_context request profile_id workspace_id db) _ h λ scope _ h₁.
      >>=-elim (require_manager db scope.context) _ h₁ λ _ _ h₂.
        >>=-elim (lock_task db scope.workspace task_id) _ h₂ λ x locked h₃.
          >>=-elim (next_parent db scope.workspace x changes.parent_id) _ h₃ λ parent _ h₄.
            let edited = edited_task x parent changes in
            let stored = (lock_task_lem db scope.workspace task_id locked).0 in
            elim (Bool-cases (is_unchanged x edited)) [
              | inl same ↦
                  subst IsForest (ap (λ p. p.1.tasks) (ok-injective (rw same at h₄))) forest
              | inr other ↦
                  >>=-elim (full_clean_task rules db false edited) _ (rw other at h₄)
                    λ _ cleaned h₅.
                      >>=-elim (create_audit_log _ (save_task (write_edited edited) x.id db)) _ h₅
                        λ after audited h₆.
                          let saved = save_task (write_edited edited) x.id db in
                          let kept = (create_audit_log-SameButLogs _ saved audited).tasks in
                          let (m, chain, bound, way) =
                            clean_edited rules db x parent changes unique stored cleaned in
                          subst IsForest (sym kept ∙ ap (λ p. p.1.tasks) (ok-injective h₆))
                            (elim way [
                              | inl unmoved ↦
                                  IsForest-unmoved db.tasks x edited unique stored unmoved forest
                              | inr down ↦
                                  IsForest-moved db.tasks x edited unique stored chain bound
                                    (λ t k mt below near.
                                      descend_bound db x.workspace_id m x.id t down mt below refl)
                                    forest
                            ])
            ]
