-- ===== src/Tasks/Hierarchy/Forest.antt =====
-- `create_task` keeps the Tasks a forest of bounded height.
use hustly_tasker.Prelude.{
  >>=-elim, guard-elim, ok-injective, insert, Ref, mem-append_left, mem-append_one, insert_lem, ℕ,
  ◌≤◌, ◌≡◌, sym, ap, ◌∙◌, inl, inr, Bool, true, List, [], ◌∷◌, Memᴰ, ok, subst,
}
use hustly_tasker.Store.{
  task_key, Db, Request, FieldRules, user_key, profile_key, profile_membership_key, workspace_key,
  workspace_member_key, task_key, task_assignment_key, task_comment_key, deliverable_key,
  review_key, audit_log_key, notification_key, Task,
}
use hustly_tasker.Tasks.Clean.{
  max_hierarchy_depth, climb, clean_task, full_clean_task, clean_deadline,
}
use hustly_tasker.Tasks.Effects.{create_audit_log-SameButLogs}
use hustly_tasker.Tasks.Hierarchy.Chains.{Rooted-weaken, Rooted-grow, climb-Rooted, Rooted}
use hustly_tasker.Tasks.Planning.{lock_parent, new_task_row, create_task, NewTask}
use hustly_tasker.Tasks.Saves.{create_audit_log, require_manager}
use hustly_tasker.Workspace.{lock_workspace_mutation_context}

-- Every Task has a chain of at most three parents, all stored in its Workspace, up to a root.
abbrev pub IsForest : List Task → Type 0
IsForest tasks =
    (task : Task)
    → Memᴰ task tasks
    → (n : ℕ) × Rooted tasks task.workspace_id [] task.parent_id n × (n ≤ 3)

abbrev IsPlaced : Db → Task → Type 0
IsPlaced db task = (n : ℕ) × Rooted db.tasks task.workspace_id [] task.parent_id n × (n ≤ 3)

-- `Task.clean` accepts only a Task with such a chain.
pub full_clean_task-IsPlaced :
    (rules : FieldRules) (db : Db) (adding : Bool) (task : Task)
    → full_clean_task rules db adding task ≡ ok tt
    → IsPlaced db task
unfolding full_clean_task clean_task
full_clean_task-IsPlaced rules db adding task h = guard-elim (rules.task task) _ _ h λ _ h₁.
    >>=-elim (clean_task db adding task) _ h₁ λ _ cleaned h₂.
      >>=-elim (clean_deadline task.deadline) _ cleaned λ _ _ h₃.
        >>=-elim (climb db task.workspace_id max_hierarchy_depth 0 (task.id ∷ []) task.parent_id) _
          h₃
          λ depth climbed h₄.
            let (n, chain, _, bound) =
              climb-Rooted db task.workspace_id max_hierarchy_depth 0 (task.id ∷ []) task.parent_id
                climbed in
            (n, Rooted-weaken chain, bound)

pub IsForest-insert :
    (db : Db) (task : Task) {tasks : List Task}
    → insert task db.tasks ≡ ok tasks
    → IsPlaced db task
    → IsForest db.tasks
    → IsForest tasks
IsForest-insert db task {tasks} h (n, chain, bound) forest other m =
    let e = (insert_lem task db.tasks h).0 in
    let grow : (t : Task) → Memᴰ t db.tasks → Memᴰ t tasks =
      λ t mt. rw e (mem-append_left db.tasks (task ∷ []) mt) in
    elim (mem-append_one db.tasks task (rw e at m)) [
      | inl old ↦
          let (n', chain', bound') = forest other old in (n', Rooted-grow grow chain', bound')
      | inr same ↦ rw same (n, Rooted-grow grow chain, bound)
    ]

-- If every Task has a chain of at most three parents, all stored in its own Workspace, up to a root,
-- then that is so after a `create_task` that succeeds.
pub create_task-IsForest :
    (rules : FieldRules) (request : Request) (profile_id workspace_id : Ref) (args : NewTask)
    (db : Db) {task : Task} {after : Db}
    → create_task rules request profile_id workspace_id args db ≡ ok (task, after)
    → IsForest db.tasks
    → IsForest after.tasks
unfolding create_task
create_task-IsForest rules request profile_id workspace_id args db h forest =
    >>=-elim (lock_workspace_mutation_context request profile_id workspace_id db) _ h λ scope _ h₁.
      >>=-elim (require_manager db scope.context) _ h₁ λ _ _ h₂.
        >>=-elim (lock_parent db scope.workspace args.parent_id) _ h₂ λ parent_id _ h₃.
          let task = new_task_row request scope.workspace parent_id args in
          >>=-elim (full_clean_task rules db true task) _ h₃ λ _ cleaned h₄.
            >>=-elim (insert task db.tasks) _ h₄ λ tasks inserted h₅.
              >>=-elim (create_audit_log _ (record db { tasks = tasks })) _ h₅ λ last audited h₆.
                let saved : Db = record db { tasks = tasks } in
                let same = (create_audit_log-SameButLogs _ saved audited).tasks in
                subst IsForest (sym (sym (ap (λ p. p.1.tasks) (ok-injective h₆)) ∙ same)) (
                  IsForest-insert db task inserted
                    (full_clean_task-IsPlaced rules db true task cleaned) forest)
