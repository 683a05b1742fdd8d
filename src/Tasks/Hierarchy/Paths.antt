-- ===== src/Tasks/Hierarchy/Paths.antt =====
-- Chains that pass through a moved Task, before and after its row is written.
use hustly_tasker.Tasks.Hierarchy.Chains.{Rooted, root, under}
use hustly_tasker.Prelude.{
  exists, save, ◌==◌, nat_eq, string_eq, bool_eq, option_eq, list_eq, Bool-cases, UniqueBy,
  mem-update_where_miss, ℕ, suc, ◌+◌, ◌≤◌, ◌≡◌, refl, sym, ap, ◌∙◌, ◌⊎◌, inl, inr, false, Option,
  some, List, [], ◌∷◌, Memᴰ, arith,
}
use hustly_tasker.Store.{
  profile_status_eq, profile_role_eq, workspace_status_eq, workspace_role_eq, task_status_eq,
  task_priority_eq, deliverable_status_eq, review_status_eq, event_type_eq, user_key, profile_key,
  profile_membership_key, workspace_key, workspace_member_key, task_key, task_assignment_key,
  task_comment_key, deliverable_key, review_key, audit_log_key, notification_key, period_eq,
  deadline_eq, Task,
}
use hustly_tasker.Tasks.Clean.{contains}

-- A chain that avoids the Task `i` is a chain of the table with that row written.
pub Rooted-save :
    (tasks : List Task) (i ws : ℕ) (f : Task → Task) {from : Option ℕ} {n : ℕ}
    → Rooted tasks ws (i ∷ []) from n
    → Rooted (save i f tasks) ws [] from n
unfolding contains exists
Rooted-save tasks i ws f root = root
Rooted-save tasks i ws f (under {i = j} task m e w free rest) =
    under task (mem-update_where_miss (λ r. r.id == i) f tasks m (ground arith)) e w refl
      (Rooted-save tasks i ws f rest)

-- The chain from here reaches the Task `i` after `k` edges.
pub data Below (tasks : List Task) (ws i : ℕ) : Option ℕ → ℕ → Type 0 where
  here :
      {j : ℕ} (task : Task)
      → Memᴰ task tasks
      → task.id ≡ i
      → task.workspace_id ≡ ws
      → j ≡ i
      → Below tasks ws i (some j) 1
  up :
      {j k : ℕ} (task : Task)
      → Memᴰ task tasks
      → task.id ≡ j
      → task.workspace_id ≡ ws
      → (j == i) ≡ false
      → Below tasks ws i task.parent_id k
      → Below tasks ws i (some j) (suc k)

pub split_chain :
    (tasks : List Task) (ws i : ℕ) {from : Option ℕ} {n : ℕ}
    → Rooted tasks ws [] from n
    → Rooted tasks ws (i ∷ []) from n ⊎ ((k : ℕ) × Below tasks ws i from k × (k ≤ n))
unfolding contains exists
split_chain tasks ws i root = inl root
split_chain tasks ws i (under {i = j} {n} task m e w free rest) = elim (Bool-cases (j == i)) [
  | inl same ↦ inr (1, here task m (ground arith) w (ground arith), omega arith)
  | inr other ↦ elim (split_chain tasks ws i rest) [
    | inl away ↦ inl (under task m e w (ground arith) away)
    | inr (k, below, bound) ↦ inr (suc k, up task m e w other below, omega arith)
  ]
]

-- Where the path meets the Task, its Workspace is that of the path.
pub Below-workspace :
    (tasks : List Task) (ws : ℕ) (x : Task) {from : Option ℕ} {k : ℕ}
    → UniqueBy task_key.key tasks
    → Memᴰ x tasks
    → Below tasks ws x.id from k
    → ws ≡ x.workspace_id
Below-workspace tasks ws x unique mx (here task m e w _) =
    sym w ∙ ap (λ t. t.workspace_id) (unique task x m mx e)
Below-workspace tasks ws x unique mx (up task m e w other rest) =
    Below-workspace tasks ws x unique mx rest

-- The path to the Task, continued by its new chain.
pub Below-Rooted :
    (tasks : List Task) (i ws : ℕ) (f : Task → Task) (y : Task) {m k : ℕ} {from : Option ℕ}
    → Memᴰ y (save i f tasks)
    → y.id ≡ i
    → y.workspace_id ≡ ws
    → Rooted (save i f tasks) ws [] y.parent_id m
    → Below tasks ws i from k
    → (n : ℕ) × Rooted (save i f tasks) ws [] from n × (n ≡ k + m)
unfolding contains exists
Below-Rooted tasks i ws f y {m} my ye yw chain (here task _ _ _ same) =
    (suc m, under y my (ye ∙ sym same) yw refl chain, omega arith)
Below-Rooted tasks i ws f y my ye yw chain (up task m e w other rest) =
    let (n, path, total) = Below-Rooted tasks i ws f y my ye yw chain rest in
    (
      suc n,
      under task (mem-update_where_miss (λ r. r.id == i) f tasks m (ground arith)) e w refl path,
      omega arith,
    )
