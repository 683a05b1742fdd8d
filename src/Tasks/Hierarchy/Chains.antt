-- ===== src/Tasks/Hierarchy/Chains.antt =====
-- Parent chains as a data type, and the walk up of `Task.clean` against it.
use hustly_tasker.Prelude.{
  or_raise-elim, guard-elim, ok-injective, exists, first_sound, ◌==◌, nat_eq, string_eq, bool_eq,
  option_eq, list_eq, ==→≡, ℕ, zero, suc, ◌+◌, ◌≤◌, ◌≡◌, false, not, Option, none, some, List, ◌∷◌,
  Memᴰ, arith, ok,
}
use hustly_tasker.Store.{
  profile_status_eq, profile_role_eq, workspace_status_eq, workspace_role_eq, task_status_eq,
  task_priority_eq, deliverable_status_eq, review_status_eq, event_type_eq, task_key, Db, period_eq,
  deadline_eq, Task,
}
use hustly_tasker.Tasks.Clean.{contains, task_by_id, climb}

-- The chain of `parent_id` from here ends at a root after `n` edges; every Task on it is stored in
-- the Workspace `ws` and none is a Task that `seen` lists.
pub data Rooted (tasks : List Task) (ws : ℕ) (seen : List ℕ) : Option ℕ → ℕ → Type 0 where
  root : Rooted tasks ws seen none 0
  under :
      {i n : ℕ} (task : Task)
      → Memᴰ task tasks
      → task.id ≡ i
      → task.workspace_id ≡ ws
      → contains seen i ≡ false
      → Rooted tasks ws seen task.parent_id n
      → Rooted tasks ws seen (some i) (suc n)

-- A chain stays one when fewer Tasks are to be avoided.
pub Rooted-weaken :
    {tasks : List Task} {ws i : ℕ} {seen : List ℕ} {from : Option ℕ} {n : ℕ}
    → Rooted tasks ws (i ∷ seen) from n
    → Rooted tasks ws seen from n
unfolding contains exists
Rooted-weaken root = root
Rooted-weaken {i = k} {seen} (under {i} task m e w free rest) =
    under task m e w (ground arith) (Rooted-weaken rest)

-- A chain stays one when the table grows.
pub Rooted-grow :
    {tasks more : List Task} {ws : ℕ} {seen : List ℕ} {from : Option ℕ} {n : ℕ}
    → ((t : Task) → Memᴰ t tasks → Memᴰ t more)
    → Rooted tasks ws seen from n
    → Rooted more ws seen from n
Rooted-grow grow root = root
Rooted-grow grow (under task m e w free rest) =
    under task (grow task m) e w free (Rooted-grow grow rest)

-- A walk up that succeeds has found a chain of at most `left` edges to a root, all in the Workspace
-- `ws` and none in `seen`, and returns `depth` plus the length of that chain.
pub climb-Rooted :
    (db : Db) (ws left depth : ℕ) (seen : List ℕ) (from : Option ℕ) {d : ℕ}
    → climb db ws left depth seen from ≡ ok d
    → (n : ℕ) × Rooted db.tasks ws seen from n × (d ≡ depth + n) × (n ≤ left)
unfolding climb task_by_id
climb-Rooted db ws left depth seen none {d} h =
    let same : depth ≡ d = ok-injective h in (0, root, omega arith, omega arith)
climb-Rooted db ws zero depth seen (some i) h = guard-elim (not (contains seen i)) _ _ h λ _ h₁.
    or_raise-elim (task_by_id db i) _ _ h₁
      λ parent _ h₂. guard-elim (parent.workspace_id == ws) _ _ h₂ λ _ h₃. cc
climb-Rooted db ws (suc left) depth seen (some i) h =
    guard-elim (not (contains seen i)) _ _ h λ free h₁.
      or_raise-elim (task_by_id db i) _ _ h₁ λ parent found h₂.
        guard-elim (parent.workspace_id == ws) _ _ h₂ λ same h₃.
          let (n, chain, total, bound) =
            climb-Rooted db ws left (depth + 1) (i ∷ seen) parent.parent_id h₃ in
          let (is, m) = first_sound (λ task. task.id == i) db.tasks found in
          (
            suc n,
            under parent m (==→≡ parent.id i is) (==→≡ parent.workspace_id ws same) (ground arith)
                (Rooted-weaken chain),
            (omega arith),
            (omega arith),
          )
