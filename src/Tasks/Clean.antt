-- ===== src/Tasks/Clean.antt =====
-- backend/apps/tasks/models.py, `Task.clean`: the deadline, the walk up to the root and, for a moved
-- Task, the walk down through its subtree.
use hustly_tasker.Prelude.{
  ◌>>=◌, ◌>>◌, guard, or_raise, Result, validation_error, exists, rows, first, leb, if◌then◌else◌,
  ◌==◌, nat_eq, string_eq, bool_eq, option_eq, ℕ, zero, suc, ◌+◌, Bool, false, ◌&&◌, ◌||◌, not,
  Option, none, some, List, [], ◌∷◌, ◌++◌, map, ok, err, list_eq,
}
use hustly_tasker.Store.{
  profile_status_eq, profile_role_eq, workspace_status_eq, workspace_role_eq, task_status_eq,
  task_priority_eq, deliverable_status_eq, review_status_eq, event_type_eq, Db, FieldRules,
  user_key, profile_key, profile_membership_key, workspace_key, workspace_member_key, task_key,
  task_assignment_key, task_comment_key, deliverable_key, review_key, audit_log_key,
  notification_key, period_eq, deadline_eq, Deadline, Task,
}

abbrev pub max_hierarchy_depth : ℕ
max_hierarchy_depth = 3

unfoldable pub contains : List ℕ → ℕ → Bool
contains seen i = exists (λ j. j == i) seen

unfoldable pub task_by_id : Db → ℕ → Option Task
task_by_id db task_id = first (λ task. task.id == task_id) db.tasks

-- The `while parent_id is not None` loop. `left` is how many more parent edges the depth cap
-- allows, so `depth + left` is the cap throughout, and `depth > MAX_HIERARCHY_DEPTH` after the
-- increment means that none was left. The result is the depth at which the walk ends.
unfoldable pub climb : Db → ℕ → (left depth : ℕ) → List ℕ → Option ℕ → Result ℕ
climb db workspace_id left depth seen none = ok depth
climb db workspace_id zero depth seen (some parent_id) = do
  guard (not (contains seen parent_id)) (validation_error "parent")
  parent ← or_raise (task_by_id db parent_id) (validation_error "parent")
  guard (parent.workspace_id == workspace_id) (validation_error "parent")
  err (validation_error "parent")
climb db workspace_id (suc left) depth seen (some parent_id) = do
  guard (not (contains seen parent_id)) (validation_error "parent")
  parent ← or_raise (task_by_id db parent_id) (validation_error "parent")
  guard (parent.workspace_id == workspace_id) (validation_error "parent")
  climb db workspace_id left (depth + 1) (parent_id ∷ seen) parent.parent_id

abbrev ids : List Task → List ℕ
ids tasks = map (λ task. task.id) tasks

-- `parent_id in frontier`, false for a root.
unfoldable pub is_child_of : List ℕ → Task → Bool
unfolding contains
is_child_of frontier task = elim task.parent_id [
  | none ↦ false
  | some parent_id ↦ contains frontier parent_id
]

-- The checks of the children that one round finds.
unfoldable pub check_children : ℕ → (depth distance : ℕ) → List ℕ → List Task → Result (Unit {0})
check_children workspace_id depth distance seen children = do
  guard (leb (depth + distance) max_hierarchy_depth) (validation_error "parent")
  guard
      (not (
        exists (λ task. not (task.workspace_id == workspace_id) || contains seen task.id) children))
      (validation_error "parent")

-- The `for distance in range(1, MAX_HIERARCHY_DEPTH + 2)` loop with its `rounds` left.
unfoldable pub descend :
    Db → ℕ → (depth rounds distance : ℕ) → (frontier seen : List ℕ) → Result (Unit {0})
unfolding is_child_of
descend db workspace_id depth zero distance frontier seen = ok tt
descend db workspace_id depth (suc rounds) distance frontier seen =
    let children = rows (is_child_of frontier) db.tasks in
    let deeper =
      descend db workspace_id depth rounds (distance + 1) (ids children) (ids children ++ seen) in
    elim children [
      | [] ↦ ok tt
      | child ∷ more ↦ check_children workspace_id depth distance seen (child ∷ more) >> deeper
    ]

unfoldable pub clean_deadline : Option Deadline → Result (Unit {0})
clean_deadline none = ok tt
clean_deadline (some deadline) = do
  guard deadline.is_aware (validation_error "deadline")
  guard deadline.in_range (validation_error "deadline")

-- Whether the stored row has another parent or Workspace.
unfoldable pub is_moved : Db → Task → Bool
unfolding task_by_id
is_moved db task = elim (task_by_id db task.id) [
  | none ↦ false
  | some previous ↦
      not (previous.parent_id == task.parent_id) || not (previous.workspace_id == task.workspace_id)
]

-- `Task.clean`; `adding` is `self._state.adding`.
unfoldable pub clean_task : Db → (adding : Bool) → Task → Result (Unit {0})
unfolding clean_deadline is_moved climb descend
clean_task db adding task = do
  clean_deadline task.deadline
  depth ← climb db task.workspace_id max_hierarchy_depth 0 (task.id ∷ []) task.parent_id
  if not adding && is_moved db task
      then descend db task.workspace_id depth (max_hierarchy_depth + 1) 1 (task.id ∷ [])
          (task.id ∷ [])
      else ok tt

-- `task.full_clean()`: the fields, `clean`, and the constraint `task_not_own_parent`.
unfoldable pub full_clean_task : FieldRules → Db → (adding : Bool) → Task → Result (Unit {0})
unfolding clean_task
full_clean_task rules db adding task = do
  guard (rules.task task) (validation_error "fields")
  clean_task db adding task
  guard (not (task.parent_id == some task.id)) (validation_error "task_not_own_parent")
