-- ===== src/Tasks/Hierarchy/Moved.antt =====
-- The walk down of `Task.clean` bounds every path to the moved Task.
use hustly_tasker.Tasks.Hierarchy.Paths.{Below, here, up}
use hustly_tasker.Store.{task_key, Db, Task}
use hustly_tasker.Prelude.{
  exists, rows, mem-rows, ℕ, suc, ◌+◌, ◌≤◌, ◌≡◌, refl, ap, ◌⊎◌, inl, inr, true, List, [], ◌∷◌, map,
  Memᴰ, arith, ok, guard-elim, leb, zero, ◌<◌, sym, ◌∙◌, Option, some, >>=-elim,
}
use hustly_tasker.Tasks.Clean.{contains, is_child_of, descend, max_hierarchy_depth, check_children}

list_cases : {A : Type 0} (xs : List A) → (xs ≡ []) ⊎ ((x : A) × (ys : List A) × (xs ≡ x ∷ ys))
list_cases [] = inl refl
list_cases (x ∷ xs) = inr (x, xs, refl)

ids-contains :
    (tasks : List Task) {t : Task}
    → Memᴰ t tasks
    → contains (map (λ task. task.id) tasks) t.id ≡ true
unfolding contains exists
ids-contains [] m = elim m [ ]
ids-contains (t ∷ tasks) (Memᴰ.head e) = ground (arith, ap (λ (task : Task). task.id) e)
ids-contains (t ∷ tasks) (Memᴰ.tail m) = ground (arith, ids-contains tasks m)

-- A round that finds a child is in bounds, and the child is on the next frontier.
descend_step :
    (db : Db) (ws depth rounds distance : ℕ) (frontier seen : List ℕ) (t : Task)
    → descend db ws depth (suc rounds) distance frontier seen ≡ ok tt
    → Memᴰ t db.tasks
    → is_child_of frontier t ≡ true
    → (depth + distance ≤ 3)
      × (next visited : List ℕ) × (contains next t.id ≡ true)
      × (descend db ws depth rounds (distance + 1) next visited ≡ ok tt)
unfolding descend check_children
descend_step db ws depth rounds distance frontier seen t h m child =
    let children = rows (is_child_of frontier) db.tasks in
    let found = mem-rows (is_child_of frontier) db.tasks m child in
    elim (list_cases children) [
      | inl e ↦ elim (rw e at found) [ ]
      | inr (c, more, e) ↦
          >>=-elim (check_children ws depth distance seen (c ∷ more)) _ (rw (descend, e) at h)
            λ _ both h₂. guard-elim (leb (depth + distance) max_hierarchy_depth) _ _ both λ near _.
              (ground arith, map (λ task. task.id) children, _, ids-contains children found, h₂)
    ]

positive : (n : ℕ) → 0 < n → (m : ℕ) × (n ≡ suc m)
positive zero h = absurd (omega arith)
positive (suc m) h = (m, refl)

-- The round after the one that finds `task`, whose child `y` is.
descend_from :
    (db : Db) (ws depth rounds left k : ℕ) (frontier seen : List ℕ) (task y : Task)
    → descend db ws depth left k frontier seen ≡ ok tt
    → Memᴰ task db.tasks
    → is_child_of frontier task ≡ true
    → left + k ≡ suc rounds
    → suc k ≤ rounds
    → y.parent_id ≡ some task.id
    → (later : ℕ) × (next visited : List ℕ) × (later + suc k ≡ suc rounds)
      × (is_child_of next y ≡ true)
      × (descend db ws depth later (suc k) next visited ≡ ok tt)
unfolding is_child_of
descend_from db ws depth rounds left k frontier seen task y h m child total bound e =
    let (later, same) = positive left (omega arith) in
    let (_, next, visited, has, h₁) =
      descend_step db ws depth later k frontier seen task (rw same at h) m child in
    let next_round : suc k ≡ k + 1 = omega arith in
    (later, next, visited, omega arith, rw e has, rw next_round h₁)

-- A path of `k` edges to the moved Task is followed from its end, round by round.
reaches :
    (db : Db) (ws depth i rounds : ℕ) (seen : List ℕ) {from : Option ℕ} {k : ℕ} (y : Task)
    → descend db ws depth rounds 1 (i ∷ []) seen ≡ ok tt
    → Below db.tasks ws i from k
    → y.parent_id ≡ from
    → k ≤ rounds
    → (left : ℕ) × (next visited : List ℕ) × (left + k ≡ suc rounds)
      × (is_child_of next y ≡ true)
      × (descend db ws depth left k next visited ≡ ok tt)
unfolding is_child_of contains exists
reaches db ws depth i rounds seen y h (here {j} _ _ _ _ same) e bound =
    (rounds, i ∷ [], seen, omega arith, rw e (ground arith), h)
reaches db ws depth i rounds seen y h (up {j} {k} task m te w other rest) e bound =
    let (left, next, visited, total, child, h₁) =
      reaches db ws depth i rounds seen task h rest refl (omega arith) in
    descend_from db ws depth rounds left k next visited task y h₁ m child total bound
      (e ∙ ap some (sym te))

bounded :
    (db : Db) (ws depth i : ℕ) {k : ℕ} (y : Task)
    → descend db ws depth 4 1 (i ∷ []) (i ∷ []) ≡ ok tt
    → Memᴰ y db.tasks
    → Below db.tasks ws i y.parent_id k
    → k ≤ 4
    → depth + k ≤ 3
bounded db ws depth i {k} y h m below bound =
    let (left, next, visited, total, child, h₁) =
      reaches db ws depth i 4 (i ∷ []) y h below refl bound in
    let (r, same) = positive left (omega arith) in
    (descend_step db ws depth r k next visited y (rw same at h₁) m child).0

pub descend_bound :
    (db : Db) (ws depth i : ℕ) {from : Option ℕ} {k : ℕ} (y : Task)
    → descend db ws depth 4 1 (i ∷ []) (i ∷ []) ≡ ok tt
    → Memᴰ y db.tasks
    → Below db.tasks ws i from k
    → y.parent_id ≡ from
    → depth + k ≤ 3
descend_bound db ws depth i y h m (here s t u v w) e =
    bounded db ws depth i y h m (rw e (here s t u v w)) (omega arith)
descend_bound db ws depth i y h m (up task mt te w other rest) e =
    let shorter = descend_bound db ws depth i task h mt rest refl in
    bounded db ws depth i y h m (rw e (up task mt te w other rest)) (omega arith)
