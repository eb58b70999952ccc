-- ===== src/Schedule/Window.antt =====
-- The window of columns that `oram_task_create` in src/Memory.h looks back over.
use palermo_oram.Base.{
  ℕ, zero, suc, ◌%◌, ◌≤◌, ◌<◌, ◌≡◌, ◌≢◌, refl, sym, ap, subst, ◌∙◌, inl, inr, true, false, ◌&&◌,
  ◌||◌, Option, some, ◌==◌, if◌then◌else◌, Bool-cases, arith,
}
use palermo_oram.Params.{evict_rate}
use palermo_oram.Tree.{TreeName, data_tree, pos1, pos2}
use palermo_oram.Schedule.{
  Key, Task2d, Deque, Schedule, same_tree, push_execution_pool, holds_set, is_blocked,
  oram_task_create, deque_put,
}

-- The step that a task must have reached before the next column of its set reads: 3, or 6 when it
-- writes back.
abbrev pub release_step : Task2d → ℕ
release_step t = if t.set_cnt % evict_rate == 0 then 6 else 3

-- Every column from `j` up to `id` is still in the deque.
abbrev pub IsWindow : Deque → TreeName → ℕ → ℕ → Type 0
IsWindow d t j id = (i : ℕ) → j ≤ i → i < id → (other : Task2d) × (d (i, t) ≡ some other)

-- A task that is not blocked comes after no unfinished column of its set.
pub is_blocked-false :
    (d : Deque) (t : TreeName) (set_id id j : ℕ) (other : Task2d)
    → is_blocked d t set_id id ≡ false
    → IsWindow d t j id
    → j < id
    → d (j, t) ≡ some other
    → other.set_id ≡ set_id
    → release_step other ≤ other.next_step
unfolding is_blocked holds_set
is_blocked-false d t set_id zero j other e w h at same = omega arith
is_blocked-false d t set_id (suc id) j other e w h at same =
    let (last, there) = w id (omega arith) (omega arith) in
    let e' : ((last.set_id == set_id && holds_set last) || is_blocked d t set_id id) ≡ false =
      rw (there, is_blocked) at e in
    elim (Bool-cases (j == id)) [
      | inl p ↦
          let here : j ≡ id = ground arith in
          let at' = subst (λ i. d (i, t) ≡ some other) here at in
          let one : last ≡ other = cc in
          let e'' : ((other.set_id == set_id && holds_set other) || is_blocked d t set_id id)
              ≡ false =
            rw one at e' in
          ground arith
      | inr p ↦
          is_blocked-false d t set_id id j other (ground arith) (λ i a b. w i a (omega arith))
            (ground arith) at same
    ]

same_tree_self : (t : TreeName) → same_tree t t ≡ true
same_tree_self data_tree = refl
same_tree_self pos1 = refl
same_tree_self pos2 = refl

pub deque_put_self :
    (d : Deque) (i : ℕ) (t : TreeName) (v : Option Task2d) → deque_put d (i, t) v (i, t) ≡ v
deque_put_self d i t v = ground (arith, same_tree_self t)

pub deque_put_ne :
    (d : Deque) (i j : ℕ) (t : TreeName) (v : Option Task2d)
    → i ≢ j
    → deque_put d (i, t) v (j, t) ≡ d (j, t)
deque_put_ne d i j t v h = ground arith

-- The deque after `set_step`.
abbrev pub with_step : Key → ℕ → Task2d → Deque → Deque
with_step k step this d = deque_put d k (some (record this { next_step = step }))

same_issued :
    (s : Schedule) {s' : Schedule} {d : Deque}
    → some (record s { task_deque = d }) ≡ some s'
    → s'.issued ≡ s.issued
same_issued s {s'} {d} e =
    let same : record s { task_deque = d } ≡ s' = cc in sym (ap (λ (r : Schedule). r.issued) same)

-- What a call that sends the task has tested.
create_unblocked :
    (id : ℕ) (t : TreeName) (step : ℕ) (s s' : Schedule) (this : Task2d)
    → s.task_deque (id, t) ≡ some this
    → oram_task_create (id, t) step s ≡ some s'
    → s'.issued ≢ s.issued
    → is_blocked (with_step (id, t) step this s.task_deque) t this.set_id id ≡ false
unfolding oram_task_create
create_unblocked id t step s s' this at e moved =
    let there = deque_put_self s.task_deque id t (some (record this { next_step = step })) in
    let e' : (if step == 6
          then some (record s { task_deque = with_step (id, t) step this s.task_deque })
          else if is_blocked (with_step (id, t) step this s.task_deque) t this.set_id id
          then some (record s { task_deque = with_step (id, t) step this s.task_deque })
          else push_execution_pool (id, t)
              (record s { task_deque = with_step (id, t) step this s.task_deque }))
        ≡ some s' =
      rw (at, oram_task_create, there) at e in
    elim (Bool-cases (step == 6)) [
      | inl p ↦ absurd (moved (same_issued s (rw p at e')))
      | inr p ↦
          elim (Bool-cases
            (is_blocked (with_step (id, t) step this s.task_deque) t this.set_id id)) [
              | inl q ↦ absurd (moved (same_issued s (rw (p, q) at e')))
              | inr q ↦ q
            ]
    ]

-- `oram_task_create` sends a task to the memory only in order: if a call of it for a column that
-- is there succeeds and the list of calls of the memory changes, each earlier column `j` of the
-- same set in the same tree, where all columns from `j` on are still there, has reached step 3,
-- or step 6 when it writes back.
pub oram_task_create_in_order :
    (id : ℕ) (t : TreeName) (step : ℕ) (s s' : Schedule) (this : Task2d)
    → s.task_deque (id, t) ≡ some this
    → oram_task_create (id, t) step s ≡ some s'
    → s'.issued ≢ s.issued
    → (j : ℕ) (other : Task2d) → IsWindow s.task_deque t j id
    → j < id
    → s.task_deque (j, t) ≡ some other
    → other.set_id ≡ this.set_id
    → release_step other ≤ other.next_step
oram_task_create_in_order id t step s s' this at e moved j other w h there same =
    let d = with_step (id, t) step this s.task_deque in
    let keep : (i : ℕ) → i < id → d (i, t) ≡ s.task_deque (i, t) =
      λ i lt. deque_put_ne s.task_deque id i t _ (λ p. omega arith) in
    is_blocked-false d t this.set_id id j other (create_unblocked id t step s s' this at e moved)
      (λ i a b. let (o, p) = w i a b in (o, keep i b ∙ p)) h (keep j h ∙ there) same
