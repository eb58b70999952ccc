-- ===== src/Schedule/Serve/Admit.antt =====
-- A new column: `serve_until_need_address` and `oram_task_create` of src/Memory.h.
use palermo_oram.Base.{
  ℕ, ◌+◌, ◌-◌, ◌≤◌, ◌<◌, ◌≡◌, refl, inl, inr, true, false, ◌||◌, some, none, ltb, Bool-cases,
  Option-cases, arith,
}
use palermo_oram.Tree.{TreeName, data_tree, pos1, pos2}
use palermo_oram.Store.{Address}
use palermo_oram.Schedule.{
  Task2d, Schedule, in_pool, new_task_2d, slot_is_free, create_column, push_execution_pool, is_none,
  set_of_address, tree_address,
}
use palermo_oram.Schedule.Keys.{deque_put_same}
use palermo_oram.Schedule.Live.{Live}
use palermo_oram.Schedule.Spec.{progress, enter, Moves, stay, onward}
use palermo_oram.Schedule.Invariant.{Inv}
use palermo_oram.Schedule.Create.{pushed, pushed-Inv}
use palermo_oram.Schedule.Serve.{admit}
use palermo_oram.Schedule.Serve.Column.{entered, entered-Inv, entered-Live}

-- The column that is `depth` before a new one is gone.
is_free :
    (s : Schedule) (v : Inv s) (t : TreeName)
    → s.tail_n_id < s.current_rdy_to_commit + s.depth
    → (ltb s.tail_n_id s.depth || is_none (s.task_deque (s.tail_n_id - s.depth, t))) ≡ true
is_free s v t room = elim (Bool-cases (ltb s.tail_n_id s.depth)) [
  | inl p ↦ rw p refl
  | inr p ↦ elim (Option-cases (s.task_deque (s.tail_n_id - s.depth, t))) [
    | inl gone ↦ rw (p, gone) refl
    | inr (o, e) ↦ let (lo, hi) = v.within (s.tail_n_id - s.depth) t o e in absurd (ground arith)
  ]
]

module _ (random : TreeName → ℕ) (addr : Address) (s : Schedule) (v : Inv s) (l : Live s)
    (room : s.tail_n_id < s.current_rdy_to_commit + s.depth) where
  abbrev first : Schedule
  first = new_task_2d (random data_tree) (s.tail_n_id, data_tree) addr s

  abbrev second : Schedule
  second = new_task_2d (random pos1) (s.tail_n_id, pos1) addr first

  abbrev third : Schedule
  third = new_task_2d (random pos2) (s.tail_n_id, pos2) addr second

  abbrev column_task : TreeName → Schedule → Task2d
  column_task t before =
      let set_id = set_of_address (random t) (before.geos t) t addr in
      record {
        next_step = 0;
        addr = tree_address t addr;
        set_id = set_id;
        set_cnt = before.set_cnt_map t set_id + 1;
      }

  abbrev new_columns : Schedule
  new_columns =
      entered s third.set_cnt_map (column_task data_tree s) (column_task pos1 first)
        (column_task pos2 second)

  first_free : slot_is_free (s.tail_n_id, data_tree) s ≡ true
  unfolding slot_is_free
  first_free = is_free s v data_tree room

  second_free : slot_is_free (s.tail_n_id, pos1) first ≡ true
  unfolding slot_is_free new_task_2d
  second_free = ground (arith, is_free s v pos1 room)

  third_free : slot_is_free (s.tail_n_id, pos2) second ≡ true
  unfolding slot_is_free new_task_2d
  third_free = ground (arith, is_free s v pos2 room)

  new_idle : in_pool (s.tail_n_id, pos2) s.execution_pool ≡ false
  new_idle = elim (Bool-cases (in_pool (s.tail_n_id, pos2) s.execution_pool)) [
    | inr out ↦ out
    | inl sent ↦
        let (o, e, _, _, _) = v.pooled (s.tail_n_id, pos2) sent in
        let (lo, hi) = v.within s.tail_n_id pos2 o e in absurd (omega arith)
  ]

  -- `serve_until_need_address` takes a new column whenever fewer than `depth` columns are not
  -- committed: in a schedule that keeps the invariant and forgets no task the new tasks are
  -- made, no assertion failing, the invariant holds again, each task that may take its step is
  -- in the pool, and the steps of the tasks change by moves of the abstract schedule.
  pub admit-Inv :
      (s' : Schedule) × (admit random addr false s ≡ some s')
      × Inv s'
      × Live s'
      × Moves (progress s) (progress s')
  unfolding admit create_column push_execution_pool new_task_2d
  admit-Inv =
      let id = s.tail_n_id in
      let last = column_task pos2 second in
      let there = deque_put_same second.task_deque (id, pos2) (some last) in
      (
        pushed (id, pos2) 0 new_columns,
        rw (first_free, second_free, third_free, there, new_idle) refl,
        pushed-Inv (id, pos2) 0 new_columns last
            (entered-Inv s v third.set_cnt_map (column_task data_tree s) (column_task pos1 first)
              last refl refl refl)
            new_idle there (omega arith) tt (λ h. absurd (omega arith)),
        entered-Live s v l third.set_cnt_map (column_task data_tree s) (column_task pos1 first) last
            refl refl refl,
        onward stay (
            enter (column_task data_tree s) (column_task pos1 first) (column_task pos2 second) refl
              refl refl),
      )

-- When `depth` columns or more are not committed, in a schedule that keeps the invariant and has
-- a depth that is not 0, a new column fails the assertion of `oram_task_create` that its slot is
-- free.
pub admit_full :
    (random : TreeName → ℕ) (addr : Address) (s : Schedule)
    → Inv s
    → 0 < s.depth
    → s.current_rdy_to_commit + s.depth ≤ s.tail_n_id
    → admit random addr false s ≡ none
unfolding admit create_column slot_is_free
admit_full random addr s v some_depth full =
    let (o, e) = v.there (s.tail_n_id - s.depth) data_tree (omega arith) (omega arith) in
    let far : ltb s.tail_n_id s.depth ≡ false = ground arith in rw (far, e) refl
