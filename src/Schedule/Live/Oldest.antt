-- ===== src/Schedule/Live/Oldest.antt =====
-- The schedule of src/Memory.h is never stuck: the oldest column has a task that the memory works on.
use palermo_oram.Base.{
  ℕ, ◌≤◌, ◌<◌, ◌≡◌, refl, inl, inr, ◌⊎◌, true, some, ◌==◌, leb, Bool-cases, arith,
}
use palermo_oram.Tree.{TreeName, data_tree, pos1, pos2}
use palermo_oram.Schedule.{Task2d, Schedule, in_pool}
use palermo_oram.Schedule.Spec.{IsReady, IsClear}
use palermo_oram.Schedule.Invariant.{Inv}
use palermo_oram.Schedule.Live.{Live}

-- No task of the oldest column has to wait for another column.
oldest-IsClear :
    (s : Schedule) (v : Inv s) (t : TreeName) (o : Task2d)
    → IsClear s.task_deque (s.current_rdy_to_commit, t) o
oldest-IsClear s v t o j other lt e same =
    let (lo, hi) = v.within j t other e in absurd (omega arith)

-- The oldest column has a task in the pool, or all three are at the last step.
abbrev pub OldestMoves : Schedule → Type 0
OldestMoves s =
    ((t : TreeName) × (in_pool (s.current_rdy_to_commit, t) s.execution_pool ≡ true))
    ⊎ ((t : TreeName)
        → (o : Task2d) × (s.task_deque (s.current_rdy_to_commit, t) ≡ some o) × (6 ≤ o.next_step))

three_trees :
    (s : Schedule) (a b c : Task2d)
    → s.task_deque (s.current_rdy_to_commit, pos2) ≡ some a
    → s.task_deque (s.current_rdy_to_commit, pos1) ≡ some b
    → s.task_deque (s.current_rdy_to_commit, data_tree) ≡ some c
    → 6 ≤ a.next_step
    → 6 ≤ b.next_step
    → 6 ≤ c.next_step
    → (t : TreeName)
    → (o : Task2d) × (s.task_deque (s.current_rdy_to_commit, t) ≡ some o) × (6 ≤ o.next_step)
three_trees s a b c ea eb ec la lb lc pos2 = (a, ea, la)
three_trees s a b c ea eb ec la lb lc pos1 = (b, eb, lb)
three_trees s a b c ea eb ec la lb lc data_tree = (c, ec, lc)

module _ (s : Schedule) (v : Inv s) (l : Live s)
    (some_column : s.current_rdy_to_commit < s.tail_n_id) where
  abbrev oldest : ℕ
  oldest = s.current_rdy_to_commit

  -- A tree of the oldest column whose turn it is: in the pool, or done.
  tree_moves :
      (t : TreeName) (o : Task2d)
      → s.task_deque (oldest, t) ≡ some o
      → (t ≡ pos2) ⊎ (1 ≤ o.next_step)
      → (in_pool (oldest, t) s.execution_pool ≡ true) ⊎ (6 ≤ o.next_step)
  tree_moves t o e turn = elim (Bool-cases (leb o.next_step 5)) [
    | inr p ↦ inr (ground arith)
    | inl p ↦ inl (l.sent (oldest, t) o e (ground arith, may o turn))
  ]
    where
      may :
          (o : Task2d)
          → (t ≡ pos2) ⊎ (1 ≤ o.next_step)
          → ((o.next_step ≡ 0) × (t ≡ pos2))
            ⊎ ((1 ≤ o.next_step) × IsClear s.task_deque (oldest, t) o)
      may o (inr big) = inr (big, oldest-IsClear s v t o)
      may o (inl first) = elim (Bool-cases (o.next_step == 0)) [
        | inl z ↦ inl (ground arith, first)
        | inr z ↦ inr (ground arith, oldest-IsClear s v t o)
      ]

  -- A tree has started when the one before it is done.
  started_after :
      (t : TreeName) (o : Task2d)
      → s.task_deque (oldest, t) ≡ some o
      → IsReady s.task_deque (oldest, t)
      → (t ≡ pos2) ⊎ (1 ≤ o.next_step)
  started_after t o e r = elim (Bool-cases (o.next_step == 0)) [
    | inl z ↦ inl (l.begun (oldest, t) o e r (ground arith))
    | inr z ↦ inr (ground arith)
  ]

  pub oldest_moves : OldestMoves s
  oldest_moves =
      let (a, ea) = v.there oldest pos2 (omega arith) some_column in
      let (b, eb) = v.there oldest pos1 (omega arith) some_column in
      let (c, ec) = v.there oldest data_tree (omega arith) some_column in
      elim (tree_moves pos2 a ea (inl refl)) [
        | inl p ↦ inl (pos2, p)
        | inr a_done ↦ elim (tree_moves pos1 b eb (started_after pos1 b eb (a, ea, omega arith))) [
          | inl p ↦ inl (pos1, p)
          | inr b_done ↦
              elim (tree_moves data_tree c ec (started_after data_tree c ec (b, eb, omega arith))) [
                | inl p ↦ inl (data_tree, p)
                | inr c_done ↦ inr (three_trees s a b c ea eb ec a_done b_done c_done)
              ]
        ]
      ]
