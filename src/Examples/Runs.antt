-- ===== src/Examples/Runs.antt =====
-- The start of a tree, and a run of the schedule with one column.
use palermo_oram.Base.{
  ℕ, ◌≡◌, refl, ◌+◌, ◌-◌, ◌>>=◌, ap, sym, Bool, false, Option, none, some, [], ◌∷◌, arith,
}
use palermo_oram.Tree.{data_tree, pos2}
use palermo_oram.Posmap.{Posmap}
use palermo_oram.Posmap.Start.{Logs, geometry, rs_init, posmap_and_stash}
use palermo_oram.Posmap.Start.Init.{IsStart, posmap_and_stash-IsStart}
use palermo_oram.Schedule.{
  Schedule, Task2d, create_column, push_execution_pool, new_task_2d, slot_is_free,
}
use palermo_oram.Schedule.Invariant.{Inv}
use palermo_oram.Schedule.Live.{Live}
use palermo_oram.Schedule.Live.Oldest.{OldestMoves}
use palermo_oram.Schedule.Spec.{progress, Moves}
use palermo_oram.Schedule.Serve.{Queues, next_ready, pop_execution_pool, admit}
use palermo_oram.Schedule.Serve.Admit.{admit-Inv, admit_full}
use palermo_oram.Schedule.Serve.Pop.{IsAnswer, pop_execution_pool-Inv}
use palermo_oram.Schedule.Reach.{
  no_columns, no_columns-IsSound, Reached, start, admitted, reached_moves, Reached-IsSound,
}
use palermo_oram.Examples.{no_shuffle, small}

-- Four leaves in one set.
abbrev two_levels : Logs
two_levels = record { ceil_log = (λ _. 2); floor_log = (λ _. 2) }

posmap_and_stash-IsStart_example :
    (p : Posmap) × ((rs_init no_shuffle (geometry two_levels 2 4 4 1 data_tree)
        >>= posmap_and_stash two_levels no_shuffle 4)
      ≡ some p)
    × ((geometry two_levels 2 4 4 1 data_tree).start_lvl + 2
        ≡ (geometry two_levels 2 4 4 1 data_tree).num_of_lvls - 1)
    × IsStart (geometry two_levels 2 4 4 1 data_tree) p.rs
posmap_and_stash-IsStart_example =
    posmap_and_stash-IsStart two_levels no_shuffle 2 4 4 1 data_tree (omega arith) (omega arith)
      (omega arith) (omega arith) (omega arith) (omega arith)

-- A schedule with room for one column, and the same with the column.
abbrev empty : Schedule
empty = no_columns 1 (λ _. small)

abbrev one_column : Schedule
one_column = elim (admit (λ _. 0) (some 64) false empty) [ none ↦ empty | some s ↦ s ]

one_column_eq : admit (λ _. 0) (some 64) false empty ≡ some one_column
unfolding admit create_column push_execution_pool new_task_2d slot_is_free
one_column_eq = refl

one_column-Reached : Reached 1 (λ _. small) one_column
one_column-Reached = admitted (λ _. 0) (some 64) start (omega arith) one_column_eq

abbrev step_of : Option Task2d → ℕ
step_of none = 0
step_of (some t) = t.next_step

-- The memory has finished the first step.
abbrev answers : Queues
answers = record {
  ready_pos2 = record { id = 0; level = pos2; next_step = 0; cnt = 0 } ∷ [];
  ready_pos1 = [];
  ready_data = [];
}

answers-IsAnswer : IsAnswer answers one_column
unfolding admit create_column push_execution_pool new_task_2d slot_is_free next_ready
answers-IsAnswer = record {
  ready = record { id = 0; level = pos2; next_step = 0; cnt = 0 };
  first = refl;
  sent = refl;
  same_step = λ o e. sym (ap step_of e);
}

admit-Inv_example :
    (s' : Schedule) × (admit (λ _. 0) (some 64) false empty ≡ some s')
    × Inv s'
    × Live s'
    × Moves (progress empty) (progress s')
admit-Inv_example =
    admit-Inv (λ _. 0) (some 64) empty (no_columns-IsSound 1 (λ _. small)).0
      (no_columns-IsSound 1 (λ _. small)).1 (omega arith)

pop_execution_pool-Inv_example :
    (more : Bool) × (s' : Schedule) × (pop_execution_pool answers one_column ≡ some (more, s'))
    × Inv s'
    × Live s'
    × Moves (progress one_column) (progress s')
pop_execution_pool-Inv_example =
    pop_execution_pool-Inv answers one_column (Reached-IsSound one_column-Reached).0
      (Reached-IsSound one_column-Reached).1 answers-IsAnswer

reached_moves_example : OldestMoves one_column
unfolding admit create_column push_execution_pool new_task_2d slot_is_free
reached_moves_example = reached_moves one_column one_column-Reached (omega arith)

admit_full_example : admit (λ _. 0) none false one_column ≡ none
unfolding admit create_column push_execution_pool new_task_2d slot_is_free
admit_full_example =
    admit_full (λ _. 0) none one_column (Reached-IsSound one_column-Reached).0 (omega arith)
      (omega arith)
