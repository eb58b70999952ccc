-- ===== src/Examples/Schedules.antt =====
-- The station and the schedule, at small inputs.
use palermo_oram.Base.{
  zero, suc, ◌/◌, ◌≤◌, ◌≡◌, refl, Bool, ◌&&◌, ◌==◌, Option, true, false, none, some, [], ◌∷◌, arith,
  if◌then◌else◌, length, ℕ, map,
}
use palermo_oram.Tree.{pos1, pos2}
use palermo_oram.Station.Metadata.{ring_reverse, get_ring_counter}
use palermo_oram.Station.Metadata.RingOrder.{get_ring_counter-set}
use palermo_oram.Posmap.Access.Reading.{get_rand_leaf}
use palermo_oram.Posmap.Access.Steps.Leaves.{get_rand_leaf-scheduled_set}
use palermo_oram.Station.Mshr.{commit_all, rs_line_commit_attempt, commit_line, count_down, settle}
use palermo_oram.Posmap.Start.{rs_fields, rs_line}
use palermo_oram.Station.Mshr.Commit.{commit_all_ends, IsRun, IsEnd, valid_lines}
use palermo_oram.Schedule.{
  set_of_address, Schedule, same_key, push_execution_pool, is_blocked, holds_set, oram_task_create,
}
use palermo_oram.Schedule.Window.{IsWindow, with_step, oram_task_create_in_order}
use palermo_oram.Schedule.Serve.{wake_next}
use palermo_oram.Schedule.Serve.Wake.{IsTail, IsPassed, IsStop, wake_next_stops}
use palermo_oram.Examples.{small, start, no_shuffle}
use palermo_oram.State.{Rs, RsLine}

-- Both lines are valid and ready and have a task: they commit, one after the other.
abbrev ready_lines : Rs
ready_lines = record (start.rs) {
  rs_vec = map (λ (l : RsLine). record l { valid = true; ready = true }) start.rs.rs_vec;
  task_heap = some (record { id = 0; level = pos1; next_step = 3; cnt = 2 }) ∷ [];
  rs_line_task_map = (λ _. some 0);
}

commit_all_ends_example :
    (r' : Rs) × IsRun ready_lines r'
    × IsEnd r' (commit_all (suc (length ready_lines.rs_vec)) ready_lines)
commit_all_ends_example = commit_all_ends ready_lines

-- The run of that example ends with the `break`, both lines committed.
abbrev is_done : Option (Bool × Rs) → Bool
is_done none = false
is_done (some (ended, r)) = ended && valid_lines r.rs_vec == 0

two_committed : is_done (commit_all 3 ready_lines) ≡ true
unfolding commit_all rs_line_commit_attempt commit_line count_down settle rs_fields rs_line
    valid_lines
two_committed = refl

-- Two columns of one set: column 0 has its read of step 2 behind it.
abbrev two_columns : Schedule
two_columns = record {
  current_rdy_to_commit = 0;
  depth = 8;
  trace_end = false;
  task_deque = λ k.
      if same_key (0, pos2) k
      then some (record { next_step = 3; addr = some 0; set_id = 0; set_cnt = 1 })
      else if same_key (1, pos2) k
      then some (record { next_step = 1; addr = some 0; set_id = 0; set_cnt = 2 })
      else none;
  execution_pool = [];
  tail_n_id = 2;
  set_cnt_map = (λ _ _. 2);
  geos = (λ _. small);
  issued = [];
}

two_columns-IsTail : IsTail pos2 two_columns
two_columns-IsTail i le = ground arith

wake_next_stops_example :
    (id : ℕ) × (1 ≤ id)
    × IsPassed pos2 0 1 id two_columns
    × IsStop pos2 0 true id two_columns (wake_next 3 pos2 0 true 1 two_columns)
wake_next_stops_example =
    wake_next_stops 3 pos2 0 true 1 two_columns two_columns-IsTail (omega arith) (omega arith)

abbrev column_1_sent : Schedule
column_1_sent = record two_columns {
  task_deque =
      with_step (1, pos2) 1 (record { next_step = 1; addr = some 0; set_id = 0; set_cnt = 2 })
        two_columns.task_deque;
  execution_pool = (1, pos2) ∷ [];
  issued = record { key = (1, pos2); step = 1 } ∷ [];
}

two_columns-IsWindow : IsWindow two_columns.task_deque pos2 0 1
two_columns-IsWindow i le lt =
    let first : i ≡ 0 = omega arith in
    (record { next_step = 3; addr = some 0; set_id = 0; set_cnt = 1 }, rw first refl)

oram_task_create_in_order_example : 3 ≤ 3
unfolding oram_task_create push_execution_pool is_blocked holds_set
oram_task_create_in_order_example =
    oram_task_create_in_order 1 pos2 1 two_columns column_1_sent _ refl refl (λ e. cc) 0
      (record { next_step = 3; addr = some 0; set_id = 0; set_cnt = 1 }) two_columns-IsWindow
      (omega arith) refl refl

-- Two sets of two paths, at the second write-back of set 1.
abbrev two_sets : Rs
two_sets = record (start.rs) { geo = record small { num_of_ways = 2 }; ring_counter = 0 ∷ 1 ∷ [] }

get_ring_counter-set_example : (3 / 2) ≡ suc zero
unfolding get_ring_counter ring_reverse
get_ring_counter-set_example =
    get_ring_counter-set (λ _. 1) 1 3 two_sets (record two_sets { ring_counter = 0 ∷ 2 ∷ [] })
      (omega arith) (omega arith) refl

get_rand_leaf-scheduled_set_example :
    (get_rand_leaf no_shuffle 50 two_sets).0 / 2 ≡ set_of_address 0 two_sets.geo pos1 (some 400)
get_rand_leaf-scheduled_set_example =
    get_rand_leaf-scheduled_set no_shuffle pos1 400 0x200000 0 50 two_sets (omega arith) refl refl
