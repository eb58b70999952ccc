-- ===== src/Schedule/Serve.antt =====
-- `oram_task_finish`, `pop_execution_pool` and `serve_until_need_address`.
pub mod Wake
pub mod Commit
pub mod Awake
pub mod Held
pub mod Finish
pub mod Launch
pub mod Steps
pub mod Pop
pub mod Column
pub mod Admit
use palermo_oram.Base.{
  ℕ, zero, suc, ◌+◌, ◌-◌, ◌%◌, Bool, true, false, not, ◌&&◌, ◌||◌, Option, none, some, List, [],
  ◌∷◌, ◌==◌, leb, ltb, if◌then◌else◌, ◌>>=◌, ◌>>◌, assert,
}
use palermo_oram.Params.{evict_rate}
use palermo_oram.Tree.{TreeName, data_tree, pos1, pos2}
use palermo_oram.Store.{Address}
use palermo_oram.State.{TaskRs}
use palermo_oram.Schedule.{
  Key, Task2d, Deque, deque_put, Schedule, in_pool, pool_erase, create_column, oram_task_create,
}

-- The loop over the columns behind `check_id`: the first of the same set, if it waits at step 1 and
-- this task lets it go, is created again. The first part says whether a `break` was reached
-- within the fuel, and `none` is a failed assertion only.
unfoldable pub wake_next : ℕ → TreeName → ℕ → Bool → ℕ → Schedule → Option (Bool × Schedule)
wake_next zero t set_id lets_go check_id s = some (false, s)
wake_next (suc fuel) t set_id lets_go check_id s = elim (s.task_deque (check_id, t)) [
  | none ↦ some (true, s)
  | some other ↦
      let onward = wake_next fuel t set_id lets_go (check_id + 1) s in
      if other.set_id == set_id
      then (if lets_go && other.next_step == 1
          then (do s' ← oram_task_create (check_id, t) 1 s; some (true, s'))
          else some (true, s))
      else onward
]

-- The column behind `id` of the same set may go on; the columns from `tail_n_id` on are not there.
unfoldable pub wake_after : Key → (Task2d → Bool) → Schedule → Option Schedule
wake_after (id, t) lets_go s = do
  this ← s.task_deque (id, t)
  (ended, s') ← wake_next (suc s.tail_n_id) t this.set_id (lets_go this) (id + 1) s
  assert ended
  some s'

abbrev pub is_finished : ℕ → TreeName → Schedule → Option Bool
is_finished id t s = do task ← s.task_deque (id, t); some (task.next_step == 6)

-- The three tasks of a column are at step 6; the test stops at the first that is not.
unfoldable pub column_finished : ℕ → Schedule → Option Bool
column_finished id s = do
  a ← is_finished id data_tree s
  let second = (do b ← is_finished id pos1 s; (if b then is_finished id pos2 s else some false))
  if a then second else some false

abbrev pub erase_column : ℕ → Deque → Deque
erase_column id d =
    deque_put (deque_put (deque_put d (id, data_tree) none) (id, pos1) none) (id, pos2) none

-- The commit of the oldest column, when it is `id` and finished.
unfoldable pub try_commit : ℕ → Schedule → Option (Bool × Schedule)
try_commit id s = do
  done ← (if id == s.current_rdy_to_commit then column_finished id s else some false)
  some (
      if done
      then (
        true,
        record s {
          task_deque = erase_column id s.task_deque;
          current_rdy_to_commit = s.current_rdy_to_commit + 1;
        },
      )
      else (false, s))

-- After step 3 the next tree of the column starts.
unfoldable pub start_next_tree : Key → Schedule → Option Schedule
start_next_tree (id, data_tree) s = some s
start_next_tree (id, pos1) s = oram_task_create (id, data_tree) 1 s
start_next_tree (id, pos2) s = oram_task_create (id, pos1) 1 s

abbrev pub writes_back : Task2d → Bool
writes_back t = t.set_cnt % evict_rate == 0

unfoldable pub finish_2 : Key → Schedule → Option (Bool × Schedule)
finish_2 k s = do
  s₁ ← oram_task_create k 3 s
  s₂ ← wake_after k (λ t. not (writes_back t)) s₁
  some (true, s₂)

unfoldable pub finish_3 : Key → Schedule → Option (Bool × Schedule)
finish_3 (id, t) s = do
  this ← s.task_deque (id, t)
  let onward = (λ (r : Schedule). do r' ← start_next_tree (id, t) r; some (true, r'))
  if writes_back this then (do s₁ ← oram_task_create (id, t) 4 s; onward s₁) else (do
    s₁ ← oram_task_create (id, t) 6 s
    (committed, s₂) ← try_commit id s₁
    if committed then some (false, s₂) else onward s₂)

unfoldable pub finish_5 : Key → Schedule → Option (Bool × Schedule)
finish_5 (id, t) s = do
  s₁ ← oram_task_create (id, t) 6 s
  s₂ ← wake_after (id, t) writes_back s₁
  (committed, s₃) ← try_commit id s₂
  some (not committed, s₃)

unfoldable pub create_step : Key → ℕ → Schedule → Option (Bool × Schedule)
create_step k next s = do s' ← oram_task_create k next s; some (true, s')

-- `oram_task_finish`: `false` is the commit of a column.
unfoldable pub oram_task_finish : Key → ℕ → Schedule → Option (Bool × Schedule)
oram_task_finish k step s =
    if step == 0
    then create_step k 1 s
    else if step == 1
    then create_step k 2 s
    else if step == 2
    then finish_2 k s
    else if step == 3
    then finish_3 k s
    else if step == 4
    then create_step k 5 s
    else if step == 5
    then finish_5 k s
    else some (true, s)

-- The queues `ready_to_pop_task` of the three trees, when one of them has a task.
pub record Queues : Type 0 where
  pub ready_pos2 : List TaskRs
  pub ready_pos1 : List TaskRs
  pub ready_data : List TaskRs

-- Which finished task `pop_execution_pool` takes: one of `pos2` before one of `pos1` before `data`.
unfoldable pub next_ready : List TaskRs → List TaskRs → List TaskRs → Option TaskRs
next_ready (t ∷ _) ready_pos1 ready_data = some t
next_ready [] (t ∷ _) ready_data = some t
next_ready [] [] (t ∷ _) = some t
next_ready [] [] [] = none

-- `pop_execution_pool`, given the queues after its wait: the code ticks until one has a task. The
-- task that it takes leaves its queue, which is not part of the schedule.
unfoldable pub pop_execution_pool : Queues → Schedule → Option (Bool × Schedule)
pop_execution_pool queues s = elim (s.execution_pool) [
  | [] ↦ some (false, s)
  | _ ∷ _ ↦ do
    ready ← next_ready queues.ready_pos2 queues.ready_pos1 queues.ready_data
    let k : Key = (ready.id, ready.level)
    assert (in_pool k s.execution_pool)
    (more, s') ←
        oram_task_finish k ready.next_step
          (record s { execution_pool = pool_erase k s.execution_pool })
    some (more || s'.trace_end, s')
]

-- `while (pop_execution_pool()) { }`, over the queues as the memory leaves them at each round.
-- `none` is a loop that waits for more.
unfoldable pub pop_all : List Queues → Schedule → Option (List Queues × Schedule)
pop_all [] s = elim (s.execution_pool) [ [] ↦ some ([], s) | _ ∷ _ ↦ none ]
pop_all (queues ∷ rest) s = do
  (more, s') ← pop_execution_pool queues s
  let onward = pop_all rest s'
  if more then onward else some (rest, s')

-- The new column of `serve_until_need_address`.
unfoldable pub admit : (TreeName → ℕ) → Address → Bool → Schedule → Option Schedule
admit random new_addr end s = do
  s₁ ←
      (if end then some s else (do
        s' ← create_column random s.tail_n_id new_addr s
        some (record s' { tail_n_id = s'.tail_n_id + 1 })))
  some (record s₁ { trace_end = end })

unfoldable pub serve_until_need_address :
    (TreeName → ℕ) → Address → Bool → List Queues → Schedule → Option (List Queues × Schedule)
serve_until_need_address random new_addr end finished s = do
  s₁ ← admit random new_addr end s
  let loop = (do
    (committed, s₂) ←
        (if leb s₁.depth s₁.tail_n_id
          then try_commit (s₁.tail_n_id - s₁.depth) s₁
          else some (false, s₁))
    if committed && not end then some (finished, s₂) else pop_all finished s₂)
  if ltb s₁.tail_n_id s₁.depth && not end then some (finished, s₁) else loop
