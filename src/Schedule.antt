-- ===== src/Schedule.antt =====
-- The schedule of accesses in src/Memory.h, with `task_2d` and `m_task_deque` of src/task.h: a column is
-- one access, with a task in each of the three trees.
pub mod Serve
pub mod Window
pub mod Keys
pub mod Spec
pub mod Invariant
pub mod Create
pub mod Live
pub mod Reach
use palermo_oram.Base.{
  ℕ, zero, suc, ◌+◌, ◌-◌, ◌*◌, ◌/◌, ◌%◌, Bool, true, false, not, ◌&&◌, ◌||◌, Option, none, some,
  List, [], ◌∷◌, ◌++◌, ◌==◌, leb, ltb, if◌then◌else◌, ◌>>=◌, ◌>>◌, assert,
}
use palermo_oram.Params.{z_slots, evict_rate, pos1_metadata_start, pos2_metadata_start}
use palermo_oram.Tree.{TreeName, data_tree, pos1, pos2, Geometry}
use palermo_oram.Store.{Address}

abbrev pub same_tree : TreeName → TreeName → Bool
same_tree data_tree data_tree = true
same_tree pos1 pos1 = true
same_tree pos2 pos2 = true
same_tree _ _ = false

-- `pair<long long, string>`, the key of `task_deque`, and all that orders `execution_pool`
abbrev pub Key : Type 0
Key = ℕ × TreeName

abbrev pub same_key : Key → Key → Bool
same_key (i, t) (j, u) = i == j && same_tree t u

-- `task_2d`, but for the read that it carries in `head`
pub record Task2d : Type 0 where
  pub next_step : ℕ
  pub addr : Address
  pub set_id : ℕ
  pub set_cnt : ℕ

abbrev pub Deque : Type 0
Deque = Key → Option Task2d

abbrev pub deque_put : Deque → Key → Option Task2d → Deque
deque_put d k v q = if same_key k q then v else d q

-- A call of `call_ramulator_package`: the task, and the step that it is at.
pub record Issue : Type 0 where
  pub key : Key
  pub step : ℕ

-- `m_task_deque` with the fields of `Memory` and of the three trees that the schedule uses. `issued`
-- lists the calls of `call_ramulator_package`, the last one first.
pub record Schedule : Type 0 where
  pub current_rdy_to_commit : ℕ
  pub depth : ℕ
  pub trace_end : Bool
  pub task_deque : Deque
  pub execution_pool : List Key
  pub tail_n_id : ℕ
  pub set_cnt_map : TreeName → ℕ → ℕ
  pub geos : TreeName → Geometry
  pub issued : List Issue

abbrev pub in_pool : Key → List Key → Bool
in_pool k [] = false
in_pool k (q ∷ qs) = same_key k q || in_pool k qs

abbrev pub pool_erase : Key → List Key → List Key
pool_erase k [] = []
pool_erase k (q ∷ qs) = if same_key k q then qs else q ∷ pool_erase k qs

-- `push_execution_pool`
unfoldable pub push_execution_pool : Key → Schedule → Option Schedule
push_execution_pool k s = do
  t ← s.task_deque k
  assert (not (in_pool k s.execution_pool))
  some (record s {
    execution_pool = k ∷ s.execution_pool;
    issued = record { key = k; step = t.next_step } ∷ s.issued;
  })

abbrev pub set_step : Key → ℕ → Schedule → Option Schedule
set_step k step s = do
  t ← s.task_deque k
  some (record s { task_deque = deque_put s.task_deque k (some (record t { next_step = step })) })

-- How far apart the addresses of the three trees are.
abbrev pub fan : TreeName → ℕ
fan data_tree = 1
fan pos1 = 8
fan pos2 = 64

abbrev pub tree_address : TreeName → Address → Address
tree_address t none = none
tree_address data_tree (some a) = some a
tree_address pos1 (some a) = some (pos1_metadata_start + a / 8)
tree_address pos2 (some a) = some (pos2_metadata_start + a / 64)

-- The set of an address; a dummy access takes the one that `rand` gives.
abbrev pub set_of_address : ℕ → Geometry → TreeName → Address → ℕ
set_of_address random g t none = random % (g.total_num_blocks / g.num_of_ways)
set_of_address random g t (some a) = ((a / fan t / z_slots) % g.total_num_blocks) / g.num_of_ways

-- A task of a new column: `new task_2d(…, ++set_cnt_map[set_id])`
unfoldable pub new_task_2d : ℕ → Key → Address → Schedule → Schedule
new_task_2d random (id, t) addr s =
    let set_id = set_of_address random (s.geos t) t addr in
    let cnt = s.set_cnt_map t set_id + 1 in
    record s {
      set_cnt_map = (λ u i. if same_tree t u && set_id == i then cnt else s.set_cnt_map u i);
      task_deque =
          deque_put s.task_deque (id, t)
            (some (record {
              next_step = 0;
              addr = tree_address t addr;
              set_id = set_id;
              set_cnt = cnt;
            }));
    }

abbrev pub is_none {ℓ} : {A : Type ℓ} → Option A → Bool
is_none none = true
is_none (some _) = false

-- `assert(task_deque.find(make_pair(n_id - depth, level)) == end)`; a negative number is not there.
unfoldable pub slot_is_free : Key → Schedule → Bool
slot_is_free (id, t) s = ltb id s.depth || is_none (s.task_deque (id - s.depth, t))

-- `oram_task_create(n_id, "data", 0, addr)`, with its calls for the other two trees. `random` gives
-- the three calls of `rand`.
unfoldable pub create_column : (TreeName → ℕ) → ℕ → Address → Schedule → Option Schedule
create_column random id addr s = do
  assert (slot_is_free (id, data_tree) s)
  let s₁ = new_task_2d (random data_tree) (id, data_tree) addr s
  assert (slot_is_free (id, pos1) s₁)
  let s₂ = new_task_2d (random pos1) (id, pos1) addr s₁
  assert (slot_is_free (id, pos2) s₂)
  push_execution_pool (id, pos2) (new_task_2d (random pos2) (id, pos2) addr s₂)

-- Whether a task is at a step at which the next column of its set must wait.
unfoldable pub holds_set : Task2d → Bool
holds_set t = if t.set_cnt % evict_rate == 0 then leb t.next_step 5 else leb t.next_step 2

-- The loop of `oram_task_create` over the columns before `check_id`, down to one that is gone.
unfoldable pub is_blocked : Deque → TreeName → ℕ → ℕ → Bool
is_blocked d t set_id zero = false
is_blocked d t set_id (suc check_id) = elim (d (check_id, t)) [
  | none ↦ false
  | some other ↦ (other.set_id == set_id && holds_set other) || is_blocked d t set_id check_id
]

-- `oram_task_create` for a step from 1 to 6
unfoldable pub oram_task_create : Key → ℕ → Schedule → Option Schedule
oram_task_create (id, t) step s = do
  s₁ ← set_step (id, t) step s
  this ← s₁.task_deque (id, t)
  if step == 6
      then some s₁
      else if is_blocked s₁.task_deque t this.set_id id
      then some s₁
      else push_execution_pool (id, t) s₁
