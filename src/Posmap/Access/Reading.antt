-- ===== src/Posmap/Access/Reading.antt =====
-- The steps 0 to 2 of `init_step`, up to the read of a path. A step answers `false` for the 0 with
-- which the code asks to be called again. A `block_id` of -1, with which the code would index before
-- its tables, stops the model.
use palermo_oram.Base.{
  ℕ, ◌+◌, ◌-◌, ◌*◌, ◌/◌, ◌%◌, Bool, true, false, ◌&&◌, ◌||◌, Option, none, some, List, [], ◌∷◌,
  ◌==◌, leb, ltb, if◌then◌else◌, ◌>>=◌, ◌>>◌, assert, get_elem?, store_at, length, for_each, range,
  put_at,
}
use palermo_oram.Params.{s_slots, z_slots}
use palermo_oram.Bucket.{next_s, take_z}
use palermo_oram.Tree.{TreeName, pos2, path_node}
use palermo_oram.Store.{PosEntry, mapped, blank, Address}
use palermo_oram.State.{Random, TaskRs, Rs, new_task, push_ready}
use palermo_oram.Station.Metadata.{check_metadata_after_posmap, check_early_need}
use palermo_oram.Station.Register.Early.{
  rs_line_register_early_reshuffle_r, rs_line_register_early_reshuffle_w,
}
use palermo_oram.Posmap.{Task, Posmap}
use palermo_oram.Posmap.Piggy.{piggy_one}
use palermo_oram.Posmap.Access.{
  wrap_address, hazard_for, idle_entry, put_pos_map, push_to_pending_read,
}

-- The task that a step is for.
pub record StepOf : Type 0 where
  pub addr : Address
  pub id : ℕ
  pub level : TreeName
  pub step : ℕ
  pub set_id : ℕ

abbrev pub task_rs : StepOf → ℕ → TaskRs
task_rs s cnt = record { id = s.id; level = s.level; next_step = s.step; cnt = cnt }

abbrev pub with_rs : Posmap → Rs → Posmap
with_rs p r = record p { rs = r }

-- Where a column starts, `set_id * num_of_ways + rand() % num_of_ways`.
unfoldable pub random_block : Random → ℕ → Rs → ℕ × Rs
random_block random set_id r = (
  set_id * r.geo.num_of_ways + random.rand r.draws % r.geo.num_of_ways,
  record r { draws = r.draws + 1 },
)

-- `get_rand_leaf`
unfoldable pub get_rand_leaf : Random → ℕ → Rs → ℕ × Rs
get_rand_leaf random original_address r =
    let set_num = ((original_address / z_slots) % r.geo.total_num_blocks) / r.geo.num_of_ways in
    random_block random set_num r

unfoldable pub step_0 : StepOf → Posmap × Task → Option (Bool × (Posmap × Task))
step_0 s (p, head) = do
  assert (elim (s.level) [ pos2 ↦ true | _ ↦ false ])
  some (true, (with_rs p (push_ready (task_rs s 0) p.rs), head))

-- The message for task 0 reads `posMap[new_addr]`, which makes a blank entry if there is none.
unfoldable pub print_first : StepOf → Address → Posmap → Posmap
print_first s address p =
    if elim (s.level) [ pos2 ↦ s.id == 0 | _ ↦ false ]
    then elim (p.rs.store.pos_map address) [
      | none ↦ put_pos_map address (blank false) p
      | some entry ↦ p
    ]
    else p

-- `line.block_id`; a blank entry has -1, which the code asserts away.
abbrev pub entry_block : PosEntry → Option ℕ
entry_block (mapped line) = some line.block_id
entry_block (blank _) = none

-- The block whose path the column reads: its own, or a random one for an address that has none.
unfoldable pub choose_block : Random → StepOf → Address → Posmap → Option (ℕ × Posmap)
choose_block random s address p = elim (idle_entry address p) [
  | none ↦ let (block_id, r) = random_block random s.set_id p.rs in some (block_id, with_rs p r)
  | some entry ↦ do block_id ← entry_block entry; some (block_id, p)
]

unfoldable pub step_1 : Random → StepOf → Posmap × Task → Option (Bool × (Posmap × Task))
step_1 random s (p, head) = do
  let address = wrap_address p.total_num_of_original_addr_space s.addr
  (block_id, p₁) ← choose_block random s address p
  hazard ← hazard_for block_id p₁
  let p₂ = print_first s address p₁
  let done = (do
    r ← check_metadata_after_posmap block_id s.id s.level s.step p₂.rs
    some (true, (with_rs p₂ r, record head { block_id = some block_id })))
  if hazard then some (false, (p₁, head)) else done

-- `rs_line_task_map[tail] = task`
abbrev pub map_line : ℕ → ℕ → Rs → Rs
map_line line task r = record r { rs_line_task_map = put_at r.rs_line_task_map line (some task) }

-- The early pulls, then the early pushes with the refill of each node.
unfoldable pub early_pull_node : ℕ → ℕ × ℕ → Posmap → Option Posmap
early_pull_node task (node_id, node_lvl) p = do
  r ← rs_line_register_early_reshuffle_r node_id node_lvl (map_line p.rs.tail task p.rs)
  some (with_rs p r)

unfoldable pub early_push_node : Random → ℕ → ℕ × ℕ → Posmap → Option Posmap
early_push_node random task (node_id, node_lvl) p = do
  r ← rs_line_register_early_reshuffle_w node_id node_lvl (map_line p.rs.tail task p.rs)
  let counted = record r {
    stats = record (r.stats) {
      lvl_counter =
          (λ l. if node_lvl == l then r.stats.lvl_counter l + 1 else r.stats.lvl_counter l);
    };
  }
  piggy_one random node_id node_lvl (with_rs p counted)

unfoldable pub early_reshuffle : Random → StepOf → Posmap → Option Posmap
early_reshuffle random s p = do
  let nodes = p.rs.early_reshuffle_nodes
  let task = length p.rs.task_heap
  let lines = length nodes * 2
  let r₁ = new_task (task_rs s lines) p.rs
  let r₂ = record r₁ {
    stats = record (r₁.stats) { rs_early_rs_lines = r₁.stats.rs_early_rs_lines + lines };
  }
  let r₃ = if length nodes == 0 then push_ready (task_rs s 0) r₂ else r₂
  p₁ ← for_each (early_pull_node task) nodes (with_rs p r₃)
  p₂ ← for_each (early_push_node random task) nodes p₁
  some (with_rs p₂ (record (p₂.rs) { early_reshuffle_nodes = [] }))

-- The counter of a read at level `i`.
abbrev pub count_read : Bool → ℕ → Rs → Rs
count_read useful i r =
    if leb r.geo.lowest_uncached_lvl i
    then record r {
      stats =
          (if useful
            then record (r.stats) { useful_read_pull_ddr = r.stats.useful_read_pull_ddr + 1 }
            else record (r.stats) { dummy_read_pull_ddr = r.stats.dummy_read_pull_ddr + 1 });
    }
    else r

abbrev pub is_node : Option ℕ → ℕ → Bool
is_node none node_id = false
is_node (some n) node_id = n == node_id

-- The read of one bucket on the path: the block if it is the intended node, else a dummy.
unfoldable pub read_bucket : Task → ℕ → ℕ → Rs → Option (ℕ × Rs)
read_bucket head node_id i r = do
  b ← get_elem? r.store.buckets node_id
  let intended = is_node head.node_id node_id
  ((offset, _), b') ←
      (if intended
        then (do assert (leb r.geo.start_lvl i); o ← head.offset; take_z o b)
        else next_s b)
  buckets ← store_at r.store.buckets node_id b'
  some (offset, count_read intended i (record r { store = record (r.store) { buckets = buckets } }))

abbrev pub has_pair : ℕ → ℕ → List (ℕ × ℕ) → Bool
has_pair a b [] = false
has_pair a b ((x, y) ∷ ps) = (a == x && b == y) || has_pair a b ps

unfoldable pub read_unless : Bool → Task → ℕ → ℕ → Rs → Option (Option ℕ × Rs)
read_unless true head node_id i r = some (none, r)
read_unless false head node_id i r = do (o, r') ← read_bucket head node_id i r; some (some o, r')

-- One level of the read of a path: cached nodes, and those just shuffled, are passed over.
unfoldable pub read_path_level : Task → ℕ → ℕ → Rs → Option Rs
read_path_level head block_id i r = do
  let node_id = path_node r.geo.num_of_lvls block_id i
  b ← get_elem? r.store.buckets node_id
  assert (leb b.accessed_times (s_slots - 1))
  nodes ← store_at r.node_id_vec i (some node_id)
  let r₁ = record r { node_id_vec = nodes }
  let skip =
      has_pair node_id i r.early_reshuffle_nodes
      || (ltb i r.geo.start_lvl || ltb node_id r.geo.cache_end_nodeid)
  (offset, r₂) ← read_unless skip head node_id i r₁
  offsets ← store_at r₂.offset_vec i offset
  some (record r₂ { offset_vec = offsets })

abbrev pub take_head : Task → Task → Task
take_head head front = record head {
  original_address = front.original_address;
  block_id = front.block_id;
  node_id = front.node_id;
  offset = front.offset;
  is_read = front.is_read;
}

-- The front of `pending_q`, which the code pops at the end.
abbrev pub pop_front : List Task → Option (Task × List Task)
pop_front [] = none
pop_front (t ∷ ts) = some (t, ts)

unfoldable pub step_2 : Random → StepOf → Posmap × Task → Option (Bool × (Posmap × Task))
step_2 random s (p, head) = do
  block_id ← head.block_id
  hazard ← hazard_for block_id p
  let done = (do
    r₁ ← check_early_need block_id p.rs
    p₁ ← early_reshuffle random s (with_rs p r₁)
    (pushed, p₂) ← push_to_pending_read s.addr block_id p₁
    assert pushed
    (front, rest) ← pop_front p₂.pending_q
    let head₁ = take_head head front
    target ← head₁.block_id
    r₂ ← for_each (read_path_level head₁ target) (range 0 p₂.rs.geo.num_of_lvls) p₂.rs
    let head₂ = record head₁ {
      local_node_id_vec = r₂.node_id_vec;
      local_offset_vec = r₂.offset_vec;
    }
    some (
      true,
      (record p₂ { pending_q = rest; rs = record r₂ { early_reshuffle_nodes = [] } }, head₂),
    ))
  if hazard then some (false, (p, head)) else done
