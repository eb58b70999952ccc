-- ===== src/Posmap/Access.antt =====
-- One access to the tree, in six steps: `push_to_pending_read`, `evaluate_next_task`, `init_step`.
pub mod Reading
pub mod Early
pub mod PathWrite
pub mod PathStep
pub mod Steps
use palermo_oram.Base.{
  ℕ, zero, suc, ◌+◌, ◌-◌, ◌*◌, ◌/◌, ◌%◌, Bool, true, false, not, ◌&&◌, ◌||◌, Option, none, some,
  List, [], ◌∷◌, ◌++◌, ◌==◌, leb, ltb, if◌then◌else◌, ◌>>=◌, ◌>>◌, assert, get_elem?, set, store_at,
  length, for_each, range, replicate,
}
use palermo_oram.Params.{s_slots}
use palermo_oram.Tree.{path_node}
use palermo_oram.Store.{PosMapLine, PosEntry, mapped, blank, Address, pos_put}
use palermo_oram.State.{Rs}
use palermo_oram.Station.Forward.{struct_hazard}
use palermo_oram.Posmap.{Task, Posmap}

-- `if (addr > 0) addr = addr % total_num_of_original_addr_space`
abbrev pub wrap_address : ℕ → Address → Address
wrap_address space none = none
wrap_address space (some a) = some (a % space)

-- `evaluate_next_task`: the lines that serving a block may take
unfoldable pub lines_for_levels : ℕ → Rs → List ℕ → Option ℕ
lines_for_levels block_id r [] = some 3
lines_for_levels block_id r (i ∷ is) = do
  b ← get_elem? r.store.buckets (path_node r.geo.num_of_lvls block_id i)
  rest ← lines_for_levels block_id r is
  some (if b.accessed_times == s_slots - 1 then rest + 2 else rest)

unfoldable pub evaluate_next_task : ℕ → Posmap → Option ℕ
evaluate_next_task block_id p = lines_for_levels block_id p.rs (range 0 p.max_num_levels)

-- `struct_hazard(evaluate_next_task(block_id))`
unfoldable pub hazard_for : ℕ → Posmap → Option Bool
hazard_for block_id p = do lines ← evaluate_next_task block_id p; struct_hazard lines p.rs

-- `posMap[address].pending`
abbrev pub is_pending : PosEntry → Bool
is_pending (mapped line) = line.pending
is_pending (blank pending) = pending

abbrev pub set_pending : PosEntry → PosEntry
set_pending (mapped line) = mapped (record line { pending = true })
set_pending (blank _) = blank true

abbrev pub entry_node : PosEntry → Option ℕ
entry_node (mapped line) = some line.node_id
entry_node (blank _) = none

abbrev pub entry_offset : PosEntry → Option ℕ
entry_offset (mapped line) = some line.offset
entry_offset (blank _) = none

-- What `posMap` says of an address that is there and not pending.
unfoldable pub idle_entry : Address → Posmap → Option PosEntry
idle_entry address p = elim (p.rs.store.pos_map address) [
  | none ↦ none
  | some entry ↦ if is_pending entry then none else some entry
]

abbrev pub put_pos_map : Address → PosEntry → Posmap → Posmap
put_pos_map address entry p = record p {
  rs = record (p.rs) {
    store = record (p.rs.store) { pos_map = pos_put p.rs.store.pos_map address (some entry) };
  };
}

-- The read that `push_to_pending_read` queues: a dummy, or the slot of the block.
abbrev pub read_task : ℕ → Address → ℕ → Option PosEntry → Task
read_task levels address block_id entry = record {
  original_address = address;
  block_id = some block_id;
  node_id = (elim entry [ none ↦ none | some e ↦ entry_node e ]);
  offset = (elim entry [ none ↦ none | some e ↦ entry_offset e ]);
  local_node_id_vec = replicate levels none;
  local_offset_vec = replicate levels none;
  is_read = true;
}

-- The block that a queued read takes is pending from then on.
abbrev pub mark_pending : Address → Option PosEntry → Posmap → Posmap
mark_pending address none p = p
mark_pending address (some entry) p = put_pos_map address (set_pending entry) p

unfoldable pub push_to_pending_read : Address → ℕ → Posmap → Option (Bool × Posmap)
push_to_pending_read access_addr check_block_id p = do
  let address = wrap_address p.total_num_of_original_addr_space access_addr
  let entry = idle_entry address p
  hazard ← hazard_for check_block_id p
  let p₁ = mark_pending address entry p
  let to_push = read_task p.rs.geo.num_of_lvls address check_block_id entry
  some (
      if hazard
      then (false, p)
      else (true, record p₁ { pending_q = p₁.pending_q ++ (to_push ∷ []) }))
