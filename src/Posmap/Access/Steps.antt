-- ===== src/Posmap/Access/Steps.antt =====
-- The steps 3 to 5 of `init_step`, and `init_step`.
pub mod Leaves
use palermo_oram.Base.{
  ℕ, ◌+◌, ◌-◌, ◌*◌, ◌/◌, ◌%◌, Bool, true, false, ◌&&◌, ◌||◌, Option, none, some, List, [], ◌∷◌, map,
  ◌==◌, leb, ltb, if◌then◌else◌, ◌>>=◌, ◌>>◌, assert, get_elem?, store_at, length, for_each, range,
  put_at, insert,
}
use palermo_oram.Params.{s_slots, z_slots}
use palermo_oram.Bucket.{next_s, take_z}
use palermo_oram.Tree.{TreeName, data_tree, pos2, path_node}
use palermo_oram.Store.{PosMapLine, PosEntry, mapped, blank, Address, same_address, pos_put}
use palermo_oram.State.{Random, TaskRs, Rs, new_task, push_ready}
use palermo_oram.Station.Metadata.{check_metadata_after_posmap, check_wb_metadata, check_early_need}
use palermo_oram.Station.Register.Early.{
  rs_line_register_early_reshuffle_r, rs_line_register_early_reshuffle_w,
}
use palermo_oram.Station.Register.Path.{rs_line_register_write, rs_line_register_read, known_slot}
use palermo_oram.Posmap.{Task, Posmap}
use palermo_oram.Posmap.Piggy.{piggy_one, piggy_writeback}
use palermo_oram.Posmap.Access.{
  wrap_address, hazard_for, idle_entry, put_pos_map, push_to_pending_read,
}
use palermo_oram.Posmap.Access.Reading.{
  StepOf, task_rs, with_rs, random_block, get_rand_leaf, step_0, print_first, entry_block,
  choose_block, step_1, map_line, early_pull_node, early_push_node, early_reshuffle, count_read,
  is_node, read_bucket, has_pair, read_unless, read_path_level, take_head, pop_front, step_2,
}

-- `addr_to_origaddr.find(intended_addr)`; a negative address is not there.
abbrev pub slot_line : Option ℕ → Rs → Option PosMapLine
slot_line none r = none
slot_line (some a) r = r.store.addr_to_origaddr a

-- A block that the read brought in goes to the stash, with a new leaf in its set.
unfoldable pub bring_in : Random → Address → Option ℕ → Rs → Option Rs
bring_in random original_address intended r = elim (slot_line intended r) [
  | none ↦ some r
  | some line ↦ do
    assert (same_address (some line.original_address) original_address)
    address ← original_address
    slot ← intended
    assert (elim (r.store.pos_map original_address) [ none ↦ false | some _ ↦ true ])
    let (leaf, r₁) = get_rand_leaf random address r
    some (record r₁ {
      store = record (r₁.store) {
        addr_to_origaddr = put_at r₁.store.addr_to_origaddr slot none;
        pos_map = pos_put r₁.store.pos_map original_address none;
        stash = insert address leaf r₁.store.stash;
      };
    })
]

unfoldable pub step_3 : Random → StepOf → Posmap × Task → Option (Bool × (Posmap × Task))
step_3 random s (p, head) = do
  block_id ← head.block_id
  assert (block_id / p.rs.geo.num_of_ways == s.set_id)
  hazard ← hazard_for block_id p
  let done = (do
    assert head.is_read
    let r₁ = record (p.rs) {
      stats = record (p.rs.stats) { rs_read_rs_lines = p.rs.stats.rs_read_rs_lines + 1 };
    }
    let r₂ = map_line r₁.tail (length r₁.task_heap) (new_task (task_rs s 1) r₁)
    r₃ ← rs_line_register_read head.original_address head.local_node_id_vec head.local_offset_vec r₂
    r₄ ← bring_in random head.original_address (known_slot head.node_id head.offset) r₃
    some (true, (record p { rw_counter = p.rw_counter + 1; rs = r₄ }, head)))
  if hazard then some (false, (p, head)) else done

unfoldable pub step_4 : (ℕ → ℕ) → StepOf → Posmap × Task → Option (Bool × (Posmap × Task))
step_4 ceil_log2 s (p, head) = do
  r ← check_wb_metadata ceil_log2 s.id s.level s.step s.set_id p.rs
  some (true, (with_rs p r, head))

-- `convert_to_ring_path_write`
unfoldable pub convert_to_ring_path_write : ℕ → Rs → Option (List ℕ × Rs)
convert_to_ring_path_write block_id r = do
  let nodes = map (path_node r.geo.num_of_lvls block_id) (range 0 r.geo.num_of_lvls)
  vec ←
      for_each (λ i v. store_at v i (some (path_node r.geo.num_of_lvls block_id i)))
        (range 0 r.geo.num_of_lvls) r.node_id_vec
  some (nodes, record r { node_id_vec = vec })

-- The sample that is printed every 5000 tasks of the data tree starts anew.
unfoldable pub sample_local : StepOf → Rs → Rs
sample_local s r =
    if (s.id + 1) % 5000 == 0 && elim (r.geo.name) [ data_tree ↦ true | _ ↦ false ]
    then record r { stats = record (r.stats) { local_stash_size_max = 0 } }
    else r

unfoldable pub step_5 : Random → StepOf → Posmap × Task → Option (Bool × (Posmap × Task))
step_5 random s (p, head) = do
  block_id ← head.block_id
  hazard ← hazard_for block_id p
  let done = (do
    last ← get_elem? p.rs.wb_block_id_last s.set_id
    wb_block_id ← last
    assert (wb_block_id / p.rs.geo.num_of_ways == s.set_id)
    (nodes, r₁) ← convert_to_ring_path_write wb_block_id p.rs
    let task = length r₁.task_heap
    let r₂ = map_line r₁.tail task (new_task (task_rs s 2) r₁)
    let r₃ = map_line ((r₂.tail + 1) % r₂.geo.num_of_entries) task r₂
    r₄ ← rs_line_register_write nodes r₃
    p₁ ←
        piggy_writeback random wb_block_id
          (record p { rw_counter = p.rw_counter + 1; rs = sample_local s r₄ })
    let r₅ = record (p₁.rs) {
      stats = record (p₁.rs.stats) { rs_write_rs_lines = p₁.rs.stats.rs_write_rs_lines + 2 };
    }
    some (true, (with_rs p₁ r₅, record head { local_node_id_vec = map some nodes })))
  if hazard then some (false, (p, head)) else done

-- `init_step`: the packets of the last call go, and the step's own are made. Other step numbers do
-- nothing.
unfoldable pub init_step :
    Random → (ℕ → ℕ) → StepOf → Posmap × Task → Option (Bool × (Posmap × Task))
init_step random ceil_log2 s (p, head) =
    let q : Posmap × Task = (with_rs p (record (p.rs) { ramulator_input_vec = [] }), head) in
    if s.step == 0
    then step_0 s q
    else if s.step == 1
    then step_1 random s q
    else if s.step == 2
    then step_2 random s q
    else if s.step == 3
    then step_3 random s q
    else if s.step == 4
    then step_4 ceil_log2 s q
    else if s.step == 5
    then step_5 random s q
    else some (true, q)
