-- ===== src/Tree.antt =====
-- The tree of src/reservation.h: which bucket a path has at a level, and where a slot lies in memory.
pub mod Paths
pub mod Layout
use palermo_oram.Base.{ℕ, ◌+◌, ◌-◌, ◌*◌, ◌/◌, ◌%◌, ◌^◌, Bool, List, [], ◌∷◌, map, range, ◌==◌}
use palermo_oram.Params.{
  bucket_slots, ktree, embed_repeat, nodeid_metadata_start, pos1_metadata_start,
  pos2_metadata_start, data_tree_start, pos1_tree_start, pos2_tree_start,
}

-- The three trees: `rs::name`, and the `level` of a task.
pub data TreeName : Type 0 where
  data_tree pos1 pos2 : TreeName

-- What the constructor of `rs` fixes.
pub record Geometry : Type 0 where
  pub name : TreeName
  pub num_of_entries : ℕ
  pub num_of_ways : ℕ
  pub total_num_blocks : ℕ
  pub num_of_lvls : ℕ
  pub lowest_uncached_lvl : ℕ
  pub start_lvl : ℕ
  pub cache_end_nodeid : ℕ

-- `tree_move_factor`: log2(KTREE)
abbrev pub tree_move_factor : ℕ
tree_move_factor = 1

-- An entry of the table `lvl_base_lookup`: the first node of a level. The code shifts an
-- `int`, which has no bit for level 31.
unfoldable pub lvl_base_lookup : ℕ → ℕ
lvl_base_lookup i = (2 ^ (i * tree_move_factor) - 1) / (ktree - 1)

-- An entry of the table `leaf_division`.
unfoldable pub leaf_division : ℕ → ℕ → ℕ
leaf_division num_of_lvls i = (num_of_lvls - i - 1) * tree_move_factor

-- `P`: the node at a level on the path to a leaf
unfoldable pub path_node : ℕ → ℕ → ℕ → ℕ
path_node num_of_lvls leaf level =
    lvl_base_lookup level + leaf / 2 ^ leaf_division num_of_lvls level

unfoldable pub is_node_on_block_path : ℕ → ℕ → ℕ → ℕ → Bool
is_node_on_block_path num_of_lvls node_id node_lvl block_id =
    path_node num_of_lvls block_id node_lvl == node_id

-- `id_convert_to_address`: the number of a slot
unfoldable pub slot_address : ℕ → ℕ → ℕ
slot_address node_id offset = node_id * bucket_slots + offset

-- The memory addresses that `oram_packet_construct` sends for a slot.
unfoldable pub packet_addresses : TreeName → ℕ → List ℕ
packet_addresses data_tree address =
    map (λ i. address * embed_repeat * 64 + i * 64 + data_tree_start) (range 0 embed_repeat)
packet_addresses pos1 address = (address * 64 + pos1_tree_start) ∷ []
packet_addresses pos2 address = (address * 64 + pos2_tree_start) ∷ []

-- The head of `mshr_remove`: the slot that a memory address is of.
unfoldable pub slot_of_packet : TreeName → ℕ → ℕ
slot_of_packet data_tree address =
    let a = address - data_tree_start in
    let offset = (a / 64) % embed_repeat in (a - offset * 64) / (64 * embed_repeat)
slot_of_packet pos1 address = (address - pos1_tree_start) / 64
slot_of_packet pos2 address = (address - pos2_tree_start) / 64

-- `posmap_nodeid_access`: the address of a node's metadata, two bytes to a node
unfoldable pub metadata_address : TreeName → ℕ → ℕ
metadata_address data_tree node_id = node_id * 2 / 64 * 64 + nodeid_metadata_start
metadata_address pos1 node_id = node_id * 2 / 64 * 64 + pos1_metadata_start
metadata_address pos2 node_id = node_id * 2 / 64 * 64 + pos2_metadata_start
