-- ===== src/StashSim.antt =====
-- src/stash_simulation/set_oram.cc: a ring ORAM without a memory behind it, whose tree leaves out the
-- levels from `CUT_LVL` to below `CUT_LVL + CUTDOWN_LVL`, to measure how large the stash grows. It
-- has the buckets of src/ring_bucket.h; its maps and its moves of one block are those of Store.
-- Here are the state, the paths and the reads.
pub mod Aim
pub mod Begin
pub mod Clear
pub mod Fill
pub mod Loop
pub mod Piggy
pub mod Pulls
pub mod Reads
pub mod Renewal
pub mod Reshuffle
pub mod Rounds
pub mod Routine
pub mod Serving
pub mod Shifting
pub mod Sound
pub mod Subtrees
pub mod Touch
pub mod Writeback
use palermo_oram.Base.{
  ℕ, ◌+◌, ◌-◌, ◌*◌, ◌/◌, ◌%◌, ◌^◌, Bool, true, false, not, ◌||◌, Option, none, some, List, [], ◌∷◌,
  ◌++◌, map, ◌==◌, leb, ltb, if◌then◌else◌, ◌>>=◌, ◌>>◌, assert, get_elem?, store_at, for_each,
  range, insert, put_at,
}
use palermo_oram.Params.{z_slots, bucket_slots}
use palermo_oram.Bucket.{Bucket, next_s, take_z}
use palermo_oram.Tree.{path_node, slot_address}
use palermo_oram.Store.{Store, Address, PosEntry, pos_put, pull_slot}
use palermo_oram.State.{Random}
use palermo_oram.Station.Metadata.{ring_reverse}
use palermo_oram.Posmap.Start.{fill_leaf}

-- `CUT_LVL`
abbrev pub cut_lvl : ℕ
cut_lvl = 14

-- `CUTDOWN_LVL`
abbrev pub cutdown_lvl : ℕ
cutdown_lvl = 1

-- `SET_NUM`
abbrev pub set_num : ℕ
set_num = 2

-- `STASH_MAITANENCE`
abbrev pub stash_maitanence : ℕ
stash_maitanence = 32

-- `level < CUT_LVL || level >= (CUT_LVL + CUTDOWN_LVL)`
abbrev pub is_kept : ℕ → Bool
is_kept level = ltb level cut_lvl || leb (cut_lvl + cutdown_lvl) level

-- The global variables; `num_of_lvls` and `max_num_levels` are the same number, and `bits` is
-- `ceil(log2(float(total_num_blocks)))`. `draws` counts what has been drawn at random.
pub record Sim : Type 0 where
  pub num_of_lvls : ℕ
  pub total_num_blocks : ℕ
  pub bits : ℕ
  pub store : Store
  pub early_nodes : List (ℕ × ℕ)
  pub ring_counter : ℕ
  pub rw_counter : ℕ
  pub stash_size_max : ℕ
  pub stash_size_total : ℕ
  pub stash_sample_times : ℕ
  pub stash_violation : ℕ
  pub draws : ℕ

-- `get_ring_counter`
unfoldable pub sim_ring_counter : Sim → ℕ × Sim
sim_ring_counter s =
    (ring_reverse s.bits s.ring_counter, record s { ring_counter = s.ring_counter + 1 })

-- `P`
unfoldable pub sim_path_node : ℕ → ℕ → ℕ → Option ℕ
sim_path_node n leaf level = do assert (is_kept level); some (path_node n leaf level)

-- `P1`
unfoldable pub subtree_node : ℕ → ℕ → ℕ → ℕ
subtree_node leaf level max_num_levels = 2 ^ level - 1 + leaf / 2 ^ (max_num_levels - level - 1)

-- The whole of `posmap_init_writeback`: all addresses in a random order, Z to a leaf.
unfoldable pub sim_init_writeback : Random → ℕ → ℕ → Sim → Option Sim
sim_init_writeback random left right s = do
  let addrs = random.shuffle s.draws (range 0 ((right - left) * z_slots))
  (_, st) ←
      for_each (λ node. fill_leaf (z_slots + 1) node (node - left)) (range left (right - left))
        (addrs, s.store)
  some (record s { store = st; draws = s.draws + 1 })

-- The read of one bucket, `intended` being the node and the offset of the block, if it has any.
unfoldable pub touch_bucket : Option (ℕ × ℕ) → ℕ → Bucket → Option ((ℕ × Bool) × Bucket)
touch_bucket none node_id b = next_s b
touch_bucket (some (intended_node, intended_offset)) node_id b =
    if intended_node == node_id then take_z intended_offset b else next_s b

-- The inner loop of `read_pull`, of `EVCT_TIMES`, 1, round. Its `i` hides the level: it asks for the
-- node at level 0 of the path that is written back.
unfoldable pub is_masked : ℕ → ℕ → Option ℕ → Option Bool
is_masked n node_id none = some false
is_masked n node_id (some leaf) = do root ← sim_path_node n leaf 0; some (root == node_id)

-- One round of `read_pull`. A bucket that is used up is for an early reshuffle.
unfoldable pub touch_level : ℕ → Option (ℕ × ℕ) → Option ℕ → ℕ → Sim → Option Sim
touch_level block_id intended masking i s = if not (is_kept i) then some s else (do
  node_id ← sim_path_node s.num_of_lvls block_id i
  b ← get_elem? s.store.buckets node_id
  ((_, used_up), b') ← touch_bucket intended node_id b
  buckets ← store_at s.store.buckets node_id b'
  masked ← (if used_up then is_masked s.num_of_lvls node_id masking else some true)
  some (record s {
    store = record (s.store) { buckets = buckets };
    early_nodes = (if masked then s.early_nodes else s.early_nodes ++ ((node_id, i) ∷ []));
  }))

abbrev pub is_dummy : Address → Bool
is_dummy none = true
is_dummy (some _) = false

abbrev pub is_entry : Option PosEntry → Bool
is_entry none = false
is_entry (some _) = true

-- The block leaves the maps. A slot that is not in use fails an assertion, and so does an address
-- that `posMap` does not have, other than -1.
unfoldable pub drop_slot : Address → Option (ℕ × ℕ) → Store → Option Store
drop_slot address none st = some st
drop_slot address (some (node, offset)) st = do
  let intended_addr = slot_address node offset
  line ← st.addr_to_origaddr intended_addr
  assert (is_entry (st.pos_map address) || is_dummy address)
  some (record st {
    addr_to_origaddr = put_at st.addr_to_origaddr intended_addr none;
    pos_map = pos_put st.pos_map address none;
  })

-- `if (original_address >= 0) stash[original_address] = rand() % total_num_blocks;`
unfoldable pub to_stash : Random → Address → Sim → Sim
to_stash random none s = s
to_stash random (some a) s = record s {
  store = record (s.store) {
    stash = insert a (random.rand s.draws % s.total_num_blocks) s.store.stash;
  };
  draws = s.draws + 1;
}

unfoldable pub read_pull : Random → Address → ℕ → Option (ℕ × ℕ) → Option ℕ → Sim → Option Sim
read_pull random address block_id intended masking s = do
  s₁ ← for_each (touch_level block_id intended masking) (range 0 s.num_of_lvls) s
  st ← drop_slot address intended s₁.store
  some (to_stash random address (record s₁ { store = st }))

-- The pulls of all slots of a node.
unfoldable pub pull_node : ℕ → Store → Option Store
pull_node node_id =
    for_each (λ j st. some (pull_slot (slot_address node_id j) st)) (range 0 bucket_slots)

unfoldable pub early_reshuffle_pull : ℕ → ℕ → Sim → Option Sim
early_reshuffle_pull node_id node_lvl s = do
  assert (is_kept node_lvl)
  st ← pull_node node_id s.store
  some (record s { store = st })

-- One round of `writeback_pull`.
unfoldable pub sim_pull_level : ℕ → ℕ → ℕ → Store → Option Store
sim_pull_level n block_id i st =
    if not (is_kept i)
    then some st
    else (do node_id ← sim_path_node n block_id i; pull_node node_id st)

unfoldable pub writeback_pull : ℕ → Sim → Option Sim
writeback_pull block_id s = do
  st ← for_each (sim_pull_level s.num_of_lvls block_id) (range 0 s.num_of_lvls) s.store
  some (record s { store = st })
