-- ===== src/StashSim/Piggy.antt =====
-- The write-backs of src/stash_simulation/set_oram.cc: `piggy_writeback` and `piggy_one`. Below the
-- levels that the tree leaves out, the `SET_NUM` subtrees under one node are one set, and a block
-- that goes into another subtree of its set gets the leaf of that subtree in the same place.
use palermo_oram.Base.{
  ℕ, ◌+◌, ◌-◌, ◌*◌, ◌/◌, ◌%◌, ◌^◌, max, Bool, not, ◌&&◌, Option, none, some, List, [], ◌∷◌, map,
  ◌==◌, ltb, if◌then◌else◌, ◌>>=◌, ◌>>◌, assert, get_elem?, length, for_each, range,
}
use palermo_oram.Params.{bucket_slots}
use palermo_oram.Tree.{path_node}
use palermo_oram.Store.{refresh_bucket}
use palermo_oram.State.{Random}
use palermo_oram.Posmap.Piggy.{Leaving, leave, has_room, fill_node, leave_stash, downward}
use palermo_oram.StashSim.{Sim, cut_lvl, cutdown_lvl, set_num, is_kept, sim_path_node, subtree_node}

-- The samples of the stash size.
unfoldable pub sample_size : Sim → Sim
sample_size s =
    let n = length s.store.stash in
    record s {
      stash_size_max = max s.stash_size_max n;
      stash_size_total = s.stash_size_total + n;
      stash_sample_times = s.stash_sample_times + 1;
    }

-- `ring_bucket_vec[node_id] = ring_bucket(node_id)`
unfoldable pub sim_refresh : Random → ℕ → Sim → Option Sim
sim_refresh random node_id s = do
  st ← refresh_bucket node_id (random.shuffle s.draws (range 0 bucket_slots)) s.store
  some (record s { store = st; draws = s.draws + 1 })

-- `(long long)pow(2, max_num_levels - (CUT_LVL + CUTDOWN_LVL) - 1)`: the leaves of a subtree
abbrev pub subtree_leaves : ℕ → ℕ
subtree_leaves n = 2 ^ (n - (cut_lvl + cutdown_lvl) - 1)

-- Whether the path of the leaf `b` can be followed along that of `a` at a level below the cut.
unfoldable pub same_subtree : ℕ → ℕ → ℕ → ℕ → Bool
same_subtree n a b i =
    let half = subtree_leaves n in
    let height = n - (cut_lvl + cutdown_lvl) in
    let level = i - (cut_lvl + cutdown_lvl) in
    (a / (set_num * half) == b / (set_num * half))
    && (subtree_node (a % half) level height == subtree_node (b % half) level height)

-- The test of the loop at a kept level.
unfoldable pub sim_agree : ℕ → ℕ → ℕ → ℕ → Bool
unfolding same_subtree
sim_agree n a b i =
    if ltb i cut_lvl then path_node n a i == path_node n b i else same_subtree n a b i

-- `deepest_lvl`. `none` is a failed assertion.
unfoldable pub sim_deepest : ℕ → ℕ → ℕ → List ℕ → Option ℕ → Option ℕ
sim_deepest n a b [] deepest = deepest
sim_deepest n a b (i ∷ is) deepest =
    let skip = sim_deepest n a b is deepest in
    let rest = sim_deepest n a b is (some i) in
    if not (is_kept i)
    then skip
    else if sim_agree n a b i
    then rest
    else if ltb 0 i
    then deepest
    else none

-- The leaf of the block in the subtree of `block_id`: what is added is 0 or more, since
-- `block_id % half <= block_id`.
unfoldable pub relabel : ℕ → ℕ → ℕ → ℕ
relabel n block_id leaf = let half = subtree_leaves n in block_id - block_id % half + leaf % half

-- The leaf with which a block goes to a level of the path.
unfoldable pub leaf_at : ℕ → ℕ → ℕ → ℕ → ℕ
leaf_at n block_id leaf i = if ltb i cut_lvl then leaf else relabel n block_id leaf

-- The inner loop of `piggy_writeback`: the deepest kept node with room takes the block. An entry of
-- `node_id_vec` that is not kept is -1, `none`.
unfoldable pub sim_place : ℕ → ℕ → List (Option ℕ) → ℕ → ℕ → List ℕ → Leaving → Option Leaving
sim_place n block_id nodes address leaf [] w = some w
sim_place n block_id nodes address leaf (i ∷ is) w =
    let rest = sim_place n block_id nodes address leaf is w in
    if not (is_kept i) then rest else (do
      entry ← get_elem? nodes i
      node_id ← entry
      room ← has_room w.store node_id
      if room then leave address (leaf_at n block_id leaf i) node_id w else rest)

-- The loop of `piggy_writeback` over the stash.
unfoldable pub sim_fill : ℕ → ℕ → List (Option ℕ) → List (ℕ × ℕ) → Leaving → Option Leaving
sim_fill n block_id nodes [] w = some w
sim_fill n block_id nodes ((address, leaf) ∷ rest) w = do
  deepest_lvl ← sim_deepest n block_id leaf (range 0 n) none
  w' ← sim_place n block_id nodes address leaf (downward 0 (deepest_lvl + 1)) w
  sim_fill n block_id nodes rest w'

-- One round of the loop that makes the buckets new.
unfoldable pub refresh_level : Random → List (Option ℕ) → ℕ → Sim → Option Sim
refresh_level random nodes i s =
    if not (is_kept i)
    then some s
    else (do entry ← get_elem? nodes i; wb_node_id ← entry; sim_refresh random wb_node_id s)

unfoldable pub sim_writeback : Random → ℕ → Sim → Option Sim
sim_writeback random block_id s = do
  let n = s.num_of_lvls
  let nodes = map (sim_path_node n block_id) (range 0 n)
  s₁ ← for_each (refresh_level random nodes) (downward 0 n) (sample_size s)
  w ← sim_fill n block_id nodes s₁.store.stash (record { store = s₁.store; to_erase = [] })
  some (record s₁ { store = leave_stash w })

unfoldable pub sim_piggy_one : Random → ℕ → ℕ → Sim → Option Sim
sim_piggy_one random wb_node_id wb_node_lvl s = do
  assert (is_kept wb_node_lvl)
  s₁ ← sim_refresh random wb_node_id (sample_size s)
  w ←
      fill_node s₁.num_of_lvls wb_node_id wb_node_lvl s₁.store.stash
        (record { store = s₁.store; to_erase = [] })
  some (record s₁ { store = leave_stash w })
