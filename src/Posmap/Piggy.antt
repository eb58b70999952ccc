-- ===== src/Posmap/Piggy.antt =====
-- The write-back of the stash: `piggy_one` into one node, `piggy_writeback` along a path.
pub mod Fill
pub mod Node
pub mod One
pub mod Path
pub mod Place
pub mod Refill
pub mod Writeback
use palermo_oram.Base.{
  ℕ, zero, suc, ◌+◌, ◌-◌, Bool, true, false, Option, none, some, List, [], ◌∷◌, ◌++◌, map, ◌==◌,
  leb, ltb, if◌then◌else◌, ◌>>=◌, ◌>>◌, assert, get_elem?, length, for_each, range, erase, max,
}
use palermo_oram.Params.{z_slots, bucket_slots}
use palermo_oram.Tree.{path_node, is_node_on_block_path}
use palermo_oram.MetadataCache.{posmap_nodeid_access}
use palermo_oram.Store.{Store, place_block, refresh_bucket}
use palermo_oram.State.{Random, Stats, Rs, send_packet}
use palermo_oram.Posmap.{Posmap}

-- The samples of the stash size.
unfoldable pub sample_stash : Rs → Rs
sample_stash r =
    let n = length r.store.stash in
    record r {
      stats = record (r.stats) {
        stash_size_max = max r.stats.stash_size_max n;
        local_stash_size_max = max r.stats.local_stash_size_max n;
        stash_size_total = r.stats.stash_size_total + n;
        stash_sample_times = r.stats.stash_sample_times + 1;
      };
    }

-- A new bucket at a node, shuffled anew, and the update of its metadata.
unfoldable pub refresh_node : Random → ℕ → Rs → Option Rs
refresh_node random node_id r = do
  st ← refresh_bucket node_id (random.shuffle r.draws (range 0 bucket_slots)) r.store
  let r₁ = record r { store = st; draws = r.draws + 1 }
  (missing, cache) ← posmap_nodeid_access r.geo.name node_id r.metadata_cache
  let r₂ = record r₁ { metadata_cache = cache }
  some (elim missing [
    | none ↦ r₂
    | some metadata_addr ↦
        send_packet
          (record {
            address = metadata_addr;
            pull = false;
            metadata = true;
            name = r.geo.name;
            step = none;
          })
          (record r₂ {
            stats = record (r₂.stats) { update_nodeid_ddr = r₂.stats.update_nodeid_ddr + 1 };
          })
  ])

-- What the loops over the stash carry: the store, `to_erase`, and the count of blocks that left.
pub record Leaving : Type 0 where
  pub store : Store
  pub to_erase : List ℕ

-- A block goes to a node, and onto `to_erase`.
unfoldable pub leave : ℕ → ℕ → ℕ → Leaving → Option Leaving
leave address leaf node_id w = do
  st ← place_block address leaf node_id w.store
  some (record { store = st; to_erase = w.to_erase ++ (address ∷ []) })

-- Whether a bucket has a free real slot.
unfoldable pub has_room : Store → ℕ → Option Bool
has_room st node_id = do b ← get_elem? st.buckets node_id; some (ltb b.free_z_index z_slots)

-- `free_z_index == Z`: the test of the `break` of `piggy_one`
unfoldable pub is_full : Store → ℕ → Option Bool
is_full st node_id = do b ← get_elem? st.buckets node_id; some (b.free_z_index == z_slots)

-- The loop of `piggy_one` over the stash: the blocks whose path the node is on, until it is full.
unfoldable pub fill_node : ℕ → ℕ → ℕ → List (ℕ × ℕ) → Leaving → Option Leaving
fill_node n node_id node_lvl [] w = some w
fill_node n node_id node_lvl ((address, leaf) ∷ rest) w =
    let onward = fill_node n node_id node_lvl rest in
    if is_node_on_block_path n node_id node_lvl leaf
    then (do
      room ← has_room w.store node_id
      w' ← (if room then leave address leaf node_id w else some w)
      full ← is_full w'.store node_id
      if full then some w' else onward w')
    else onward w

-- `for (…) stash.erase(to_erase[i])`
unfoldable pub erase_all : List ℕ → List (ℕ × ℕ) → List (ℕ × ℕ)
erase_all [] stash = stash
erase_all (x ∷ xs) stash = erase_all xs (erase x stash)

abbrev pub leave_stash : Leaving → Store
leave_stash w = record (w.store) { stash = erase_all w.to_erase w.store.stash }

-- The end of `piggy_one`: the blocks leave the stash, and are counted.
unfoldable pub finish_node : ℕ → Leaving → Rs → Rs
finish_node wb_node_lvl w r =
    let useful = length w.to_erase in
    let s = r.stats in
    record r {
      store = leave_stash w;
      stats =
          (if leb r.geo.lowest_uncached_lvl wb_node_lvl
            then record s {
              useful_early_push_ddr = s.useful_early_push_ddr + useful;
              dummy_early_push_ddr = s.dummy_early_push_ddr + (bucket_slots - useful);
            }
            else s);
    }

unfoldable pub piggy_one : Random → ℕ → ℕ → Posmap → Option Posmap
piggy_one random wb_node_id wb_node_lvl p = do
  assert (leb p.rs.geo.start_lvl wb_node_lvl)
  r ← refresh_node random wb_node_id (sample_stash p.rs)
  w ←
      fill_node r.geo.num_of_lvls wb_node_id wb_node_lvl r.store.stash
        (record { store = r.store; to_erase = [] })
  some (record p { rs = finish_node wb_node_lvl w r })

-- `deepest_lvl`: the last level down to which two paths agree, found by a loop that stops where they
-- part. `none` is a failed assertion: they part at the root.
unfoldable pub deepest_from : ℕ → ℕ → ℕ → List ℕ → Option ℕ → Option ℕ
deepest_from n a b [] deepest = deepest
deepest_from n a b (i ∷ is) deepest =
    let rest = deepest_from n a b is (some i) in
    if path_node n a i == path_node n b i then rest else if ltb 0 i then deepest else none

-- The levels of `for (int i = top; i >= start; i--)`.
unfoldable pub downward : ℕ → ℕ → List ℕ
downward start zero = []
downward start (suc k) = (start + k) ∷ downward start k

-- The inner loop of `piggy_writeback`: the deepest node with room takes the block. The second part is
-- the level, for `wb_lvl_useful_count`.
unfoldable pub place_deepest : List ℕ → ℕ → ℕ → List ℕ → Leaving → Option (Option ℕ × Leaving)
place_deepest nodes address leaf [] w = some (none, w)
place_deepest nodes address leaf (i ∷ is) w = do
  let rest = place_deepest nodes address leaf is w
  node_id ← get_elem? nodes i
  room ← has_room w.store node_id
  if room then (do w' ← leave address leaf node_id w; some (some i, w')) else rest

abbrev pub bump : Option ℕ → (ℕ → ℕ) → ℕ → ℕ
bump none f q = f q
bump (some i) f q = if i == q then f q + 1 else f q

-- The loop of `piggy_writeback` over the stash.
unfoldable pub fill_path :
    ℕ → ℕ → ℕ → ℕ → List ℕ → List (ℕ × ℕ) → (ℕ → ℕ) × Leaving → Option ((ℕ → ℕ) × Leaving)
fill_path n levels start block_id nodes [] s = some s
fill_path n levels start block_id nodes ((address, leaf) ∷ rest) (counts, w) = do
  deepest ← deepest_from n block_id leaf (range 0 levels) none
  (level, w') ← place_deepest nodes address leaf (downward start (suc deepest - start)) w
  fill_path n levels start block_id nodes rest (bump level counts, w')

-- The counters at the end of `piggy_writeback`.
unfoldable pub count_pushes : (ℕ → ℕ) → List ℕ → Stats → Stats
count_pushes counts [] s = s
count_pushes counts (i ∷ is) s = count_pushes counts is (record s {
  useful_write_push_ddr = s.useful_write_push_ddr + counts i;
  dummy_write_push_ddr = s.dummy_write_push_ddr + (bucket_slots - counts i);
})

unfoldable pub piggy_writeback : Random → ℕ → Posmap → Option Posmap
piggy_writeback random block_id p = do
  let n = p.rs.geo.num_of_lvls
  let nodes = map (path_node n block_id) (range 0 p.max_num_levels)
  r ←
      for_each (λ i (r' : Rs). do node_id ← get_elem? nodes i; refresh_node random node_id r')
        (downward 0 p.max_num_levels) (sample_stash p.rs)
  (counts, w) ←
      fill_path n p.max_num_levels r.geo.start_lvl block_id nodes r.store.stash
        ((λ _. 0), record { store = r.store; to_erase = [] })
  let lowest = r.geo.lowest_uncached_lvl
  some (record p {
    wb_lvl_useful_count = counts;
    rs = record r {
      store = leave_stash w;
      stats = count_pushes counts (range lowest (p.max_num_levels - lowest)) r.stats;
    };
  })
