-- ===== src/Posmap/Start.antt =====
-- The start: the constructors of `rs` and `posmap_and_stash`, and `posmap_init_writeback`, which fills
-- the leaves. The floating-point logarithms are parameters.
pub mod Leaf
pub mod Sets
pub mod Rounds
pub mod Init
use palermo_oram.Base.{
  ℕ, zero, suc, ◌+◌, ◌-◌, ◌*◌, ◌/◌, ◌^◌, true, false, Option, none, some, List, [], ◌∷◌, map,
  if◌then◌else◌, ◌>>=◌, ◌>>◌, assert, ltb, set, for_each, range, replicate, max,
}
use palermo_oram.Params.{z_slots, bucket_slots, ktree, cached_num_node}
use palermo_oram.Bucket.{Bucket, ring_bucket}
use palermo_oram.Tree.{TreeName, data_tree, pos1, pos2, Geometry}
use palermo_oram.MetadataCache.{set_cache}
use palermo_oram.Store.{Store, place_block}
use palermo_oram.State.{Random, RsLine, unset, init, unknown, Stats, Rs}
use palermo_oram.Posmap.{Posmap}
use palermo_oram.Posmap.Piggy.{has_room}

-- `ceil(log(float(n)) / log(float(KTREE)))` and `int(log(n) / log(KTREE))`
pub record Logs : Type 0 where
  pub ceil_log : ℕ → ℕ
  pub floor_log : ℕ → ℕ

-- `cache_end_nodeid`
unfoldable pub cache_end : TreeName → ℕ → ℕ
cache_end data_tree start = start + cached_num_node
cache_end pos1 start = start + cached_num_node / 8
cache_end pos2 start = start + cached_num_node / 16

-- `start_lvl`, where the difference is not negative; for more ways than leaves the code's `int` may be.
unfoldable pub start_level : Logs → ℕ → ℕ → ℕ
start_level logs num_of_lvls n_num_of_ways =
    num_of_lvls - 1 - logs.floor_log ((ktree - 1) * n_num_of_ways)

unfoldable pub geometry : Logs → ℕ → ℕ → ℕ → ℕ → TreeName → Geometry
geometry logs n_lines n_num_of_ways n_total_num_blocks n_lowest_uncached_lvl name =
    let num_of_lvls = max (logs.ceil_log n_total_num_blocks + 1) 3 in
    let start_lvl = start_level logs num_of_lvls n_num_of_ways in
    record {
      name = name;
      num_of_entries = n_lines;
      num_of_ways = n_num_of_ways;
      total_num_blocks = n_total_num_blocks;
      num_of_lvls = num_of_lvls;
      lowest_uncached_lvl = n_lowest_uncached_lvl;
      start_lvl = start_lvl;
      cache_end_nodeid = cache_end name (2 ^ start_lvl - 1);
    }

-- The constructor of `rs_line`
unfoldable pub rs_line : ℕ → RsLine
rs_line n_lvls = record {
  is_write = false;
  type = unset;
  orig_addr = some 0xdeadbeef;
  oram_node_id = replicate n_lvls none;
  bucket_offset = replicate n_lvls none;
  oram_lvl_addr = replicate n_lvls none;
  oram_finished_vec_for_read = replicate n_lvls false;
  leading_write_line_num = none;
  oram_addr_for_pull = replicate (bucket_slots * n_lvls) none;
  oram_finished_vec_for_pull = replicate (bucket_slots * n_lvls) (false, unknown);
  oram_addr_for_write = replicate (bucket_slots * n_lvls) none;
  oram_finished_vec_for_write = replicate (bucket_slots * n_lvls) false;
  oram_addr_for_early_pull = replicate bucket_slots none;
  oram_finished_vec_for_early_pull = replicate bucket_slots (false, unknown);
  oram_addr_for_early_write = replicate bucket_slots none;
  oram_finished_vec_for_early_write = replicate bucket_slots false;
  oram_unfinished_cnt = 0;
  valid = false;
  ready = false;
}

abbrev pub no_stats : Stats
no_stats = record {
  rs_read_ddr_lines = 0;
  rs_write_ddr_lines = 0;
  rs_early_ddr_lines = 0;
  rs_read_rs_lines = 0;
  rs_write_rs_lines = 0;
  rs_early_rs_lines = 0;
  stash_size_max = 0;
  local_stash_size_max = 0;
  stash_size_total = 0;
  stash_sample_times = 0;
  lvl_counter = (λ _. 0);
  useful_read_pull_ddr = 0;
  dummy_read_pull_ddr = 0;
  useful_early_pull_ddr = 0;
  dummy_early_pull_ddr = 0;
  useful_early_push_ddr = 0;
  dummy_early_push_ddr = 0;
  useful_write_pull_ddr = 0;
  dummy_write_pull_ddr = 0;
  useful_write_push_ddr = 0;
  dummy_write_push_ddr = 0;
  check_nodeid_ddr = 0;
  update_nodeid_ddr = 0;
}

-- The buckets that the constructor pushes, one `random_shuffle` each.
unfoldable pub new_bucket : Random → ℕ → Bucket
new_bucket random i = ring_bucket i (random.shuffle i (range 0 bucket_slots))

-- What the constructor of `rs` writes; the last line is a dummy write to start from.
unfoldable pub rs_fields : Random → Geometry → Rs
rs_fields random g =
    let n = g.num_of_entries in
    let line = rs_line g.num_of_lvls in
    let sets = g.total_num_blocks / g.num_of_ways in
    let nodes = (ktree ^ g.num_of_lvls - 1) / (ktree - 1) in
    record {
      geo = g;
      is_oram = true;
      rs_vec = set (replicate n line) (n - 1) (record line { type = init; valid = true });
      early_reshuffle_nodes = [];
      head = 0;
      tail = 0;
      last_write_line = n - 1;
      node_id_vec = replicate g.num_of_lvls none;
      offset_vec = replicate g.num_of_lvls none;
      ramulator_input_vec = [];
      mshr_array = (λ _. none);
      store = record {
        buckets = map (new_bucket random) (range 0 nodes);
        addr_to_origaddr = (λ _. none);
        pos_map = (λ _. none);
        stash = [];
      };
      task_heap = [];
      rs_line_task_map = (λ _. none);
      mshr_metadata = (λ _. none);
      stats = no_stats;
      ring_counter = replicate sets 0;
      wb_block_id_last = replicate sets none;
      set_cnt_map = (λ _. 0);
      metadata_cache = set_cache (64 * 1024) 8;
      ready_to_pop_task = [];
      draws = nodes;
    }

-- The constructor of `rs`. Without lines the dummy write is out of range, and `num_of_ways` is divided
-- by.
unfoldable pub rs_init : Random → Geometry → Option Rs
rs_init random g = do
  assert (ltb 0 g.num_of_entries)
  assert (ltb 0 g.num_of_ways)
  some (rs_fields random g)

-- The `while` of `posmap_init_writeback`, with fuel: the bucket of a leaf takes the next addresses of
-- its set until its real slots are used up. What is left of the addresses is carried on.
unfoldable pub fill_leaf : ℕ → ℕ → ℕ → List ℕ × Store → Option (List ℕ × Store)
fill_leaf zero node_id block_id s = none
fill_leaf (suc fuel) node_id block_id (addrs, st) = do
  room ← has_room st node_id
  let onward : Option (List ℕ × Store) = (elim addrs [
    | [] ↦ none
    | address ∷ rest ↦ do
      st' ← place_block address block_id node_id st
      fill_leaf fuel node_id block_id (rest, st')
  ])
  if room then onward else some (addrs, st)

-- One set of leaves, with its addresses in a random order.
unfoldable pub fill_set : Random → ℕ → ℕ → Rs → Option Rs
fill_set random valid_leaf_left set_id r = do
  let ways = r.geo.num_of_ways
  let addrs = random.shuffle r.draws (range (set_id * ways * z_slots) (ways * z_slots))
  (_, st) ←
      for_each (λ block_id. fill_leaf (suc z_slots) (valid_leaf_left + block_id) block_id)
        (range (set_id * ways) ways) (addrs, r.store)
  some (record r { store = st; draws = r.draws + 1 })

-- All sets; the first test of the loop divides by `num_of_ways`.
unfoldable pub posmap_init_writeback : Random → ℕ → Rs → Option Rs
posmap_init_writeback random valid_leaf_left r = do
  assert (ltb 0 r.geo.num_of_ways)
  for_each (fill_set random valid_leaf_left) (range 0 (r.geo.total_num_blocks / r.geo.num_of_ways))
      r

-- The constructor of `posmap_and_stash`
unfoldable pub posmap_and_stash : Logs → Random → ℕ → Rs → Option Posmap
posmap_and_stash logs random n_total_num_blocks r = do
  let levels = logs.ceil_log n_total_num_blocks + 1
  let left = (ktree ^ (levels - 1) - 1) / (ktree - 1)
  let right = (ktree ^ levels - 1) / (ktree - 1)
  r' ← posmap_init_writeback random left r
  some (record {
    max_num_levels = levels;
    valid_leaf_left = left;
    total_num_of_original_addr_space = (right - left) * z_slots;
    pending_q = [];
    rw_counter = 0;
    wb_lvl_useful_count = (λ _. 0);
    rs = r';
  })
