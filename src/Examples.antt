-- ===== src/Examples.antt =====
-- Small inputs at which the theorems apply: a tree of three levels with three blocks.
mod Blocks
mod Parts
mod Schedules
mod Runs
mod Reshuffles
mod Writes
mod Simulations
use palermo_oram.Base.{
  ℕ, zero, suc, ◌+◌, ◌-◌, ◌/◌, ◌%◌, ◌^◌, ◌≤◌, ◌<◌, ◌≡◌, ◌≢◌, refl, inl, Bool, true, false, none,
  some, List, [], ◌∷◌, arith, ◌==◌, if◌then◌else◌, lookup, erase, length, count, range, map,
}
use palermo_oram.Params.{bucket_slots, s_slots}
use palermo_oram.Bucket.{Bucket, ring_bucket, next_s, take_z, take_first, pop_back}
use palermo_oram.Bucket.Slots.{
  IsShuffle, IsRead, unread, next_s-IsRead, take_z-IsRead, ring_bucket-IsValid,
}
use palermo_oram.Bucket.Slots as Slots
use palermo_oram.Bucket.Reads.{dummy, block, access, access_all, access_all-distinct}
use palermo_oram.Tree.{
  data_tree, pos1, pos2, Geometry, path_node, leaf_division, slot_of_packet, packet_addresses,
  lvl_base_lookup, metadata_address,
}
use palermo_oram.Tree.Paths.{
  path_node_bounds, path_node-parent, paths_meet_above, level_of_path_node,
}
use palermo_oram.Tree.Layout.{
  slot_address-inj, slot_of_packet-packet_addresses, metadata_address_eq,
}
use palermo_oram.MetadataCache.{SetCache, set_cache, cache_access}
use palermo_oram.MetadataCache.Access.{set_cache-IsValid, cache_access-IsAccess, IsAccess}
use palermo_oram.MetadataCache.Access as Cache
use palermo_oram.Store.{Store, pull_slot, put_line, PosMapLine}
use palermo_oram.Store.Blocks.{Holds, pull_slot-Holds, CanPut, put_line-Holds}
use palermo_oram.Store.Known.{IsKnown, pull_slot-IsKnown}
use palermo_oram.State.{Random}
use palermo_oram.Station.Metadata.{ring_reverse}
use palermo_oram.Station.Mshr.{commit_all}
use palermo_oram.Station.Mshr.Commit.{commit_all_ends}
use palermo_oram.Schedule.{
  Schedule, same_key, push_execution_pool, is_blocked, holds_set, oram_task_create,
}
use palermo_oram.Schedule.Window.{IsWindow, with_step, oram_task_create_in_order}
use palermo_oram.Schedule.Serve.{wake_next}
use palermo_oram.Schedule.Serve.Wake.{IsTail, wake_next_stops}
use palermo_oram.Posmap.{Posmap}
use palermo_oram.Posmap.Start.{rs_fields}
use palermo_oram.Posmap.Piggy.{
  piggy_writeback, Leaving, fill_node, piggy_one, leave_stash, erase_all,
}
use palermo_oram.Posmap.Piggy.Writeback.{CanWriteBack, piggy_writeback-IsRenewed}
use palermo_oram.Posmap.Piggy.Fill.{Holds_buckets}
use palermo_oram.Posmap.Piggy.Node.{IsMoving, Pending-all, fill_node_total, leave_stash-Holds}
use palermo_oram.Posmap.Piggy.One.{
  renewed, renewed-IsFilling, CanRenew, IsRenewed, piggy_one-IsRenewed,
}

-- The order of the offsets as they come, which is one of the shuffles.
abbrev pub in_order : List ℕ
in_order = range 0 bucket_slots

pub in_order-IsShuffle : IsShuffle in_order
unfolding range
in_order-IsShuffle = record { long_enough = refl; same = λ a. refl }

abbrev pub no_shuffle : Random
no_shuffle = record {
  rand = λ n. n;
  shuffle = λ n xs. xs;
  length-shuffle = λ n xs. refl;
  count-shuffle = λ n xs a. refl;
}

-- A tree of three levels with one set of four paths.
abbrev pub small : Geometry
small = record {
  name = data_tree;
  num_of_entries = 2;
  num_of_ways = 4;
  total_num_blocks = 4;
  num_of_lvls = 3;
  lowest_uncached_lvl = 1;
  start_lvl = 0;
  cache_end_nodeid = 0;
}

abbrev pub buckets : List Bucket
buckets = map (λ i. ring_bucket i in_order) (range 0 7)

-- Three blocks in the stash, on their way to the leaves 1, 2 and 3.
abbrev pub three_blocks : Store
three_blocks = record {
  buckets = buckets;
  addr_to_origaddr = (λ _. none);
  pos_map = (λ _. none);
  stash = (5, 1) ∷ (7, 2) ∷ (9, 3) ∷ [];
}

pub three_blocks-Holds : Holds 3 0 [] three_blocks
three_blocks-Holds = record {
  sorted = omega arith;
  slots = λ a line e. absurd cc;
  lines = λ x line e. absurd cc;
  apart = λ x leaf line e z f. absurd cc;
}

abbrev pub small_cache : SetCache
small_cache = set_cache 1024 4

pub small_cache-IsValid : Cache.IsValid small_cache
small_cache-IsValid = set_cache-IsValid 1024 4 (omega arith) (omega arith)

abbrev pub start : Posmap
start = record {
  max_num_levels = 3;
  valid_leaf_left = 4;
  total_num_of_original_addr_space = 16;
  pending_q = [];
  rw_counter = 0;
  wb_lvl_useful_count = (λ _. 0);
  rs = record (rs_fields no_shuffle small) { store = three_blocks; metadata_cache = small_cache };
}

pub start-CanRenew : CanRenew 1 1 start
unfolding rs_fields range
start-CanRenew = record {
  cache = small_cache-IsValid;
  above = omega arith;
  below = omega arith;
  within = omega arith;
  holds = three_blocks-Holds;
  bare = λ off lt. refl;
}

-- The block 7 gets the slot 0 of node 2, on the path to leaf 2.
abbrev pub line_7 : PosMapLine
line_7 = record { original_address = 7; block_id = 2; node_id = 2; offset = 0; pending = false }

pub line_7-CanPut : CanPut 3 0 line_7 three_blocks
unfolding path_node lvl_base_lookup leaf_division
line_7-CanPut = record {
  unmapped = λ l. λ e. cc;
  path = (1, omega arith, omega arith, refl);
  in_range = omega arith;
  free = refl;
  idle = refl;
}

abbrev pub seven_out : Store
seven_out = leave_stash (record { store = put_line line_7 three_blocks; to_erase = 7 ∷ [] })

pub seven_out-Holds : Holds 3 0 [] seven_out
seven_out-Holds = leave_stash-Holds _ (put_line-Holds line_7 three_blocks-Holds line_7-CanPut)
