-- ===== src/Examples/Parts.antt =====
-- The buckets, the metadata cache and the tree, at small inputs.
use palermo_oram.Base.{
  replicate, List, ℕ, ◌+◌, ◌-◌, ◌/◌, ◌%◌, ◌≤◌, ◌<◌, ◌≡◌, refl, Bool, some, [], ◌∷◌, arith, ◌==◌,
  count, range, map,
}
use palermo_oram.Params.{bucket_slots, s_slots}
use palermo_oram.Bucket.{Bucket, ring_bucket, next_s, take_z, take_first, pop_back}
use palermo_oram.Bucket.Slots.{
  IsShuffle, IsRead, unread, next_s-IsRead, take_z-IsRead, ring_bucket-IsValid,
}
use palermo_oram.Bucket.Slots as Slots
use palermo_oram.Bucket.Reads.{
  dummy, block, access, access_all, access_all-distinct, access_all-replicate,
}
use palermo_oram.Tree.{
  data_tree, pos1, path_node, leaf_division, slot_of_packet, packet_addresses, lvl_base_lookup,
  metadata_address,
}
use palermo_oram.Tree.Paths.{
  path_node_bounds, path_node-parent, paths_meet_above, level_of_path_node,
}
use palermo_oram.Tree.Layout.{
  slot_address-inj, slot_of_packet-packet_addresses, metadata_address_eq,
}
use palermo_oram.MetadataCache.{SetCache, set_cache, cache_access}
use palermo_oram.MetadataCache.Access.{set_cache-IsValid, cache_access-IsAccess, IsAccess}
use palermo_oram.MetadataCache.Access as Cache
use palermo_oram.Examples.{in_order, in_order-IsShuffle, small_cache, small_cache-IsValid}

access_all-distinct_example :
    (count 2 (42 ∷ 2 ∷ []) ≤ 1) × (bucket_slots ≤ 2 → count 2 (42 ∷ 2 ∷ []) ≡ 0)
unfolding access_all access next_s take_z take_first pop_back ring_bucket range
access_all-distinct_example =
    access_all-distinct 0 in_order (dummy ∷ block 2 ∷ []) (42 ∷ 2 ∷ []) _ in_order-IsShuffle refl 2

fresh-IsValid : Slots.IsValid (ring_bucket 0 in_order)
fresh-IsValid = ring_bucket-IsValid 0 in_order in_order-IsShuffle

ring_bucket-IsValid_example : Slots.IsValid (ring_bucket 0 in_order)
ring_bucket-IsValid_example = ring_bucket-IsValid 0 in_order in_order-IsShuffle

next_s-IsRead_example :
    (ret : ℕ) × (b' : Bucket) × (next_s (ring_bucket 0 in_order)
      ≡ some ((ret, ((ring_bucket 0 in_order).accessed_times + 1) == s_slots), b'))
    × IsRead (ring_bucket 0 in_order) ret b'
unfolding ring_bucket
next_s-IsRead_example = next_s-IsRead (ring_bucket 0 in_order) fresh-IsValid (omega arith)

take_z-IsRead_example :
    (b' : Bucket) × (take_z 3 (ring_bucket 0 in_order)
      ≡ some ((3, ((ring_bucket 0 in_order).accessed_times + 1) == s_slots), b'))
    × IsRead (ring_bucket 0 in_order) 3 b'
unfolding ring_bucket range count
take_z-IsRead_example = take_z-IsRead 3 (ring_bucket 0 in_order) fresh-IsValid (omega arith)

cache_access-IsAccess_example :
    (hit : Bool) × (c' : SetCache) × (cache_access small_cache 0x7000040 1 ≡ some (hit, c'))
    × IsAccess small_cache 0x7000040 1 hit c'
cache_access-IsAccess_example =
    cache_access-IsAccess small_cache 0x7000040 1 small_cache-IsValid (omega arith)

set_cache-IsValid_example : Cache.IsValid (set_cache 1024 4)
set_cache-IsValid_example = set_cache-IsValid 1024 4 (omega arith) (omega arith)

paths_meet_above_example : path_node 4 4 1 ≡ path_node 4 5 1
unfolding path_node lvl_base_lookup leaf_division
paths_meet_above_example = paths_meet_above 4 4 5 1 1 (omega arith) refl

level_of_path_node_example : ◌≡◌ {A = ℕ} 2 2
level_of_path_node_example =
    level_of_path_node 4 5 5 2 2 (omega arith) (omega arith) (omega arith) (omega arith) refl

path_node_bounds_example :
    (lvl_base_lookup 2 ≤ path_node 4 5 2) × (path_node 4 5 2 < lvl_base_lookup 3)
path_node_bounds_example = path_node_bounds 4 5 2 (omega arith) (omega arith)

path_node-parent_example : path_node 4 5 1 ≡ (path_node 4 5 2 - 1) / 2
path_node-parent_example = path_node-parent 4 5 1 (omega arith)

slot_address-inj_example : (◌≡◌ {A = ℕ} 3 3) × (◌≡◌ {A = ℕ} 4 4)
slot_address-inj_example = slot_address-inj 3 3 4 4 (omega arith) (omega arith) refl

slot_of_packet-packet_addresses_example :
    map (slot_of_packet pos1) (packet_addresses pos1 130)
    ≡ map (λ _. 130) (packet_addresses pos1 130)
slot_of_packet-packet_addresses_example = slot_of_packet-packet_addresses pos1 130

metadata_address_eq_example :
    (metadata_address data_tree 33 ≡ metadata_address data_tree 40 → 33 / 32 ≡ 40 / 32)
    × (33 / 32 ≡ 40 / 32 → metadata_address data_tree 33 ≡ metadata_address data_tree 40)
    × (metadata_address data_tree 33 % 64 ≡ 0)
metadata_address_eq_example = metadata_address_eq data_tree 33 40

access_all-replicate_example :
    (r : List ℕ × Bucket) × (access_all (replicate 27 dummy) (ring_bucket 0 in_order) ≡ some r)
    × (r.1.accessed_times ≡ (ring_bucket 0 in_order).accessed_times + 27)
unfolding ring_bucket
access_all-replicate_example =
    access_all-replicate 27 (ring_bucket 0 in_order) fresh-IsValid (omega arith)
