-- ===== src/Posmap/Piggy/Writeback.antt =====
-- The whole of `piggy_writeback` in src/reservation.h.
use palermo_oram.Base.{
  get_elem?-map-range, ℕ, ◌+◌, ◌-◌, ◌^◌, ◌≤◌, ◌<◌, ◌≡◌, refl, some, List, [], map, get_elem?,
  length, count, lookup, arith, range, for_each,
}
use palermo_oram.Bucket.{Bucket, ring_bucket}
use palermo_oram.Tree.{path_node}
use palermo_oram.MetadataCache.Access as Cache
use palermo_oram.Store.Blocks.{Holds}
use palermo_oram.State.{Random, Rs}
use palermo_oram.Posmap.{Posmap}
use palermo_oram.Posmap.Piggy.{
  Leaving, sample_stash, downward, fill_path, count_pushes, leave_stash, piggy_writeback,
}
use palermo_oram.Posmap.Piggy.Fill.{Holds_buckets}
use palermo_oram.Posmap.Piggy.Node.{IsMoving, Pending-all, leave_stash-Holds}
use palermo_oram.Posmap.Piggy.One.{IsBare, IsRenewed, fresh-IsFilling, moving-IsKnown}
use palermo_oram.Posmap.Piggy.Refill.{
  fill_path_total, refresh_path_total, refresh_round, IsRefreshing,
}

-- What the state must be before `piggy_writeback`: no block is mapped to a slot of the path from
-- `start_lvl` on, and all leaves are leaves of the tree.
pub record CanWriteBack (block_id : ℕ) (p : Posmap) : Type 0 where
  pub cache : Cache.IsValid p.rs.metadata_cache
  pub some_level : 0 < p.max_num_levels
  pub fits : p.max_num_levels ≤ p.rs.geo.num_of_lvls
  pub leaf_ok : block_id < 2 ^ (p.rs.geo.num_of_lvls - 1)
  pub leaves :
      (x leaf : ℕ) → lookup x p.rs.store.stash ≡ some leaf → leaf < 2 ^ (p.rs.geo.num_of_lvls - 1)
  pub within :
      (i : ℕ)
      → i < p.max_num_levels
      → path_node p.rs.geo.num_of_lvls block_id i < length p.rs.store.buckets
  pub holds : Holds p.rs.geo.num_of_lvls p.rs.geo.start_lvl [] p.rs.store
  pub bare :
      (i : ℕ)
      → p.rs.geo.start_lvl ≤ i
      → i < p.max_num_levels
      → IsBare p.rs.store (path_node p.rs.geo.num_of_lvls block_id i)

module _ (random : Random) (block_id : ℕ) (p : Posmap) (c : CanWriteBack block_id p) where
  abbrev n : ℕ
  n = p.rs.geo.num_of_lvls

  abbrev nodes : List ℕ
  nodes = map (path_node n block_id) (range 0 p.max_num_levels)

  on_path : (i : ℕ) → i < p.max_num_levels → get_elem? nodes i ≡ some (path_node n block_id i)
  on_path i h =
      let z : 0 + i ≡ i = omega arith in
      rw z at (get_elem?-map-range (path_node n block_id) 0 p.max_num_levels i h)

  refreshed :
      (r : Rs) × (for_each
          (refresh_round random nodes)
          (downward 0 p.max_num_levels)
          (sample_stash p.rs)
        ≡ some r)
      × IsRefreshing n block_id p.max_num_levels 0 p.rs r
  unfolding sample_stash
  refreshed =
      refresh_path_total random n p.max_num_levels block_id nodes p.rs c.fits c.leaf_ok on_path
        c.within p.max_num_levels (sample_stash p.rs) (omega arith)
        (record {
          buckets = p.rs.store.buckets;
          store = refl;
          size = refl;
          geo = refl;
          cache = c.cache;
          fresh = λ i le h. absurd (omega arith);
        })

  -- The state of the second loop at its start.
  abbrev at_start : List Bucket → Leaving
  at_start buckets = record { store = record (p.rs.store) { buckets = buckets }; to_erase = [] }

  filled :
      (r : Rs) (q : IsRefreshing n block_id p.max_num_levels 0 p.rs r)
      → (f : (ℕ → ℕ) × Leaving) × (fill_path n p.max_num_levels p.rs.geo.start_lvl block_id nodes
            p.rs.store.stash
            ((λ _. 0), at_start q.buckets)
          ≡ some f)
        × IsMoving n p.rs.geo.start_lvl p.rs.store f.1
  unfolding count ring_bucket
  filled r q =
      fill_path_total n p.rs.geo.start_lvl p.max_num_levels block_id nodes p.rs.store c.fits
        c.some_level c.leaf_ok c.leaves p.rs.store.stash (λ _. 0) (at_start q.buckets)
        c.holds.sorted (Pending-all p.rs.store.stash c.holds.sorted)
        (record {
          holds = Holds_buckets q.buckets c.holds;
          same = refl;
          kept = λ x leaf k. k;
          gone = λ x leaf e z. absurd (omega arith);
        })
        (λ i a b.
          let (tmp, shuffle, at) = q.fresh i (omega arith) b in
          (
            ring_bucket (path_node n block_id i) tmp,
            on_path i b,
            fresh-IsFilling (record (p.rs.store) { buckets = q.buckets }) (path_node n block_id i)
                tmp shuffle at (c.bare i a b),
            omega arith,
          ))

  -- `piggy_writeback` along the path of a leaf of the tree, with one or more levels and not more
  -- than the station has, all nodes of the path in the tree, no block mapped to a slot of the
  -- path from `start_lvl` on, all leaves of the stash leaves of the tree, the invariant of the
  -- store and a valid metadata cache: it finishes, no assertion failing, the geometry stays, the
  -- metadata cache is valid and the invariant holds again, and each block that was in the stash
  -- or in a bucket still is, on its way to the same leaf.
  pub piggy_writeback-IsRenewed :
      (p' : Posmap) × (piggy_writeback random block_id p ≡ some p') × IsRenewed p p'
  unfolding piggy_writeback
  piggy_writeback-IsRenewed =
      let (r, run, q) = refreshed in
      let (f, run', m) = filled r q in
      let lowest = r.geo.lowest_uncached_lvl in
      let from : fill_path n p.max_num_levels r.geo.start_lvl block_id nodes r.store.stash
            ((λ _. 0), record { store = r.store; to_erase = [] })
          ≡ some f =
        rw (q.geo, q.store) run' in
      (
        record p {
          wb_lvl_useful_count = f.0;
          rs = record r {
            store = leave_stash f.1;
            stats = count_pushes f.0 (range lowest (p.max_num_levels - lowest)) r.stats;
          };
        },
        rw (run, from) refl,
        record {
          geo = q.geo;
          cache = q.cache;
          holds = leave_stash-Holds f.1 m.holds;
          known = moving-IsKnown m;
        },
      )
