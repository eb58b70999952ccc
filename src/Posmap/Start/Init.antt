-- ===== src/Posmap/Start/Init.antt =====
-- The whole of `posmap_init_writeback` of src/reservation.h, and the state that the constructors of
-- `rs` and `posmap_and_stash` leave.
use native.Mathlib.Nat.{pow-zero, div-one, div-mul-le_self, two-pow-succ}
use palermo_oram.Base.{
  ℕ, suc, ◌+◌, ◌-◌, ◌*◌, ◌/◌, ◌^◌, ◌≤◌, ◌<◌, ◌≡◌, refl, true, ltb, ◌>>=◌, subst, some, [],
  get_elem?-map-range, max, range, arith,
}
use palermo_oram.Params.{z_slots, bucket_slots, ktree}
use palermo_oram.Tree.{path_node, lvl_base_lookup, leaf_division, Geometry, TreeName}
use palermo_oram.MetadataCache.Access.{set_cache-IsValid}
use palermo_oram.MetadataCache.Access as Cache
use palermo_oram.Store.Blocks.{Holds}
use palermo_oram.Posmap.Piggy.One.{offsets-IsShuffle}
use palermo_oram.State.{Random, Rs}
use palermo_oram.Posmap.{Posmap}
use palermo_oram.Posmap.Start.{
  new_bucket, start_level, rs_fields, rs_init, posmap_init_writeback, posmap_and_stash, Logs,
  geometry,
}
use palermo_oram.Posmap.Start.Leaf.{IsUpTo}
use palermo_oram.Posmap.Start.Sets.{IsAssigned}
use palermo_oram.Posmap.Start.Rounds.{with_store, fill_sets_total}

-- What the constructors leave: each address has its block in a bucket, at a leaf of its set.
pub record IsStart (g : Geometry) (r : Rs) : Type 0 where
  pub geo : r.geo ≡ g
  pub holds : Holds g.num_of_lvls g.start_lvl [] r.store
  pub empty : r.store.stash ≡ []
  pub assigned : IsAssigned g.num_of_ways (g.total_num_blocks / g.num_of_ways) r.store
  pub cache : Cache.IsValid r.metadata_cache

-- The state before any leaf is filled.
module _ (random : Random) (g : Geometry) where
  rs_fields-IsUpTo :
      (left total : ℕ)
      → total ≡ (ktree ^ g.num_of_lvls - 1) / (ktree - 1)
      → IsUpTo g.num_of_lvls g.start_lvl total left (rs_fields random g).store
  unfolding rs_fields new_bucket
  rs_fields-IsUpTo left total all = record {
    holds = record {
      sorted = omega arith;
      slots = λ a line e. absurd cc;
      lines = λ x line e. absurd cc;
      apart = λ x leaf line e z f. absurd cc;
    };
    empty = refl;
    below = λ a line e. absurd cc;
    fresh = λ node le lt. (
      random.shuffle node (range 0 bucket_slots),
      offsets-IsShuffle random node,
      (let z : 0 + node ≡ node = omega arith in
          rw z at (
            get_elem?-map-range (new_bucket random) 0 ((ktree ^ g.num_of_lvls - 1) / (ktree - 1))
              node (omega arith))),
    );
  }

  rs_fields-IsAssigned : IsAssigned g.num_of_ways 0 (rs_fields random g).store
  unfolding rs_fields
  rs_fields-IsAssigned = record {
    leaf_of = λ i x lt lo hi. absurd (omega arith);
    unmapped = λ x le. refl;
  }

  rs_fields-cache : Cache.IsValid (rs_fields random g).metadata_cache
  unfolding rs_fields
  rs_fields-cache = set_cache-IsValid (64 * 1024) 8 (omega arith) (omega arith)

-- The first node of the last level, with the leaves behind it.
pub leaf-path_node : (k leaf : ℕ) → (2 ^ k - 1) / 1 + leaf ≡ path_node (k + 1) leaf k
unfolding path_node lvl_base_lookup leaf_division
leaf-path_node k leaf =
    let flat : (k + 1 - k - 1) * 1 ≡ 0 = omega arith in
    let same : k * 1 ≡ k = omega arith in rw (flat, same, pow-zero, div-one, div-one) refl

-- `posmap_init_writeback` in a tree whose last level is `k`, with room for all sets.
init_writeback_total :
    (random : Random) (g : Geometry) (k : ℕ)
    → g.num_of_lvls ≡ k + 1
    → g.start_lvl ≤ k
    → 0 < g.num_of_ways
    → (2 ^ k - 1) / 1 + (0 + g.total_num_blocks / g.num_of_ways) * g.num_of_ways
      ≤ (2 ^ g.num_of_lvls - 1) / 1
    → (r : Rs) × (posmap_init_writeback random ((2 ^ k - 1) / 1) (rs_fields random g) ≡ some r)
      × IsStart g r
unfolding posmap_init_writeback rs_fields
init_writeback_total random g k n_eq low some_way fits =
    let divides : ltb 0 g.num_of_ways ≡ true = ground arith in
    let left = (2 ^ k - 1) / 1 in
    let total = (2 ^ g.num_of_lvls - 1) / 1 in
    let sets = g.total_num_blocks / g.num_of_ways in
    let (st, d, e, u, v) =
      fill_sets_total random g.num_of_lvls g.start_lvl total left k low (omega arith)
        (λ leaf. rw n_eq (leaf-path_node k leaf)) sets 0 (rs_fields random g) fits
        (rs_fields-IsUpTo random g (left + 0 * g.num_of_ways) total refl)
        (rs_fields-IsAssigned random g) in
    let all : 0 + sets ≡ sets = omega arith in
    (
      with_store (rs_fields random g) st d,
      rw divides e,
      record {
        geo = refl;
        holds = u.holds;
        empty = u.empty;
        assigned = subst (λ q. IsAssigned g.num_of_ways q st) all v;
        cache = rs_fields-cache random g;
      },
    )

module _ (logs : Logs) (random : Random) (n_lines ways n_total lowest : ℕ) (name : TreeName) where
  abbrev pub geo : Geometry
  geo = geometry logs n_lines ways n_total lowest name

  -- The sets fit into the last level.
  sets_fit :
      2 ≤ logs.ceil_log n_total
      → n_total ≤ 2 ^ logs.ceil_log n_total
      → (2 ^ logs.ceil_log n_total - 1) / 1 + (0 + n_total / ways) * ways
        ≤ (2 ^ geo.num_of_lvls - 1) / 1
  unfolding geometry
  sets_fit h fits =
      let k = logs.ceil_log n_total in
      let high : max (k + 1) 3 ≡ suc k = omega arith in
      let whole = div-mul-le_self n_total ways in
      let double = two-pow-succ k in rw high (omega arith)

  levels_eq : 2 ≤ logs.ceil_log n_total → geo.num_of_lvls ≡ logs.ceil_log n_total + 1
  unfolding geometry
  levels_eq h = omega arith

  start_low : 2 ≤ logs.ceil_log n_total → geo.start_lvl ≤ logs.ceil_log n_total
  unfolding geometry start_level
  start_low h = omega arith

  start_eq :
      2 ≤ logs.ceil_log n_total
      → logs.floor_log ((ktree - 1) * ways) ≤ logs.ceil_log n_total
      → geo.start_lvl + logs.floor_log ((ktree - 1) * ways) ≡ geo.num_of_lvls - 1
  unfolding geometry start_level
  start_eq h low = omega arith

  -- The constructors of `rs` and `posmap_and_stash`, with one or more lines, ways and blocks,
  -- where the rounded logarithm of the number of blocks is 2 or more, two to its power is at
  -- least that number, and the logarithm for the ways is not the greater: they finish, no
  -- division by zero and no access out of range among their steps, `start_lvl` is as far above
  -- the last level as the logarithm for the ways says, the geometry is that of the tree, the
  -- store keeps its invariant, the stash is empty, the metadata cache is valid, each address of
  -- a set is mapped to a leaf of that set, and no other address is mapped.
  pub posmap_and_stash-IsStart :
      0 < n_lines
      → 0 < ways
      → 0 < n_total
      → 2 ≤ logs.ceil_log n_total
      → n_total ≤ 2 ^ logs.ceil_log n_total
      → logs.floor_log ((ktree - 1) * ways) ≤ logs.ceil_log n_total
      → (p : Posmap) × ((rs_init random geo >>= posmap_and_stash logs random n_total) ≡ some p)
        × (geo.start_lvl + logs.floor_log ((ktree - 1) * ways) ≡ geo.num_of_lvls - 1)
        × IsStart geo p.rs
  unfolding posmap_and_stash geometry rs_init
  posmap_and_stash-IsStart lines some_way blocks h fits low =
      let k = logs.ceil_log n_total in
      let last : k + 1 - 1 ≡ k = omega arith in
      let has_line : ltb 0 n_lines ≡ true = ground arith in
      let has_way : ltb 0 ways ≡ true = ground arith in
      let (r, e, v) =
        init_writeback_total random geo k (levels_eq h) (start_low h) some_way (sets_fit h fits) in
      (
        record {
          max_num_levels = k + 1;
          valid_leaf_left = (2 ^ k - 1) / 1;
          total_num_of_original_addr_space = ((2 ^ (k + 1) - 1) / 1 - (2 ^ k - 1) / 1) * z_slots;
          pending_q = [];
          rw_counter = 0;
          wb_lvl_useful_count = (λ _. 0);
          rs = r;
        },
        rw (has_line, has_way, last, e) refl,
        start_eq h low,
        v,
      )
