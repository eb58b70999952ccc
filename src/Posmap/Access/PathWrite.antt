-- ===== src/Posmap/Access/PathWrite.antt =====
-- The write of a path, from the registration of its two lines to the refill: `rs_line_register_write`
-- and `piggy_writeback`, in step 5 of `init_step` of src/reservation.h.
use palermo_oram.Base.{
  ℕ, ◌+◌, ◌-◌, ◌^◌, ◌≤◌, ◌<◌, ◌≡◌, sym, ap, subst, ◌∙◌, none, some, [], length, map, range, arith,
  >>=-eq-some, get_elem?-map-range,
}
use palermo_oram.Tree.{Geometry, path_node, slot_address}
use palermo_oram.MetadataCache.Access as Cache
use palermo_oram.Store.{Store}
use palermo_oram.Store.Blocks.{Holds}
use palermo_oram.State.{Random, Rs}
use palermo_oram.Station.Core.{Core, core}
use palermo_oram.Station.Register.Path.{register_write_pull, rs_line_register_write}
use palermo_oram.Station.Register.Path.Bare.{IsPathBare, register_write_pull-IsPathBare}
use palermo_oram.Station.Register.Path.Moved.{LeavesFit, IsMoved}
use palermo_oram.Station.Register.Path.Whole.{register_write_pull-Kept, register_write_push-core}
use palermo_oram.Posmap.{Posmap}
use palermo_oram.Posmap.Piggy.{piggy_writeback}
use palermo_oram.Posmap.Piggy.One.{IsRenewed}
use palermo_oram.Posmap.Piggy.Writeback.{CanWriteBack, piggy_writeback-IsRenewed}
use palermo_oram.Posmap.Access.Early.{IsRenewed-since}

-- What the state must be before the path to leaf `block_id` is pulled.
pub record CanWritePath (block_id : ℕ) (p : Posmap) : Type 0 where
  pub cache : Cache.IsValid p.rs.metadata_cache
  pub all_levels : p.max_num_levels ≡ p.rs.geo.num_of_lvls
  pub some_level : 0 < p.rs.geo.num_of_lvls
  pub cut : p.rs.geo.start_lvl ≤ p.rs.geo.num_of_lvls
  pub leaf_ok : block_id < 2 ^ (p.rs.geo.num_of_lvls - 1)
  pub leaves : LeavesFit (2 ^ (p.rs.geo.num_of_lvls - 1)) p.rs.store
  pub within :
      (i : ℕ)
      → i < p.rs.geo.num_of_lvls
      → path_node p.rs.geo.num_of_lvls block_id i < length p.rs.store.buckets
  pub holds : Holds p.rs.geo.num_of_lvls p.rs.geo.start_lvl [] p.rs.store

-- After the pull of the path the refill can start.
can_write_back :
    (block_id : ℕ) (p q : Posmap) (r₁ : Rs)
    → CanWritePath block_id p
    → q.max_num_levels ≡ p.max_num_levels
    → q.rs.geo ≡ p.rs.geo
    → q.rs.metadata_cache ≡ p.rs.metadata_cache
    → q.rs.store ≡ r₁.store
    → IsMoved p.rs.geo.num_of_lvls p.rs.geo.start_lvl p.rs.store r₁.store
    → IsPathBare
        (map (path_node p.rs.geo.num_of_lvls block_id) (range 0 p.rs.geo.num_of_lvls))
        p.rs.geo.start_lvl
        p.rs.geo.num_of_lvls
        r₁.store
    → CanWriteBack block_id q
can_write_back block_id p q r₁ c top geo cache store moved bare =
    let n = p.rs.geo.num_of_lvls in
    let fit : LeavesFit (2 ^ (n - 1)) q.rs.store =
      subst (LeavesFit (2 ^ (n - 1))) (sym store) (moved.leaves (2 ^ (n - 1)) c.leaves) in
    let back = sym geo in
    let levels : q.max_num_levels ≡ n = top ∙ c.all_levels in
    record {
      cache = subst Cache.IsValid (sym cache) c.cache;
      some_level = subst (λ k. 0 < k) (sym levels) c.some_level;
      fits =
          subst (λ (g : Geometry). q.max_num_levels ≤ g.num_of_lvls) back
            (subst (λ k. k ≤ n) (sym levels) (omega arith));
      leaf_ok = subst (λ (g : Geometry). block_id < 2 ^ (g.num_of_lvls - 1)) back c.leaf_ok;
      leaves = λ x leaf h.
          subst (λ (g : Geometry). leaf < 2 ^ (g.num_of_lvls - 1)) back (fit.stash x leaf h);
      within = λ i h.
          subst (λ (g : Geometry). path_node g.num_of_lvls block_id i < length q.rs.store.buckets)
            back
            (subst (λ (st : Store). path_node n block_id i < length st.buckets) (sym store)
              (subst (λ k. path_node n block_id i < k) (sym moved.sized)
                (c.within i (subst (λ k. i < k) levels h))));
      holds =
          subst (λ (g : Geometry). Holds g.num_of_lvls g.start_lvl [] q.rs.store) back
            (subst (Holds n p.rs.geo.start_lvl []) (sym store) moved.holds);
      bare = λ i high low off lt.
          let high' : p.rs.geo.start_lvl ≤ i = subst (λ (g : Geometry). g.start_lvl ≤ i) geo high in
          let low' : i < n = subst (λ k. i < k) levels low in
          let on = get_elem?-map-range (path_node n block_id) 0 n i low' in
          let z : 0 + i ≡ i = omega arith in
          let free = bare i (path_node n block_id i) high' low' (rw z at on) off lt in
          subst
            (λ (g : Geometry).
              q.rs.store.addr_to_origaddr (slot_address (path_node g.num_of_lvls block_id i) off)
              ≡ none)
            back
            (subst
              (λ (st : Store).
                st.addr_to_origaddr (slot_address (path_node n block_id i) off) ≡ none)
              (sym store) free);
    }

-- The write of the path to a leaf of the tree, in a tree that keeps the invariant of the store, with
-- a valid metadata cache, a bucket for each node of the path and leaves of the tree only: if
-- `rs_line_register_write` succeeds, `piggy_writeback` finishes from each state `q` with the blocks
-- that it leaves, and from before the registration to after the refill the geometry stays, the
-- metadata cache is valid and the invariant holds again, and each block that was in the stash or in
-- a bucket still is, on its way to the same leaf.
pub path_refill :
    (random : Random) (block_id : ℕ) (p q : Posmap) (r : Rs)
    → CanWritePath block_id p
    → rs_line_register_write
        (map (path_node p.rs.geo.num_of_lvls block_id) (range 0 p.rs.geo.num_of_lvls))
        p.rs
      ≡ some r
    → q.max_num_levels ≡ p.max_num_levels
    → core q.rs ≡ core r
    → (p' : Posmap) × (piggy_writeback random block_id q ≡ some p') × IsRenewed p p'
unfolding rs_line_register_write
path_refill random block_id p q r c e top same =
    let n = p.rs.geo.num_of_lvls in
    let nodes = map (path_node n block_id) (range 0 n) in
    let (r₁, pull, push) = >>=-eq-some (register_write_pull nodes p.rs) _ e in
    let (moved, bare) = register_write_pull-IsPathBare nodes p.rs r₁ c.holds c.cut pull in
    let kept = register_write_pull-Kept nodes p.rs r₁ pull in
    let written = same ∙ register_write_push-core nodes r₁ r push in
    let geo : q.rs.geo ≡ p.rs.geo = ap (λ (k : Core). k.geo) written ∙ kept.0 in
    let cache : q.rs.metadata_cache ≡ p.rs.metadata_cache =
      ap (λ (k : Core). k.cache) written ∙ kept.1 in
    let store : q.rs.store ≡ r₁.store = ap (λ (k : Core). k.store) written in
    let can = can_write_back block_id p q r₁ c top geo cache store moved bare in
    let (p', run, w) = piggy_writeback-IsRenewed random block_id q can in
    (p', run, IsRenewed-since p q p' r₁ geo store moved.known w)
