-- ===== src/Posmap/Piggy/One.antt =====
-- The whole of `piggy_one` in src/reservation.h.
use palermo_oram.Base.{
  get_elem?, ℕ, ◌+◌, ◌≤◌, ◌<◌, ◌≡◌, refl, ◌∙◌, inl, inr, Bool, true, false, none, some, List, [],
  leb, ltb, length, count, lookup, set, arith, Bool-cases, range, length-range, length-take,
  get_elem?-set_self,
}
use palermo_oram.Params.{z_slots, bucket_slots}
use palermo_oram.Bucket.{ring_bucket}
use palermo_oram.Bucket.Slots.{IsShuffle, ring_bucket-IsValid}
use palermo_oram.Tree.{slot_address, metadata_address}
use palermo_oram.MetadataCache.{SetCache, posmap_nodeid_access, cache_access}
use palermo_oram.MetadataCache.Access.{cache_access-IsAccess}
use palermo_oram.MetadataCache.Access as Cache
use palermo_oram.Store.{Store, refresh_bucket}
use palermo_oram.Store.Blocks.{Holds}
use palermo_oram.Store.Known.{IsKnown}
use palermo_oram.State.{Random, Rs, send_packet}
use palermo_oram.Posmap.{Posmap}
use palermo_oram.Posmap.Piggy.{
  Leaving, sample_stash, refresh_node, fill_node, leave_stash, finish_node, piggy_one,
}
use palermo_oram.Posmap.Piggy.Fill.{Holds_buckets, IsFilling}
use palermo_oram.Posmap.Piggy.Node.{
  IsMoving, Pending-all, fill_node_total, leave_stash-Holds, lookup-erase_all,
}

-- What `std::random_shuffle` gives for a new bucket.
pub offsets-IsShuffle :
    (random : Random) (n : ℕ) → IsShuffle (random.shuffle n (range 0 bucket_slots))
offsets-IsShuffle random n = record {
  long_enough = random.length-shuffle n (range 0 bucket_slots) ∙ length-range 0 bucket_slots;
  same = random.count-shuffle n (range 0 bucket_slots);
}

-- No block is mapped to a slot of the node.
abbrev pub IsBare : Store → ℕ → Type 0
IsBare st node = (off : ℕ) → off < bucket_slots → st.addr_to_origaddr (slot_address node off) ≡ none

abbrev pub renewed : Store → ℕ → List ℕ → Store
renewed st node tmp = record st { buckets = set st.buckets node (ring_bucket node tmp) }

-- A fresh bucket of a bare node.
pub fresh-IsFilling :
    (st : Store) (node : ℕ) (tmp : List ℕ)
    → IsShuffle tmp
    → get_elem? st.buckets node ≡ some (ring_bucket node tmp)
    → IsBare st node
    → IsFilling st node (ring_bucket node tmp)
unfolding ring_bucket
fresh-IsFilling st node tmp h at bare =
    let v = ring_bucket-IsValid node tmp h in
    record {
      there = at;
      z_fits = length-take z_slots tmp (omega (arith, h.long_enough));
      s_fits = v.s_fits;
      once = λ a. omega (arith, v.once a);
      in_range = λ a p. elim (Bool-cases (ltb a bucket_slots)) [
        | inl q ↦ ground arith
        | inr q ↦ omega (arith, v.in_range a (ground arith))
      ];
      used = λ off line lt' e. let gone = bare off lt' in absurd cc;
    }

pub renewed-IsFilling :
    (st : Store) (node : ℕ) (tmp : List ℕ)
    → IsShuffle tmp
    → node < length st.buckets
    → IsBare st node
    → IsFilling (renewed st node tmp) node (ring_bucket node tmp)
renewed-IsFilling st node tmp h lt bare =
    fresh-IsFilling (renewed st node tmp) node tmp h
      (get_elem?-set_self st.buckets node (ring_bucket node tmp) lt) bare

-- The new bucket is in place, and the metadata is looked up.
pub record IsRefreshed (random : Random) (node : ℕ) (r r' : Rs) : Type 0 where
  pub runs : refresh_node random node r ≡ some r'
  pub store : r'.store ≡ renewed r.store node (random.shuffle r.draws (range 0 bucket_slots))
  pub geo : r'.geo ≡ r.geo
  pub cache : Cache.IsValid r'.metadata_cache

refresh_from :
    (random : Random) (node : ℕ) (r : Rs) (hit : Bool) (c : SetCache)
    → cache_access r.metadata_cache (metadata_address r.geo.name node) 1 ≡ some (hit, c)
    → Cache.IsValid c
    → ltb node (length r.store.buckets) ≡ true
    → (r' : Rs) × IsRefreshed random node r r'
unfolding refresh_node refresh_bucket posmap_nodeid_access
refresh_from random node r true c e v inside = (
  record r {
    store = renewed r.store node (random.shuffle r.draws (range 0 bucket_slots));
    draws = r.draws + 1;
    metadata_cache = c;
  },
  record { runs = rw (inside, e) refl; store = refl; geo = refl; cache = v },
)
refresh_from random node r false c e v inside = (
  send_packet
      (record {
        address = metadata_address r.geo.name node;
        pull = false;
        metadata = true;
        name = r.geo.name;
        step = none;
      })
      (record r {
        store = renewed r.store node (random.shuffle r.draws (range 0 bucket_slots));
        draws = r.draws + 1;
        metadata_cache = c;
        stats = record (r.stats) { update_nodeid_ddr = r.stats.update_nodeid_ddr + 1 };
      }),
  record { runs = rw (inside, e) refl; store = refl; geo = refl; cache = v },
)

pub refresh_node_total :
    (random : Random) (node : ℕ) (r : Rs)
    → Cache.IsValid r.metadata_cache
    → node < length r.store.buckets
    → (r' : Rs) × IsRefreshed random node r r'
refresh_node_total random node r v lt =
    let (hit, c, e, a) =
      cache_access-IsAccess r.metadata_cache (metadata_address r.geo.name node) 1 v (omega arith) in
    refresh_from random node r hit c e a.valid (ground arith)

-- The blocks that leave the stash are in a bucket.
pub moving-IsKnown :
    {n start : ℕ} {st : Store} {w : Leaving}
    → IsMoving n start st w
    → (x leaf : ℕ) → IsKnown st x leaf
    → IsKnown (leave_stash w) x leaf
moving-IsKnown {n} {start} {st} {w} m x leaf (inr k) = inr (m.kept x leaf k)
moving-IsKnown {n} {start} {st} {w} m x leaf (inl e) =
    elim (Bool-cases (ltb 0 (count x w.to_erase))) [
      | inl out ↦ inr (m.gone x leaf e (ground arith))
      | inr stays ↦
          let found = lookup-erase_all w.to_erase x w.store.stash in
          let still : lookup x w.store.stash ≡ some leaf = rw m.same e in
          inl (rw (found, stays) still)
    ]

-- `piggy_one` on the store, once the new bucket is there.
pub fill_total :
    (n start node lvl : ℕ) (st : Store) (tmp : List ℕ)
    → start ≤ lvl
    → lvl < n
    → node < length st.buckets
    → IsShuffle tmp
    → Holds n start [] st
    → IsBare st node
    → (w : Leaving) × (fill_node n node lvl st.stash
          (record { store = renewed st node tmp; to_erase = [] })
        ≡ some w)
      × IsMoving n start st w
unfolding ring_bucket count
fill_total n start node lvl st tmp hs hl lt h v bare =
    fill_node_total n start node lvl st hs hl st.stash (ring_bucket node tmp) _ v.sorted
      (Pending-all st.stash v.sorted)
      (record {
        holds = Holds_buckets _ v;
        same = refl;
        kept = λ x leaf k. k;
        gone = λ x leaf e c. absurd (omega arith);
      })
      (renewed-IsFilling st node tmp h lt bare) (omega arith)

-- What the state must be before `piggy_one`: the blocks of the node's old bucket are in the stash.
pub record CanRenew (node lvl : ℕ) (p : Posmap) : Type 0 where
  pub cache : Cache.IsValid p.rs.metadata_cache
  pub above : p.rs.geo.start_lvl ≤ lvl
  pub below : lvl < p.rs.geo.num_of_lvls
  pub within : node < length p.rs.store.buckets
  pub holds : Holds p.rs.geo.num_of_lvls p.rs.geo.start_lvl [] p.rs.store
  pub bare : IsBare p.rs.store node

pub record IsRenewed (p p' : Posmap) : Type 0 where
  pub geo : p'.rs.geo ≡ p.rs.geo
  pub cache : Cache.IsValid p'.rs.metadata_cache
  pub holds : Holds p.rs.geo.num_of_lvls p.rs.geo.start_lvl [] p'.rs.store
  pub known : (x leaf : ℕ) → IsKnown p.rs.store x leaf → IsKnown p'.rs.store x leaf

-- `piggy_one` at a level of the tree from `start_lvl` on, on a node with a bucket, to whose
-- slots no block is mapped, in a state that keeps the invariant of the store and with a valid
-- metadata cache: it finishes, the geometry stays, the metadata cache is valid and the invariant
-- holds again (every slot in use has the line of a block whose path the node is on, the maps
-- agree, no block is in the stash and in a bucket), and each block that was in the stash or in a
-- bucket still is, on its way to the same leaf.
pub piggy_one-IsRenewed :
    (random : Random) (node lvl : ℕ) (p : Posmap)
    → CanRenew node lvl p
    → (p' : Posmap) × (piggy_one random node lvl p ≡ some p') × IsRenewed p p'
unfolding piggy_one sample_stash finish_node
piggy_one-IsRenewed random node lvl p c =
    let (r, d) = refresh_node_total random node (sample_stash p.rs) c.cache c.within in
    let tmp = random.shuffle p.rs.draws (range 0 bucket_slots) in
    let (w, e, m) =
      fill_total p.rs.geo.num_of_lvls p.rs.geo.start_lvl node lvl p.rs.store tmp c.above c.below
        c.within (offsets-IsShuffle random p.rs.draws) c.holds c.bare in
    let high : leb p.rs.geo.start_lvl lvl ≡ true = ground (arith, c.above) in
    let w_from : fill_node r.geo.num_of_lvls node lvl r.store.stash
          (record { store = r.store; to_erase = [] })
        ≡ some w =
      rw (d.geo, d.store) e in
    (
      record p { rs = finish_node lvl w r },
      rw (high, d.runs, w_from) refl,
      record {
        geo = d.geo;
        cache = d.cache;
        holds = leave_stash-Holds w m.holds;
        known = moving-IsKnown m;
      },
    )
