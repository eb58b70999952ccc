-- ===== src/Posmap/Piggy/Refill.antt =====
-- The two loops of `piggy_writeback`: the new buckets of the path, and the blocks of the stash.
use palermo_oram.Base.{
  ℕ, zero, suc, ◌+◌, ◌-◌, ◌^◌, ◌≤◌, ◌<◌, ◌≡◌, ◌≢◌, refl, ap, subst, ◌∙◌, inl, inr, Option, none,
  some, List, [], ◌∷◌, ◌==◌, ◌>>=◌, get_elem?, length, count, lookup, set, arith, Bool-cases, range,
  for_each, get_elem?-set_self, get_elem?-set_ne, length-set,
}
use palermo_oram.Base.Maps.Order.{Above, IsSorted}
use palermo_oram.Params.{bucket_slots}
use palermo_oram.Bucket.{Bucket, ring_bucket}
use palermo_oram.Bucket.Slots.{IsShuffle}
use palermo_oram.Tree.{path_node}
use palermo_oram.Tree.Paths.{level_of_path_node}
use palermo_oram.MetadataCache.Access as Cache
use palermo_oram.Store.{Store}
use palermo_oram.State.{Random, Rs}
use palermo_oram.Posmap.Piggy.{Leaving, refresh_node, deepest_from, downward, bump, fill_path}
use palermo_oram.Posmap.Piggy.Node.{IsMoving, Pending}
use palermo_oram.Posmap.Piggy.One.{renewed, refresh_node_total, offsets-IsShuffle}
use palermo_oram.Posmap.Piggy.Path.{Agree, deepest_total}
use palermo_oram.Posmap.Piggy.Place.{IsRoomy, place_deepest_total}

deepest_of_levels :
    (n a b levels : ℕ)
    → 0 < levels
    → 0 < n
    → a < 2 ^ (n - 1)
    → b < 2 ^ (n - 1)
    → (e : ℕ) × (deepest_from n a b (range 0 levels) none ≡ some e) × (e < levels) × Agree n a b e
deepest_of_levels n a b zero h = absurd (omega arith)
deepest_of_levels n a b (suc k) h = deepest_total n a b k

pub Pending-others :
    (stash : List (ℕ × ℕ)) (xs ys : List ℕ) (address : ℕ) (rest : List (ℕ × ℕ))
    → Above address rest
    → ((x : ℕ) → address ≢ x → count x ys ≡ count x xs)
    → Pending stash xs rest
    → Pending stash ys rest
Pending-others stash xs ys address [] above same p = tt
Pending-others stash xs ys address ((a, leaf) ∷ rest) above same p = (
  p.0,
  same a (λ e. ground arith) ∙ p.1,
  Pending-others stash xs ys address rest above.1 same p.2,
)

-- The loop over the stash runs to its end.
module _ (n start levels block_id : ℕ) (nodes : List ℕ) (st : Store) (fits : levels ≤ n)
    (some_level : 0 < levels) (leaf_ok : block_id < 2 ^ (n - 1))
    (leaves : (x leaf : ℕ) → lookup x st.stash ≡ some leaf → leaf < 2 ^ (n - 1)) where
  pub fill_path_total :
      (rest : List (ℕ × ℕ)) (counts : ℕ → ℕ) (w : Leaving)
      → IsSorted rest
      → Pending st.stash w.to_erase rest
      → IsMoving n start st w
      → ((i : ℕ) → start ≤ i → i < levels → IsRoomy n block_id nodes w.store i)
      → (r : (ℕ → ℕ) × Leaving) × (fill_path n levels start block_id nodes rest (counts, w)
          ≡ some r)
        × IsMoving n start st r.1
  unfolding fill_path
  fill_path_total [] counts w s p m roomy = ((counts, w), refl, m)
  fill_path_total ((address, leaf) ∷ rest) counts w s p m roomy =
      let (d, deep, lt, agree) =
        deepest_of_levels n block_id leaf levels some_level (omega arith) leaf_ok
          (leaves address leaf p.0) in
      let (r, run, placed) =
        place_deepest_total n start levels block_id nodes st fits leaf_ok address leaf
          (suc d - start) w m roomy (λ i a c. (omega arith, agree i (omega arith))) p.0 p.1 in
      let (r', run', m') =
        fill_path_total rest (bump r.0 counts) r.1 s.1
          (Pending-others st.stash w.to_erase r.1.to_erase address rest s.0 placed.others p.2)
          placed.moving placed.roomy in
      (r', rw (deep, run) run', m')

-- The loop over the nodes of the path.
abbrev pub refresh_round : Random → List ℕ → ℕ → Rs → Option Rs
refresh_round random nodes i r = do node_id ← get_elem? nodes i; refresh_node random node_id r

-- The buckets from level `k` on are new.
pub record IsRefreshing (n block_id levels k : ℕ) (before r : Rs) : Type 0 where
  pub buckets : List Bucket
  pub store : r.store ≡ record (before.store) { buckets = buckets }
  pub size : length buckets ≡ length before.store.buckets
  pub geo : r.geo ≡ before.geo
  pub cache : Cache.IsValid r.metadata_cache
  pub fresh :
      (i : ℕ)
      → k ≤ i
      → i < levels
      → (tmp : List ℕ) × IsShuffle tmp
        × (get_elem? buckets (path_node n block_id i)
            ≡ some (ring_bucket (path_node n block_id i) tmp))

module _ (random : Random) (n levels block_id : ℕ) (nodes : List ℕ) (before : Rs)
    (fits : levels ≤ n) (leaf_ok : block_id < 2 ^ (n - 1))
    (on_path : (i : ℕ) → i < levels → get_elem? nodes i ≡ some (path_node n block_id i))
    (within : (i : ℕ) → i < levels → path_node n block_id i < length before.store.buckets) where
  refresh_one :
      (k : ℕ) (r : Rs)
      → k < levels
      → IsRefreshing n block_id levels (suc k) before r
      → (r' : Rs) × (refresh_round random nodes k r ≡ some r')
        × IsRefreshing n block_id levels k before r'
  refresh_one k r lt q =
      let node = path_node n block_id k in
      let tmp = random.shuffle r.draws (range 0 bucket_slots) in
      let size' : length r.store.buckets ≡ length before.store.buckets =
        ap (λ (s : Store). length s.buckets) q.store ∙ q.size in
      let (r', d) = refresh_node_total random node r q.cache (omega (arith, within k lt)) in
      let node_in : node < length q.buckets = omega (arith, within k lt, q.size) in
      (
        r',
        rw (on_path k lt) d.runs,
        record {
          buckets = set q.buckets node (ring_bucket node tmp);
          store = d.store ∙ ap (λ s. renewed s node tmp) q.store;
          size = length-set q.buckets node (ring_bucket node tmp) ∙ q.size;
          geo = d.geo ∙ q.geo;
          cache = d.cache;
          fresh = λ i le h. elim (Bool-cases (k == i)) [
            | inl p ↦
                let here : k ≡ i = ground arith in
                subst
                  (λ j.
                    (t : List ℕ) × IsShuffle t
                    × (get_elem? (set q.buckets node (ring_bucket node tmp))
                          (path_node n block_id j)
                        ≡ some (ring_bucket (path_node n block_id j) t)))
                  here
                  (
                    tmp,
                    offsets-IsShuffle random r.draws,
                    get_elem?-set_self q.buckets node _ node_in,
                  )
            | inr p ↦
                let (t, shuffle, at) = q.fresh i (ground arith) h in
                let ne : node ≢ path_node n block_id i = λ e.
                  let l =
                    level_of_path_node n block_id block_id k i (omega arith) (omega arith) leaf_ok
                      leaf_ok e in
                  ground arith in
                (t, shuffle, get_elem?-set_ne q.buckets node _ _ ne ∙ at)
          ];
        },
      )

  pub refresh_path_total :
      (k : ℕ) (r : Rs)
      → k ≤ levels
      → IsRefreshing n block_id levels k before r
      → (r' : Rs) × (for_each (refresh_round random nodes) (downward 0 k) r ≡ some r')
        × IsRefreshing n block_id levels 0 before r'
  unfolding for_each downward
  refresh_path_total zero r le q = (r, refl, q)
  refresh_path_total (suc k) r le q =
      let (r₁, run, q₁) = refresh_one k r (omega arith) q in
      let (r', run', q') = refresh_path_total k r₁ (omega arith) q₁ in
      let z : 0 + k ≡ k = omega arith in (r', rw (z, run) run', q')
