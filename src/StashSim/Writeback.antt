-- ===== src/StashSim/Writeback.antt =====
-- `piggy_writeback` of src/stash_simulation/set_oram.cc, after `writeback_pull`.
use native.Mathlib.Nat.{pow-le-pow_right}
use palermo_oram.Base.{
  ℕ, zero, suc, ◌+◌, ◌-◌, ◌^◌, ◌≤◌, ◌<◌, ◌≡◌, ◌≢◌, refl, subst, ◌∙◌, inl, inr, true, Option, some,
  List, ◌∷◌, ◌==◌, ltb, get_elem?, set, length, count, range, arith, Bool-cases, for_each,
  get_elem?-set_self, get_elem?-set_ne, length-set,
}
use palermo_oram.Params.{bucket_slots}
use palermo_oram.Bucket.{Bucket, ring_bucket}
use palermo_oram.Bucket.Slots.{IsShuffle}
use palermo_oram.Tree.{path_node}
use palermo_oram.Tree.Paths.{
  level_of_path_node, path_node_bounds, path_node_ends, lvl_base_lookup_closed,
}
use palermo_oram.Store.{Store, refresh_bucket}
use palermo_oram.Store.Known.{IsKnown}
use palermo_oram.State.{Random}
use palermo_oram.Posmap.Piggy.{downward}
use palermo_oram.Posmap.Piggy.One.{IsBare, renewed, offsets-IsShuffle}
use palermo_oram.StashSim.{Sim, is_kept, sim_path_node}
use palermo_oram.StashSim.Piggy.{sim_refresh, refresh_level}
use palermo_oram.StashSim.Subtrees.{set_of_leaf}
use palermo_oram.StashSim.Serving.{IsServing, weaken-IsServing}
use palermo_oram.StashSim.Serving.Moves.{renewed-IsServing}

-- A block is in the stash or in a bucket, on its way to a leaf in the set of `leaf`.
abbrev pub IsKnownIn : ℕ → Store → ℕ → ℕ → Type 0
IsKnownIn n st x leaf = (new : ℕ) × (set_of_leaf n new ≡ set_of_leaf n leaf) × IsKnown st x new

-- What the write-backs leave as it is.
pub record SameRun (s s' : Sim) : Type 0 where
  pub levels : s'.num_of_lvls ≡ s.num_of_lvls
  pub total : s'.total_num_blocks ≡ s.total_num_blocks
  pub bits : s'.bits ≡ s.bits
  pub early : s'.early_nodes ≡ s.early_nodes

-- A node of the tree has a bucket.
pub node_within :
    (n leaf i : ℕ) (st : Store) {spent : List ℕ}
    → IsServing n spent st
    → i < n
    → leaf < 2 ^ (n - 1)
    → path_node n leaf i < length st.buckets
node_within n leaf i st v lt small =
    let (_, below) = path_node_bounds n leaf i lt small in
    omega (arith, v.size, lvl_base_lookup_closed (suc i), pow-le-pow_right {n = 2} (omega arith) lt)

abbrev pub with_buckets : Sim → List Bucket → ℕ → Sim
with_buckets s buckets draws = record s {
  store = record (s.store) { buckets = buckets };
  draws = draws;
}

-- The kept buckets of the path from level `k` on are new.
pub record IsFresh (n block_id k : ℕ) (spent : List ℕ) (st : Store) (buckets : List Bucket)
    : Type 0 where
  pub size : length buckets ≡ length st.buckets
  pub fresh :
      (i : ℕ)
      → k ≤ i
      → i < n
      → is_kept i ≡ true
      → (tmp : List ℕ) × IsShuffle tmp
        × (get_elem? buckets (path_node n block_id i)
            ≡ some (ring_bucket (path_node n block_id i) tmp))
  pub serving : 0 < k → IsServing n (0 ∷ spent) (record st { buckets = buckets })
  pub served : k ≡ 0 → IsServing n spent (record st { buckets = buckets })

module _ (random : Random) (n block_id : ℕ) (spent : List ℕ) (nodes : List (Option ℕ))
    (before : Sim) (leaf_ok : block_id < 2 ^ (n - 1))
    (on_path : (i : ℕ) → i < n → get_elem? nodes i ≡ some (sim_path_node n block_id i))
    (bare : (i : ℕ) → i < n → is_kept i ≡ true → IsBare before.store (path_node n block_id i)) where
  refreshed-IsServing :
      (i draws : ℕ) (buckets : List Bucket)
      → i < n
      → is_kept i ≡ true
      → IsFresh n block_id (suc i) spent before.store buckets
      → (more : List ℕ)
      → ((x : ℕ) → count x (path_node n block_id i ∷ more) ≡ 0 → count x (0 ∷ spent) ≡ 0)
      → IsServing n more (
          renewed
            (record (before.store) { buckets = buckets })
            (path_node n block_id i)
            (random.shuffle draws (range 0 bucket_slots)))
  refreshed-IsServing i draws buckets lt kept q more le =
      let st = record (before.store) { buckets = buckets } in
      let v = q.serving (omega arith) in
      renewed-IsServing n (path_node n block_id i) more _ st (offsets-IsShuffle random draws)
        (bare i lt kept) (node_within n block_id i st v lt leaf_ok)
        (weaken-IsServing (path_node n block_id i ∷ more) le v)

  refresh_kept :
      (i draws : ℕ) (buckets : List Bucket)
      → i < n
      → is_kept i ≡ true
      → IsFresh n block_id (suc i) spent before.store buckets
      → IsFresh n block_id i spent before.store (
          set buckets
            (path_node n block_id i)
            (ring_bucket (path_node n block_id i) (random.shuffle draws (range 0 bucket_slots))))
  unfolding count
  refresh_kept i draws buckets lt kept q =
      let node = path_node n block_id i in
      let tmp = random.shuffle draws (range 0 bucket_slots) in
      let st = record (before.store) { buckets = buckets } in
      let inside = node_within n block_id i st (q.serving (omega arith)) lt leaf_ok in
      record {
        size = length-set buckets node (ring_bucket node tmp) ∙ q.size;
        fresh = λ j a b c. elim (Bool-cases (i == j)) [
          | inl p ↦
              let here : i ≡ j = ground arith in
              subst
                (λ k.
                  (t : List ℕ) × IsShuffle t
                  × (get_elem? (set buckets node (ring_bucket node tmp)) (path_node n block_id k)
                      ≡ some (ring_bucket (path_node n block_id k) t)))
                here (tmp, offsets-IsShuffle random draws, get_elem?-set_self buckets node _ inside)
          | inr p ↦
              let (t, shuffle, at) = q.fresh j (ground arith) b c in
              let ne : node ≢ path_node n block_id j = λ e.
                let l = level_of_path_node n block_id block_id i j lt b leaf_ok leaf_ok e in
                ground arith in
              (t, shuffle, get_elem?-set_ne buckets node _ _ ne ∙ at)
        ];
        serving =
            λ pos. refreshed-IsServing i draws buckets lt kept q (0 ∷ spent) (λ x z. omega arith);
        served = λ z.
            let root : path_node n block_id i ≡ 0 =
              rw z (path_node_ends n block_id (omega arith) leaf_ok).1 in
            refreshed-IsServing i draws buckets lt kept q spent (λ x z. rw root at z);
      }

  pub refresh_levels_total :
      (k draws : ℕ) (buckets : List Bucket)
      → k ≤ n
      → IsFresh n block_id k spent before.store buckets
      → (buckets' : List Bucket) × (draws' : ℕ) × (for_each
            (refresh_level random nodes)
            (downward 0 k)
            (with_buckets before buckets draws)
          ≡ some (with_buckets before buckets' draws'))
        × IsFresh n block_id 0 spent before.store buckets'
  unfolding for_each downward refresh_level sim_refresh refresh_bucket sim_path_node
  refresh_levels_total zero draws buckets le q = (buckets, draws, refl, q)
  refresh_levels_total (suc i) draws buckets le q =
      let z : 0 + i ≡ i = omega arith in
      elim (Bool-cases (is_kept i)) [
        | inr cut ↦
            let (b', d', run, q') = refresh_levels_total i draws buckets (omega arith) (record {
              size = q.size;
              fresh = λ j a b c. elim (Bool-cases (i == j)) [
                | inl p ↦
                    let here : i ≡ j = ground arith in let c' = rw (← here) at c in absurd (cc)
                | inr p ↦ q.fresh j (ground arith) b c
              ];
              serving = λ pos. q.serving (omega arith);
              served = λ e. let c' = rw e at cut in absurd (cc);
            }) in
            (b', d', rw (z, cut) run, q')
        | inl kept ↦
            let node = path_node n block_id i in
            let tmp = random.shuffle draws (range 0 bucket_slots) in
            let st = record (before.store) { buckets = buckets } in
            let inside : ltb node (length buckets) ≡ true = ground (
              arith,
              node_within n block_id i st (q.serving (omega arith)) (omega arith) leaf_ok,
            ) in
            let (b', d', run, q') =
              refresh_levels_total i (draws + 1) (set buckets node (ring_bucket node tmp))
                (omega arith) (refresh_kept i draws buckets (omega arith) kept q) in
            (b', d', rw (z, kept, on_path i (omega arith), kept, inside) run, q')
      ]
