-- ===== src/StashSim/Reads/Levels.antt =====
-- One round, and all rounds, of the loop of `read_pull` in src/stash_simulation/set_oram.cc.
use palermo_oram.Base.{
  ℕ, zero, suc, ◌+◌, ◌-◌, ◌^◌, ◌<◌, ◌≡◌, refl, subst, inl, inr, true, Option, none, some, List, [],
  ◌∷◌, ◌++◌, ◌==◌, ltb, set, count, range, length, arith, Bool-cases, for_each, get_elem?-of_lt,
}
use palermo_oram.Params.{s_slots}
use palermo_oram.Bucket.{Bucket}
use palermo_oram.Tree.{path_node, slot_address}
use palermo_oram.Store.{Store}
use palermo_oram.StashSim.{Sim, is_kept, sim_path_node, touch_level}
use palermo_oram.StashSim.Writeback.{node_within}
use palermo_oram.StashSim.Touch.{touch_bucket_total, spent_of, AllEarly-append}
use palermo_oram.StashSim.Reads.{
  is_masked_total, count-spent_of, IsReading, touched-IsServing, touched_ready,
}

abbrev pub reading : Sim → List Bucket → List (ℕ × ℕ) → Sim
reading s buckets early = record s {
  store = record (s.store) { buckets = buckets };
  early_nodes = early;
}

module _ (s : Sim) (block_id : ℕ) (intended : Option (ℕ × ℕ)) (masking : Option ℕ) (maps : Store)
    (leaf_ok : block_id < 2 ^ (s.num_of_lvls - 1))
    (masking_ok : (leaf : ℕ) → masking ≡ some leaf → leaf < 2 ^ (s.num_of_lvls - 1))
    (dropped : (node off : ℕ)
      → intended ≡ some (node, off)
      → maps.addr_to_origaddr (slot_address node off) ≡ none) where
  abbrev n : ℕ
  n = s.num_of_lvls

  touch_level_total :
      (i : ℕ) (buckets : List Bucket) (early : List (ℕ × ℕ))
      → i < s.num_of_lvls
      → IsReading s.num_of_lvls block_id intended masking maps i buckets early
      → (buckets' : List Bucket) × (early' : List (ℕ × ℕ)) × (touch_level block_id intended masking
            i
            (reading s buckets early)
          ≡ some (reading s buckets' early'))
        × IsReading s.num_of_lvls block_id intended masking maps (suc i) buckets' early'
  unfolding touch_level sim_path_node count
  touch_level_total i buckets early lt q = elim (Bool-cases (is_kept i)) [
    | inr cut ↦ (
      buckets,
      early,
      rw cut refl,
      record {
        serving = q.serving;
        waiting = q.waiting;
        ready = λ j b a. q.ready j b (omega arith);
      },
    )
    | inl kept ↦
        let node = path_node n block_id i in
        let inside =
          node_within n block_id i (record maps { buckets = buckets }) q.serving lt leaf_ok in
        let inside' : ltb node (length buckets) ≡ true = ground arith in
        let (b, at) = get_elem?-of_lt buckets node inside in
        let u = q.serving.buckets node b at in
        let (alive, there) = q.ready i b (omega arith) lt kept at in
        let (ret, b', run, t) = touch_bucket_total intended node b u.valid alive there in
        elim (Bool-cases ((b.accessed_times + 1) == s_slots)) [
          | inr fine ↦ (
            set buckets node b',
            early,
            rw (kept, at, run, fine, inside') refl,
            record {
              serving =
                  touched-IsServing n block_id intended masking maps leaf_ok masking_ok dropped i
                    buckets early b b' (spent_of masking early) q.serving at t (λ x z. z)
                    (λ z. ground (arith, t.accessed));
              waiting = q.waiting;
              ready =
                  touched_ready n block_id intended masking maps leaf_ok masking_ok dropped i
                    buckets early b' lt q;
            },
          )
          | inl used_up ↦
              let (m, ask, excuse) = is_masked_total n node masking (omega arith) masking_ok in
              elim (Bool-cases m) [
                | inl masked ↦ (
                  set buckets node b',
                  early,
                  rw (kept, at, run, used_up, inside', ask, masked) refl,
                  record {
                    serving =
                        touched-IsServing n block_id intended masking maps leaf_ok masking_ok
                          dropped i buckets early b b' (spent_of masking early) q.serving at t
                          (λ x z. z) (λ z. let more = excuse masked early in absurd (omega arith));
                    waiting = q.waiting;
                    ready =
                        touched_ready n block_id intended masking maps leaf_ok masking_ok dropped i
                          buckets early b' lt q;
                  },
                )
                | inr open_node ↦
                    let early' = early ++ ((node, i) ∷ []) in
                    (
                      set buckets node b',
                      early',
                      rw (kept, at, run, used_up, inside', ask, open_node) refl,
                      record {
                        serving =
                            touched-IsServing n block_id intended masking maps leaf_ok masking_ok
                              dropped i buckets early b b' (spent_of masking early') q.serving at t
                              (λ x z. omega (arith, count-spent_of x node i masking early))
                              (λ z. ground (arith, count-spent_of node node i masking early));
                        waiting =
                            AllEarly-append n early ((node, i) ∷ []) q.waiting
                              ((block_id, leaf_ok, lt, kept, refl), tt);
                        ready =
                            touched_ready n block_id intended masking maps leaf_ok masking_ok
                              dropped i buckets early b' lt q;
                      },
                    )
              ]
        ]
  ]

  -- All levels are read, and no assertion fails.
  pub touch_levels_total :
      (i k : ℕ) (buckets : List Bucket) (early : List (ℕ × ℕ))
      → i + k ≡ s.num_of_lvls
      → IsReading s.num_of_lvls block_id intended masking maps i buckets early
      → (buckets' : List Bucket) × (early' : List (ℕ × ℕ)) × (for_each
            (touch_level block_id intended masking)
            (range i k)
            (reading s buckets early)
          ≡ some (reading s buckets' early'))
        × IsReading s.num_of_lvls block_id intended masking maps s.num_of_lvls buckets' early'
  unfolding for_each range
  touch_levels_total i zero buckets early e q =
      let same : i ≡ s.num_of_lvls = omega arith in
      (
        buckets,
        early,
        refl,
        subst (λ x. IsReading s.num_of_lvls block_id intended masking maps x buckets early) same q,
      )
  touch_levels_total i (suc k) buckets early e q =
      let (b₁, e₁, run₁, q₁) = touch_level_total i buckets early (omega arith) q in
      let (b', e', run, q') = touch_levels_total (suc i) k b₁ e₁ (omega arith) q₁ in
      (b', e', rw run₁ run, q')
