-- ===== src/StashSim/Reads.antt =====
-- The loop of `read_pull` in src/stash_simulation/set_oram.cc over the levels.
pub mod Levels
use palermo_oram.Base.{
  ℕ, zero, suc, ◌+◌, ◌-◌, ◌^◌, ◌≤◌, ◌<◌, ◌≡◌, ◌≢◌, refl, ap, sym, subst, ◌∙◌, inl, inr, Bool, true,
  false, not, Option, none, some, List, [], ◌∷◌, ◌++◌, ◌==◌, ltb, leb, if◌then◌else◌, ◌>>=◌, ◌>>◌,
  assert, get_elem?, set, store_at, count, lookup, range, length, arith, Bool-cases, Option-cases,
  for_each, >>=-eq-some, get_elem?-of_lt, get_elem?-set_self, get_elem?-set_ne, length-set,
  lt-of_get_elem?,
}
use palermo_oram.Params.{s_slots, bucket_slots}
use palermo_oram.Bucket.{Bucket}
use palermo_oram.Tree.{path_node, slot_address}
use palermo_oram.Tree.Paths.{level_of_path_node, path_node_ends}
use palermo_oram.Store.{Store, PosMapLine}
use palermo_oram.StashSim.{Sim, is_kept, sim_path_node, touch_bucket, is_masked, touch_level}
use palermo_oram.StashSim.Serving.{IsServing, IsUsable}
use palermo_oram.StashSim.Writeback.{node_within}
use palermo_oram.StashSim.Touch.{
  IsTouched, touch_bucket_total, nodes_of, spent_of, AllEarly, AllEarly-append,
  count-nodes_of-append,
}

-- A used-up bucket that gets no early reshuffle is the root, with a write-back at hand.
pub is_masked_total :
    (n node : ℕ) (masking : Option ℕ)
    → 0 < n
    → ((leaf : ℕ) → masking ≡ some leaf → leaf < 2 ^ (n - 1))
    → (m : Bool) × (is_masked n node masking ≡ some m)
      × (m ≡ true → (early : List (ℕ × ℕ)) → 0 < count node (spent_of masking early))
unfolding is_masked sim_path_node count
is_masked_total n node none pos ok = (false, refl, λ e early. absurd (cc))
is_masked_total n node (some leaf) pos ok =
    let root = (path_node_ends n leaf pos (ok leaf refl)).1 in
    (path_node n leaf 0 == node, refl, λ e early. ground arith)

pub count-spent_of :
    (x node lvl : ℕ) (masking : Option ℕ) (early : List (ℕ × ℕ))
    → count x (spent_of masking (early ++ ((node, lvl) ∷ [])))
      ≡ count x (spent_of masking early) + count x (node ∷ [])
unfolding count
count-spent_of x node lvl none early = count-nodes_of-append x node lvl early
count-spent_of x node lvl (some leaf) early = omega (arith, count-nodes_of-append x node lvl early)

-- The buckets and the list of nodes during the reads; the maps are as they are after the reads.
pub record IsReading (n block_id : ℕ) (intended : Option (ℕ × ℕ)) (masking : Option ℕ)
    (maps : Store) (k : ℕ) (buckets : List Bucket) (early : List (ℕ × ℕ)) : Type 0 where
  pub serving : IsServing n (spent_of masking early) (record maps { buckets = buckets })
  pub waiting : AllEarly n early
  pub ready :
      (j : ℕ) (b : Bucket)
      → k ≤ j
      → j < n
      → is_kept j ≡ true
      → get_elem? buckets (path_node n block_id j) ≡ some b
      → (b.accessed_times < s_slots)
        × ((off : ℕ) → intended ≡ some (path_node n block_id j, off) → 0 < count off b.z_arr)

module _ (n block_id : ℕ) (intended : Option (ℕ × ℕ)) (masking : Option ℕ) (maps : Store)
    (leaf_ok : block_id < 2 ^ (n - 1))
    (masking_ok : (leaf : ℕ) → masking ≡ some leaf → leaf < 2 ^ (n - 1))
    (dropped : (node off : ℕ)
      → intended ≡ some (node, off)
      → maps.addr_to_origaddr (slot_address node off) ≡ none) where
  -- The bucket `b` of a level has become `b'`.
  pub touched-IsServing :
      (i : ℕ) (buckets : List Bucket) (early : List (ℕ × ℕ)) (b b' : Bucket) (more : List ℕ)
      → IsServing n (spent_of masking early) (record maps { buckets = buckets })
      → get_elem? buckets (path_node n block_id i) ≡ some b
      → IsTouched intended (path_node n block_id i) b b'
      → ((x : ℕ) → count x more ≡ 0 → count x (spent_of masking early) ≡ 0)
      → (count (path_node n block_id i) more ≡ 0 → b'.accessed_times < s_slots)
      → IsServing n more (record maps { buckets = set buckets (path_node n block_id i) b' })
  touched-IsServing i buckets early b b' more v at t le alive =
      let node = path_node n block_id i in
      record {
        size = rw (length-set buckets node b') v.size;
        no_dummy = v.no_dummy;
        idle = v.idle;
        leaves = v.leaves;
        stash_leaves = v.stash_leaves;
        buckets = λ k c e. elim (Bool-cases (node == k)) [
          | inl p ↦
              let k_same : node ≡ k = ground arith in
              let u = v.buckets node b at in
              let here = get_elem?-set_self buckets node b' (lt-of_get_elem? buckets node at) in
              let e' : get_elem? (set buckets node b') node ≡ some c = rw (← k_same) at e in
              let c_same : b' ≡ c = cc in
              subst (λ (x : ℕ). IsUsable more (record maps { buckets = set buckets node b' }) x c)
                k_same
                (subst
                  (λ (x : Bucket).
                    IsUsable more (record maps { buckets = set buckets node b' }) node x)
                  c_same
                  (record {
                    valid = t.valid;
                    alive = alive;
                    used = λ off line lt f.
                        let other : intended ≢ some (node, off) =
                          λ q. let gone = dropped node off q in absurd (cc) in
                        t.others off other (u.used off line lt f);
                  }))
          | inr p ↦
              let ne : node ≢ k = λ q. ground arith in
              let u = v.buckets k c (sym (get_elem?-set_ne buckets node k b' ne) ∙ e) in
              record { valid = u.valid; alive = λ z. u.alive (le k z); used = u.used }
        ];
      }

  pub touched_ready :
      (i : ℕ) (buckets : List Bucket) (early : List (ℕ × ℕ)) (b' : Bucket)
      → i < n
      → IsReading n block_id intended masking maps i buckets early
      → (j : ℕ) (b : Bucket) → suc i ≤ j
      → j < n
      → is_kept j ≡ true
      → get_elem? (set buckets (path_node n block_id i) b') (path_node n block_id j) ≡ some b
      → (b.accessed_times < s_slots)
        × ((off : ℕ) → intended ≡ some (path_node n block_id j, off) → 0 < count off b.z_arr)
  touched_ready i buckets early b' hi q j b a c kept e =
      let ne : path_node n block_id i ≢ path_node n block_id j = λ same.
        let l = level_of_path_node n block_id block_id i j hi c leaf_ok leaf_ok same in
        omega arith in
      q.ready j b (omega arith) c kept (sym (get_elem?-set_ne buckets _ _ b' ne) ∙ e)
