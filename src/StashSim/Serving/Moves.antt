-- ===== src/StashSim/Serving/Moves.antt =====
-- What `place_block` and a new bucket do to the tree of src/stash_simulation/set_oram.cc.
use palermo_oram.Base.{
  ℕ, ◌+◌, ◌-◌, ◌^◌, ◌<◌, ◌≡◌, ◌≢◌, sym, subst, ◌∙◌, true, some, List, ◌∷◌, ◌==◌, leb, ltb, ◌⊎◌,
  get_elem?, set, length, count, arith, Bool-cases, Option-cases, inl, inr, get_elem?-set_self,
  get_elem?-set_ne, lt-of_get_elem?, count-pos_of_get_elem?, length-set,
}
use palermo_oram.Params.{s_slots, bucket_slots}
use palermo_oram.Bucket.{Bucket, ring_bucket, assign_z_off}
use palermo_oram.Bucket.Slots.{IsShuffle, ring_bucket-IsValid}
use palermo_oram.Tree.{slot_address}
use palermo_oram.Tree.Layout.{slot_address-inj}
use palermo_oram.Store.{PosMapLine, mapped, Store, place_block, put_line, line_at}
use palermo_oram.Posmap.Piggy.One.{IsBare, renewed}
use palermo_oram.StashSim.Serving.{IsUsable, IsServing}

assign_z_off-run :
    (b : Bucket) (off : ℕ) (b' : Bucket)
    → assign_z_off b ≡ some (off, b')
    → (get_elem? b.z_arr b.free_z_index ≡ some off)
      × (record b { free_z_index = b.free_z_index + 1 } ≡ b')
unfolding assign_z_off
assign_z_off-run b off b' e = elim (Bool-cases (ltb 0 (length b.z_arr))) [
  | inr q ↦ let e' = rw q at e in absurd cc
  | inl q ↦
      let e₁ = rw q at e in
      elim (Option-cases (get_elem? b.z_arr b.free_z_index)) [
        | inl m ↦ let e₂ = rw m at e₁ in absurd cc
        | inr (ret, m) ↦
            let e₂ = rw m at e₁ in
            elim (Bool-cases (leb (length b.s_arr) s_slots)) [
              | inr z ↦ let e₃ = rw z at e₂ in absurd cc
              | inl z ↦ let e₃ = rw z at e₂ in (cc, cc)
            ]
      ]
]

abbrev pub given : ℕ → ℕ → ℕ → ℕ → Bucket → Store → Store
given address leaf node off b st =
    put_line (line_at address leaf node off)
      (record st { buckets = set st.buckets node (record b { free_z_index = b.free_z_index + 1 }) })

-- What a call of `place_block` does.
pub place_block-run :
    (address leaf node : ℕ) (st : Store) {st' : Store}
    → place_block address leaf node st ≡ some st'
    → (b : Bucket) × (off : ℕ) × (get_elem? st.buckets node ≡ some b)
      × (get_elem? b.z_arr b.free_z_index ≡ some off)
      × (given address leaf node off b st ≡ st')
unfolding place_block put_line line_at
place_block-run address leaf node st {st'} e = elim (Option-cases (get_elem? st.buckets node)) [
  | inl m ↦ let e₁ = rw m at e in absurd cc
  | inr (b, m) ↦
      let e₁ = rw m at e in
      elim (Option-cases (assign_z_off b)) [
        | inl q ↦ let e₂ = rw q at e₁ in absurd cc
        | inr ((off, b'), q) ↦
            let e₂ = rw q at e₁ in
            let lt : ltb node (length st.buckets) ≡ true =
              ground (arith, lt-of_get_elem? st.buckets node m) in
            let e₃ = rw lt at e₂ in
            let (got, same) = assign_z_off-run b off b' q in (b, off, m, got, rw same (cc))
      ]
]

-- A block at the slot `off` that the bucket of `node` gave out.
module _ (n : ℕ) (spent : List ℕ) (address leaf node off : ℕ) (b : Bucket) (st : Store)
    (v : IsServing n spent st) (at : get_elem? st.buckets node ≡ some b)
    (got : get_elem? b.z_arr b.free_z_index ≡ some off) where
  abbrev bigger : Bucket
  bigger = record b { free_z_index = b.free_z_index + 1 }

  given_off : off < bucket_slots
  given_off =
      let u = v.buckets node b at in
      let there = count-pos_of_get_elem? b.z_arr b.free_z_index got in
      elim (Bool-cases (ltb off bucket_slots)) [
        | inl p ↦ ground arith
        | inr p ↦ omega (arith, u.valid.in_range off (ground arith))
      ]

  -- A slot of the tree after the move: it is the new one, or it was in use before.
  given_slot :
      (k o : ℕ) (line : PosMapLine)
      → o < bucket_slots
      → (given address leaf node off b st).addr_to_origaddr (slot_address k o) ≡ some line
      → ((node ≡ k) × (off ≡ o)) ⊎ (st.addr_to_origaddr (slot_address k o) ≡ some line)
  unfolding put_line line_at
  given_slot k o line lt e = elim (Bool-cases (slot_address node off == slot_address k o)) [
    | inl p ↦ inl (slot_address-inj node k off o given_off lt (ground arith))
    | inr p ↦ inr (ground arith)
  ]

  given_bucket :
      (k : ℕ) (c : Bucket)
      → get_elem? (set st.buckets node bigger) k ≡ some c
      → IsUsable spent (given address leaf node off b st) k c
  unfolding put_line line_at
  given_bucket k c e = elim (Bool-cases (node == k)) [
    | inl p ↦
        let u = v.buckets node b at in
        let k_same : node ≡ k = ground arith in
        let here = get_elem?-set_self st.buckets node bigger (lt-of_get_elem? st.buckets node at) in
        let e' : get_elem? (set st.buckets node bigger) node ≡ some c = rw (← k_same) at e in
        let c_same : bigger ≡ c = cc in
        subst (λ (x : ℕ). IsUsable spent (given address leaf node off b st) x c) k_same
          (subst (λ (x : Bucket). IsUsable spent (given address leaf node off b st) node x) c_same
            (record {
              valid = record {
                total = u.valid.total;
                z_fits = u.valid.z_fits;
                s_fits = u.valid.s_fits;
                once = u.valid.once;
                in_range = u.valid.in_range;
              };
              alive = u.alive;
              used = λ o line lt f. elim (given_slot node o line lt f) [
                | inl (_, q) ↦ rw (← q) (count-pos_of_get_elem? b.z_arr b.free_z_index got)
                | inr g ↦ u.used o line lt g
              ];
            }))
    | inr p ↦
        let ne : node ≢ k = λ q. ground arith in
        let u = v.buckets k c (sym (get_elem?-set_ne st.buckets node k bigger ne) ∙ e) in
        record {
          valid = u.valid;
          alive = u.alive;
          used = λ o line lt f. elim (given_slot k o line lt f) [
            | inl (q, _) ↦ absurd (ne q)
            | inr g ↦ u.used o line lt g
          ];
        }
  ]

  pub given-IsServing : leaf < 2 ^ (n - 1) → IsServing n spent (given address leaf node off b st)
  unfolding put_line line_at
  given-IsServing small = record {
    size = rw (length-set st.buckets node bigger) v.size;
    no_dummy = v.no_dummy;
    idle = λ x l e. elim (Bool-cases (address == x)) [
      | inl p ↦
          let e' : some (mapped (line_at address leaf node off)) ≡ some (mapped l) = rw p at e in cc
      | inr p ↦ v.idle x l (rw p at e)
    ];
    leaves = λ a l e. elim (Bool-cases (slot_address node off == a)) [
      | inl p ↦
          let e' : some (line_at address leaf node off) ≡ some l = rw p at e in
          let same : leaf ≡ l.block_id = cc in omega arith
      | inr p ↦ v.leaves a l (rw p at e)
    ];
    stash_leaves = v.stash_leaves;
    buckets = given_bucket;
  }

-- A new bucket at a node to whose slots no block is mapped.
module _ (n node : ℕ) (spent tmp : List ℕ) (st : Store) (h : IsShuffle tmp) (bare : IsBare st node)
    (within : node < length st.buckets) where
  renewed_bucket :
      IsServing n (node ∷ spent) st
      → (k : ℕ) (c : Bucket) → get_elem? (set st.buckets node (ring_bucket node tmp)) k ≡ some c
      → IsUsable spent (renewed st node tmp) k c
  unfolding count
  renewed_bucket v k c e = elim (Bool-cases (node == k)) [
    | inl p ↦
        let k_same : node ≡ k = ground arith in
        let here = get_elem?-set_self st.buckets node (ring_bucket node tmp) within in
        let e' : get_elem? (set st.buckets node (ring_bucket node tmp)) node ≡ some c =
          rw (← k_same) at e in
        let c_same : ring_bucket node tmp ≡ c = cc in
        subst (λ (x : ℕ). IsUsable spent (renewed st node tmp) x c) k_same
          (subst (λ (x : Bucket). IsUsable spent (renewed st node tmp) node x) c_same
            (record {
              valid = ring_bucket-IsValid node tmp h;
              alive = λ z. unfold ring_bucket in omega arith;
              used = λ o line lt f. let gone = bare o lt in absurd (cc);
            }))
    | inr p ↦
        let ne : node ≢ k = λ q. ground arith in
        let u = v.buckets k c (sym (get_elem?-set_ne st.buckets node k _ ne) ∙ e) in
        record { valid = u.valid; alive = λ z. u.alive (ground arith); used = u.used }
  ]

  pub renewed-IsServing : IsServing n (node ∷ spent) st → IsServing n spent (renewed st node tmp)
  renewed-IsServing v = record {
    size = rw (length-set st.buckets node (ring_bucket node tmp)) v.size;
    no_dummy = v.no_dummy;
    idle = v.idle;
    leaves = v.leaves;
    stash_leaves = v.stash_leaves;
    buckets = renewed_bucket v;
  }
