-- ===== src/Posmap/Piggy/Fill.antt =====
-- One move of a block out of the stash, as in `piggy_one` of src/reservation.h.
use palermo_oram.Base.{
  ℕ, ◌+◌, ◌≤◌, ◌<◌, ◌≡◌, refl, ◌∙◌, inl, inr, true, none, some, List, ◌==◌, leb, ltb, get_elem?,
  set, length, count, lookup, arith, Bool-cases, Option-cases, lt-of_get_elem?, get_elem?-set_self,
  get_elem?-inj, count-pos_of_get_elem?,
}
use palermo_oram.Params.{z_slots, s_slots, bucket_slots}
use palermo_oram.Bucket.{Bucket, assign_z_off}
use palermo_oram.Tree.{path_node, slot_address}
use palermo_oram.Store.{Store, PosMapLine, place_block, put_line, line_at}
use palermo_oram.Store.Blocks.{Holds, CanPut}

-- The order of the blocks on their way out does not matter.
pub Holds_count :
    {n start : ℕ} {xs ys : List ℕ} {st : Store}
    → Holds n start xs st
    → ((x : ℕ) → count x xs ≡ count x ys)
    → Holds n start ys st
Holds_count v same = record {
  sorted = v.sorted;
  slots = v.slots;
  lines = v.lines;
  apart = λ x leaf l e z. v.apart x leaf l e (same x ∙ z);
}

-- The maps do not depend on the buckets.
pub Holds_buckets :
    {n start : ℕ} {xs : List ℕ} {st : Store} (buckets : List Bucket)
    → Holds n start xs st
    → Holds n start xs (record st { buckets = buckets })
Holds_buckets buckets v = record {
  sorted = v.sorted;
  slots = v.slots;
  lines = v.lines;
  apart = v.apart;
}

-- A bucket that is being filled: each slot in use is one that it gave out.
pub record IsFilling (st : Store) (node : ℕ) (b : Bucket) : Type 0 where
  pub there : get_elem? st.buckets node ≡ some b
  pub z_fits : length b.z_arr ≡ z_slots
  pub s_fits : length b.s_arr ≤ s_slots
  pub once : (a : ℕ) → count a b.z_arr ≤ 1
  pub in_range : (a : ℕ) → 0 < count a b.z_arr → a < bucket_slots
  pub used :
      (off : ℕ) (line : PosMapLine)
      → off < bucket_slots
      → st.addr_to_origaddr (slot_address node off) ≡ some line
      → (i : ℕ) × (i < b.free_z_index) × (get_elem? b.z_arr i ≡ some off)

-- One block out of the stash, into the slot `off` of the bucket `b` at `node`.
module _ (n start node lvl : ℕ) (b : Bucket) (address leaf off : ℕ) (st : Store)
    (f : IsFilling st node b) (at : get_elem? b.z_arr b.free_z_index ≡ some off) where
  abbrev pub bigger : Bucket
  bigger = record b { free_z_index = b.free_z_index + 1 }

  abbrev pub prepared : Store
  prepared = record st { buckets = set st.buckets node bigger }

  abbrev pub placed : Store
  placed = put_line (line_at address leaf node off) prepared

  pub place_block_eq : place_block address leaf node st ≡ some placed
  unfolding place_block assign_z_off put_line line_at
  place_block_eq =
      let inside = lt-of_get_elem? st.buckets node f.there in
      let some_slots : ltb 0 (length b.z_arr) ≡ true = ground (arith, f.z_fits) in
      let few_dummies : leb (length b.s_arr) s_slots ≡ true = ground (arith, f.s_fits) in
      let within : ltb node (length st.buckets) ≡ true = ground arith in
      rw (f.there, some_slots, at, few_dummies, within) refl

  pub off_lt : off < bucket_slots
  off_lt = f.in_range off (count-pos_of_get_elem? b.z_arr b.free_z_index at)

  pub slot_free : st.addr_to_origaddr (slot_address node off) ≡ none
  slot_free = elim (Option-cases (st.addr_to_origaddr (slot_address node off))) [
    | inl none_there ↦ none_there
    | inr (line, used) ↦
        let (i, lt, got) = f.used off line off_lt used in
        let same = get_elem?-inj b.z_arr i b.free_z_index (f.once off) got at in
        absurd (omega arith)
  ]

  pub place_block-CanPut :
      (moved : List ℕ)
      → Holds n start moved st
      → start ≤ lvl
      → lvl < n
      → node ≡ path_node n leaf lvl
      → lookup address st.stash ≡ some leaf
      → count address moved ≡ 0
      → CanPut n start (line_at address leaf node off) prepared
  unfolding line_at
  place_block-CanPut moved v hs hl path found out = record {
    unmapped = λ l. v.apart address leaf l found out;
    path = (lvl, hs, hl, path);
    in_range = off_lt;
    free = slot_free;
    idle = refl;
  }

  placed-used :
      (o : ℕ) (line : PosMapLine)
      → o < bucket_slots
      → placed.addr_to_origaddr (slot_address node o) ≡ some line
      → (i : ℕ) × (i < b.free_z_index + 1) × (get_elem? b.z_arr i ≡ some o)
  unfolding put_line line_at slot_address
  placed-used o line lt e = elim (Bool-cases (off == o)) [
    | inl p ↦ let same : off ≡ o = ground arith in (b.free_z_index, omega arith, rw (← same) at)
    | inr p ↦ let (i, small, got) = f.used o line lt (ground arith) in (i, omega arith, got)
  ]

  pub placed-IsFilling : IsFilling placed node bigger
  unfolding put_line
  placed-IsFilling = record {
    there = get_elem?-set_self st.buckets node bigger (lt-of_get_elem? st.buckets node f.there);
    z_fits = f.z_fits;
    s_fits = f.s_fits;
    once = f.once;
    in_range = f.in_range;
    used = placed-used;
  }
