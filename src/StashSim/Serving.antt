-- ===== src/StashSim/Serving.antt =====
-- The state of the tree of src/stash_simulation/set_oram.cc between the reads: what each bucket can
-- still serve. And what the moves of one block do to it.
pub mod Moves
use palermo_oram.Base.{
  ℕ, zero, suc, ◌+◌, ◌-◌, ◌^◌, ◌≤◌, ◌<◌, ◌≡◌, ◌≢◌, refl, ap, sym, subst, ◌∙◌, Bool, true, false,
  none, some, List, [], ◌∷◌, ◌++◌, ◌==◌, leb, ltb, if◌then◌else◌, ◌>>=◌, ◌>>◌, assert, ◌⊎◌,
  get_elem?, set, store_at, length, count, lookup, arith, Bool-cases, Option-cases, inl, inr, range,
  put_at, insert, >>=-eq-some, lookup-insert, lookup-erase, get_elem?-set_self, get_elem?-set_ne,
  lt-of_get_elem?, count-pos_of_get_elem?, length-set,
}
use palermo_oram.Params.{s_slots, bucket_slots}
use palermo_oram.Bucket.{Bucket, ring_bucket, assign_z_off}
use palermo_oram.Bucket.Slots.{IsShuffle, ring_bucket-IsValid}
use palermo_oram.Bucket.Slots as Slots
use palermo_oram.Tree.{slot_address}
use palermo_oram.Tree.Layout.{slot_address-inj}
use palermo_oram.Store.{
  PosMapLine, mapped, Store, pos_put, pull_slot, place_block, put_line, line_at,
}
use palermo_oram.Store.Blocks.{put_at-none, pos_put-none}
use palermo_oram.Posmap.Piggy.{Leaving, leave_stash, erase_all}
use palermo_oram.Posmap.Piggy.Node.{lookup-erase_all}
use palermo_oram.Posmap.Piggy.One.{IsBare, renewed}

-- A bucket can serve a read: its slots in use are not read yet, and it is not used up unless its node
-- is among those of `spent`.
pub record IsUsable (spent : List ℕ) (st : Store) (node : ℕ) (b : Bucket) : Type 0 where
  pub valid : Slots.IsValid b
  pub alive : count node spent ≡ 0 → b.accessed_times < s_slots
  pub used :
      (off : ℕ) (line : PosMapLine)
      → off < bucket_slots
      → st.addr_to_origaddr (slot_address node off) ≡ some line
      → 0 < count off b.z_arr

pub record IsServing (n : ℕ) (spent : List ℕ) (st : Store) : Type 0 where
  pub size : 2 ^ n ≤ suc (length st.buckets)
  pub no_dummy : st.pos_map none ≡ none
  pub idle : (x : ℕ) (l : PosMapLine) → st.pos_map (some x) ≡ some (mapped l) → l.pending ≡ false
  pub leaves : (a : ℕ) (l : PosMapLine) → st.addr_to_origaddr a ≡ some l → l.block_id < 2 ^ (n - 1)
  pub stash_leaves : (x leaf : ℕ) → lookup x st.stash ≡ some leaf → leaf < 2 ^ (n - 1)
  pub buckets :
      (node : ℕ) (b : Bucket) → get_elem? st.buckets node ≡ some b → IsUsable spent st node b

-- The parts of a store are those of another, with less in the maps.
pub fewer-IsServing :
    {n : ℕ} {spent : List ℕ} (st st' : Store)
    → st'.buckets ≡ st.buckets
    → st'.pos_map none ≡ none
    → ((x : ℕ) (l : PosMapLine)
        → st'.pos_map (some x) ≡ some (mapped l)
        → st.pos_map (some x) ≡ some (mapped l))
    → ((a : ℕ) (l : PosMapLine) → st'.addr_to_origaddr a ≡ some l → st.addr_to_origaddr a ≡ some l)
    → ((x leaf : ℕ) → lookup x st'.stash ≡ some leaf → leaf < 2 ^ (n - 1))
    → IsServing n spent st
    → IsServing n spent st'
fewer-IsServing st st' same none_there pos slots leaf v = record {
  size = rw same v.size;
  no_dummy = none_there;
  idle = λ x l e. v.idle x l (pos x l e);
  leaves = λ a l e. v.leaves a l (slots a l e);
  stash_leaves = leaf;
  buckets = λ node b e.
      let u = v.buckets node b (rw same at e) in
      record {
        valid = u.valid;
        alive = u.alive;
        used = λ off line lt f. u.used off line lt (slots _ _ f);
      };
}

pub pull_slot-IsServing :
    (n : ℕ) (spent : List ℕ) (a : ℕ) (st : Store)
    → IsServing n spent st
    → IsServing n spent (pull_slot a st)
unfolding pull_slot
pull_slot-IsServing n spent a st v = elim (Option-cases (st.addr_to_origaddr a)) [
  | inl m ↦ rw (m, pull_slot) v
  | inr (line, m) ↦
      rw (m, pull_slot)
        (fewer-IsServing st
          (record st {
            stash = insert line.original_address line.block_id st.stash;
            addr_to_origaddr = put_at st.addr_to_origaddr a none;
            pos_map = pos_put st.pos_map (some line.original_address) none;
          })
          refl v.no_dummy (λ x l e. (pos_put-none st.pos_map line.original_address x e).1)
          (λ b l e. (put_at-none st.addr_to_origaddr a b e).1)
          (λ x leaf e. elim (Bool-cases (line.original_address == x)) [
            | inl p ↦
                let small = v.leaves a line m in
                ground (arith, lookup-insert line.original_address x line.block_id st.stash)
            | inr p ↦
                v.stash_leaves x leaf
                  (ground (arith, lookup-insert line.original_address x line.block_id st.stash))
          ])
          v)
]

pub leave_stash-IsServing :
    {n : ℕ} {spent : List ℕ} (w : Leaving)
    → IsServing n spent w.store
    → IsServing n spent (leave_stash w)
leave_stash-IsServing w v =
    fewer-IsServing w.store (leave_stash w) refl v.no_dummy (λ x l e. e) (λ a l e. e)
      (λ x leaf e.
        v.stash_leaves x leaf (ground (arith, lookup-erase_all w.to_erase x w.store.stash)))
      v

-- More nodes may be used up.
pub weaken-IsServing :
    {n : ℕ} {spent : List ℕ} {st : Store} (more : List ℕ)
    → ((x : ℕ) → count x more ≡ 0 → count x spent ≡ 0)
    → IsServing n spent st
    → IsServing n more st
weaken-IsServing more le v = record {
  size = v.size;
  no_dummy = v.no_dummy;
  idle = v.idle;
  leaves = v.leaves;
  stash_leaves = v.stash_leaves;
  buckets = λ node b e.
      let u = v.buckets node b e in
      record { valid = u.valid; alive = λ z. u.alive (le node z); used = u.used };
}
