-- ===== src/StashSim/Aim.antt =====
-- The path of an access in src/stash_simulation/set_oram.cc.
use native.Mathlib.Nat.{mod-lt}
use palermo_oram.Base.{
  ℕ, ◌+◌, ◌-◌, ◌%◌, ◌^◌, ◌≤◌, ◌<◌, ◌≡◌, ◌≢◌, refl, ap, subst, true, false, Option, none, some, List,
  [], get_elem?, count, arith,
}
use palermo_oram.Bucket.{Bucket}
use palermo_oram.Tree.{slot_address}
use palermo_oram.Store.{Store, Address, PosEntry, PosMap, PosMapLine, mapped, blank, pos_put}
use palermo_oram.Store.Blocks.{Holds}
use palermo_oram.Store.Known.{IsKnown}
use palermo_oram.State.{Random}
use palermo_oram.StashSim.{Sim, drop_slot}
use palermo_oram.StashSim.Routine.{find_target}
use palermo_oram.StashSim.Serving.{IsServing}
use palermo_oram.StashSim.Clear.{
  cleared, in_slot, cleared-Holds, cleared-IsServing, cleared-IsKnown, cleared_run,
}

-- What `find_target` settles: the state `s` is left as it is but for the map `pm` and the count of
-- draws, and `maps` is the store when the block has left its slot.
pub record IsAimed (random : Random) (address : Address) (o : Option PosEntry) (s : Sim)
    (block_id : ℕ) (intended : Option (ℕ × ℕ)) (pm : PosMap) (draws : ℕ) (maps : Store)
    : Type 0 where
  pub found : find_target random address o s ≡ (
    (block_id, intended),
    record s { store = record (s.store) { pos_map = pm }; draws = draws },
  )
  pub leaf_ok : block_id < 2 ^ (s.num_of_lvls - 1)
  pub drops :
      (bs : List Bucket)
      → drop_slot address intended (record (s.store) { pos_map = pm; buckets = bs })
        ≡ some (record maps { buckets = bs })
  pub dropped :
      (node off : ℕ)
      → intended ≡ some (node, off)
      → maps.addr_to_origaddr (slot_address node off) ≡ none
  pub there :
      (node off : ℕ) (b : Bucket)
      → intended ≡ some (node, off)
      → get_elem? s.store.buckets node ≡ some b
      → 0 < count off b.z_arr
  pub holds : Holds s.num_of_lvls 0 [] maps
  pub serving : IsServing s.num_of_lvls [] (record maps { buckets = s.store.buckets })
  pub unmapped :
      (x : ℕ) (l : PosMapLine) → address ≡ some x → maps.pos_map (some x) ≢ some (mapped l)
  pub known : (x leaf : ℕ) → address ≢ some x → IsKnown s.store x leaf → IsKnown maps x leaf

-- A random path, for an address that no bucket has.
random_aim :
    (random : Random) (address : Address) (o : Option PosEntry) (s : Sim)
    → find_target random address o s
      ≡ ((random.rand s.draws % s.total_num_blocks, none), record s { draws = s.draws + 1 })
    → 0 < s.total_num_blocks
    → s.total_num_blocks ≤ 2 ^ (s.num_of_lvls - 1)
    → Holds s.num_of_lvls 0 [] s.store
    → IsServing s.num_of_lvls [] s.store
    → ((x : ℕ) (l : PosMapLine) → address ≡ some x → s.store.pos_map (some x) ≢ some (mapped l))
    → IsAimed random address o s
        (random.rand s.draws % s.total_num_blocks)
        none
        s.store.pos_map
        (s.draws + 1)
        s.store
unfolding drop_slot
random_aim random address o s found pos fits h v unmapped = record {
  found = found;
  leaf_ok = omega (arith, mod-lt (random.rand s.draws) pos);
  drops = λ bs. refl;
  dropped = λ node off e. absurd (cc);
  there = λ node off b e. absurd (cc);
  holds = h;
  serving = v;
  unmapped = unmapped;
  known = λ x leaf ne k. k;
}

-- The path of the block, for an address that a bucket has.
block_aim :
    (random : Random) (x : ℕ) (line : PosMapLine) (s : Sim)
    → s.store.pos_map (some x) ≡ some (mapped line)
    → Holds s.num_of_lvls 0 [] s.store
    → IsServing s.num_of_lvls [] s.store
    → IsAimed random
        (some x)
        (some (mapped line))
        s
        line.block_id
        (some (line.node_id, line.offset))
        (pos_put s.store.pos_map (some x) (some (mapped (record line { pending = true }))))
        s.draws
        (cleared s.store x (slot_address line.node_id line.offset))
unfolding find_target
block_aim random x line s at h v =
    let n = s.num_of_lvls in
    let st = s.store in
    let used = in_slot n st x line h at in
    let slot : ℕ = slot_address line.node_id line.offset in
    record {
      found = rw (v.idle x line at) refl;
      leaf_ok = v.leaves slot (record line { pending = false }) used;
      drops = λ bs. cleared_run n st x line h at (mapped (record line { pending = true })) bs;
      dropped = λ node off e.
          let same : slot ≡ slot_address node off =
            ap (λ (o : Option (ℕ × ℕ)). elim o [ none ↦ slot | some (k, j) ↦ slot_address k j ])
              e in
          ground arith;
      there = λ node off b e got.
          let u = v.buckets node b got in
          let same : slot ≡ slot_address node off =
            ap (λ (o : Option (ℕ × ℕ)). elim o [ none ↦ slot | some (k, j) ↦ slot_address k j ])
              e in
          let off_same : line.offset ≡ off = cc in
          let lt = (h.slots slot (record line { pending = false }) used).1 in
          u.used off (record line { pending = false }) (omega arith)
            (subst (λ a. st.addr_to_origaddr a ≡ some (record line { pending = false })) same used);
      holds = cleared-Holds n st x line h at;
      serving = cleared-IsServing n st x line h at v;
      unmapped = λ y l e f. let same : x ≡ y = cc in ground arith;
      known = λ y leaf ne k.
          cleared-IsKnown n st x line h at y leaf (λ e. ne (ap (λ (z : ℕ). some z) e)) k;
    }

-- Every access finds a path.
pub find_target_total :
    (random : Random) (address : Address) (o : Option PosEntry) (s : Sim)
    → s.store.pos_map address ≡ o
    → 0 < s.total_num_blocks
    → s.total_num_blocks ≤ 2 ^ (s.num_of_lvls - 1)
    → Holds s.num_of_lvls 0 [] s.store
    → IsServing s.num_of_lvls [] s.store
    → (block_id : ℕ) × (intended : Option (ℕ × ℕ)) × (pm : PosMap) × (draws : ℕ) × (maps : Store)
      × IsAimed random address o s block_id intended pm draws maps
unfolding find_target
find_target_total random address none s e pos fits h v = (
  _,
  _,
  _,
  _,
  _,
  random_aim random address none s refl pos fits h v (λ x l q f.
      let e' : s.store.pos_map (some x) ≡ none = subst (λ a. s.store.pos_map a ≡ none) q e in cc),
)
find_target_total random address (some (blank p)) s e pos fits h v = (
  _,
  _,
  _,
  _,
  _,
  random_aim random address (some (blank p)) s refl pos fits h v (λ x l q f.
      let e' : s.store.pos_map (some x) ≡ some (blank p) =
        subst (λ a. s.store.pos_map a ≡ some (blank p)) q e in
      cc),
)
find_target_total random none (some (mapped line)) s e pos fits h v =
    let gone = v.no_dummy in absurd (cc)
find_target_total random (some x) (some (mapped line)) s e pos fits h v =
    (_, _, _, _, _, block_aim random x line s e h v)
