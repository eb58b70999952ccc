-- ===== src/StashSim/Sound.antt =====
-- The whole of `read_routine` in src/stash_simulation/set_oram.cc.
use native.Mathlib.Nat.{pow-le-pow_right}
use palermo_oram.Base.{
  ℕ, ◌+◌, ◌-◌, ◌%◌, ◌^◌, ◌≤◌, ◌<◌, ◌≡◌, ◌≢◌, refl, sym, subst, ◌∙◌, inl, inr, Option, none, some,
  [], ◌==◌, ◌>>=◌, count, arith, Bool-cases,
}
use palermo_oram.Params.{evict_rate}
use palermo_oram.Tree.{path_node}
use palermo_oram.Store.{Store, Address, PosMap}
use palermo_oram.Store.Blocks.{Holds}
use palermo_oram.Store.Known.{IsKnown}
use palermo_oram.State.{Random}
use palermo_oram.Station.Metadata.{ring_reverse}
use palermo_oram.Station.Metadata.RingOrder.{ring_reverse_lt}
use palermo_oram.Posmap.Piggy.Fill.{Holds_buckets}
use palermo_oram.StashSim.{Sim, cut_lvl, cutdown_lvl, sim_ring_counter, read_pull, to_stash}
use palermo_oram.StashSim.Routine.{next_writeback, write_back, reshuffle_all, read_routine}
use palermo_oram.StashSim.Aim.{IsAimed, find_target_total}
use palermo_oram.StashSim.Serving.{IsServing, weaken-IsServing}
use palermo_oram.StashSim.Writeback.{IsKnownIn}
use palermo_oram.StashSim.Touch.{AllEarly, nodes_of, spent_of}
use palermo_oram.StashSim.Reads.{IsReading}
use palermo_oram.StashSim.Reads.Levels.{reading, touch_levels_total}
use palermo_oram.StashSim.Loop.{
  IsRestored-trans, write_back_total, reshuffle_all_total, to_stash-IsStashed,
}

-- The state of the simulation between two accesses.
pub record IsSound (s : Sim) : Type 0 where
  pub levels : cut_lvl + cutdown_lvl < s.num_of_lvls
  pub some_block : 0 < s.total_num_blocks
  pub fits : s.total_num_blocks ≤ 2 ^ (s.num_of_lvls - 1)
  pub bits_fit : s.bits < s.num_of_lvls
  pub early : s.early_nodes ≡ []
  pub holds : Holds s.num_of_lvls 0 [] s.store
  pub serving : IsServing s.num_of_lvls [] s.store

-- What an access does to the blocks: the others stay in the stash or in a bucket, on the way to a leaf
-- of their set, and the block of the access, if there is one, is in the stash or in a bucket.
pub record IsServed (address : Address) (s s' : Sim) : Type 0 where
  pub sound : IsSound s'
  pub same_levels : s'.num_of_lvls ≡ s.num_of_lvls
  pub known :
      (x leaf : ℕ)
      → address ≢ some x
      → IsKnown s.store x leaf
      → IsKnownIn s.num_of_lvls s'.store x leaf
  pub now : (x : ℕ) → address ≡ some x → (leaf : ℕ) × IsKnown s'.store x leaf

-- After `read_pull`.
record IsRead (address : Address) (masking : Option ℕ) (s s' : Sim) : Type 0 where
  same_levels : s'.num_of_lvls ≡ s.num_of_lvls
  same_total : s'.total_num_blocks ≡ s.total_num_blocks
  same_bits : s'.bits ≡ s.bits
  waiting : AllEarly s.num_of_lvls s'.early_nodes
  holds : Holds s.num_of_lvls 0 [] s'.store
  serving : IsServing s.num_of_lvls (spent_of masking s'.early_nodes) s'.store
  known : (x leaf : ℕ) → address ≢ some x → IsKnown s.store x leaf → IsKnown s'.store x leaf
  now : (x : ℕ) → address ≡ some x → (leaf : ℕ) × IsKnown s'.store x leaf

module _ (random : Random) (address : Address) (s : Sim) (v : IsSound s) (block_id : ℕ)
    (intended : Option (ℕ × ℕ)) (pm : PosMap) (draws : ℕ) (maps : Store)
    (a : IsAimed random address (s.store.pos_map address) s block_id intended pm draws maps)
    (masking : Option ℕ)
    (masking_ok : (leaf : ℕ) → masking ≡ some leaf → leaf < 2 ^ (s.num_of_lvls - 1)) where
  -- The state before the reads.
  abbrev aimed : ℕ → ℕ → Sim
  aimed rw_counter ring_counter = record s {
    store = record (s.store) { pos_map = pm };
    draws = draws;
    rw_counter = rw_counter;
    ring_counter = ring_counter;
  }

  at_first : IsReading s.num_of_lvls block_id intended masking maps 0 s.store.buckets s.early_nodes
  unfolding count
  at_first =
      subst (IsReading s.num_of_lvls block_id intended masking maps 0 s.store.buckets) (sym v.early)
        (record {
          serving = weaken-IsServing (spent_of masking []) (λ x z. refl) a.serving;
          waiting = tt;
          ready = λ j b le lt kept at. (
            (v.serving.buckets _ b at).alive refl,
            λ off e. a.there (path_node s.num_of_lvls block_id j) off b e at,
          );
        })

  read_pull_total :
      (rw_counter ring_counter : ℕ)
      → (s' : Sim) × (read_pull random address block_id intended masking
            (aimed rw_counter ring_counter)
          ≡ some s')
        × IsRead address masking s s'
  unfolding read_pull
  read_pull_total rw_counter ring_counter =
      let s₀ = aimed rw_counter ring_counter in
      let (buckets, early, run, q) =
        touch_levels_total s₀ block_id intended masking maps a.leaf_ok masking_ok a.dropped 0
          s.num_of_lvls s.store.buckets s.early_nodes (omega arith) at_first in
      let s₁ : Sim = record (reading s₀ buckets early) {
        store = record maps { buckets = buckets };
      } in
      let t =
        to_stash-IsStashed random address (spent_of masking early) s₁ v.some_block v.fits
          (Holds_buckets buckets a.holds) q.serving a.unmapped in
      (
        to_stash random address s₁,
        rw (run, a.drops buckets) refl,
        record {
          same_levels = t.same.levels;
          same_total = t.same.total;
          same_bits = t.same.bits;
          waiting = rw t.same.early q.waiting;
          holds = t.holds;
          serving = rw t.same.early t.serving;
          known = λ x leaf ne k. t.known x leaf ne (a.known x leaf ne k);
          now = t.now;
        },
      )

  -- From the reads to the end.
  rest_total :
      (rw_counter ring_counter : ℕ)
      → (s' : Sim) × ((do
        s₄ ← read_pull random address block_id intended masking (aimed rw_counter ring_counter)
        s₅ ← write_back random masking s₄
        reshuffle_all random s₅)
          ≡ some s')
        × IsServed address s s'
  rest_total rw_counter ring_counter =
      let (s₁, run₁, r) = read_pull_total rw_counter ring_counter in
      let up₁ = sym r.same_levels in
      let (s₂, run₂, q₂) =
        write_back_total random masking s₁.early_nodes s₁ (omega (arith, v.levels, r.same_levels))
          (λ leaf e. subst (λ n. leaf < 2 ^ (n - 1)) up₁ (masking_ok leaf e))
          (subst (λ n. Holds n 0 [] s₁.store) up₁ r.holds)
          (subst (λ n. IsServing n (spent_of masking s₁.early_nodes) s₁.store) up₁ r.serving) in
      let up₂ = sym q₂.same.levels in
      let waiting₂ : AllEarly s₂.num_of_lvls s₂.early_nodes =
        subst (AllEarly s₂.num_of_lvls) (sym q₂.same.early)
          (subst (λ n. AllEarly n s₁.early_nodes) (up₁ ∙ up₂) r.waiting) in
      let serving₂ : IsServing s₂.num_of_lvls (nodes_of s₂.early_nodes) s₂.store =
        subst (λ es. IsServing s₂.num_of_lvls (nodes_of es) s₂.store) (sym q₂.same.early)
          (subst (λ n. IsServing n (nodes_of s₁.early_nodes) s₂.store) up₂ q₂.serving) in
      let (s₃, run₃, q₃) =
        reshuffle_all_total random s₂ waiting₂ (subst (λ n. Holds n 0 [] s₂.store) up₂ q₂.holds)
          serving₂ in
      let q = IsRestored-trans q₂ q₃ in
      let same : s₃.num_of_lvls ≡ s.num_of_lvls = q.same.levels ∙ r.same_levels in
      let total : s₃.total_num_blocks ≡ s.total_num_blocks = q.same.total ∙ r.same_total in
      let bits : s₃.bits ≡ s.bits = q.same.bits ∙ r.same_bits in
      (
        record s₃ { early_nodes = [] },
        rw (run₁, run₂) run₃,
        record {
          sound = record {
            levels = rw same v.levels;
            some_block = rw total v.some_block;
            fits = rw (total, same) v.fits;
            bits_fit = rw (bits, same) v.bits_fit;
            early = refl;
            holds = subst (λ n. Holds n 0 [] s₃.store) (sym q.same.levels) q.holds;
            serving = subst (λ n. IsServing n [] s₃.store) (sym q.same.levels) q.serving;
          };
          same_levels = same;
          known = λ x leaf ne k.
              subst (λ n. IsKnownIn n s₃.store x leaf) r.same_levels
                (q.known x leaf (r.known x leaf ne k));
          now =
              λ x e. let (leaf, k) = r.now x e in let (new, _, k') = q.known x leaf k in (new, k');
        },
      )

-- An access of the stash simulation, to any address or to none, whatever is drawn at random: in
-- a sound state (a tree that reaches below the cut, one or more blocks and not more than leaves,
-- the rounded logarithm less than the number of levels, no node waiting, the invariant of the
-- store, a bucket for each node that can still serve a read, no pending block and leaves of the
-- tree only) `read_routine` finishes, no assertion failing, and the state is sound again; each
-- other block that was in the stash or in a bucket still is, on its way to a leaf of the same
-- set, and the block of the access is in the stash or in a bucket.
pub read_routine-IsServed :
    (random : Random) (access_addr : Address) (s : Sim)
    → IsSound s
    → (s' : Sim) × (read_routine random access_addr s ≡ some s') × IsServed access_addr s s'
unfolding read_routine next_writeback sim_ring_counter
read_routine-IsServed random access_addr s v =
    let (block_id, intended, pm, draws, maps, a) =
      find_target_total random access_addr (s.store.pos_map access_addr) s refl v.some_block v.fits
        v.holds v.serving in
    elim (Bool-cases ((s.rw_counter + 1) % evict_rate == 0)) [
      | inl evict ↦
          let leaf = ring_reverse s.bits s.ring_counter in
          let below : 2 ^ s.bits ≤ 2 ^ (s.num_of_lvls - 1) =
            pow-le-pow_right {n = 2} (omega arith) (omega (arith, v.bits_fit)) in
          let small : leaf < 2 ^ (s.num_of_lvls - 1) =
            omega (arith, ring_reverse_lt s.bits s.ring_counter) in
          let (s', run, q) =
            rest_total random access_addr s v block_id intended pm draws maps a (some leaf)
              (λ l e. let same : leaf ≡ l = cc in omega arith) (s.rw_counter + 1)
              (s.ring_counter + 1) in
          (s', rw (a.found, evict) run, q)
      | inr quiet ↦
          let (s', run, q) =
            rest_total random access_addr s v block_id intended pm draws maps a none
              (λ l e. absurd (cc)) (s.rw_counter + 1) s.ring_counter in
          (s', rw (a.found, quiet) run, q)
    ]
