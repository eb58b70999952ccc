-- ===== src/StashSim/Renewal.antt =====
-- The write-back of a path in src/stash_simulation/set_oram.cc, from `writeback_pull` to the end of
-- `piggy_writeback`.
use palermo_oram.Base.{
  ℕ, ◌+◌, ◌-◌, ◌^◌, ◌<◌, ◌≡◌, refl, inl, inr, true, Option, some, List, [], ◌∷◌, ltb, get_elem?,
  count, lookup, map, range, arith, Bool-cases, for_each, get_elem?-map-range,
}
use palermo_oram.Bucket.{Bucket, ring_bucket}
use palermo_oram.Tree.{path_node}
use palermo_oram.Store.{Store}
use palermo_oram.Store.Blocks.{Holds}
use palermo_oram.Store.Known.{IsKnown}
use palermo_oram.State.{Random}
use palermo_oram.Posmap.Piggy.{Leaving, downward, leave_stash}
use palermo_oram.Posmap.Piggy.Fill.{Holds_buckets}
use palermo_oram.Posmap.Piggy.Node.{Pending-all, leave_stash-Holds, lookup-erase_all}
use palermo_oram.Posmap.Piggy.One.{IsBare, fresh-IsFilling}
use palermo_oram.StashSim.{Sim, is_kept, sim_path_node, writeback_pull}
use palermo_oram.StashSim.Piggy.{sample_size, refresh_level, sim_fill, sim_writeback}
use palermo_oram.StashSim.Routine.{write_back}
use palermo_oram.StashSim.Serving.{IsServing, leave_stash-IsServing}
use palermo_oram.StashSim.Shifting.{IsShifting}
use palermo_oram.StashSim.Fill.{sim_fill_total}
use palermo_oram.StashSim.Pulls.{pull_levels_total}
use palermo_oram.StashSim.Writeback.{
  IsKnownIn, SameRun, IsFresh, with_buckets, refresh_levels_total,
}

-- The blocks that leave the stash are in a bucket.
pub shifting-IsKnownIn :
    {n : ℕ} {spent : List ℕ} {st : Store} {w : Leaving}
    → IsShifting n spent st w
    → (x leaf : ℕ) → IsKnown st x leaf
    → IsKnownIn n (leave_stash w) x leaf
shifting-IsKnownIn {n} {spent} {st} {w} m x leaf (inr k) = (leaf, refl, inr (m.kept x leaf k))
shifting-IsKnownIn {n} {spent} {st} {w} m x leaf (inl e) =
    elim (Bool-cases (ltb 0 (count x w.to_erase))) [
      | inl out ↦ let (new, sets, there) = m.gone x leaf e (ground arith) in (new, sets, inr there)
      | inr stays ↦
          let found = lookup-erase_all w.to_erase x w.store.stash in
          let still : lookup x w.store.stash ≡ some leaf = rw m.same e in
          (leaf, refl, inl (rw (found, stays) still))
    ]

-- What a write-back of a path or of a node establishes, when the nodes of `spent` may be used up.
pub record IsRestored (spent : List ℕ) (s s' : Sim) : Type 0 where
  pub same : SameRun s s'
  pub holds : Holds s.num_of_lvls 0 [] s'.store
  pub serving : IsServing s.num_of_lvls spent s'.store
  pub known : (x leaf : ℕ) → IsKnown s.store x leaf → IsKnownIn s.num_of_lvls s'.store x leaf

module _ (random : Random) (leaf : ℕ) (spent : List ℕ) (s : Sim) (some_level : 0 < s.num_of_lvls)
    (leaf_ok : leaf < 2 ^ (s.num_of_lvls - 1)) (holds : Holds s.num_of_lvls 0 [] s.store)
    (serving : IsServing s.num_of_lvls (0 ∷ spent) s.store)
    (bare : (i : ℕ)
      → i < s.num_of_lvls
      → is_kept i ≡ true
      → IsBare s.store (path_node s.num_of_lvls leaf i)) where
  abbrev n : ℕ
  n = s.num_of_lvls

  abbrev nodes : List (Option ℕ)
  nodes = map (sim_path_node n leaf) (range 0 n)

  on_path : (i : ℕ) → i < n → get_elem? nodes i ≡ some (sim_path_node n leaf i)
  on_path i h =
      let z : 0 + i ≡ i = omega arith in
      rw z at (get_elem?-map-range (sim_path_node n leaf) 0 n i h)

  refreshed :
      (buckets : List Bucket) × (draws : ℕ) × (for_each
          (refresh_level random nodes)
          (downward 0 n)
          (sample_size s)
        ≡ some (with_buckets (sample_size s) buckets draws))
      × IsFresh n leaf 0 spent s.store buckets
  unfolding sample_size
  refreshed =
      refresh_levels_total random n leaf spent nodes (sample_size s) leaf_ok on_path bare n s.draws
        s.store.buckets (omega arith)
        (record {
          size = refl;
          fresh = λ i a b. absurd (omega arith);
          serving = λ pos. serving;
          served = λ z. absurd (omega arith);
        })

  abbrev at_start : List Bucket → Leaving
  at_start buckets = record { store = record (s.store) { buckets = buckets }; to_erase = [] }

  filled :
      (buckets : List Bucket)
      → IsFresh n leaf 0 spent s.store buckets
      → (w : Leaving) × (sim_fill n leaf nodes s.store.stash (at_start buckets) ≡ some w)
        × IsShifting n spent s.store w
  unfolding count ring_bucket
  filled buckets q =
      sim_fill_total n leaf nodes spent s.store leaf_ok on_path s.store.stash (at_start buckets)
        some_level serving.stash_leaves holds.sorted (Pending-all s.store.stash holds.sorted)
        (record {
          holds = Holds_buckets buckets holds;
          same = refl;
          kept = λ x l k. k;
          gone = λ x l e z. absurd (omega arith);
          serving = q.served refl;
        })
        (λ i kept lt.
          let (tmp, shuffle, at) = q.fresh i (omega arith) lt kept in
          (
            ring_bucket (path_node n leaf i) tmp,
            fresh-IsFilling (record (s.store) { buckets = buckets }) (path_node n leaf i) tmp
                shuffle at (bare i lt kept),
            omega arith,
          ))

  sim_writeback_total : (s' : Sim) × (sim_writeback random leaf s ≡ some s') × IsRestored spent s s'
  unfolding sim_writeback sample_size
  sim_writeback_total =
      let (buckets, draws, run, q) = refreshed in
      let (w, run', m) = filled buckets q in
      (
        record (with_buckets (sample_size s) buckets draws) { store = leave_stash w },
        rw (run, run') refl,
        record {
          same = record { levels = refl; total = refl; bits = refl; early = refl };
          holds = leave_stash-Holds w m.holds;
          serving = leave_stash-IsServing w m.serving;
          known = shifting-IsKnownIn m;
        },
      )

-- The write-back of the path of a leaf of the tree in the stash simulation, `writeback_pull` and
-- then `piggy_writeback`, where the invariant of the store holds, each node has a bucket, no
-- block is pending, all leaves are of the tree and each bucket but the root's and those of
-- `spent` can still serve a read: it finishes, no assertion failing, all this holds again, with
-- the root's bucket among those that can serve a read, and each block that was in the stash or
-- in a bucket still is, on its way to a leaf of the same set.
pub write_back-IsRestored :
    (random : Random) (leaf : ℕ) (spent : List ℕ) (s : Sim)
    → 0 < s.num_of_lvls
    → leaf < 2 ^ (s.num_of_lvls - 1)
    → Holds s.num_of_lvls 0 [] s.store
    → IsServing s.num_of_lvls (0 ∷ spent) s.store
    → (s' : Sim) × (write_back random (some leaf) s ≡ some s') × IsRestored spent s s'
unfolding write_back writeback_pull
write_back-IsRestored random leaf spent s pos small h v =
    let n = s.num_of_lvls in
    let (st, run, p, bare) = pull_levels_total n (0 ∷ spent) leaf 0 n s.store h v in
    let s₁ = record s { store = st } in
    let (s', run', q) =
      sim_writeback_total random leaf spent s₁ pos small p.holds p.serving
        (λ i lt kept. bare i (omega arith) (omega arith) kept) in
    (
      s',
      rw (run, run') refl,
      record {
        same = record {
          levels = q.same.levels;
          total = q.same.total;
          bits = q.same.bits;
          early = q.same.early;
        };
        holds = q.holds;
        serving = q.serving;
        known = λ x l k. q.known x l (p.known x l k);
      },
    )
