-- ===== src/StashSim/Reshuffle.antt =====
-- An early reshuffle of a node in src/stash_simulation/set_oram.cc: `early_reshuffle_pull` and
-- `piggy_one`.
use palermo_oram.Base.{
  ℕ, ◌+◌, ◌-◌, ◌^◌, ◌<◌, ◌≡◌, refl, ap, subst, ◌∙◌, inl, inr, true, Option, none, some, List, [],
  ◌∷◌, ltb, if◌then◌else◌, lookup, range, length, arith, Bool-cases, >>=-eq-some,
}
use palermo_oram.Params.{bucket_slots}
use palermo_oram.Tree.{path_node, is_node_on_block_path}
use palermo_oram.Store.{place_block, refresh_bucket}
use palermo_oram.Store.Blocks.{Holds}
use palermo_oram.State.{Random}
use palermo_oram.Posmap.Piggy.{Leaving, leave, has_room, is_full, fill_node, leave_stash}
use palermo_oram.Posmap.Piggy.Node.{Pending, Pending-all, leave_stash-Holds}
use palermo_oram.Posmap.Piggy.One.{offsets-IsShuffle, fill_total, moving-IsKnown}
use palermo_oram.StashSim.{Sim, is_kept, early_reshuffle_pull}
use palermo_oram.StashSim.Piggy.{sample_size, sim_refresh, sim_piggy_one}
use palermo_oram.StashSim.Routine.{reshuffle}
use palermo_oram.StashSim.Serving.{IsServing, leave_stash-IsServing}
use palermo_oram.StashSim.Serving.Moves.{place_block-run, given, given-IsServing, renewed-IsServing}
use palermo_oram.StashSim.Pulls.{pull_node_total}
use palermo_oram.StashSim.Writeback.{node_within}
use palermo_oram.StashSim.Renewal.{IsRestored}

leave-IsServing :
    (n : ℕ) (spent : List ℕ) (address leaf node : ℕ) (w w' : Leaving)
    → leave address leaf node w ≡ some w'
    → leaf < 2 ^ (n - 1)
    → IsServing n spent w.store
    → IsServing n spent w'.store
unfolding leave
leave-IsServing n spent address leaf node w w' e small v =
    let (st, run, e₁) = >>=-eq-some (place_block address leaf node w.store) _ e in
    let (b, off, at, got, same) = place_block-run address leaf node w.store run in
    let all : given address leaf node off b w.store ≡ w'.store =
      same ∙ ap (λ (o : Option Leaving). elim o [ none ↦ st | some u ↦ u.store ]) e₁ in
    subst (IsServing n spent) all
      (given-IsServing n spent address leaf node off b w.store v at got small)

fill_node-IsServing :
    (n node lvl : ℕ) (spent : List ℕ) (stash rest : List (ℕ × ℕ)) (w : Leaving) {w' : Leaving}
    → ((x leaf : ℕ) → lookup x stash ≡ some leaf → leaf < 2 ^ (n - 1))
    → Pending stash [] rest
    → fill_node n node lvl rest w ≡ some w'
    → IsServing n spent w.store
    → IsServing n spent w'.store
unfolding fill_node
fill_node-IsServing n node lvl spent stash [] w {w'} small p e v =
    let same : w ≡ w' = cc in subst (λ (u : Leaving). IsServing n spent u.store) same v
fill_node-IsServing n node lvl spent stash ((address, leaf) ∷ rest) w {w'} small p e v =
    elim (Bool-cases (is_node_on_block_path n node lvl leaf)) [
      | inr off_path ↦
          fill_node-IsServing n node lvl spent stash rest w small p.2 (rw off_path at e) v
      | inl here ↦
          let (room, _, e₁) = >>=-eq-some (has_room w.store node) _ (rw here at e) in
          let (w₁, taken, e₂) =
            >>=-eq-some (if room then leave address leaf node w else some w) _ e₁ in
          let (full, _, e₃) = >>=-eq-some (is_full w₁.store node) _ e₂ in
          let v₁ : IsServing n spent w₁.store = elim (Bool-cases room) [
            | inl q ↦
                leave-IsServing n spent address leaf node w w₁ (rw q at taken)
                  (small address leaf p.0) v
            | inr q ↦
                let taken' : some w ≡ some w₁ = rw q at taken in
                let same : w ≡ w₁ = cc in subst (λ (u : Leaving). IsServing n spent u.store) same v
          ] in
          elim (Bool-cases full) [
            | inl q ↦
                let e₄ : some w₁ ≡ some w' = rw q at e₃ in
                let same : w₁ ≡ w' = cc in
                subst (λ (u : Leaving). IsServing n spent u.store) same v₁
            | inr q ↦ fill_node-IsServing n node lvl spent stash rest w₁ small p.2 (rw q at e₃) v₁
          ]
    ]

-- An early reshuffle in the stash simulation, `early_reshuffle_pull` and then `piggy_one`, of
-- the node at a kept level of the path of a leaf of the tree, where the invariant of the store
-- holds, each node has a bucket, no block is pending, all leaves are of the tree and each bucket
-- but that of the node and those of `spent` can still serve a read: it finishes, no assertion
-- failing, all this holds again, with the bucket of the node among those that can serve a read,
-- and each block that was in the stash or in a bucket still is, on its way to a leaf of the same
-- set.
pub reshuffle-IsRestored :
    (random : Random) (leaf lvl : ℕ) (spent : List ℕ) (s : Sim)
    → lvl < s.num_of_lvls
    → is_kept lvl ≡ true
    → leaf < 2 ^ (s.num_of_lvls - 1)
    → Holds s.num_of_lvls 0 [] s.store
    → IsServing s.num_of_lvls (path_node s.num_of_lvls leaf lvl ∷ spent) s.store
    → (s' : Sim) × (reshuffle random (path_node s.num_of_lvls leaf lvl, lvl) s ≡ some s')
      × IsRestored spent s s'
unfolding reshuffle early_reshuffle_pull sim_piggy_one sim_refresh refresh_bucket sample_size
reshuffle-IsRestored random leaf lvl spent s lt kept small h v =
    let n = s.num_of_lvls in
    let node = path_node n leaf lvl in
    let (st, run, p, bare) = pull_node_total n (node ∷ spent) node s.store h v in
    let tmp = random.shuffle s.draws (range 0 bucket_slots) in
    let shuffle = offsets-IsShuffle random s.draws in
    let within = node_within n leaf lvl st p.serving lt small in
    let inside : ltb node (length st.buckets) ≡ true = ground arith in
    let (w, run', m) =
      fill_total n 0 node lvl st tmp (omega arith) lt within shuffle p.holds bare in
    let v₁ = renewed-IsServing n node spent tmp st shuffle bare within p.serving in
    let v₂ =
      fill_node-IsServing n node lvl spent st.stash st.stash _ p.serving.stash_leaves
        (Pending-all st.stash p.holds.sorted) run' v₁ in
    (
      record (sample_size (record s { store = st })) { store = leave_stash w; draws = s.draws + 1 },
      rw (kept, run, inside, run') refl,
      record {
        same = record { levels = refl; total = refl; bits = refl; early = refl };
        holds = leave_stash-Holds w m.holds;
        serving = leave_stash-IsServing w v₂;
        known = λ x l k. (l, refl, moving-IsKnown m x l (p.known x l k));
      },
    )
