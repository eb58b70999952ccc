-- ===== src/Examples/Simulations.antt =====
-- The stash simulation with 32,768 leaves, none of whose random choices matter here.
use palermo_oram.Base.{
  ℕ, ◌*◌, ◌+◌, ◌^◌, ◌<◌, ◌≡◌, refl, Bool, true, some, [], ◌∷◌, arith, length, count, ◌-◌,
}
use palermo_oram.Params.{z_slots}
use palermo_oram.Tree.{path_node}
use palermo_oram.Store.Known.{IsKnown, IsMapped}
use palermo_oram.StashSim.{Sim, stash_maitanence}
use palermo_oram.StashSim.Piggy.{sim_agree, same_subtree, leaf_at}
use palermo_oram.StashSim.Routine.{sim_start, write_back, reshuffle, read_routine, main_round}
use palermo_oram.StashSim.{subtree_node}
use palermo_oram.StashSim.Subtrees.{Fits, leaf_at-Fits}
use palermo_oram.StashSim.Serving.{weaken-IsServing}
use palermo_oram.StashSim.Renewal.{IsRestored, write_back-IsRestored}
use palermo_oram.StashSim.Reshuffle.{reshuffle-IsRestored}
use palermo_oram.StashSim.Sound.{IsSound, IsServed, read_routine-IsServed}
use palermo_oram.StashSim.Begin.{sim_start-IsSound}
use palermo_oram.StashSim.Rounds.{main_round-IsMaintained}
use palermo_oram.Examples.{no_shuffle}

sim_start-IsSound_example :
    (s : Sim) × (sim_start (λ _. 15) (λ _. 15) no_shuffle 32768 ≡ some s)
    × IsSound s
    × (s.num_of_lvls ≡ 15 + 1)
    × ((x : ℕ) → x < 2 ^ 15 * z_slots → (leaf : ℕ) × IsMapped s.store x leaf)
sim_start-IsSound_example =
    sim_start-IsSound (λ _. 15) (λ _. 15) no_shuffle 32768 (omega arith) (omega arith) (omega arith)
      (omega arith)

-- The state that `main` starts with.
begun :
    (s : Sim) × (sim_start (λ _. 15) (λ _. 15) no_shuffle 32768 ≡ some s)
    × IsSound s
    × (s.num_of_lvls ≡ 16)
begun =
    let (s, run, v, levels, _) =
      sim_start-IsSound (λ _. 15) (λ _. 15) no_shuffle 32768 (omega arith) (omega arith)
        (omega arith) (omega arith) in
    (s, run, v, levels)

read_routine-IsServed_example :
    (s' : Sim) × (read_routine no_shuffle (some 7) begun.0 ≡ some s') × IsServed (some 7) begun.0 s'
read_routine-IsServed_example = read_routine-IsServed no_shuffle (some 7) begun.0 begun.2

main_round-IsMaintained_example :
    (ended : Bool) × (s' : Sim) × (main_round no_shuffle 5 524288 begun.0 ≡ some (ended, s'))
    × IsSound s'
    × (ended ≡ true → length s'.store.stash < stash_maitanence)
    × ((x leaf : ℕ) → IsKnown begun.0.store x leaf → (new : ℕ) × IsKnown s'.store x new)
main_round-IsMaintained_example = main_round-IsMaintained no_shuffle 5 524288 begun.0 begun.2

-- Leaves 4 and 5 are in one set, whose two subtrees have one leaf each.
leaf_at-Fits_example : Fits 16 4 5 15 (leaf_at 16 4 5 15)
unfolding sim_agree same_subtree subtree_node
leaf_at-Fits_example = leaf_at-Fits 16 4 5 15 refl (omega arith) (omega arith) (omega arith) refl

small_leaf : 3 < 2 ^ (begun.0.num_of_lvls - 1)
small_leaf = rw begun.3 (omega arith)

write_back-IsRestored_example :
    (s' : Sim) × (write_back no_shuffle (some 3) begun.0 ≡ some s') × IsRestored [] begun.0 s'
unfolding count
write_back-IsRestored_example =
    write_back-IsRestored no_shuffle 3 [] begun.0 (omega (arith, begun.3)) small_leaf begun.2.holds
      (weaken-IsServing (0 ∷ []) (λ x z. refl) begun.2.serving)

reshuffle-IsRestored_example :
    (s' : Sim) × (reshuffle no_shuffle (path_node begun.0.num_of_lvls 3 1, 1) begun.0 ≡ some s')
    × IsRestored [] begun.0 s'
unfolding count
reshuffle-IsRestored_example =
    reshuffle-IsRestored no_shuffle 3 1 [] begun.0 (omega (arith, begun.3)) refl small_leaf
      begun.2.holds
      (weaken-IsServing (path_node begun.0.num_of_lvls 3 1 ∷ []) (λ x z. refl) begun.2.serving)
