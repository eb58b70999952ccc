-- ===== src/StashSim/Fill.antt =====
-- The loops of `piggy_writeback` of src/stash_simulation/set_oram.cc over the stash and over the
-- levels of the path.
use palermo_oram.Base.{
  ℕ, zero, suc, ◌+◌, ◌-◌, ◌^◌, ◌≤◌, ◌<◌, ◌≡◌, ◌≢◌, refl, subst, inl, inr, true, Option, some, List,
  [], ◌∷◌, ◌==◌, ltb, get_elem?, count, lookup, arith, Bool-cases, get_elem?-of_lt, count-append,
}
use palermo_oram.Base.Maps.Order.{IsSorted}
use palermo_oram.Params.{z_slots}
use palermo_oram.Bucket.{Bucket}
use palermo_oram.Tree.{path_node}
use palermo_oram.Tree.Paths.{level_of_path_node}
use palermo_oram.Store.{Store}
use palermo_oram.Posmap.Piggy.{Leaving, leave, has_room, downward}
use palermo_oram.Posmap.Piggy.Fill.{IsFilling, placed-IsFilling}
use palermo_oram.Posmap.Piggy.Node.{Pending}
use palermo_oram.Posmap.Piggy.Path.{placed-other}
use palermo_oram.Posmap.Piggy.Refill.{Pending-others}
use palermo_oram.StashSim.{is_kept, sim_path_node}
use palermo_oram.StashSim.Piggy.{sim_agree, leaf_at, sim_place, sim_fill}
use palermo_oram.StashSim.Subtrees.{Fits, leaf_at-Fits, sim_deepest_total}
use palermo_oram.StashSim.Shifting.{IsShifting, shifted, shift_eq, shifted-IsShifting}

-- The bucket of the path at each kept level is being filled.
abbrev pub AllRoomy : ℕ → ℕ → Store → Type 0
AllRoomy n block_id st =
    (i : ℕ)
    → is_kept i ≡ true
    → i < n
    → (b : Bucket) × IsFilling st (path_node n block_id i) b × (b.free_z_index ≤ z_slots)

-- What the moves of one block keep.
pub record IsPlaced (n block_id : ℕ) (spent : List ℕ) (st : Store) (address : ℕ) (w w' : Leaving)
    : Type 0 where
  pub shifting : IsShifting n spent st w'
  pub roomy : AllRoomy n block_id w'.store
  pub others : (x : ℕ) → address ≢ x → count x w'.to_erase ≡ count x w.to_erase

module _ (n block_id : ℕ) (nodes : List (Option ℕ)) (spent : List ℕ) (st : Store)
    (leaf_ok : block_id < 2 ^ (n - 1))
    (on_path : (i : ℕ) → i < n → get_elem? nodes i ≡ some (sim_path_node n block_id i)) where
  -- The block goes to a level that agrees and has room.
  take_level :
      (address leaf i : ℕ) (b : Bucket) (w : Leaving)
      → IsShifting n spent st w
      → AllRoomy n block_id w.store
      → i < n
      → IsFilling w.store (path_node n block_id i) b
      → ltb b.free_z_index z_slots ≡ true
      → Fits n block_id leaf i (leaf_at n block_id leaf i)
      → lookup address st.stash ≡ some leaf
      → count address w.to_erase ≡ 0
      → (w' : Leaving) × (leave address (leaf_at n block_id leaf i) (path_node n block_id i) w
          ≡ some w')
        × IsPlaced n block_id spent st address w w'
  unfolding count
  take_level address leaf i b w m roomy lt f room fits found out =
      let (off, z) = get_elem?-of_lt b.z_arr b.free_z_index (ground (arith, f.z_fits)) in
      let node = path_node n block_id i in
      let new = leaf_at n block_id leaf i in
      let w₁ = shifted n node i spent b address leaf new off st w m f z found out in
      (
        w₁,
        shift_eq n node i spent b address leaf new off st w m f z found out,
        record {
          shifting =
              shifted-IsShifting n node i spent b address leaf new off st w m f z found out lt
                fits.on_path fits.in_tree fits.same_set;
          roomy = λ j kept c. elim (Bool-cases (j == i)) [
            | inl q ↦
                let here : i ≡ j = ground arith in
                subst
                  (λ k.
                    (c : Bucket) × IsFilling w₁.store (path_node n block_id k) c
                    × (c.free_z_index ≤ z_slots))
                  here
                  (
                    record b { free_z_index = b.free_z_index + 1 },
                    placed-IsFilling n 0 node i b address new off w.store f z,
                    ground arith,
                  )
            | inr q ↦
                let (c', f', le') = roomy j kept c in
                let ne : node ≢ path_node n block_id j = λ e.
                  let l = level_of_path_node n block_id block_id i j lt c leaf_ok leaf_ok e in
                  ground arith in
                (
                  c',
                  placed-other n 0 node i b address new off w.store f z (path_node n block_id j) c'
                      ne f',
                  le',
                )
          ];
          others = λ x ne. ground (arith, count-append x w.to_erase (address ∷ []));
        },
      )

  sim_place_total :
      (address leaf k : ℕ) (w : Leaving)
      → IsShifting n spent st w
      → AllRoomy n block_id w.store
      → k ≤ n
      → leaf < 2 ^ (n - 1)
      → ((i : ℕ) → i < k → is_kept i ≡ true → sim_agree n block_id leaf i ≡ true)
      → lookup address st.stash ≡ some leaf
      → count address w.to_erase ≡ 0
      → (w' : Leaving) × (sim_place n block_id nodes address leaf (downward 0 k) w ≡ some w')
        × IsPlaced n block_id spent st address w w'
  unfolding sim_place downward has_room sim_path_node
  sim_place_total address leaf zero w m roomy le small agree found out =
      (w, refl, record { shifting = m; roomy = roomy; others = λ x ne. refl })
  sim_place_total address leaf (suc i) w m roomy le small agree found out =
      let z : 0 + i ≡ i = omega arith in
      let (w₀, run₀, p₀) =
        sim_place_total address leaf i w m roomy (omega arith) small (λ j c. agree j (omega arith))
          found out in
      elim (Bool-cases (is_kept i)) [
        | inr cut ↦ (w₀, rw (z, cut) run₀, p₀)
        | inl kept ↦
            let (b, f, _) = roomy i kept (omega arith) in
            elim (Bool-cases (ltb b.free_z_index z_slots)) [
              | inr full ↦ (w₀, rw (z, kept, on_path i (omega arith), kept, f.there, full) run₀, p₀)
              | inl room ↦
                  let fits =
                    leaf_at-Fits n block_id leaf i kept (omega arith) leaf_ok small
                      (agree i (omega arith) kept) in
                  let (w', run, p) =
                    take_level address leaf i b w m roomy (omega arith) f room fits found out in
                  (w', rw (z, kept, on_path i (omega arith), kept, f.there, room) run, p)
            ]
      ]

  -- The loop over the stash runs to its end.
  pub sim_fill_total :
      (rest : List (ℕ × ℕ)) (w : Leaving)
      → 0 < n
      → ((x leaf : ℕ) → lookup x st.stash ≡ some leaf → leaf < 2 ^ (n - 1))
      → IsSorted rest
      → Pending st.stash w.to_erase rest
      → IsShifting n spent st w
      → AllRoomy n block_id w.store
      → (w' : Leaving) × (sim_fill n block_id nodes rest w ≡ some w') × IsShifting n spent st w'
  unfolding sim_fill
  sim_fill_total [] w pos leaves s p m roomy = (w, refl, m)
  sim_fill_total ((address, leaf) ∷ rest) w pos leaves s p m roomy =
      let small = leaves address leaf p.0 in
      let (d, deep, lt, agree) = sim_deepest_total n block_id leaf pos leaf_ok small in
      let (w₁, run, q) =
        sim_place_total address leaf (d + 1) w m roomy (omega arith) small
          (λ i c. agree i (omega arith)) p.0 p.1 in
      let (w', run', m') =
        sim_fill_total rest w₁ pos leaves s.1
          (Pending-others st.stash w.to_erase w₁.to_erase address rest s.0 q.others p.2) q.shifting
          q.roomy in
      (w', rw (deep, run) run', m')
