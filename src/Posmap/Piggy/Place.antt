-- ===== src/Posmap/Piggy/Place.antt =====
-- The loop of `piggy_writeback` over the stash, with all buckets of the path.
use palermo_oram.Base.{
  ℕ, zero, suc, ◌+◌, ◌-◌, ◌^◌, ◌≤◌, ◌<◌, ◌≡◌, ◌≢◌, refl, subst, inl, inr, Option, none, some, List,
  [], ◌∷◌, ◌==◌, ltb, get_elem?, count, lookup, arith, Bool-cases, get_elem?-of_lt, count-append,
}
use palermo_oram.Params.{z_slots}
use palermo_oram.Bucket.{Bucket}
use palermo_oram.Tree.{path_node}
use palermo_oram.Tree.Paths.{level_of_path_node}
use palermo_oram.Store.{Store}
use palermo_oram.Posmap.Piggy.{Leaving, leave, has_room, downward, place_deepest}
use palermo_oram.Posmap.Piggy.Fill.{IsFilling, placed-IsFilling}
use palermo_oram.Posmap.Piggy.Node.{IsMoving, moved, leave_eq, moved-IsMoving}
use palermo_oram.Posmap.Piggy.Path.{placed-other}

-- The bucket of the path at a level is being filled.
abbrev pub IsRoomy : ℕ → ℕ → List ℕ → Store → ℕ → Type 0
IsRoomy n block_id nodes st i =
    (b : Bucket) × (get_elem? nodes i ≡ some (path_node n block_id i))
    × IsFilling st (path_node n block_id i) b
    × (b.free_z_index ≤ z_slots)

-- What the moves of one block keep.
pub record IsPlaced (n start levels block_id : ℕ) (nodes : List ℕ) (st : Store) (address : ℕ)
    (w w' : Leaving) : Type 0 where
  pub moving : IsMoving n start st w'
  pub roomy : (i : ℕ) → start ≤ i → i < levels → IsRoomy n block_id nodes w'.store i
  pub others : (x : ℕ) → address ≢ x → count x w'.to_erase ≡ count x w.to_erase

module _ (n start levels block_id : ℕ) (nodes : List ℕ) (st : Store) (fits : levels ≤ n)
    (leaf_ok : block_id < 2 ^ (n - 1)) where
  pub place_deepest_total :
      (address leaf k : ℕ) (w : Leaving)
      → IsMoving n start st w
      → ((i : ℕ) → start ≤ i → i < levels → IsRoomy n block_id nodes w.store i)
      → ((i : ℕ)
          → start ≤ i
          → i < start + k
          → (i < levels) × (path_node n block_id i ≡ path_node n leaf i))
      → lookup address st.stash ≡ some leaf
      → count address w.to_erase ≡ 0
      → (r : Option ℕ × Leaving) × (place_deepest nodes address leaf (downward start k) w ≡ some r)
        × IsPlaced n start levels block_id nodes st address w r.1
  unfolding place_deepest downward has_room count
  place_deepest_total address leaf zero w m roomy agree found out =
      ((none, w), refl, record { moving = m; roomy = roomy; others = λ x ne. refl })
  place_deepest_total address leaf (suc k) w m roomy agree found out =
      let i = start + k in
      let (lt, same) = agree i (omega arith) (omega arith) in
      let (b, at, f, le) = roomy i (omega arith) lt in
      elim (Bool-cases (ltb b.free_z_index z_slots)) [
        | inr full ↦
            let (r, run, p) =
              place_deepest_total address leaf k w m roomy (λ j a c. agree j a (omega arith)) found
                out in
            (r, rw (at, f.there, full) run, p)
        | inl room ↦
            let (off, z) = get_elem?-of_lt b.z_arr b.free_z_index (ground (arith, f.z_fits)) in
            let node = path_node n block_id i in
            let w₁ = moved n start node i b address leaf off st w m f z found out in
            let left : leave address leaf node w ≡ some w₁ =
              leave_eq n start node i b address leaf off st w m f z found out in
            (
              (some i, w₁),
              rw (at, f.there, room, left) refl,
              record {
                moving =
                    moved-IsMoving n start node i b address leaf off st w m f z found out
                      (omega arith) (omega arith) same;
                roomy = λ j a c. elim (Bool-cases (j == i)) [
                  | inl q ↦
                      let here : i ≡ j = ground arith in
                      subst (IsRoomy n block_id nodes w₁.store) here (
                        record b { free_z_index = b.free_z_index + 1 },
                        at,
                        placed-IsFilling n start node i b address leaf off w.store f z,
                        ground arith,
                      )
                  | inr q ↦
                      let (c', at', f', le') = roomy j a c in
                      let ne : node ≢ path_node n block_id j = λ e.
                        let l =
                          level_of_path_node n block_id block_id i j (omega arith) (omega arith)
                            leaf_ok leaf_ok e in
                        ground arith in
                      (
                        c',
                        at',
                        placed-other n start node i b address leaf off w.store f z
                            (path_node n block_id j) c' ne f',
                        le',
                      )
                ];
                others = λ x ne. ground (arith, count-append x w.to_erase (address ∷ []));
              },
            )
      ]
