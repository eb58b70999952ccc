-- ===== src/Posmap/Piggy/Node.antt =====
-- The loop of `piggy_one` in src/reservation.h over the stash.
use palermo_oram.Base.{
  ℕ, ◌+◌, ◌≤◌, ◌<◌, ◌≡◌, ◌≢◌, refl, sym, subst, ◌∙◌, inl, inr, true, none, some, List, [], ◌∷◌,
  ◌++◌, ◌==◌, ltb, if◌then◌else◌, get_elem?, count, lookup, erase, arith, Bool-cases, lookup-erase,
  count-append, get_elem?-of_lt,
}
use palermo_oram.Base.Maps.Order.{Above, IsSorted, erase-IsSorted}
use palermo_oram.Params.{z_slots}
use palermo_oram.Bucket.{Bucket}
use palermo_oram.Tree.{path_node, is_node_on_block_path}
use palermo_oram.Store.{Store, mapped, line_at, put_line}
use palermo_oram.Store.Blocks.{Holds, put_line-Holds, pos_put_ne, pos_put_self}
use palermo_oram.Store.Known.{IsMapped}
use palermo_oram.Posmap.Piggy.{Leaving, leave, has_room, is_full, fill_node, erase_all, leave_stash}
use palermo_oram.Posmap.Piggy.Fill.{
  Holds_count, Holds_buckets, IsFilling, placed, place_block_eq, place_block-CanPut,
  placed-IsFilling,
}

-- The blocks that a loop over the stash has still to look at: they are in the stash, and not yet on
-- their way out.
abbrev pub Pending : List (ℕ × ℕ) → List ℕ → List (ℕ × ℕ) → Type 0
Pending stash moved [] = Unit
Pending stash moved ((address, leaf) ∷ rest) =
    (lookup address stash ≡ some leaf) × (count address moved ≡ 0) × Pending stash moved rest

pub Pending-moved :
    (stash : List (ℕ × ℕ)) (moved : List ℕ) (address : ℕ) (rest : List (ℕ × ℕ))
    → Above address rest
    → Pending stash moved rest
    → Pending stash (moved ++ (address ∷ [])) rest
unfolding count
Pending-moved stash moved address [] above p = tt
Pending-moved stash moved address ((a, leaf) ∷ rest) above p = (
  p.0,
  ground (arith, count-append a moved (address ∷ [])),
  Pending-moved stash moved address rest above.1 p.2,
)

-- The whole stash is pending at the start.
pub Pending-cons :
    (stash : List (ℕ × ℕ)) (a leaf : ℕ) (rest : List (ℕ × ℕ))
    → Above a rest
    → Pending stash [] rest
    → Pending ((a, leaf) ∷ stash) [] rest
unfolding lookup count
Pending-cons stash a leaf [] above p = tt
Pending-cons stash a leaf ((x, l) ∷ rest) above p =
    (ground arith, refl, Pending-cons stash a leaf rest above.1 p.2)

pub Pending-all : (stash : List (ℕ × ℕ)) → IsSorted stash → Pending stash [] stash
unfolding lookup count
Pending-all [] s = tt
Pending-all ((a, leaf) ∷ rest) s =
    (ground arith, refl, Pending-cons rest a leaf rest s.0 (Pending-all rest s.1))

pub lookup-erase_all :
    (xs : List ℕ) (q : ℕ) (m : List (ℕ × ℕ))
    → lookup q (erase_all xs m) ≡ (if ltb 0 (count q xs) then none else lookup q m)
unfolding erase_all count
lookup-erase_all [] q m = refl
lookup-erase_all (x ∷ xs) q m =
    ground (arith, lookup-erase_all xs q (erase x m), lookup-erase x q m)

pub erase_all-IsSorted : (xs : List ℕ) (m : List (ℕ × ℕ)) → IsSorted m → IsSorted (erase_all xs m)
unfolding erase_all
erase_all-IsSorted [] m s = s
erase_all-IsSorted (x ∷ xs) m s = erase_all-IsSorted xs (erase x m) (erase-IsSorted x m s)

-- When the blocks on their way out have left the stash, the invariant holds as it is.
pub leave_stash-Holds :
    {n start : ℕ} (w : Leaving)
    → Holds n start w.to_erase w.store
    → Holds n start [] (leave_stash w)
unfolding count
leave_stash-Holds w v = record {
  sorted = erase_all-IsSorted w.to_erase w.store.stash v.sorted;
  slots = v.slots;
  lines = v.lines;
  apart = λ x leaf l e z.
      let found = lookup-erase_all w.to_erase x w.store.stash in
      v.apart x leaf l (ground arith) (ground arith);
}

-- What a loop over the stash of `st` keeps: the invariant and the stash; a block that was in a bucket
-- still is in one, and one that is on its way out is in one.
pub record IsMoving (n start : ℕ) (st : Store) (w : Leaving) : Type 0 where
  pub holds : Holds n start w.to_erase w.store
  pub same : w.store.stash ≡ st.stash
  pub kept : (x leaf : ℕ) → IsMapped st x leaf → IsMapped w.store x leaf
  pub gone :
      (x leaf : ℕ)
      → lookup x st.stash ≡ some leaf
      → 0 < count x w.to_erase
      → IsMapped w.store x leaf

-- One move.
module _ (n start node lvl : ℕ) (b : Bucket) (address leaf off : ℕ) (st : Store) (w : Leaving)
    (m : IsMoving n start st w) (f : IsFilling w.store node b)
    (at : get_elem? b.z_arr b.free_z_index ≡ some off) (found : lookup address st.stash ≡ some leaf)
    (out : count address w.to_erase ≡ 0) where
  abbrev pub moved : Leaving
  moved = record {
    store = placed n start node lvl b address leaf off w.store f at;
    to_erase = w.to_erase ++ (address ∷ []);
  }

  pub leave_eq : leave address leaf node w ≡ some moved
  unfolding leave
  leave_eq = rw (place_block_eq n start node lvl b address leaf off w.store f at) refl

  still-IsMapped : (x l : ℕ) → address ≢ x → IsMapped w.store x l → IsMapped moved.store x l
  unfolding put_line line_at
  still-IsMapped x l ne (line, p, q) = (line, pos_put_ne w.store.pos_map address x _ ne ∙ p, q)

  now-IsMapped : IsMapped moved.store address leaf
  unfolding put_line line_at
  now-IsMapped = (line_at address leaf node off, pos_put_self w.store.pos_map address _, refl)

  not-IsMapped : (x l : ℕ) → address ≡ x → IsMapped st x l → IsMapped moved.store x l
  not-IsMapped x l same (line, p, q) =
      let (line', p', _) = m.kept x l (line, p, q) in
      let there = subst (λ y. w.store.pos_map (some y) ≡ some (mapped line')) (sym same) p' in
      absurd (m.holds.apart address leaf line' (rw m.same found) out there)

  now_gone : (x l : ℕ) → address ≡ x → lookup x st.stash ≡ some l → IsMapped moved.store x l
  now_gone x l same e =
      let at_address = subst (λ y. lookup y st.stash ≡ some l) (sym same) e in
      let leaf_same : leaf ≡ l = cc in
      subst (λ y. IsMapped moved.store y l) same
        (subst (IsMapped moved.store address) leaf_same now-IsMapped)

  pub moved-IsMoving :
      start ≤ lvl → lvl < n → node ≡ path_node n leaf lvl → IsMoving n start st moved
  unfolding put_line line_at count
  moved-IsMoving hs hl path =
      let found' : lookup address w.store.stash ≡ some leaf = rw m.same found in
      let can =
        place_block-CanPut n start node lvl b address leaf off w.store f at w.to_erase m.holds hs hl
          path found' out in
      let more = λ (x : ℕ). count-append x w.to_erase (address ∷ []) in
      record {
        holds =
            Holds_count
              (put_line-Holds (line_at address leaf node off) (Holds_buckets _ m.holds) can)
              (λ x. omega (arith, more x));
        same = m.same;
        kept = λ x l k. elim (Bool-cases (address == x)) [
          | inl p ↦ not-IsMapped x l (ground arith) k
          | inr p ↦ still-IsMapped x l (λ q. ground arith) (m.kept x l k)
        ];
        gone = λ x l e c. elim (Bool-cases (address == x)) [
          | inl p ↦ now_gone x l (ground arith) e
          | inr p ↦ still-IsMapped x l (λ q. ground arith) (m.gone x l e (ground (arith, more x)))
        ];
      }

-- The loop of `piggy_one` over a sorted part of the stash that is still pending runs to its end,
-- for a node at a level of the tree from `start` on whose bucket is being filled: it keeps the
-- invariant and the stash, a block that was in a bucket is in one on its way to the same leaf,
-- and so is one on its way out.
pub fill_node_total :
    (n start node lvl : ℕ) (st : Store)
    → start ≤ lvl
    → lvl < n
    → (rest : List (ℕ × ℕ)) (b : Bucket) (w : Leaving) → IsSorted rest
    → Pending st.stash w.to_erase rest
    → IsMoving n start st w
    → IsFilling w.store node b
    → b.free_z_index ≤ z_slots
    → (w' : Leaving) × (fill_node n node lvl rest w ≡ some w') × IsMoving n start st w'
unfolding fill_node has_room is_full is_node_on_block_path
fill_node_total n start node lvl st hs hl [] b w s p m f le = (w, refl, m)
fill_node_total n start node lvl st hs hl ((address, leaf) ∷ rest) b w s p m f le =
    elim (Bool-cases (path_node n leaf lvl == node)) [
      | inr off_path ↦
          let (w', e, m') = fill_node_total n start node lvl st hs hl rest b w s.1 p.2 m f le in
          (w', rw off_path e, m')
      | inl on_path ↦ elim (Bool-cases (ltb b.free_z_index z_slots)) [
        | inr no_room ↦
            let full : (b.free_z_index == z_slots) ≡ true = ground arith in
            (w, rw (on_path, f.there, no_room, f.there, full) refl, m)
        | inl room ↦
            let (off, at) = get_elem?-of_lt b.z_arr b.free_z_index (ground (arith, f.z_fits)) in
            let w₁ = moved n start node lvl b address leaf off st w m f at p.0 p.1 in
            let left : leave address leaf node w ≡ some w₁ =
              leave_eq n start node lvl b address leaf off st w m f at p.0 p.1 in
            let m₁ =
              moved-IsMoving n start node lvl b address leaf off st w m f at p.0 p.1 hs hl
                (ground arith) in
            let f₁ = placed-IsFilling n start node lvl b address leaf off w.store f at in
            elim (Bool-cases ((b.free_z_index + 1) == z_slots)) [
              | inl full ↦ (w₁, rw (on_path, f.there, room, left, f₁.there, full) refl, m₁)
              | inr more ↦
                  let (w', e, m') =
                    fill_node_total n start node lvl st hs hl rest
                      (record b { free_z_index = b.free_z_index + 1 }) w₁ s.1
                      (Pending-moved st.stash w.to_erase address rest s.0 p.2) m₁ f₁
                      (ground arith) in
                  (w', rw (on_path, f.there, room, left, f₁.there, more) e, m')
            ]
      ]
    ]
