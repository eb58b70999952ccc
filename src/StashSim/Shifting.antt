-- ===== src/StashSim/Shifting.antt =====
-- The loop of `piggy_writeback` of src/stash_simulation/set_oram.cc over the stash: a block may go
-- to another leaf, in the set of its own.
use palermo_oram.Base.{
  ℕ, ◌+◌, ◌-◌, ◌^◌, ◌<◌, ◌≡◌, ◌≢◌, refl, ap, sym, subst, ◌∙◌, inl, inr, some, List, [], ◌∷◌, ◌++◌,
  ◌==◌, get_elem?, set, count, lookup, arith, Bool-cases, count-append,
}
use palermo_oram.Bucket.{Bucket}
use palermo_oram.Tree.{path_node}
use palermo_oram.Store.{Store, mapped, line_at, put_line}
use palermo_oram.Store.Blocks.{Holds, CanPut, put_line-Holds, pos_put_ne, pos_put_self}
use palermo_oram.Store.Known.{IsMapped}
use palermo_oram.Posmap.Piggy.{Leaving, leave}
use palermo_oram.Posmap.Piggy.Fill.{
  Holds_count, Holds_buckets, IsFilling, placed, place_block_eq, slot_free, off_lt,
}
use palermo_oram.StashSim.Subtrees.{set_of_leaf}
use palermo_oram.StashSim.Serving.{IsServing}
use palermo_oram.StashSim.Serving.Moves.{given-IsServing}

-- A block is in a bucket, on its way to a leaf in the set of `leaf`.
abbrev pub IsMappedIn : ℕ → Store → ℕ → ℕ → Type 0
IsMappedIn n st x leaf = (new : ℕ) × (set_of_leaf n new ≡ set_of_leaf n leaf) × IsMapped st x new

-- What the loop over the stash of `st` keeps.
pub record IsShifting (n : ℕ) (spent : List ℕ) (st : Store) (w : Leaving) : Type 0 where
  pub holds : Holds n 0 w.to_erase w.store
  pub same : w.store.stash ≡ st.stash
  pub kept : (x leaf : ℕ) → IsMapped st x leaf → IsMapped w.store x leaf
  pub gone :
      (x leaf : ℕ)
      → lookup x st.stash ≡ some leaf
      → 0 < count x w.to_erase
      → IsMappedIn n w.store x leaf
  pub serving : IsServing n spent w.store

-- One move, of the block `address` with the leaf `leaf`, which gets the leaf `new`.
module _ (n node lvl : ℕ) (spent : List ℕ) (b : Bucket) (address leaf new off : ℕ) (st : Store)
    (w : Leaving) (m : IsShifting n spent st w) (f : IsFilling w.store node b)
    (at : get_elem? b.z_arr b.free_z_index ≡ some off) (found : lookup address st.stash ≡ some leaf)
    (out : count address w.to_erase ≡ 0) where
  abbrev pub shifted : Leaving
  shifted = record {
    store = placed n 0 node lvl b address new off w.store f at;
    to_erase = w.to_erase ++ (address ∷ []);
  }

  pub shift_eq : leave address new node w ≡ some shifted
  unfolding leave
  shift_eq = rw (place_block_eq n 0 node lvl b address new off w.store f at) refl

  now-IsMapped : IsMapped shifted.store address new
  unfolding put_line line_at
  now-IsMapped = (line_at address new node off, pos_put_self w.store.pos_map address _, refl)

  still-IsMapped : (x l : ℕ) → address ≢ x → IsMapped w.store x l → IsMapped shifted.store x l
  unfolding put_line line_at
  still-IsMapped x l ne (line, p, q) = (line, pos_put_ne w.store.pos_map address x _ ne ∙ p, q)

  was_not-IsMapped : (x l : ℕ) → address ≡ x → IsMapped st x l → IsMapped shifted.store x l
  was_not-IsMapped x l same (line, p, q) =
      let (line', p', _) = m.kept x l (line, p, q) in
      let there = subst (λ y. w.store.pos_map (some y) ≡ some (mapped line')) (sym same) p' in
      absurd (m.holds.apart address leaf line' (rw m.same found) out there)

  shift-CanPut :
      lvl < n
      → node ≡ path_node n new lvl
      → CanPut n 0 (line_at address new node off) (record (w.store) {
        buckets = set w.store.buckets node (record b { free_z_index = b.free_z_index + 1 });
      })
  unfolding line_at
  shift-CanPut hl path = record {
    unmapped = λ l. m.holds.apart address leaf l (rw m.same found) out;
    path = (lvl, omega arith, hl, path);
    in_range = off_lt n 0 node lvl b address new off w.store f at;
    free = slot_free n 0 node lvl b address new off w.store f at;
    idle = refl;
  }

  shifted_gone :
      set_of_leaf n new ≡ set_of_leaf n leaf
      → (x l : ℕ) → lookup x st.stash ≡ some l
      → 0 < count x shifted.to_erase
      → IsMappedIn n shifted.store x l
  unfolding count
  shifted_gone sets x l e c = elim (Bool-cases (address == x)) [
    | inl p ↦
        let same : address ≡ x = ground arith in
        let at_address = subst (λ y. lookup y st.stash ≡ some l) (sym same) e in
        let leaf_same : leaf ≡ l = cc in
        (
          new,
          sets ∙ ap (set_of_leaf n) leaf_same,
          subst (λ y. IsMapped shifted.store y new) same now-IsMapped,
        )
    | inr p ↦
        let (k, in_set, mapped_there) =
          m.gone x l e (ground (arith, count-append x w.to_erase (address ∷ []))) in
        (k, in_set, still-IsMapped x k (λ q. ground arith) mapped_there)
  ]

  pub shifted-IsShifting :
      lvl < n
      → node ≡ path_node n new lvl
      → new < 2 ^ (n - 1)
      → set_of_leaf n new ≡ set_of_leaf n leaf
      → IsShifting n spent st shifted
  unfolding put_line line_at count
  shifted-IsShifting hl path small sets = record {
    holds =
        Holds_count
          (put_line-Holds (line_at address new node off) (Holds_buckets _ m.holds)
            (shift-CanPut hl path))
          (λ x. omega (arith, count-append x w.to_erase (address ∷ [])));
    same = m.same;
    kept = λ x l k. elim (Bool-cases (address == x)) [
      | inl p ↦ was_not-IsMapped x l (ground arith) k
      | inr p ↦ still-IsMapped x l (λ q. ground arith) (m.kept x l k)
    ];
    gone = shifted_gone sets;
    serving = given-IsServing n spent address new node off b w.store m.serving f.there at small;
  }
