-- ===== src/Store/Blocks.antt =====
-- The invariant of the store of src/reservation.h, and single moves of blocks.
use palermo_oram.Base.{
  ℕ, ◌≤◌, ◌<◌, ◌≡◌, ◌≢◌, ap, sym, subst, ◌∙◌, Bool, false, Option, none, some, List, [], ◌∷◌, arith,
  ◌==◌, Option-cases, Bool-cases, inl, inr, ◌⊎◌, Table, put_at, lookup, lookup-insert, count,
}
use palermo_oram.Base.Maps.Order.{IsSorted, insert-IsSorted}
use palermo_oram.Params.{bucket_slots}
use palermo_oram.Tree.{slot_address, path_node}
use palermo_oram.Store.{PosMapLine, PosEntry, PosMap, mapped, Store, pos_put, pull_slot, put_line}

-- A line's node is on the path of its block, below the levels that hold no blocks.
abbrev pub OnPath : ℕ → ℕ → PosMapLine → Type 0
OnPath n start line =
    (lvl : ℕ) × (start ≤ lvl) × (lvl < n) × (line.node_id ≡ path_node n line.block_id lvl)

-- The invariant, for the tree of `n` levels that holds blocks from level `start` on. Those of
-- `moved` are on their way out of the stash.
pub record Holds (n start : ℕ) (moved : List ℕ) (st : Store) : Type 0 where
  pub sorted : IsSorted st.stash
  -- A slot in use has a line of its own, for a block whose path it is on, and `posMap` agrees.
  pub slots :
      (a : ℕ) (line : PosMapLine)
      → st.addr_to_origaddr a ≡ some line
      → (a ≡ slot_address line.node_id line.offset)
        × (line.offset < bucket_slots)
        × OnPath n start line
        × ((p : Bool) × (st.pos_map (some line.original_address)
              ≡ some (mapped (record line { pending = p }))))
  -- Each block that `posMap` maps has its slot.
  pub lines :
      (x : ℕ) (line : PosMapLine)
      → st.pos_map (some x) ≡ some (mapped line)
      → (line.original_address ≡ x)
        × (st.addr_to_origaddr (slot_address line.node_id line.offset)
            ≡ some (record line { pending = false }))
  -- A block of the stash is in no bucket.
  pub apart :
      (x leaf : ℕ) (line : PosMapLine)
      → lookup x st.stash ≡ some leaf
      → count x moved ≡ 0
      → st.pos_map (some x) ≢ some (mapped line)

-- What can be read after an update of one key.
pub put_at-none :
    (t : Table PosMapLine) (k b : ℕ) {l : PosMapLine}
    → put_at t k none b ≡ some l
    → (k ≢ b) × (t b ≡ some l)
put_at-none t k b e = (λ p. ground arith, ground arith)

pub pos_put-none :
    (m : PosMap) (k x : ℕ) {l : PosEntry}
    → pos_put m (some k) none (some x) ≡ some l
    → (k ≢ x) × (m (some x) ≡ some l)
pos_put-none m k x e = (λ p. ground arith, ground arith)

pub pos_put_ne :
    (m : PosMap) (k x : ℕ) (v : Option PosEntry)
    → k ≢ x
    → pos_put m (some k) v (some x) ≡ m (some x)
pos_put_ne m k x v h = ground arith

pub put_at_ne :
    (t : Table PosMapLine) (k b : ℕ) (v : Option PosMapLine) → k ≢ b → put_at t k v b ≡ t b
put_at_ne t k b v h = ground arith

module _ {n start : ℕ} {moved : List ℕ} {st : Store} (v : Holds n start moved st) where
  -- Two slots never hold the same block.
  pub slot_unique :
      (a b : ℕ) (line l : PosMapLine)
      → st.addr_to_origaddr a ≡ some line
      → st.addr_to_origaddr b ≡ some l
      → line.original_address ≡ l.original_address
      → a ≡ b
  slot_unique a b line l p q e =
      let (ea, _, _, (i, fa)) = v.slots a line p in
      let (eb, _, _, (j, fb)) = v.slots b l q in
      let fa' =
        subst (λ o. st.pos_map (some o) ≡ some (mapped (record line { pending = i }))) e fa in
      let same : record line { pending = i } ≡ record l { pending = j } = cc in
      ea ∙ ap (λ (r : PosMapLine). slot_address r.node_id r.offset) same ∙ sym eb

  -- The block of a mapped slot is the one that `posMap` maps there.
  pub line_of_slot :
      (a x : ℕ) (line l : PosMapLine)
      → st.addr_to_origaddr a ≡ some line
      → st.pos_map (some x) ≡ some (mapped l)
      → a ≡ slot_address l.node_id l.offset
      → line.original_address ≡ x
  line_of_slot a x line l p q e =
      let (o, at) = v.lines x l q in
      let at' =
        subst (λ k. st.addr_to_origaddr k ≡ some (record l { pending = false })) (sym e) at in
      let same : line ≡ record l { pending = false } = cc in
      ap (λ (r : PosMapLine). r.original_address) same ∙ o

-- A pull of any slot keeps the invariant of the store: the position map and its inverse agree,
-- each mapped block is on its path, and no block is in the stash and in a bucket.
pub pull_slot-Holds :
    (n start : ℕ) (a : ℕ) (st : Store) → Holds n start [] st → Holds n start [] (pull_slot a st)
unfolding pull_slot
pull_slot-Holds n start a st v = elim (Option-cases (st.addr_to_origaddr a)) [
  | inl m ↦ rw (m, pull_slot) v
  | inr (line, m) ↦
      rw (m, pull_slot)
        (record {
          sorted = insert-IsSorted line.original_address line.block_id st.stash v.sorted;
          slots = λ b l e.
              let (ne, at) = put_at-none st.addr_to_origaddr a b e in
              let (eq, lt, path, (p, pm)) = v.slots b l at in
              let other : line.original_address ≢ l.original_address =
                λ same. ne (slot_unique v a b line l m at same) in
              (eq, lt, path, (p, pos_put_ne st.pos_map _ _ none other ∙ pm));
          lines = λ x l e.
              let (ne, at) = pos_put-none st.pos_map line.original_address x e in
              let (o, slot) = v.lines x l at in
              let other : a ≢ slot_address l.node_id l.offset =
                λ same. ne (line_of_slot v a x line l m at same) in
              (o, put_at_ne st.addr_to_origaddr a _ none other ∙ slot);
          apart = λ x leaf l e z f.
              let (ne, at) = pos_put-none st.pos_map line.original_address x f in
              v.apart x leaf l
                (ground (arith, lookup-insert line.original_address x line.block_id st.stash)) z at;
        })
]

-- What must be so before a line is put: its block is in no bucket, its slot is free, and the node
-- is on the path of the block.
pub record CanPut (n start : ℕ) (line : PosMapLine) (st : Store) : Type 0 where
  pub unmapped : (l : PosMapLine) → st.pos_map (some line.original_address) ≢ some (mapped l)
  pub path : OnPath n start line
  pub in_range : line.offset < bucket_slots
  pub free : st.addr_to_origaddr (slot_address line.node_id line.offset) ≡ none
  pub idle : line.pending ≡ false

put_at-some :
    (t : Table PosMapLine) (k b : ℕ) (v : PosMapLine) {l : PosMapLine}
    → put_at t k (some v) b ≡ some l
    → ((k ≡ b) × (v ≡ l)) ⊎ ((k ≢ b) × (t b ≡ some l))
put_at-some t k b v e = elim (Bool-cases (k == b)) [
  | inl p ↦ inl (ground arith, ground arith)
  | inr p ↦ inr ((λ q. ground arith), ground arith)
]

pos_put-some :
    (m : PosMap) (k x : ℕ) (v : PosEntry) {l : PosEntry}
    → pos_put m (some k) (some v) (some x) ≡ some l
    → ((k ≡ x) × (v ≡ l)) ⊎ ((k ≢ x) × (m (some x) ≡ some l))
pos_put-some m k x v e = elim (Bool-cases (k == x)) [
  | inl p ↦ inl (ground arith, ground arith)
  | inr p ↦ inr ((λ q. ground arith), ground arith)
]

pub pos_put_self : (m : PosMap) (k : ℕ) (v : Option PosEntry) → pos_put m (some k) v (some k) ≡ v
pos_put_self m k v = ground arith

put_at_self : (t : Table PosMapLine) (k : ℕ) (v : Option PosMapLine) → put_at t k v k ≡ v
put_at_self t k v = ground arith

module _ {n start : ℕ} {moved : List ℕ} {st : Store} (line : PosMapLine) where
  put-slots :
      Holds n start moved st
      → CanPut n start line st
      → (a : ℕ) (l : PosMapLine) → (put_line line st).addr_to_origaddr a ≡ some l
      → (a ≡ slot_address l.node_id l.offset)
        × (l.offset < bucket_slots)
        × OnPath n start l
        × ((p : Bool) × ((put_line line st).pos_map (some l.original_address)
              ≡ some (mapped (record l { pending = p }))))
  unfolding put_line
  put-slots v c a l g =
      elim (put_at-some st.addr_to_origaddr (slot_address line.node_id line.offset) a line g) [
        | inl (k, e) ↦ rw (← e) (
          sym k,
          c.in_range,
          c.path,
          (line.pending, pos_put_self st.pos_map line.original_address (some (mapped line))),
        )
        | inr (k, at) ↦
            let (eq, lt, path, (p, pm)) = v.slots a l at in
            let other : line.original_address ≢ l.original_address = λ same.
              c.unmapped (record l { pending = p })
                (subst (λ o. st.pos_map (some o) ≡ some (mapped (record l { pending = p })))
                  (sym same) pm) in
            (eq, lt, path, (p, pos_put_ne st.pos_map _ _ (some (mapped line)) other ∙ pm))
      ]

  put-lines :
      Holds n start moved st
      → CanPut n start line st
      → (x : ℕ) (l : PosMapLine) → (put_line line st).pos_map (some x) ≡ some (mapped l)
      → (l.original_address ≡ x)
        × ((put_line line st).addr_to_origaddr (slot_address l.node_id l.offset)
            ≡ some (record l { pending = false }))
  unfolding put_line
  put-lines v c x l g = elim (pos_put-some st.pos_map line.original_address x (mapped line) g) [
    | inl (k, e) ↦
        let same : line ≡ l = cc in
        rw (← same) (
          k,
          put_at_self st.addr_to_origaddr _ (some line)
              ∙ ap (λ b. some (record line { pending = b })) c.idle,
        )
    | inr (k, at) ↦
        let (o, slot) = v.lines x l at in
        let other : slot_address line.node_id line.offset ≢ slot_address l.node_id l.offset =
          λ same. let none_there = subst (λ q. st.addr_to_origaddr q ≡ none) same c.free in cc in
        (o, put_at_ne st.addr_to_origaddr _ _ (some line) other ∙ slot)
  ]

  -- The line of a block keeps the invariant of the store when it is put, with the block on its
  -- way out of the stash, if the block is in no bucket, its offset is one of a bucket, its slot
  -- is free, its node is on its path and the line is not pending.
  pub put_line-Holds :
      Holds n start moved st
      → CanPut n start line st
      → Holds n start (line.original_address ∷ moved) (put_line line st)
  unfolding put_line count
  put_line-Holds v c = record {
    sorted = v.sorted;
    slots = put-slots v c;
    lines = put-lines v c;
    apart = λ x leaf l e z f.
        let ne : line.original_address ≢ x = ground arith in
        v.apart x leaf l e (ground arith)
          (sym (pos_put_ne st.pos_map line.original_address x _ ne) ∙ f);
  }
