-- ===== src/Store/Known.antt =====
-- Where a block of src/reservation.h is: in the stash or in a bucket, and its leaf.
use palermo_oram.Base.{
  ℕ, ◌≡◌, refl, ap, subst, ◌∙◌, none, some, [], count, arith, ◌==◌, ◌⊎◌, inl, inr, Option-cases,
  Bool-cases, lookup, lookup-insert,
}
use palermo_oram.Store.{PosMapLine, mapped, Store, pull_slot}
use palermo_oram.Store.Blocks.{Holds, pos_put_ne}

-- A block is in a bucket, on its way to the leaf `leaf`.
abbrev pub IsMapped : Store → ℕ → ℕ → Type 0
IsMapped st x leaf =
    (l : PosMapLine) × (st.pos_map (some x) ≡ some (mapped l)) × (l.block_id ≡ leaf)

-- A block is in the stash or in a bucket, on its way to the leaf `leaf`.
abbrev pub IsKnown : Store → ℕ → ℕ → Type 0
IsKnown st x leaf = (lookup x st.stash ≡ some leaf) ⊎ IsMapped st x leaf

-- The pull of the slot `a`, which the line `line` is at.
module _ {n start : ℕ} (st : Store) (v : Holds n start [] st) (a : ℕ) (line : PosMapLine)
    (at : st.addr_to_origaddr a ≡ some line) where
  -- The block of that slot goes to the same leaf as before.
  pulled_here : (x leaf : ℕ) → line.original_address ≡ x → IsKnown st x leaf → line.block_id ≡ leaf
  unfolding count
  pulled_here x leaf same k =
      let (_, _, _, (i, f)) = v.slots a line at in
      let f' =
        subst (λ y. st.pos_map (some y) ≡ some (mapped (record line { pending = i }))) same f in
      elim k [
        | inl e ↦ absurd (v.apart x leaf (record line { pending = i }) e refl f')
        | inr (l, p, q) ↦
            let one : record line { pending = i } ≡ l = cc in
            ap (λ (r : PosMapLine). r.block_id) one ∙ q
      ]

  pull-IsKnown : (x leaf : ℕ) → IsKnown st x leaf → IsKnown (pull_slot a st) x leaf
  unfolding pull_slot
  pull-IsKnown x leaf k =
      let found = lookup-insert line.original_address x line.block_id st.stash in
      rw (at, pull_slot)
        (elim (Bool-cases (line.original_address == x)) [
          | inl p ↦ let goes = pulled_here x leaf (ground arith) k in inl (rw (found, p, goes) refl)
          | inr p ↦ elim k [
            | inl e ↦ inl (rw (found, p) e)
            | inr (l, m, q) ↦
                inr
                  (l, pos_put_ne st.pos_map line.original_address x none (λ e. ground arith) ∙ m, q)
          ]
        ])

-- A pull forgets no block: in a store that keeps the invariant, each block that was in the stash
-- or in a bucket still is, on its way to the same leaf.
pub pull_slot-IsKnown :
    (n start : ℕ) (a : ℕ) (st : Store)
    → Holds n start [] st
    → (x leaf : ℕ) → IsKnown st x leaf
    → IsKnown (pull_slot a st) x leaf
unfolding pull_slot
pull_slot-IsKnown n start a st v x leaf k = elim (Option-cases (st.addr_to_origaddr a)) [
  | inl m ↦ rw (m, pull_slot) k
  | inr (line, m) ↦ pull-IsKnown st v a line m x leaf k
]
