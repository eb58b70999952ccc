-- ===== src/StashSim/Clear.antt =====
-- A block that leaves its slot, in `read_pull` of src/stash_simulation/set_oram.cc.
use mathlib.Core.Path.{fun_ext}
use palermo_oram.Base.{
  ℕ, ◌≡◌, ◌≢◌, refl, ap, sym, subst, ◌∙◌, inl, inr, true, false, Option, none, some, List, [], ◌==◌,
  put_at, arith, Bool-cases,
}
use palermo_oram.Bucket.{Bucket}
use palermo_oram.Tree.{slot_address}
use palermo_oram.Store.{Store, Address, PosEntry, PosMap, PosMapLine, mapped, same_address, pos_put}
use palermo_oram.Store.Blocks.{
  Holds, put_at-none, put_at_ne, pos_put-none, pos_put_ne, line_of_slot,
}
use palermo_oram.Store.Known.{IsKnown}
use palermo_oram.StashSim.{drop_slot}
use palermo_oram.StashSim.Serving.{IsServing, fewer-IsServing}

-- The store without the block `x` at the slot `a`.
abbrev pub cleared : Store → ℕ → ℕ → Store
cleared st x a = record st {
  addr_to_origaddr = put_at st.addr_to_origaddr a none;
  pos_map = pos_put st.pos_map (some x) none;
}

-- Two writes to one address are the second.
pos_put-pos_put :
    (m : PosMap) (k : Address) (v w : Option PosEntry) → pos_put (pos_put m k v) k w ≡ pos_put m k w
pos_put-pos_put m k v w =
    fun_ext (λ q. elim (Bool-cases (same_address k q)) [ inl e ↦ rw e refl | inr e ↦ rw e refl ])

module _ (n : ℕ) (st : Store) (x : ℕ) (line : PosMapLine) (h : Holds n 0 [] st)
    (at : st.pos_map (some x) ≡ some (mapped line)) where
  abbrev pub slot : ℕ
  slot = slot_address line.node_id line.offset

  pub in_slot : st.addr_to_origaddr slot ≡ some (record line { pending = false })
  in_slot = (h.lines x line at).1

  pub cleared-Holds : Holds n 0 [] (cleared st x slot)
  cleared-Holds = record {
    sorted = h.sorted;
    slots = λ b l e.
        let (ne, used) = put_at-none st.addr_to_origaddr slot b e in
        let (eq, lt, path, (p, pm)) = h.slots b l used in
        let other : x ≢ l.original_address = λ same.
          let pm' =
            subst (λ y. st.pos_map (some y) ≡ some (mapped (record l { pending = p }))) (sym same)
              pm in
          let one : line ≡ record l { pending = p } = cc in
          ne (ap (λ (r : PosMapLine). slot_address r.node_id r.offset) one ∙ sym eq) in
        (eq, lt, path, (p, pos_put_ne st.pos_map x _ none other ∙ pm));
    lines = λ y l e.
        let (ne, there) = pos_put-none st.pos_map x y e in
        let (o, used) = h.lines y l there in
        let other : slot ≢ slot_address l.node_id l.offset = λ same. ne (
          sym (h.lines x line at).0
          ∙ line_of_slot h slot y (record line { pending = false }) l in_slot there same) in
        (o, put_at_ne st.addr_to_origaddr slot _ none other ∙ used);
    apart = λ y leaf l e z f.
        let (ne, there) = pos_put-none st.pos_map x y f in h.apart y leaf l e z there;
  }

  pub cleared-IsServing :
      {spent : List ℕ} → IsServing n spent st → IsServing n spent (cleared st x slot)
  cleared-IsServing v =
      fewer-IsServing st (cleared st x slot) refl v.no_dummy
        (λ y l e. (pos_put-none st.pos_map x y e).1)
        (λ b l e. (put_at-none st.addr_to_origaddr slot b e).1) v.stash_leaves v

  pub cleared-IsKnown :
      (y leaf : ℕ) → x ≢ y → IsKnown st y leaf → IsKnown (cleared st x slot) y leaf
  cleared-IsKnown y leaf ne (inl e) = inl e
  cleared-IsKnown y leaf ne (inr (l, p, q)) = inr (l, pos_put_ne st.pos_map x y none ne ∙ p, q)

  pub cleared_run :
      (v : PosEntry) (bs : List Bucket)
      → drop_slot
          (some x)
          (some (line.node_id, line.offset))
          (record st { pos_map = pos_put st.pos_map (some x) (some v); buckets = bs })
        ≡ some (record (cleared st x slot) { buckets = bs })
  unfolding drop_slot
  cleared_run v bs =
      let self : (x == x) ≡ true = ground arith in
      let twice = pos_put-pos_put st.pos_map (some x) (some v) none in
      let slot_used = in_slot in
      let result =
        ap
          (λ (m : PosMap). some (record st {
            addr_to_origaddr = put_at st.addr_to_origaddr slot none;
            pos_map = m;
            buckets = bs;
          }))
          twice in
      rw (slot_used, self) result
