-- ===== src/Posmap/Start/Sets.antt =====
-- The leaves of a set and all sets: `posmap_init_writeback` in src/reservation.h.
use native.Mathlib.Nat.{suc-mul, mul-le-mul_right}
use palermo_oram.Base.{
  ℕ, zero, suc, ◌+◌, ◌*◌, ◌≤◌, ◌<◌, ◌≡◌, refl, sym, subst, ◌∙◌, inl, inr, none, some, List, [], ◌∷◌,
  ◌==◌, ◌&&◌, leb, ltb, length, count, count-append, count-take-drop, length-take-drop, length-take,
  take, drop, for_each, range, count-range, arith, Bool-cases, if◌then◌else◌,
}
use palermo_oram.Params.{z_slots}
use palermo_oram.Tree.{path_node}
use palermo_oram.Store.{Store, PosMapLine, mapped}
use palermo_oram.State.{Random}
use palermo_oram.Posmap.Start.{fill_leaf}
use palermo_oram.Posmap.Start.Leaf.{IsAdded, IsAdded-append, IsNew, IsUpTo, fill_next_leaf}

IsNew-take-drop :
    (k : ℕ) (xs : List ℕ) (lo hi : ℕ) (st st' : Store)
    → IsNew xs st
    → IsAdded lo hi (take k xs) st st'
    → IsNew (drop k xs) st'
IsNew-take-drop k xs lo hi st st' v g = record {
  once = λ x. omega (arith, v.once x, count-take-drop k x xs);
  unmapped = λ x c.
      g.old x (omega (arith, v.once x, count-take-drop k x xs))
      ∙ v.unmapped x (omega (arith, count-take-drop k x xs));
}

-- An addition depends only on how often each address is there.
IsAdded-count :
    {lo hi : ℕ} {xs ys : List ℕ} {st st' : Store}
    → ((x : ℕ) → count x xs ≡ count x ys)
    → IsAdded lo hi xs st st'
    → IsAdded lo hi ys st st'
IsAdded-count same g = record {
  new = λ x h. g.new x (omega (arith, same x));
  old = λ x h. g.old x (same x ∙ h);
}

-- The tree: its leaves are the nodes from `left` on.
module _ (n start total left : ℕ) (lvl : ℕ) (hs : start ≤ lvl) (hl : lvl < n)
    (on_path : (leaf : ℕ) → left + leaf ≡ path_node n leaf lvl) where
  -- `ways` leaves in a row take Z addresses each.
  pub fill_leaves_total :
      (ways leaf : ℕ) (addrs : List ℕ) (st : Store)
      → left + leaf + ways ≤ total
      → IsUpTo n start total (left + leaf) st
      → length addrs ≡ ways * z_slots
      → IsNew addrs st
      → (st' : Store) × (for_each
            (λ block_id. fill_leaf (suc z_slots) (left + block_id) block_id)
            (range leaf ways)
            (addrs, st)
          ≡ some ([], st'))
        × IsUpTo n start total (left + leaf + ways) st'
        × IsAdded leaf (leaf + ways) addrs st st'
  unfolding for_each range count
  fill_leaves_total zero leaf [] st fits u len v = (
    st,
    refl,
    subst (λ q. IsUpTo n start total q st) (omega arith) u,
    record { new = λ x h. absurd (omega arith); old = λ x h. refl },
  )
  fill_leaves_total zero leaf (a ∷ more) st fits u len v = absurd (omega arith)
  fill_leaves_total (suc ways) leaf addrs st fits u len v =
      let (st₁, e₁, u₁, g₁) =
        fill_next_leaf n start total (left + leaf) leaf lvl hs hl (on_path leaf) (omega arith) addrs
          st u (omega arith) v in
      let both = length-take-drop z_slots addrs in
      let firsts = length-take z_slots addrs (omega arith) in
      let (st₂, e₂, u₂, g₂) =
        fill_leaves_total ways (suc leaf) (drop z_slots addrs) st₁ (omega arith)
          (subst (λ q. IsUpTo n start total q st₁) (omega arith) u₁) (omega arith)
          (IsNew-take-drop z_slots addrs leaf (suc leaf) st st₁ v g₁) in
      let here : suc leaf + ways ≡ leaf + suc ways = omega arith in
      (
        st₂,
        rw e₁ e₂,
        subst (λ q. IsUpTo n start total q st₂) (omega arith) u₂,
        IsAdded-count
            (λ x.
              count-append x (take z_slots addrs) (drop z_slots addrs)
              ∙ count-take-drop z_slots x addrs)
            (IsAdded-append leaf (suc leaf) (leaf + suc ways) (take z_slots addrs)
              (drop z_slots addrs) st st₁ st₂ (omega arith) (omega arith) (suc leaf) (omega arith)
              (omega arith) g₁
              (subst (λ q. IsAdded (suc leaf) q (drop z_slots addrs) st₁ st₂) here g₂)),
      )

-- The first `sets` sets have their addresses, each at a leaf of its set, and no other address is
-- mapped.
pub record IsAssigned (ways sets : ℕ) (st : Store) : Type 0 where
  pub leaf_of :
      (i x : ℕ)
      → i < sets
      → i * ways * z_slots ≤ x
      → x < i * ways * z_slots + ways * z_slots
      → (line : PosMapLine) × (st.pos_map (some x) ≡ some (mapped line))
        × (i * ways ≤ line.block_id)
        × (line.block_id < i * ways + ways)
  pub unmapped : (x : ℕ) → sets * ways * z_slots ≤ x → st.pos_map (some x) ≡ none

-- A set lies before the next ones.
pub before_next : (i set_id ways : ℕ) → i < set_id → i * ways + ways ≤ set_id * ways
before_next i set_id ways h =
    let up : suc i * ways ≤ set_id * ways = mul-le-mul_right ways h in omega (arith, suc-mul i ways)

pub count-shuffled :
    (random : Random) (n a k x : ℕ)
    → count x (random.shuffle n (range a k)) ≡ (if leb a x && ltb x (a + k) then 1 else 0)
count-shuffled random n a k x = random.count-shuffle n (range a k) x ∙ count-range x a k

pub IsAssigned-next :
    (random : Random) (draws ways set_id : ℕ) (st st' : Store)
    → IsAssigned ways set_id st
    → IsAdded
        (set_id * ways)
        (set_id * ways + ways)
        (random.shuffle draws (range (set_id * ways * z_slots) (ways * z_slots)))
        st
        st'
    → IsAssigned ways (suc set_id) st'
IsAssigned-next random draws ways set_id st st' v g =
    let times = count-shuffled random draws (set_id * ways * z_slots) (ways * z_slots) in
    record {
      leaf_of = λ i x lt lo hi. elim (Bool-cases (i == set_id)) [
        | inl p ↦
            let here : i ≡ set_id = ground arith in
            subst
              (λ k.
                (line : PosMapLine) × (st'.pos_map (some x) ≡ some (mapped line))
                × (k * ways ≤ line.block_id)
                × (line.block_id < k * ways + ways))
              (sym here)
              (g.new x (
                let lo' : set_id * ways * z_slots ≤ x =
                  subst (λ k. k * ways * z_slots ≤ x) here lo in
                let hi' : x < set_id * ways * z_slots + ways * z_slots =
                  subst (λ k. x < k * ways * z_slots + ways * z_slots) here hi in
                ground (arith, times x)))
        | inr p ↦
            let earlier : i < set_id = ground arith in
            let gap = before_next i set_id ways earlier in
            let (line, e, l, r) = v.leaf_of i x earlier lo hi in
            (line, g.old x (ground (arith, times x)) ∙ e, l, r)
      ];
      unmapped = λ x le.
          let step = suc-mul set_id ways in
          g.old x (ground (arith, times x)) ∙ v.unmapped x (omega arith);
    }
