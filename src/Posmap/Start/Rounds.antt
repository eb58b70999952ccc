-- ===== src/Posmap/Start/Rounds.antt =====
-- All sets of leaves: the loop of `posmap_init_writeback` in src/reservation.h.
use native.Mathlib.Nat.{suc-mul}
use palermo_oram.Base.{
  ℕ, zero, suc, ◌+◌, ◌*◌, ◌≤◌, ◌<◌, ◌≡◌, refl, sym, subst, ◌∙◌, some, for_each, range, length-range,
  arith,
}
use palermo_oram.Params.{z_slots}
use palermo_oram.Tree.{path_node}
use palermo_oram.Store.{Store}
use palermo_oram.State.{Random, Rs}
use palermo_oram.Posmap.Start.{fill_set}
use palermo_oram.Posmap.Start.Leaf.{IsNew, IsUpTo}
use palermo_oram.Posmap.Start.Sets.{
  fill_leaves_total, IsAssigned, IsAssigned-next, count-shuffled, before_next,
}

-- Only the store and the count of random draws change.
abbrev pub with_store : Rs → Store → ℕ → Rs
with_store r st n = record r { store = st; draws = n }

module _ (random : Random) (n start total left lvl : ℕ) (hs : start ≤ lvl) (hl : lvl < n)
    (on_path : (leaf : ℕ) → left + leaf ≡ path_node n leaf lvl) where
  set-IsNew :
      (draws ways set_id : ℕ) (st : Store)
      → IsAssigned ways set_id st
      → IsNew (random.shuffle draws (range (set_id * ways * z_slots) (ways * z_slots))) st
  set-IsNew draws ways set_id st v =
      let times = count-shuffled random draws (set_id * ways * z_slots) (ways * z_slots) in
      record {
        once = λ x. ground (arith, times x);
        unmapped = λ x h. v.unmapped x (ground (arith, times x));
      }

  fill_set_total :
      (set_id : ℕ) (r : Rs)
      → left + set_id * r.geo.num_of_ways + r.geo.num_of_ways ≤ total
      → IsUpTo n start total (left + set_id * r.geo.num_of_ways) r.store
      → IsAssigned r.geo.num_of_ways set_id r.store
      → (st : Store) × (fill_set random left set_id r ≡ some (with_store r st (r.draws + 1)))
        × IsUpTo n start total (left + suc set_id * r.geo.num_of_ways) st
        × IsAssigned r.geo.num_of_ways (suc set_id) st
  unfolding fill_set
  fill_set_total set_id r fits u v =
      let ways = r.geo.num_of_ways in
      let addrs = random.shuffle r.draws (range (set_id * ways * z_slots) (ways * z_slots)) in
      let len = random.length-shuffle r.draws (range (set_id * ways * z_slots) (ways * z_slots)) in
      let (st, e, u', g) =
        fill_leaves_total n start total left lvl hs hl on_path ways (set_id * ways) addrs r.store
          fits u (len ∙ length-range _ _) (set-IsNew r.draws ways set_id r.store v) in
      let next = suc-mul set_id ways in
      (
        st,
        rw e refl,
        subst (λ q. IsUpTo n start total q st) (omega arith) u',
        IsAssigned-next random r.draws ways set_id r.store st v g,
      )

  -- The sets from `set_id` on.
  pub fill_sets_total :
      (m set_id : ℕ) (r : Rs)
      → left + (set_id + m) * r.geo.num_of_ways ≤ total
      → IsUpTo n start total (left + set_id * r.geo.num_of_ways) r.store
      → IsAssigned r.geo.num_of_ways set_id r.store
      → (st : Store) × (d : ℕ) × (for_each (fill_set random left) (range set_id m) r
          ≡ some (with_store r st d))
        × IsUpTo n start total (left + (set_id + m) * r.geo.num_of_ways) st
        × IsAssigned r.geo.num_of_ways (set_id + m) st
  unfolding for_each range
  fill_sets_total zero set_id r fits u v =
      let same : set_id ≡ set_id + 0 = omega arith in
      (
        r.store,
        r.draws,
        refl,
        subst (λ q. IsUpTo n start total (left + q * r.geo.num_of_ways) r.store) same u,
        subst (λ q. IsAssigned r.geo.num_of_ways q r.store) same v,
      )
  fill_sets_total (suc m) set_id r fits u v =
      let ways = r.geo.num_of_ways in
      let grow = before_next set_id (set_id + suc m) ways (omega arith) in
      let (st₁, e₁, u₁, v₁) = fill_set_total set_id r (omega arith) u v in
      let same : suc set_id + m ≡ set_id + suc m = omega arith in
      let (st₂, d, e₂, u₂, v₂) =
        fill_sets_total m (suc set_id) (with_store r st₁ (r.draws + 1))
          (subst (λ q. left + q * ways ≤ total) (sym same) fits) u₁ v₁ in
      (
        st₂,
        d,
        rw e₁ e₂,
        subst (λ q. IsUpTo n start total (left + q * ways) st₂) same u₂,
        subst (λ q. IsAssigned ways q st₂) same v₂,
      )
