-- ===== src/Posmap/Start/Leaf.antt =====
-- One leaf of the tree at the start: the `while` of `posmap_init_writeback` in src/reservation.h.
use palermo_oram.Base.{
  ℕ, zero, suc, ◌+◌, ◌≤◌, ◌<◌, ◌≡◌, ◌≢◌, refl, ◌∙◌, inl, inr, true, false, none, some, List, [],
  ◌∷◌, ◌==◌, ltb, get_elem?, length, count, ◌++◌, count-append, take, drop, lookup, arith,
  Bool-cases, Option-cases, get_elem?-of_lt, get_elem?-set_ne,
}
use palermo_oram.Params.{z_slots}
use palermo_oram.Bucket.{Bucket, ring_bucket}
use palermo_oram.Bucket.Slots.{IsShuffle}
use palermo_oram.Tree.{path_node, slot_address}
use palermo_oram.Tree.Layout.{slot_address-inj}
use palermo_oram.Store.{Store, PosMapLine, mapped, put_line, line_at}
use palermo_oram.Store.Blocks.{Holds, put_line-Holds, pos_put_ne, pos_put_self}
use palermo_oram.Posmap.Start.{fill_leaf}
use palermo_oram.Posmap.Piggy.{has_room}
use palermo_oram.Posmap.Piggy.Fill.{
  Holds_buckets, IsFilling, bigger, placed, place_block_eq, off_lt, slot_free, placed-IsFilling,
}
use palermo_oram.Posmap.Piggy.One.{IsBare, fresh-IsFilling}

-- The addresses `xs` have gone to leaves from `lo` up to `hi`; the others are mapped as before.
pub record IsAdded (lo hi : ℕ) (xs : List ℕ) (st st' : Store) : Type 0 where
  pub new :
      (x : ℕ)
      → 0 < count x xs
      → (line : PosMapLine) × (st'.pos_map (some x) ≡ some (mapped line))
        × (lo ≤ line.block_id)
        × (line.block_id < hi)
  pub old : (x : ℕ) → count x xs ≡ 0 → st'.pos_map (some x) ≡ st.pos_map (some x)

-- The nodes from `bound` on still have the bucket they were made with, and no block.
pub record IsUpTo (n start total bound : ℕ) (st : Store) : Type 0 where
  pub holds : Holds n start [] st
  pub empty : st.stash ≡ []
  pub below : (a : ℕ) (line : PosMapLine) → st.addr_to_origaddr a ≡ some line → line.node_id < bound
  pub fresh :
      (node : ℕ)
      → bound ≤ node
      → node < total
      → (tmp : List ℕ) × IsShuffle tmp × (get_elem? st.buckets node ≡ some (ring_bucket node tmp))

-- A stash without blocks has nothing on its way out.
Holds_settled :
    {n start : ℕ} {xs : List ℕ} {st : Store}
    → st.stash ≡ []
    → Holds n start xs st
    → Holds n start [] st
unfolding lookup
Holds_settled none_there v = record {
  sorted = v.sorted;
  slots = v.slots;
  lines = v.lines;
  apart = λ x leaf l e z. let e' = rw none_there at e in absurd cc;
}

-- One address into the leaf.
module _ (n start total node leaf lvl : ℕ) (b : Bucket) (address off : ℕ) (st : Store)
    (u : IsUpTo n start total (suc node) st) (f : IsFilling st node b)
    (at : get_elem? b.z_arr b.free_z_index ≡ some off) where
  abbrev pub after : Store
  after = placed n start node lvl b address leaf off st f at

  pub after-IsAdded : IsAdded leaf (suc leaf) (address ∷ []) st after
  unfolding put_line line_at count
  after-IsAdded = record {
    new = λ x c.
        let here : address ≡ x = ground arith in
        (
          line_at address leaf node off,
          rw (← here) (pos_put_self st.pos_map address _),
          omega arith,
          omega arith,
        );
    old = λ x c. let ne : address ≢ x = ground arith in pos_put_ne st.pos_map address x _ ne;
  }

  after-below :
      (a : ℕ) (line : PosMapLine) → after.addr_to_origaddr a ≡ some line → line.node_id < suc node
  unfolding put_line line_at
  after-below a line e = elim (Bool-cases (slot_address node off == a)) [
    | inl p ↦
        let e' = rw p at e in
        let same : line_at address leaf node off ≡ line = cc in rw (← same) (omega arith)
    | inr p ↦ let e' = rw p at e in u.below a line e'
  ]

  pub after-IsUpTo :
      start ≤ lvl
      → lvl < n
      → node ≡ path_node n leaf lvl
      → st.pos_map (some address) ≡ none
      → IsUpTo n start total (suc node) after
  unfolding put_line line_at
  after-IsUpTo hs hl path out = record {
    holds = Holds_settled u.empty (
        put_line-Holds (line_at address leaf node off) (Holds_buckets _ u.holds) (record {
          unmapped = λ l e. cc;
          path = (lvl, hs, hl, path);
          in_range = off_lt n start node lvl b address leaf off st f at;
          free = slot_free n start node lvl b address leaf off st f at;
          idle = refl;
        }));
    empty = u.empty;
    below = after-below;
    fresh = λ m le lt.
        let (tmp, s, e) = u.fresh m le lt in
        (tmp, s, get_elem?-set_ne st.buckets node m _ (λ q. omega arith) ∙ e);
  }

-- What may still be placed: no address twice, and none that is mapped.
pub record IsNew (xs : List ℕ) (st : Store) : Type 0 where
  pub once : (x : ℕ) → count x xs ≤ 1
  pub unmapped : (x : ℕ) → 0 < count x xs → st.pos_map (some x) ≡ none

-- Two additions, one after the other.
pub IsAdded-append :
    (lo mid hi : ℕ) (xs ys : List ℕ) (st st₁ st₂ : Store)
    → lo ≤ mid
    → mid ≤ hi
    → (lo' : ℕ) → lo ≤ lo'
    → lo' ≤ hi
    → IsAdded lo mid xs st st₁
    → IsAdded lo' hi ys st₁ st₂
    → IsAdded lo hi (xs ++ ys) st st₂
IsAdded-append lo mid hi xs ys st st₁ st₂ a b lo' c d f g = record {
  new = λ x h. elim (Bool-cases (ltb 0 (count x ys))) [
    | inl p ↦ let (line, e, l, r) = g.new x (ground arith) in (line, e, omega arith, r)
    | inr p ↦
        let (line, e, l, r) = f.new x (ground (arith, count-append x xs ys)) in
        (line, g.old x (ground arith) ∙ e, l, omega arith)
  ];
  old = λ x h.
      g.old x (omega (arith, count-append x xs ys)) ∙ f.old x (omega (arith, count-append x xs ys));
}

-- The `while` over one leaf: with room for `j` more blocks it takes the next `j` addresses.
pub fill_leaf_total :
    (n start total node leaf lvl : ℕ)
    → start ≤ lvl
    → lvl < n
    → node ≡ path_node n leaf lvl
    → (j : ℕ) (addrs : List ℕ) (b : Bucket) (st : Store) → IsUpTo n start total (suc node) st
    → IsFilling st node b
    → b.free_z_index + j ≡ z_slots
    → j ≤ length addrs
    → IsNew addrs st
    → (st' : Store) × (fill_leaf (suc j) node leaf (addrs, st) ≡ some (drop j addrs, st'))
      × IsUpTo n start total (suc node) st'
      × IsAdded leaf (suc leaf) (take j addrs) st st'
unfolding fill_leaf has_room count
fill_leaf_total n start total node leaf lvl hs hl path zero addrs b st u f room enough v =
    let full : ltb b.free_z_index z_slots ≡ false = ground arith in
    (
      st,
      rw (f.there, full) refl,
      u,
      record { new = λ x h. absurd (omega arith); old = λ x h. refl },
    )
fill_leaf_total n start total node leaf lvl hs hl path (suc j) [] b st u f room enough v =
    absurd (omega arith)
fill_leaf_total n start total node leaf lvl hs hl path (suc j) (address ∷ rest) b st u f room enough
      v =
    let (off, at) = get_elem?-of_lt b.z_arr b.free_z_index (omega (arith, f.z_fits)) in
    let more : ltb b.free_z_index z_slots ≡ true = ground arith in
    let st₁ = after n start total node leaf lvl b address off st u f at in
    let u₁ =
      after-IsUpTo n start total node leaf lvl b address off st u f at hs hl path
        (v.unmapped address (ground arith)) in
    let g₁ = after-IsAdded n start total node leaf lvl b address off st u f at in
    let (st₂, e, u₂, g₂) =
      fill_leaf_total n start total node leaf lvl hs hl path j rest
        (bigger n start node lvl b address leaf off st f at) st₁ u₁
        (placed-IsFilling n start node lvl b address leaf off st f at) (omega arith) (omega arith)
        (record {
          once = λ x. omega (arith, v.once x);
          unmapped = λ x c. g₁.old x (ground (arith, v.once x)) ∙ v.unmapped x (omega arith);
        }) in
    (
      st₂,
      rw (f.there, more, place_block_eq n start node lvl b address leaf off st f at) e,
      u₂,
      IsAdded-append leaf (suc leaf) (suc leaf) (address ∷ []) (take j rest) st st₁ st₂
          (omega arith) (omega arith) leaf (omega arith) (omega arith) g₁ g₂,
    )

-- A leaf that is not filled yet gets Z blocks.
pub fill_next_leaf :
    (n start total node leaf lvl : ℕ)
    → start ≤ lvl
    → lvl < n
    → node ≡ path_node n leaf lvl
    → node < total
    → (addrs : List ℕ) (st : Store) → IsUpTo n start total node st
    → z_slots ≤ length addrs
    → IsNew addrs st
    → (st' : Store) × (fill_leaf (suc z_slots) node leaf (addrs, st)
        ≡ some (drop z_slots addrs, st'))
      × IsUpTo n start total (suc node) st'
      × IsAdded leaf (suc leaf) (take z_slots addrs) st st'
unfolding ring_bucket
fill_next_leaf n start total node leaf lvl hs hl path lt addrs st u enough v =
    let (tmp, s, at) = u.fresh node (omega arith) lt in
    let bare : IsBare st node = λ off small.
      elim (Option-cases (st.addr_to_origaddr (slot_address node off))) [
        | inl gone ↦ gone
        | inr (line, used) ↦
            let (eq, ok, _, (_, _)) = u.holds.slots _ line used in
            let (same, _) = slot_address-inj node line.node_id off line.offset small ok eq in
            absurd (omega (arith, u.below _ line used))
      ] in
    fill_leaf_total n start total node leaf lvl hs hl path z_slots addrs (ring_bucket node tmp) st
      (record {
        holds = u.holds;
        empty = u.empty;
        below = λ a line e. omega (arith, u.below a line e);
        fresh = λ m le small. u.fresh m (omega arith) small;
      })
      (fresh-IsFilling st node tmp s at bare) refl enough v
