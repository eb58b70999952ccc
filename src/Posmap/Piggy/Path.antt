-- ===== src/Posmap/Piggy/Path.antt =====
-- Where a block meets the path of `piggy_writeback`, in src/reservation.h.
use palermo_oram.Base.{
  ℕ, zero, suc, ◌+◌, ◌-◌, ◌^◌, ◌≤◌, ◌<◌, ◌≡◌, ◌≢◌, refl, sym, ◌∙◌, inl, inr, true, none, some, ◌==◌,
  ltb, get_elem?, arith, Bool-cases, range, get_elem?-set_ne,
}
use palermo_oram.Bucket.{Bucket}
use palermo_oram.Tree.{path_node, slot_address}
use palermo_oram.Tree.Paths.{path_node_ends}
use palermo_oram.Tree.Layout.{slot_address-inj}
use palermo_oram.Store.{Store, line_at, put_line}
use palermo_oram.Store.Blocks.{put_at_ne}
use palermo_oram.Posmap.Piggy.{deepest_from}
use palermo_oram.Posmap.Piggy.Fill.{IsFilling, placed, off_lt}

-- Two paths agree down to a level.
abbrev pub Agree : ℕ → ℕ → ℕ → ℕ → Type 0
Agree n a b d = (i : ℕ) → i ≤ d → path_node n a i ≡ path_node n b i

deepest_from_total :
    (n a b : ℕ) (s k d : ℕ)
    → d + 1 ≡ s
    → Agree n a b d
    → (e : ℕ) × (deepest_from n a b (range s k) (some d) ≡ some e) × (e < s + k) × Agree n a b e
unfolding deepest_from range
deepest_from_total n a b s zero d h g = (d, refl, omega arith, g)
deepest_from_total n a b s (suc k) d h g = elim (Bool-cases (path_node n a s == path_node n b s)) [
  | inl p ↦
      let here : path_node n a s ≡ path_node n b s = ground arith in
      let more : Agree n a b s = λ i le. elim (Bool-cases (i == s)) [
        | inl q ↦ let is : i ≡ s = ground arith in rw is here
        | inr q ↦ g i (ground arith)
      ] in
      let (e, run, lt, agree) = deepest_from_total n a b (suc s) k s (omega arith) more in
      (e, rw p run, omega arith, agree)
  | inr p ↦ let below : ltb 0 s ≡ true = ground arith in (d, rw (p, below) refl, omega arith, g)
]

-- The paths of two leaves of the tree agree at the root, and the loop finds a level down to which
-- they do.
pub deepest_total :
    (n a b k : ℕ)
    → 0 < n
    → a < 2 ^ (n - 1)
    → b < 2 ^ (n - 1)
    → (e : ℕ) × (deepest_from n a b (range 0 (suc k)) none ≡ some e) × (e < suc k) × Agree n a b e
unfolding deepest_from range
deepest_total n a b k h ha hb =
    let ra = (path_node_ends n a h ha).1 in
    let rb = (path_node_ends n b h hb).1 in
    let root : path_node n a 0 ≡ path_node n b 0 = ra ∙ sym rb in
    let p : (path_node n a 0 == path_node n b 0) ≡ true = ground arith in
    let only : Agree n a b 0 = λ i le. let z : i ≡ 0 = omega arith in rw z root in
    let (e, run, lt, agree) = deepest_from_total n a b 1 k 0 refl only in
    (e, rw p run, omega arith, agree)

-- The bucket of another node is as full as before.
pub placed-other :
    (n start node lvl : ℕ) (b : Bucket) (address leaf off : ℕ) (st : Store)
    (f : IsFilling st node b) (at : get_elem? b.z_arr b.free_z_index ≡ some off) (other : ℕ)
    (c : Bucket)
    → node ≢ other
    → IsFilling st other c
    → IsFilling (placed n start node lvl b address leaf off st f at) other c
unfolding put_line line_at
placed-other n start node lvl b address leaf off st f at other c ne g = record {
  there = get_elem?-set_ne st.buckets node other _ ne ∙ g.there;
  z_fits = g.z_fits;
  s_fits = g.s_fits;
  once = g.once;
  in_range = g.in_range;
  used = λ o line lt e.
      let apart : slot_address node off ≢ slot_address other o = λ same.
        ne
          (slot_address-inj node other off o (off_lt n start node lvl b address leaf off st f at) lt
            same).0 in
      g.used o line lt (sym (put_at_ne st.addr_to_origaddr _ _ _ apart) ∙ e);
}
