-- ===== src/Tree/Paths.antt =====
-- The paths of the tree: levels, parents, and how two paths part.
use native.Mathlib.Nat.{
  pow-suc, pow-zero, zero-add, div-div-eq-div-mul, div-lt_iff_lt-mul, one-le-pow, two-pow-succ,
  pow-le-pow_right, div-eq_of_lt,
}
use palermo_oram.Base.{ℕ, zero, suc, ◌+◌, ◌-◌, ◌*◌, ◌/◌, ◌^◌, ◌≤◌, ◌<◌, ◌≡◌, ap, sym, ◌∙◌, arith}
use palermo_oram.Tree.{lvl_base_lookup, leaf_division, path_node}

pub pow_pos : (n : ℕ) → 0 < 2 ^ n
pow_pos n = one-le-pow n 2 (omega arith)

pub pow-add : (a b : ℕ) → 2 ^ (a + b) ≡ 2 ^ a * 2 ^ b
pow-add zero b = rw (zero-add, pow-zero) (omega arith)
pow-add (suc a) b =
    let e : suc a + b ≡ suc (a + b) = omega arith in
    rw e
      (omega (arith, pow-add a b, ap (λ (t : ℕ). t * 2 ^ b) (two-pow-succ a), two-pow-succ (a + b)))

pub lvl_base_lookup_closed : (l : ℕ) → lvl_base_lookup l + 1 ≡ 2 ^ l
unfolding lvl_base_lookup
lvl_base_lookup_closed l = let e : l * 1 ≡ l = omega arith in rw e (omega (arith, pow_pos l))

leaf_division-suc : (n l : ℕ) → suc l < n → leaf_division n l ≡ suc (leaf_division n (suc l))
unfolding leaf_division
leaf_division-suc n l h = omega arith

-- The node numbers of a level follow on those of the level above.
pub lvl_base_lookup-suc : (l : ℕ) → lvl_base_lookup (suc l) ≡ lvl_base_lookup l + 2 ^ l
lvl_base_lookup-suc l =
    omega
      (arith, lvl_base_lookup_closed l, lvl_base_lookup_closed (suc l), two-pow-succ l, pow_pos l)

-- A step down a path halves the leaves below.
division-suc :
    (n leaf l : ℕ)
    → suc l < n
    → leaf / 2 ^ leaf_division n l ≡ leaf / 2 ^ leaf_division n (suc l) / 2
division-suc n leaf l h = rw (leaf_division-suc n l h, pow-suc) (sym (div-div-eq-div-mul leaf _ 2))

leaf_division_sum : (n l : ℕ) → l < n → n - 1 ≡ l + leaf_division n l
unfolding leaf_division
leaf_division_sum n l h = omega arith

-- The node that the path to one of the leaves has at a level of the tree lies between the first
-- node of that level and the first of the next.
pub path_node_bounds :
    (n leaf l : ℕ)
    → l < n
    → leaf < 2 ^ (n - 1)
    → (lvl_base_lookup l ≤ path_node n leaf l) × (path_node n leaf l < lvl_base_lookup (suc l))
unfolding path_node
path_node_bounds n leaf l h k =
    let d = leaf_division n l in
    let split : n - 1 ≡ l + d = leaf_division_sum n l h in
    let small : leaf < 2 ^ l * 2 ^ d = rw (← pow-add l d, ← split) k in
    let quot = (div-lt_iff_lt-mul (pow_pos d)).1 small in
    (omega arith, omega (arith, lvl_base_lookup-suc l, quot))

-- The node of a path at a level is `(x - 1) / 2` for its node x at the next level, where that is
-- still in the tree.
pub path_node-parent :
    (n leaf l : ℕ) → suc l < n → path_node n leaf l ≡ (path_node n leaf (suc l) - 1) / 2
unfolding path_node
path_node-parent n leaf l h =
    omega
      (arith, division-suc n leaf l h, lvl_base_lookup-suc l, lvl_base_lookup_closed l, pow_pos l)

-- Two paths of a tree of `n` levels that have the same node at a level below `n` have the same
-- node at each level above it.
pub paths_meet_above :
    (n a b l k : ℕ)
    → l + k < n
    → path_node n a (l + k) ≡ path_node n b (l + k)
    → path_node n a l ≡ path_node n b l
paths_meet_above n a b l zero h e = let z : l + 0 ≡ l = omega arith in rw z at e
paths_meet_above n a b l (suc k) h e =
    let z : l + suc k ≡ suc (l + k) = omega arith in
    let e' : path_node n a (suc (l + k)) ≡ path_node n b (suc (l + k)) = rw z at e in
    let up = path_node-parent n a (l + k) (omega arith) in
    let vp = path_node-parent n b (l + k) (omega arith) in
    paths_meet_above n a b l k (omega arith) (up ∙ ap (λ m. (m - 1) / 2) e' ∙ sym vp)

lvl_base_lookup_mono : (l m : ℕ) → l ≤ m → lvl_base_lookup l ≤ lvl_base_lookup m
lvl_base_lookup_mono l m h = omega (
  arith,
  lvl_base_lookup_closed l,
  lvl_base_lookup_closed m,
  pow-le-pow_right {n = 2} (omega arith) h,
)

-- In a tree of `n` levels, the nodes that the paths to two leaves have at two levels are the
-- same only if the levels are.
pub level_of_path_node :
    (n a b l m : ℕ)
    → l < n
    → m < n
    → a < 2 ^ (n - 1)
    → b < 2 ^ (n - 1)
    → path_node n a l ≡ path_node n b m
    → l ≡ m
level_of_path_node n a b l m hl hm ha hb e =
    let u = path_node_bounds n a l hl ha in
    let v = path_node_bounds n b m hm hb in
    ground (arith, lvl_base_lookup_mono (suc l) m, lvl_base_lookup_mono (suc m) l)

-- The node of a path at the last level is the leaf, and at the first the root.
pub path_node_ends :
    (n leaf : ℕ)
    → 0 < n
    → leaf < 2 ^ (n - 1)
    → (path_node n leaf (n - 1) ≡ lvl_base_lookup (n - 1) + leaf) × (path_node n leaf 0 ≡ 0)
unfolding path_node leaf_division lvl_base_lookup
path_node_ends n leaf h k =
    let last : (n - (n - 1) - 1) * 1 ≡ 0 = omega arith in
    let top : (n - 0 - 1) * 1 ≡ n - 1 = omega arith in
    (rw (last, pow-zero) (omega arith), rw (top, div-eq_of_lt k) (omega arith))
