-- ===== src/StashSim/Subtrees.antt =====
-- Where `piggy_writeback` of src/stash_simulation/set_oram.cc may put a block: the loop for
-- `deepest_lvl`, and the leaf that the block gets in another subtree of its set.
use native.Mathlib.Nat.{
  div-add-mod, mul-add-div, div-eq_of_lt, mod-lt, div-div-eq-div-mul, div-lt_iff_lt-mul,
}
use palermo_oram.Base.{
  ℕ, zero, suc, ◌+◌, ◌-◌, ◌*◌, ◌/◌, ◌%◌, ◌^◌, ◌≤◌, ◌<◌, ◌≡◌, refl, ap, sym, ◌∙◌, true, none, some,
  ◌==◌, ltb, arith, Bool-cases, inl, inr, range,
}
use palermo_oram.Tree.{path_node, leaf_division}
use palermo_oram.Tree.Paths.{pow_pos, pow-add, path_node_ends}
use palermo_oram.StashSim.{cut_lvl, cutdown_lvl, set_num, is_kept, subtree_node}
use palermo_oram.StashSim.Piggy.{
  subtree_leaves, same_subtree, sim_agree, sim_deepest, relabel, leaf_at,
}

-- The kept levels down to `d` pass the test of the loop.
abbrev pub Agrees : ℕ → ℕ → ℕ → ℕ → Type 0
Agrees n a b d = (i : ℕ) → i ≤ d → is_kept i ≡ true → sim_agree n a b i ≡ true

deepest_from :
    (n a b s k d : ℕ)
    → d < s
    → ((i : ℕ) → i < s → is_kept i ≡ true → sim_agree n a b i ≡ true)
    → (e : ℕ) × (sim_deepest n a b (range s k) (some d) ≡ some e) × (e < s + k) × Agrees n a b e
unfolding sim_deepest range
deepest_from n a b s zero d h g = (d, refl, omega arith, λ i le. g i (omega arith))
deepest_from n a b s (suc k) d h g = elim (Bool-cases (is_kept s)) [
  | inr cut ↦
      let more : (i : ℕ) → i < suc s → is_kept i ≡ true → sim_agree n a b i ≡ true = λ i lt kept.
        elim (Bool-cases (i == s)) [
          | inl q ↦
              let is : i ≡ s = ground arith in let here : is_kept s ≡ true = rw is at kept in cc
          | inr q ↦ g i (ground arith) kept
        ] in
      let (e, run, lt, all) = deepest_from n a b (suc s) k d (omega arith) more in
      (e, rw cut run, omega arith, all)
  | inl kept ↦ elim (Bool-cases (sim_agree n a b s)) [
    | inl p ↦
        let more : (i : ℕ) → i < suc s → is_kept i ≡ true → sim_agree n a b i ≡ true = λ i lt c.
          elim (Bool-cases (i == s)) [
            | inl q ↦ let is : i ≡ s = ground arith in rw is p
            | inr q ↦ g i (ground arith) c
          ] in
        let (e, run, lt, all) = deepest_from n a b (suc s) k s (omega arith) more in
        (e, rw (kept, p) run, omega arith, all)
    | inr p ↦
        let below : ltb 0 s ≡ true = ground arith in
        (d, rw (kept, p, below) refl, omega arith, λ i le. g i (omega arith))
  ]
]

-- The loop finds a level, and no assertion fails.
pub sim_deepest_total :
    (n a b : ℕ)
    → 0 < n
    → a < 2 ^ (n - 1)
    → b < 2 ^ (n - 1)
    → (e : ℕ) × (sim_deepest n a b (range 0 n) none ≡ some e) × (e < n) × Agrees n a b e
unfolding sim_deepest range sim_agree
sim_deepest_total zero a b h ha hb = absurd (omega arith)
sim_deepest_total (suc k) a b h ha hb =
    let root : path_node (suc k) a 0 ≡ path_node (suc k) b 0 =
      (path_node_ends (suc k) a h ha).1 ∙ sym (path_node_ends (suc k) b h hb).1 in
    let p : (path_node (suc k) a 0 == path_node (suc k) b 0) ≡ true = ground arith in
    let only : (i : ℕ) → i < 1 → is_kept i ≡ true → sim_agree (suc k) a b i ≡ true =
      λ i lt c. let z : i ≡ 0 = omega arith in rw z p in
    let (e, run, lt, all) = deepest_from (suc k) a b 1 k 0 (omega arith) only in
    (e, rw p run, omega arith, all)

-- Numbers with one quotient by `h`, the multiple of `p`, and remainders with one quotient by `p`.
div_of_parts : (p m q r : ℕ) → 0 < p → (p * m * q + r) / p ≡ m * q + r / p
div_of_parts p m q r h =
    let e : p * m * q + r ≡ p * (m * q) + r = grind arith in rw e (mul-add-div h (m * q) r)

relabel_parts : (h a b : ℕ) → 0 < h → a - a % h + b % h ≡ h * (a / h) + b % h
relabel_parts h a b pos = omega (arith, div-add-mod a h)

relabel_div :
    (p m a b : ℕ)
    → 0 < p
    → 0 < p * m
    → (a % (p * m)) / p ≡ (b % (p * m)) / p
    → (a - a % (p * m) + b % (p * m)) / p ≡ a / p
relabel_div p m a b hp hm e =
    let h = p * m in
    let q = a / h in
    let split : a ≡ h * q + a % h = omega (arith, div-add-mod a h) in
    rw (relabel_parts h a b hm) (
      div_of_parts p m q (b % h) hp
      ∙ ap (λ (t : ℕ). m * q + t) (sym e)
      ∙ sym (div_of_parts p m q (a % h) hp)
      ∙ ap (λ (t : ℕ). t / p) (sym split))

-- The set of a leaf.
abbrev pub set_of_leaf : ℕ → ℕ → ℕ
set_of_leaf n leaf = leaf / (set_num * subtree_leaves n)

relabel_div_self : (h a b : ℕ) → 0 < h → (a - a % h + b % h) / h ≡ a / h
relabel_div_self h a b pos = rw (relabel_parts h a b pos) (
    mul-add-div pos (a / h) (b % h)
    ∙ ap (λ (t : ℕ). a / h + t) (div-eq_of_lt (mod-lt b pos))
    ∙ omega arith)

relabel_set : (h a b : ℕ) → 0 < h → (a - a % h + b % h) / (set_num * h) ≡ a / (set_num * h)
relabel_set h a b pos =
    let swap : set_num * h ≡ h * set_num = omega arith in
    rw swap (
      sym (div-div-eq-div-mul (a - a % h + b % h) h set_num)
      ∙ ap (λ (t : ℕ). t / set_num) (relabel_div_self h a b pos)
      ∙ div-div-eq-div-mul a h set_num)

relabel_lt : (h m a b : ℕ) → 0 < h → a < h * m → a - a % h + b % h < h * m
relabel_lt h m a b pos lt =
    let small : a / h < m = (div-lt_iff_lt-mul pos).1 (omega arith) in
    rw (relabel_parts h a b pos) (grind (arith, mod-lt b pos))

-- How the leaves below a node of a level under the cut divide a subtree.
subtree_split :
    (n i : ℕ)
    → cut_lvl + cutdown_lvl ≤ i
    → i < n
    → subtree_leaves n ≡ 2 ^ leaf_division n i * 2 ^ (i - (cut_lvl + cutdown_lvl))
unfolding leaf_division
subtree_split n i le lt =
    let e : n - 15 - 1 ≡ (n - i - 1) * 1 + (i - 15) = omega arith in
    rw e (pow-add ((n - i - 1) * 1) (i - 15))

subtree_node_eq :
    (n i a b : ℕ)
    → cut_lvl + cutdown_lvl ≤ i
    → i < n
    → subtree_node a (i - 15) (n - 15) ≡ subtree_node b (i - 15) (n - 15)
    → a / 2 ^ leaf_division n i ≡ b / 2 ^ leaf_division n i
unfolding subtree_node leaf_division
subtree_node_eq n i a b le lt e =
    let s : n - 15 - (i - 15) - 1 ≡ (n - i - 1) * 1 = omega arith in
    let e' : 2 ^ (i - 15) - 1 + a / 2 ^ ((n - i - 1) * 1)
        ≡ 2 ^ (i - 15) - 1 + b / 2 ^ ((n - i - 1) * 1) =
      rw s at e in
    omega arith

-- What a leaf is good for that a block gets at a level of the path of `a`.
pub record Fits (n a b i leaf : ℕ) : Type 0 where
  pub on_path : path_node n a i ≡ path_node n leaf i
  pub in_tree : leaf < 2 ^ (n - 1)
  pub same_set : set_of_leaf n leaf ≡ set_of_leaf n b

leaf_below :
    (n a b i : ℕ)
    → cut_lvl + cutdown_lvl ≤ i
    → i < n
    → a < 2 ^ (n - 1)
    → same_subtree n a b i ≡ true
    → Fits n a b i (relabel n a b)
unfolding same_subtree relabel path_node
leaf_below n a b i le lt ha e =
    let h = subtree_leaves n in
    let p = 2 ^ leaf_division n i in
    let m = 2 ^ (i - (cut_lvl + cutdown_lvl)) in
    let one_set : a / (set_num * h) ≡ b / (set_num * h) = ground arith in
    let nodes : subtree_node (a % h) (i - 15) (n - 15) ≡ subtree_node (b % h) (i - 15) (n - 15) =
      ground arith in
    let parts = subtree_node_eq n i (a % h) (b % h) le lt nodes in
    let split : h ≡ p * m = subtree_split n i le lt in
    let pos : 0 < h = pow_pos (n - 15 - 1) in
    let parts' : (a % (p * m)) / p ≡ (b % (p * m)) / p = rw (← split) parts in
    let moved = relabel_div p m a b (pow_pos (leaf_division n i)) (omega arith) parts' in
    let moved' : (a - a % h + b % h) / p ≡ a / p = rw split moved in
    let e₁₅ : n - 1 ≡ (n - 15 - 1) + 15 = omega arith in
    let whole : 2 ^ (n - 1) ≡ h * 2 ^ 15 = rw e₁₅ (pow-add (n - 15 - 1) 15) in
    let within = relabel_lt h (2 ^ 15) a b pos (omega arith) in
    record {
      on_path = omega arith;
      in_tree = omega arith;
      same_set = relabel_set h a b pos ∙ one_set;
    }

-- Where the test of `piggy_writeback` lets a block go to a kept level of the path of a leaf,
-- both leaves being of the tree, the node of that level is on the path of the leaf that the
-- block gets, which is a leaf of the tree in the set of the block's own.
pub leaf_at-Fits :
    (n a b i : ℕ)
    → is_kept i ≡ true
    → i < n
    → a < 2 ^ (n - 1)
    → b < 2 ^ (n - 1)
    → sim_agree n a b i ≡ true
    → Fits n a b i (leaf_at n a b i)
unfolding sim_agree leaf_at
leaf_at-Fits n a b i kept lt ha hb e = elim (Bool-cases (ltb i cut_lvl)) [
  | inl above ↦
      let e' : (path_node n a i == path_node n b i) ≡ true = rw above at e in
      rw above (record { on_path = ground arith; in_tree = hb; same_set = refl })
  | inr below ↦
      let e' : same_subtree n a b i ≡ true = rw below at e in
      rw below (leaf_below n a b i (ground arith) lt ha e')
]
