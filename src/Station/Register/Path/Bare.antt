-- ===== src/Station/Register/Path/Bare.antt =====
-- The pull of a path by `rs_line_register_write` of src/reservation.h, on the store.
use palermo_oram.Base.{
  ℕ, zero, suc, ◌+◌, ◌-◌, ◌≤◌, ◌<◌, ◌≡◌, sym, ap, subst, ◌∙◌, true, false, none, some, [], List,
  arith, ◌==◌, inl, inr, Bool-cases, >>=-eq-some, assert, get_elem?, for_each, range, leb, length,
}
use palermo_oram.Params.{bucket_slots, z_slots}
use palermo_oram.Tree.{slot_address}
use palermo_oram.Store.{Store, pull_slot}
use palermo_oram.Store.Blocks.{Holds}
use palermo_oram.State.{Rs, modify_line, write, write_pull, is_useful}
use palermo_oram.Station.Core.{Core, core, core_of, modify_line-core, open_line-core, mshr_add-core}
use palermo_oram.Station.Core.Lines.{close_line-core, ld_fwd_st_check-core, count_unfinished-core}
use palermo_oram.Station.Forward.{back, ld_fwd_st_check}
use palermo_oram.Station.Mshr.{mshr_add}
use palermo_oram.Station.Register.{no_address, open_line, request_write_pull, count_write_pull}
use palermo_oram.Station.Register.Path.{
  set_node, pull_top_level, pull_path_slot, pull_level, register_write_pull,
}
use palermo_oram.Station.Register.Path.Moved.{
  IsMoved, pull_slot-IsMoved, IsMoved-trans, IsMoved-none,
}
use palermo_oram.Station.Register.Early.Bare.{pull_slot_clears, pull_slot_keeps, modify_line-store}
use palermo_oram.Station.Register.Early.Whole.{for_each-core}

-- The first `s` slots of a node hold no block.
abbrev pub IsBareTo : ℕ → ℕ → Store → Type 0
IsBareTo node s st = (off : ℕ) → off < s → st.addr_to_origaddr (slot_address node off) ≡ none

-- The nodes of a path from level `start` up to level `s` hold no block.
abbrev pub IsPathBare : List ℕ → ℕ → ℕ → Store → Type 0
IsPathBare nodes start s st =
    (lvl node : ℕ)
    → start ≤ lvl
    → lvl < s
    → get_elem? nodes lvl ≡ some node
    → IsBareTo node bucket_slots st

same_store : (q r : Rs) → core r ≡ core q → r.store ≡ q.store
same_store q r e = ap (λ (c : Core). c.store) e

pull_path_slot-store :
    (node i j : ℕ) (r r' : Rs)
    → pull_path_slot node i j r ≡ some r'
    → r'.store ≡ pull_slot (slot_address node j) r.store
unfolding pull_path_slot
pull_path_slot-store node i j r r' e =
    let (r₁, e₁, e₂) = >>=-eq-some (modify_line r.tail _ r) _ e in
    let same : record r₁ { store = pull_slot (slot_address node j) r₁.store } ≡ r' = cc in
    ap (λ (q : Rs). q.store) (sym same)
    ∙ ap (pull_slot (slot_address node j)) (modify_line-store r.tail _ r e₁)

IsBareTo-suc :
    (node j : ℕ) (st : Store)
    → IsBareTo node j st
    → IsBareTo node (suc j) (pull_slot (slot_address node j) st)
IsBareTo-suc node j st q off lt = elim (Bool-cases (off == j)) [
  | inl p ↦ let here : off ≡ j = ground arith in rw here (pull_slot_clears (slot_address node j) st)
  | inr p ↦ pull_slot_keeps (slot_address node j) (slot_address node off) st (q off (ground arith))
]

-- The slots of one node.
pull_path_node :
    (n start node i s k : ℕ) (before : Store) (r r' : Rs)
    → IsMoved n start before r.store
    → IsBareTo node s r.store
    → for_each (pull_path_slot node i) (range s k) r ≡ some r'
    → IsMoved n start before r'.store × IsBareTo node (s + k) r'.store
unfolding for_each range
pull_path_node n start node i s zero before r r' m q e =
    let same : r.store ≡ r'.store = cc in
    let z : s + 0 ≡ s = omega arith in
    rw z (subst (λ (t : Store). IsMoved n start before t × IsBareTo node s t) same (m, q))
pull_path_node n start node i s (suc k) before r r' m q e =
    let (r₁, e₁, e₂) = >>=-eq-some (pull_path_slot node i s r) _ e in
    let now = sym (pull_path_slot-store node i s r r₁ e₁) in
    let z : s + suc k ≡ suc s + k = omega arith in
    rw z (
      pull_path_node n start node i (suc s) k before r₁ r'
        (subst (IsMoved n start before) now
          (pull_slot-IsMoved n start (slot_address node s) before r.store m))
        (subst (IsBareTo node (suc s)) now (IsBareTo-suc node s r.store q)) e₂)

-- One level of the path.
pull_level-IsMoved :
    (n start : ℕ) (nodes : List ℕ) (i : ℕ) (r r' : Rs)
    → Holds n start [] r.store
    → pull_level nodes i r ≡ some r'
    → (node : ℕ) × (get_elem? nodes i ≡ some node)
      × IsMoved n start r.store r'.store
      × IsBareTo node bucket_slots r'.store
unfolding pull_level
pull_level-IsMoved n start nodes i r r' v e =
    let (node, at, e₁) = >>=-eq-some (get_elem? nodes i) _ e in
    let (r₁, c₁, e₂) = >>=-eq-some (modify_line r.tail (set_node i node) r) _ e₁ in
    let (r₂, c₂, e₃) =
      >>=-eq-some (for_each (pull_path_slot node i) (range 0 bucket_slots) r₁) _ e₂ in
    let (b, _, e₄) = >>=-eq-some (get_elem? r₂.store.buckets node) _ e₃ in
    let (r₃, c₃, e₅) = >>=-eq-some (modify_line r₂.tail _ r₂) _ e₄ in
    let (_, _, e₆) = >>=-eq-some (assert (leb (length b.z_arr) z_slots)) _ e₅ in
    let (_, _, e₇) = >>=-eq-some (assert (leb (z_slots - length b.z_arr) (length b.s_arr))) _ e₆ in
    let (r₄, c₄, e₈) = >>=-eq-some (modify_line r₃.tail _ r₃) _ e₇ in
    let first = modify_line-store r.tail (set_node i node) r c₁ in
    let begun : IsMoved n start r.store r₁.store =
      subst (IsMoved n start r.store) (sym first) (IsMoved-none n start r.store v) in
    let (m, q) =
      pull_path_node n start node i 0 bucket_slots r.store r₁ r₂ begun
        (λ off lt. absurd (omega arith)) c₂ in
    let last : r₂.store ≡ r'.store = sym (
      modify_line-store r₄.tail _ r₄ e₈
      ∙ modify_line-store r₃.tail _ r₃ c₄
      ∙ modify_line-store r₂.tail _ r₂ c₃) in
    (node, at, subst (IsMoved n start r.store) last m, subst (IsBareTo node bucket_slots) last q)

-- The levels of the path.
pull_levels :
    (n start : ℕ) (nodes : List ℕ) (s k : ℕ) (before : Store) (r r' : Rs)
    → IsMoved n start before r.store
    → IsPathBare nodes start s r.store
    → for_each (pull_level nodes) (range s k) r ≡ some r'
    → IsMoved n start before r'.store × IsPathBare nodes start (s + k) r'.store
unfolding for_each range
pull_levels n start nodes s zero before r r' m q e =
    let same : r.store ≡ r'.store = cc in
    let z : s + 0 ≡ s = omega arith in
    rw z (subst (λ (t : Store). IsMoved n start before t × IsPathBare nodes start s t) same (m, q))
pull_levels n start nodes s (suc k) before r r' m q e =
    let (r₁, e₁, e₂) = >>=-eq-some (pull_level nodes s r) _ e in
    let (node, at, m₁, q₁) = pull_level-IsMoved n start nodes s r r₁ m.holds e₁ in
    let bare : IsPathBare nodes start (suc s) r₁.store = (λ lvl w high low there off lt.
      elim (Bool-cases (lvl == s)) [
        | inl p ↦
            let here : lvl ≡ s = ground arith in
            let there' = rw here at there in let one : node ≡ w = cc in rw (sym one) (q₁ off lt)
        | inr p ↦ m₁.keeps (slot_address w off) (q lvl w high (ground arith) there off lt)
      ]) in
    let z : s + suc k ≡ suc s + k = omega arith in
    rw z (
      pull_levels n start nodes (suc s) k before r₁ r'
        (IsMoved-trans n start before r.store r₁.store m m₁) bare e₂)

pub pull_top_level-core :
    (nodes : List ℕ) (i : ℕ) (r r' : Rs) → pull_top_level nodes i r ≡ some r' → core r' ≡ core r
unfolding pull_top_level
pull_top_level-core nodes i r r' e =
    let (node, _, e₁) = >>=-eq-some (get_elem? nodes i) _ e in modify_line-core r.tail _ r r' e₁

pub request_write_pull-core :
    (i : ℕ) (r r' : Rs) → request_write_pull i r ≡ some r' → core r' ≡ core r
unfolding request_write_pull
request_write_pull-core i r r' e =
    let (l, _, e₁) = >>=-eq-some (get_elem? r.rs_vec r.tail) _ e in
    let ((finished, tag), _, e₂) = >>=-eq-some (get_elem? l.oram_finished_vec_for_pull i) _ e₁ in
    let (slot, _, e₃) = >>=-eq-some (get_elem? l.oram_addr_for_pull i) _ e₂ in
    elim (Bool-cases finished) [
      | inl q ↦ let e₄ : some r ≡ some r' = rw q at e₃ in core_of r r' e₄
      | inr q ↦
          let e₄ = rw q at e₃ in
          let (addr, _, e₅) = >>=-eq-some slot _ e₄ in
          let (r₁, m, e₆) =
            >>=-eq-some
              (mshr_add addr r.tail i true write
                (record r { stats = count_write_pull (is_useful tag) r.stats }))
              _ e₅ in
          count_unfinished-core r₁ r' e₆ ∙ mshr_add-core addr r.tail i true write _ r₁ m
    ]

-- The registration of the pull of a path, in a station that keeps the invariant of the store,
-- when it finishes: the invariant holds, no block is forgotten, no slot gets a block, and no
-- block is mapped to a slot of the path from `start_lvl` on.
pub register_write_pull-IsPathBare :
    (nodes : List ℕ) (r r' : Rs)
    → Holds r.geo.num_of_lvls r.geo.start_lvl [] r.store
    → r.geo.start_lvl ≤ r.geo.num_of_lvls
    → register_write_pull nodes r ≡ some r'
    → IsMoved r.geo.num_of_lvls r.geo.start_lvl r.store r'.store
      × IsPathBare nodes r.geo.start_lvl r.geo.num_of_lvls r'.store
unfolding register_write_pull
register_write_pull-IsPathBare nodes r r' v high e =
    let n = r.geo.num_of_lvls in
    let start = r.geo.start_lvl in
    let (leaf, _, e₁) = >>=-eq-some (back nodes) _ e in
    let (r₁, c₁, e₂) = >>=-eq-some (open_line write_pull (some no_address) r) _ e₁ in
    let (r₂, c₂, e₃) = >>=-eq-some (for_each (pull_top_level nodes) (range 0 start) r₁) _ e₂ in
    let (r₃, c₃, e₄) =
      >>=-eq-some (for_each (pull_level nodes) (range start (n - start)) r₂) _ e₃ in
    let (r₄, c₄, e₅) = >>=-eq-some (ld_fwd_st_check r₃.tail leaf true false r₃) _ e₄ in
    let (l, _, e₆) = >>=-eq-some (get_elem? r₄.rs_vec r₄.tail) _ e₅ in
    let (r₅, c₅, e₇) =
      >>=-eq-some (for_each request_write_pull (range 0 (length l.oram_finished_vec_for_pull)) r₄) _
        e₆ in
    let before = same_store r r₂ (
      for_each-core (pull_top_level nodes) (pull_top_level-core nodes) (range 0 start) r₁ r₂ c₂
      ∙ open_line-core write_pull (some no_address) r r₁ c₁) in
    let after = same_store r₃ r' (
      close_line-core false r₅ r' e₇
      ∙ for_each-core request_write_pull request_write_pull-core _ r₄ r₅ c₅
      ∙ ld_fwd_st_check-core r₃.tail leaf true false r₃ r₄ c₄) in
    let begun : IsMoved n start r.store r₂.store =
      subst (IsMoved n start r.store) (sym before) (IsMoved-none n start r.store v) in
    let z : start + (n - start) ≡ n = omega arith in
    let done =
      pull_levels n start nodes start (n - start) r.store r₂ r₃ begun
        (λ lvl w h h'. absurd (omega arith)) c₃ in
    subst (λ (t : Store). IsMoved n start r.store t × IsPathBare nodes start n t) (sym after)
      (rw z at done)
