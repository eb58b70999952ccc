-- ===== src/Station/Register/Path/Whole.antt =====
-- What the whole of `rs_line_register_write` of src/reservation.h leaves as it is.
use palermo_oram.Base.{
  ℕ, ◌+◌, ◌*◌, ◌-◌, ◌≡◌, refl, ap, ◌∙◌, sym, Bool, true, false, ◌||◌, some, List, ltb,
  if◌then◌else◌, >>=-eq-some, assert, leb, get_elem?, for_each, for_each_inv, range, length,
}
use palermo_oram.Params.{bucket_slots, z_slots}
use palermo_oram.Tree.{slot_address}
use palermo_oram.Store.{pull_slot}
use palermo_oram.State.{Rs, modify_line, write, write_pull, write_push}
use palermo_oram.Station.Core.{core, core_of, modify_line-core, open_line-core, mshr_add-core}
use palermo_oram.Station.Core.Lines.{close_line-core, ld_fwd_st_check-core}
use palermo_oram.Station.Forward.{back, ld_fwd_st_check}
use palermo_oram.Station.Mshr.{mshr_add}
use palermo_oram.Station.Register.{no_address, open_line, request_write_pull}
use palermo_oram.Station.Register.Path.{
  set_node, pull_top_level, pull_path_slot, pull_level, register_write_pull, push_path_slot,
  push_level, register_write_push,
}
use palermo_oram.Station.Register.Path.Bare.{pull_top_level-core, request_write_pull-core}
use palermo_oram.Station.Register.Early.Whole.{for_each-core, Kept, Kept-of_core}

-- The two of `Kept` in turn.
Kept-trans : (a b c : Rs) → Kept a b → Kept b c → Kept a c
Kept-trans a b c p q = (q.0 ∙ p.0, q.1 ∙ p.1)

pull_path_slot-Kept : (node i j : ℕ) (r r' : Rs) → pull_path_slot node i j r ≡ some r' → Kept r r'
unfolding pull_path_slot
pull_path_slot-Kept node i j r r' e =
    let (r₁, c, e₁) = >>=-eq-some (modify_line r.tail _ r) _ e in
    let (g, m) = Kept-of_core r r₁ (modify_line-core r.tail _ r r₁ c) in
    let same : record r₁ { store = pull_slot (slot_address node j) r₁.store } ≡ r' = cc in
    (ap (λ (q : Rs). q.geo) (sym same) ∙ g, ap (λ (q : Rs). q.metadata_cache) (sym same) ∙ m)

pull_level-Kept : (nodes : List ℕ) (i : ℕ) (r r' : Rs) → pull_level nodes i r ≡ some r' → Kept r r'
unfolding pull_level
pull_level-Kept nodes i r r' e =
    let (node, at, e₁) = >>=-eq-some (get_elem? nodes i) _ e in
    let (r₁, c₁, e₂) = >>=-eq-some (modify_line r.tail (set_node i node) r) _ e₁ in
    let (r₂, c₂, e₃) =
      >>=-eq-some (for_each (pull_path_slot node i) (range 0 bucket_slots) r₁) _ e₂ in
    let (b, _, e₄) = >>=-eq-some (get_elem? r₂.store.buckets node) _ e₃ in
    let (r₃, c₃, e₅) = >>=-eq-some (modify_line r₂.tail _ r₂) _ e₄ in
    let (_, _, e₆) = >>=-eq-some (assert (leb (length b.z_arr) z_slots)) _ e₅ in
    let (_, _, e₇) = >>=-eq-some (assert (leb (z_slots - length b.z_arr) (length b.s_arr))) _ e₆ in
    let (r₄, c₄, e₈) = >>=-eq-some (modify_line r₃.tail _ r₃) _ e₇ in
    let last = Kept-of_core r₂ r' (
      modify_line-core r₄.tail _ r₄ r' e₈
      ∙ modify_line-core r₃.tail _ r₃ r₄ c₄
      ∙ modify_line-core r₂.tail _ r₂ r₃ c₃) in
    let slots : Kept r₁ r₂ =
      for_each_inv (Kept r₁) (pull_path_slot node i)
        (λ j s s' k e'. Kept-trans r₁ s s' k (pull_path_slot-Kept node i j s s' e'))
        (range 0 bucket_slots) r₁ (refl, refl) c₂ in
    Kept-trans r r₁ r' (Kept-of_core r r₁ (modify_line-core r.tail (set_node i node) r r₁ c₁))
      (Kept-trans r₁ r₂ r' slots last)

pub register_write_pull-Kept :
    (nodes : List ℕ) (r r' : Rs) → register_write_pull nodes r ≡ some r' → Kept r r'
unfolding register_write_pull
register_write_pull-Kept nodes r r' e =
    let n = r.geo.num_of_lvls in
    let start = r.geo.start_lvl in
    let (leaf, _, e₁) = >>=-eq-some (back nodes) _ e in
    let (r₁, c₁, e₂) = >>=-eq-some (open_line write_pull (some no_address) r) _ e₁ in
    let (r₂, c₂, e₃) = >>=-eq-some (for_each (pull_top_level nodes) (range 0 start) r₁) _ e₂ in
    let (r₃, c₃, e₄) =
      >>=-eq-some (for_each (pull_level nodes) (range start (n - start)) r₂) _ e₃ in
    let (r₄, c₄, e₅) = >>=-eq-some (ld_fwd_st_check r₃.tail leaf true false r₃) _ e₄ in
    let (l, _, e₆) = >>=-eq-some (get_elem? r₄.rs_vec r₄.tail) _ e₅ in
    let (r₅, c₅, e₇) =
      >>=-eq-some (for_each request_write_pull (range 0 (length l.oram_finished_vec_for_pull)) r₄) _
        e₆ in
    let before = Kept-of_core r r₂ (
      for_each-core (pull_top_level nodes) (pull_top_level-core nodes) (range 0 start) r₁ r₂ c₂
      ∙ open_line-core write_pull (some no_address) r r₁ c₁) in
    let after = Kept-of_core r₃ r' (
      close_line-core false r₅ r' e₇
      ∙ for_each-core request_write_pull request_write_pull-core _ r₄ r₅ c₅
      ∙ ld_fwd_st_check-core r₃.tail leaf true false r₃ r₄ c₄) in
    let levels : Kept r₂ r₃ =
      for_each_inv (Kept r₂) (pull_level nodes)
        (λ i s s' k e'. Kept-trans r₂ s s' k (pull_level-Kept nodes i s s' e'))
        (range start (n - start)) r₂ (refl, refl) c₃ in
    Kept-trans r r₂ r' before (Kept-trans r₂ r₃ r' levels after)

sent_or_not :
    (b : Bool) (a j : ℕ) (r r' : Rs)
    → (if b then some r else mshr_add a r.tail j false write r) ≡ some r'
    → core r' ≡ core r
sent_or_not false a j r r' e = mshr_add-core a r.tail j false write r r' e
sent_or_not true a j r r' e = core_of r r' e

push_path_slot-core :
    (top : Bool) (node i j : ℕ) (r r' : Rs)
    → push_path_slot top node i j r ≡ some r'
    → core r' ≡ core r
unfolding push_path_slot
push_path_slot-core top node i j r r' e =
    let (r₁, c, e₁) = >>=-eq-some (modify_line r.tail _ r) _ e in
    sent_or_not (top || (ltb i r.geo.start_lvl || ltb node r.geo.cache_end_nodeid))
      (slot_address node j) (i * bucket_slots + j) r₁ r' e₁
    ∙ modify_line-core r.tail _ r r₁ c

push_level-core :
    (top : Bool) (nodes : List ℕ) (i : ℕ) (r r' : Rs)
    → push_level top nodes i r ≡ some r'
    → core r' ≡ core r
unfolding push_level
push_level-core top nodes i r r' e =
    let (node, _, e₁) = >>=-eq-some (get_elem? nodes i) _ e in
    let (r₁, c₁, e₂) = >>=-eq-some (modify_line r.tail (set_node i node) r) _ e₁ in
    for_each-core (push_path_slot top node i) (push_path_slot-core top node i)
      (range 0 bucket_slots) r₁ r' e₂
    ∙ modify_line-core r.tail (set_node i node) r r₁ c₁

-- The registration of the write of a path moves no block.
pub register_write_push-core :
    (nodes : List ℕ) (r r' : Rs) → register_write_push nodes r ≡ some r' → core r' ≡ core r
unfolding register_write_push
register_write_push-core nodes r r' e =
    let low = r.geo.lowest_uncached_lvl in
    let (r₁, c₁, e₁) = >>=-eq-some (open_line write_push (some no_address) r) _ e in
    let (r₂, c₂, e₂) = >>=-eq-some (for_each (push_level true nodes) (range 0 low) r₁) _ e₁ in
    let (r₃, c₃, e₃) =
      >>=-eq-some (for_each (push_level false nodes) (range low (r.geo.num_of_lvls - low)) r₂) _
        e₂ in
    close_line-core true r₃ r' e₃
    ∙ for_each-core (push_level false nodes) (push_level-core false nodes) _ r₂ r₃ c₃
    ∙ for_each-core (push_level true nodes) (push_level-core true nodes) _ r₁ r₂ c₂
    ∙ open_line-core write_push (some no_address) r r₁ c₁
