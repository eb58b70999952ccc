-- ===== src/Station/Forward.antt =====
-- Load-store forwarding: `ld_fwd_st_check` marks the slots that the last write holds already; and
-- `struct_hazard`.
use palermo_oram.Base.{
  ℕ, zero, suc, ◌+◌, ◌-◌, ◌*◌, ◌/◌, ◌%◌, ◌^◌, Bool, true, false, not, ◌&&◌, ◌||◌, Option, none,
  some, List, [], ◌∷◌, ◌==◌, ltb, leb, if◌then◌else◌, ◌>>=◌, ◌>>◌, assert, get_elem?, set, store_at,
  for_each, range,
}
use palermo_oram.Params.{bucket_slots}
use palermo_oram.Tree.{Geometry, lvl_base_lookup, leaf_division, path_node}
use palermo_oram.State.{RsLine, unkown, is_init, Rs}

-- The flags of level `i` of a line, all its slots for a pull.
unfoldable pub mark_finished : Bool → ℕ → RsLine → Option RsLine
mark_finished true i l = do
  v ←
      for_each (λ j v. store_at v (i * bucket_slots + j) (true, unkown)) (range 0 bucket_slots)
        l.oram_finished_vec_for_pull
  some (record l { oram_finished_vec_for_pull = v })
mark_finished false i l = do
  v ← store_at l.oram_finished_vec_for_read i true
  some (record l { oram_finished_vec_for_read = v })

-- `P(read - left, lvl) == node`. For a read node above the leaves the difference is negative, and the
-- shift rounds down: the two sides are compared with the negative part on the right.
unfoldable pub same_at_level : Geometry → ℕ → ℕ → ℕ → Bool
same_at_level g read_node_id lvl node =
    let left = lvl_base_lookup (g.num_of_lvls - 1) in
    let width = 2 ^ leaf_division g.num_of_lvls lvl in
    if leb left read_node_id
    then path_node g.num_of_lvls (read_node_id - left) lvl == node
    else lvl_base_lookup lvl == node + (left - read_node_id + (width - 1)) / width

-- `v.back()`
unfoldable pub back {ℓ} : {A : Type ℓ} → List A → Option A
back [] = none
back (x ∷ []) = some x
back (x ∷ y ∷ xs) = back (y ∷ xs)

-- The loop over the levels of two paths, with its `break`.
unfoldable pub forward_path : Geometry → Bool → ℕ → ℕ → List ℕ → RsLine → Option RsLine
forward_path g is_pull read_node write_leaf [] l = some l
forward_path g is_pull read_node write_leaf (i ∷ is) l = do
  let left = lvl_base_lookup (g.num_of_lvls - 1)
  assert (leb left read_node)
  assert (leb left write_leaf)
  let rest = (do l' ← mark_finished is_pull i l; forward_path g is_pull read_node write_leaf is l')
  if path_node g.num_of_lvls (read_node - left) i == path_node g.num_of_lvls (write_leaf - left) i
      then rest
      else some l

-- The last write was an early push, of one node.
unfoldable pub forward_node : Geometry → Bool → ℕ → RsLine → RsLine → Option RsLine
forward_node g is_pull read_node_id last l = do
  early_node ← get_elem? last.oram_node_id 0
  early_node_lvl ← get_elem? last.oram_node_id 1
  node ← early_node
  lvl ← early_node_lvl
  if ltb lvl g.lowest_uncached_lvl
      then some l
      else (if same_at_level g read_node_id lvl node then mark_finished is_pull lvl l else some l)

-- The last write was a path.
unfoldable pub forward_write : Geometry → Bool → Bool → ℕ → ℕ → RsLine → Option RsLine
forward_write g is_pull true read_node_id write_leaf l = do assert is_pull; some l
forward_write g is_pull false read_node_id write_leaf l =
    forward_path g is_pull read_node_id write_leaf
      (range g.lowest_uncached_lvl (g.num_of_lvls - g.lowest_uncached_lvl)) l

unfoldable pub ld_fwd_st_check : ℕ → ℕ → Bool → Bool → Rs → Option Rs
ld_fwd_st_check line_number read_node_id is_pull is_early r = if not r.is_oram then some r else (do
  l ← get_elem? r.rs_vec line_number
  l₁ ← for_each (mark_finished is_pull) (range 0 r.geo.lowest_uncached_lvl) l
  let r₁ = record r { rs_vec = set r.rs_vec line_number l₁ }
  last ← get_elem? r₁.rs_vec r.last_write_line
  if is_init last.type || not last.valid then some r₁ else (do
    write_leaf_id ← back last.oram_node_id
    l₂ ← (elim write_leaf_id [
      | none ↦ forward_node r.geo is_pull read_node_id last l₁
      | some leaf ↦ forward_write r.geo is_pull is_early read_node_id leaf l₁
    ])
    some (record r₁ { rs_vec = set r₁.rs_vec line_number l₂ })))

-- `struct_hazard`: one of the next `lookahead` lines is still in use.
unfoldable pub struct_hazard : ℕ → Rs → Option Bool
struct_hazard zero r = some false
struct_hazard (suc i) r = do
  l ← get_elem? r.rs_vec ((r.tail + i) % r.geo.num_of_entries)
  let rest = struct_hazard i r
  if l.valid && not (is_init l.type) then some true else rest
