-- ===== src/Posmap/Access/Steps/Leaves.antt =====
-- The leaves of `get_rand_leaf` in src/reservation.h, and the sets of the schedule in src/Memory.h.
use native.Mathlib.Nat.{
  add-mul-mod_self_left, mul-add-mod_self_right, mod-add-div, mul_assoc, mul_comm, mod-lt,
  mul-add-div_right, div-eq_of_lt,
}
use palermo_oram.Base.{ℕ, ◌+◌, ◌*◌, ◌/◌, ◌%◌, ◌<◌, ◌≡◌, refl, sym, ap, ◌∙◌, some, arith}
use palermo_oram.Params.{z_slots, pos1_metadata_start, pos2_metadata_start}
use palermo_oram.Tree.{TreeName, data_tree, pos1, pos2}
use palermo_oram.State.{Random, Rs}
use palermo_oram.Schedule.{fan, tree_address, set_of_address}
use palermo_oram.Posmap.Access.{wrap_address}
use palermo_oram.Posmap.Access.Reading.{random_block, get_rand_leaf}

-- A space of `t` times Z addresses does not cut a bucket's worth of them.
div_of_wrapped : (a t : ℕ) → (a % (t * z_slots) / z_slots) % t ≡ (a / z_slots) % t
div_of_wrapped a t =
    let whole = mod-add-div a (t * 16) in
    let y = a / (t * 16) in
    let assoc : t * 16 * y ≡ 16 * (t * y) = ap (λ z. z * y) (mul_comm t 16) ∙ mul_assoc 16 t y in
    let parts : a / 16 ≡ a % (t * 16) / 16 + t * y = omega arith in
    sym (ap (λ z. z % t) parts ∙ add-mul-mod_self_left (a % (t * 16) / 16) t y)

-- The leaf that `random_block` gives is one of the set.
random_block-set :
    (random : Random) (set_id : ℕ) (r : Rs)
    → 0 < r.geo.num_of_ways
    → (random_block random set_id r).0 / r.geo.num_of_ways ≡ set_id
unfolding random_block
random_block-set random set_id r h =
    let w = r.geo.num_of_ways in
    let small = mod-lt (random.rand r.draws) h in
    mul-add-div_right h set_id (random.rand r.draws % w)
    ∙ ap (λ z. set_id + z) (div-eq_of_lt small)
    ∙ omega arith

-- Where the addresses of a tree start in the space that it wraps.
abbrev pub start_of : TreeName → ℕ
start_of data_tree = 0
start_of pos1 = pos1_metadata_start
start_of pos2 = pos2_metadata_start

-- The address that a task carries.
tree_address_eq : (t : TreeName) (a : ℕ) → tree_address t (some a) ≡ some (start_of t + a / fan t)
tree_address_eq data_tree a = ap (λ z. some z) (omega arith)
tree_address_eq pos1 a = refl
tree_address_eq pos2 a = refl

-- The leaf that `get_rand_leaf` gives a block is one of the set for which the schedule queues
-- the accesses of its address: in each of the three trees, for the address that a task carries,
-- wrapped into a space of Z addresses for each leaf, if the set has a path and the number at
-- which the tree's addresses start is a multiple of that space.
pub get_rand_leaf-scheduled_set :
    (random : Random) (t : TreeName) (a q k w : ℕ) (r : Rs)
    → 0 < r.geo.num_of_ways
    → start_of t ≡ q * (r.geo.total_num_blocks * z_slots)
    → wrap_address (r.geo.total_num_blocks * z_slots) (tree_address t (some a)) ≡ some w
    → (get_rand_leaf random w r).0 / r.geo.num_of_ways ≡ set_of_address k r.geo t (some a)
unfolding get_rand_leaf
get_rand_leaf-scheduled_set random t a q k w r h at e =
    let space = r.geo.total_num_blocks * z_slots in
    let e' : some ((start_of t + a / fan t) % space) ≡ some w = rw (tree_address_eq t a) at e in
    let carried : (start_of t + a / fan t) % space ≡ w = cc in
    let shifted : w ≡ (a / fan t) % space =
      sym carried
      ∙ ap (λ z. (z + a / fan t) % space) at
      ∙ mul-add-mod_self_right q space (a / fan t) in
    random_block-set random ((w / z_slots) % r.geo.total_num_blocks / r.geo.num_of_ways) r h
    ∙ ap (λ z. (z / z_slots) % r.geo.total_num_blocks / r.geo.num_of_ways) shifted
    ∙ ap (λ z. z / r.geo.num_of_ways) (div_of_wrapped (a / fan t) r.geo.total_num_blocks)
