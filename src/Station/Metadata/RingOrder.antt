-- ===== src/Station/Metadata/RingOrder.antt =====
-- The order in which `get_ring_counter` visits the paths of a set.
use native.Mathlib.Nat.{pow-zero, two-pow-succ, add-mul-div_right, div-eq_of_lt}
use palermo_oram.Base.{
  ℕ, zero, suc, ◌+◌, ◌*◌, ◌/◌, ◌%◌, ◌^◌, ◌≤◌, ◌<◌, ◌≡◌, sym, ap, ◌∙◌, some, arith, get_elem?,
  >>=-eq-some,
}
use palermo_oram.State.{Rs}
use palermo_oram.Station.Metadata.{ring_reverse, get_ring_counter}

below_double : (x p r : ℕ) → x < 2 → r < p → x * p + r < 2 * p
below_double zero p r h k = omega arith
below_double (suc zero) p r h k = omega arith
below_double (suc (suc x)) p r h k = omega arith

-- The reversed counter is the number of a path of the set.
pub ring_reverse_lt : (b c : ℕ) → ring_reverse b c < 2 ^ b
unfolding ring_reverse
ring_reverse_lt zero c = omega (arith, pow-zero)
ring_reverse_lt (suc b) c =
    let small : c % 2 < 2 = omega arith in
    omega (arith, two-pow-succ b, below_double (c % 2) (2 ^ b) _ small (ring_reverse_lt b (c / 2)))

-- The path that `get_ring_counter` picks for a set is one of the set, where a set has a path and
-- the rounded logarithm of its number of paths is not too large: two to its power is at most
-- that number.
pub get_ring_counter-set :
    (ceil_log2 : ℕ → ℕ) (set_id leaf : ℕ) (r r' : Rs)
    → 0 < r.geo.num_of_ways
    → 2 ^ ceil_log2 r.geo.num_of_ways ≤ r.geo.num_of_ways
    → get_ring_counter ceil_log2 set_id r ≡ some (leaf, r')
    → leaf / r.geo.num_of_ways ≡ set_id
unfolding get_ring_counter
get_ring_counter-set ceil_log2 set_id leaf r r' h fits e =
    let b = ceil_log2 r.geo.num_of_ways in
    let (c, _, e') = >>=-eq-some (get_elem? r.ring_counter set_id) _ e in
    let same : ring_reverse b c + set_id * r.geo.num_of_ways ≡ leaf = cc in
    let small : ring_reverse b c < r.geo.num_of_ways = omega (arith, ring_reverse_lt b c) in
    ap (λ z. z / r.geo.num_of_ways) (sym same)
    ∙ add-mul-div_right (ring_reverse b c) set_id h
    ∙ ap (λ z. z + set_id) (div-eq_of_lt small)
    ∙ omega arith
