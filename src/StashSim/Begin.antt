-- ===== src/StashSim/Begin.antt =====
-- The start of src/stash_simulation/set_oram.cc: `posmap_init_writeback`, and `main` up to its loop.
use mathlib.Core.Path.{fun_ext}
use native.Mathlib.Nat.{div-one, two-pow-succ}
use palermo_oram.Base.{
  ℕ, zero, suc, ◌+◌, ◌-◌, ◌*◌, ◌/◌, ◌^◌, ◌≤◌, ◌<◌, ◌≡◌, refl, ap, subst, ◌∙◌, inl, inr, true,
  Option, some, List, [], ◌∷◌, leb, ◌>>=◌, get_elem?, length, lookup, map, range, for_each, arith,
  Bool-cases, >>=-eq-some, get_elem?-map-range, lt-of_get_elem?, length-range,
}
use palermo_oram.Params.{z_slots, bucket_slots}
use palermo_oram.Bucket.{ring_bucket}
use palermo_oram.Bucket.Slots.{ring_bucket-IsValid}
use palermo_oram.Tree.Paths.{pow_pos}
use palermo_oram.Store.{Store, place_block}
use palermo_oram.Store.Known.{IsMapped}
use palermo_oram.State.{Random}
use palermo_oram.Posmap.Piggy.{has_room}
use palermo_oram.Posmap.Piggy.One.{offsets-IsShuffle}
use palermo_oram.Posmap.Start.{fill_leaf, new_bucket}
use palermo_oram.Posmap.Start.Leaf.{IsUpTo, IsNew, IsAdded}
use palermo_oram.Posmap.Start.Sets.{fill_leaves_total, count-shuffled}
use palermo_oram.Posmap.Start.Init.{leaf-path_node}
use palermo_oram.StashSim.{Sim, cut_lvl, cutdown_lvl, sim_init_writeback}
use palermo_oram.StashSim.Routine.{sim_new, sim_start}
use palermo_oram.StashSim.Serving.{IsServing}
use palermo_oram.StashSim.Serving.Moves.{place_block-run, given-IsServing}
use palermo_oram.StashSim.Sound.{IsSound}

-- The rounds over the nodes are rounds over the leaves.
rounds_of_leaves :
    (left a k : ℕ) (s : List ℕ × Store)
    → for_each (λ node. fill_leaf (z_slots + 1) node (node - left)) (range (left + a) k) s
      ≡ for_each (λ leaf. fill_leaf (suc z_slots) (left + leaf) leaf) (range a k) s
unfolding for_each range
rounds_of_leaves left a zero s = refl
rounds_of_leaves left a (suc k) s =
    let here : left + a - left ≡ a = omega arith in
    let next : suc (left + a) ≡ left + suc a = omega arith in
    rw (here, next)
      (ap
        (λ (f : List ℕ × Store → Option (List ℕ × Store)).
          fill_leaf (suc z_slots) (left + a) a s >>= f)
        (fun_ext (λ t. rounds_of_leaves left (suc a) k t)))

fill_leaf-IsServing :
    (n fuel node leaf : ℕ) (spent addrs rest : List ℕ) (st st' : Store)
    → leaf < 2 ^ (n - 1)
    → fill_leaf fuel node leaf (addrs, st) ≡ some (rest, st')
    → IsServing n spent st
    → IsServing n spent st'
unfolding fill_leaf
fill_leaf-IsServing n zero node leaf spent addrs rest st st' small e v = absurd (cc)
fill_leaf-IsServing n (suc fuel) node leaf spent [] rest st st' small e v =
    let (room, _, e₁) = >>=-eq-some (has_room st node) _ e in
    elim (Bool-cases room) [
      | inl q ↦ let e₂ = rw q at e₁ in absurd (cc)
      | inr q ↦
          let e₂ : some ([], st) ≡ some (rest, st') = rw q at e₁ in
          let same : st ≡ st' = cc in subst (IsServing n spent) same v
    ]
fill_leaf-IsServing n (suc fuel) node leaf spent (address ∷ more) rest st st' small e v =
    let (room, _, e₁) = >>=-eq-some (has_room st node) _ e in
    elim (Bool-cases room) [
      | inl q ↦
          let (st₁, run, e₂) = >>=-eq-some (place_block address leaf node st) _ (rw q at e₁) in
          let (b, off, at, got, same) = place_block-run address leaf node st run in
          let v₁ =
            subst (IsServing n spent) same
              (given-IsServing n spent address leaf node off b st v at got small) in
          fill_leaf-IsServing n fuel node leaf spent more rest st₁ st' small e₂ v₁
      | inr q ↦
          let e₂ : some (address ∷ more, st) ≡ some (rest, st') = rw q at e₁ in
          let same : st ≡ st' = cc in subst (IsServing n spent) same v
    ]

fill_leaves-IsServing :
    (n left a k : ℕ) (spent addrs rest : List ℕ) (st st' : Store)
    → a + k ≤ 2 ^ (n - 1)
    → for_each (λ leaf. fill_leaf (suc z_slots) (left + leaf) leaf) (range a k) (addrs, st)
      ≡ some (rest, st')
    → IsServing n spent st
    → IsServing n spent st'
unfolding for_each range
fill_leaves-IsServing n left a zero spent addrs rest st st' fits e v =
    let same : st ≡ st' = cc in subst (IsServing n spent) same v
fill_leaves-IsServing n left a (suc k) spent addrs rest st st' fits e v =
    let ((addrs₁, st₁), run, e₁) =
      >>=-eq-some (fill_leaf (suc z_slots) (left + a) a (addrs, st)) _ e in
    fill_leaves-IsServing n left (suc a) k spent addrs₁ rest st₁ st' (omega arith) e₁ (
      fill_leaf-IsServing n (suc z_slots) (left + a) a spent addrs addrs₁ st st₁ (omega arith) run
        v)

length-map-range {ℓ} : {A : Type ℓ} (f : ℕ → A) (s k : ℕ) → length (map f (range s k)) ≡ k
unfolding range
length-map-range f s zero = refl
length-map-range f s (suc k) = ap suc (length-map-range f (suc s) k)

-- The state before any leaf is filled.
module _ (random : Random) (n total bits : ℕ) where
  abbrev nodes : ℕ
  nodes = (2 ^ n - 1) / 1

  made :
      (node : ℕ)
      → node < nodes
      → get_elem? (sim_new random n total bits).store.buckets node ≡ some (new_bucket random node)
  unfolding sim_new
  made node lt =
      let z : 0 + node ≡ node = omega arith in
      rw z at (get_elem?-map-range (new_bucket random) 0 nodes node lt)

  sim_new-IsUpTo : (left : ℕ) → IsUpTo n 0 nodes left (sim_new random n total bits).store
  unfolding sim_new new_bucket
  sim_new-IsUpTo left = record {
    holds = record {
      sorted = omega arith;
      slots = λ a line e. absurd cc;
      lines = λ x line e. absurd cc;
      apart = λ x leaf line e z f. absurd cc;
    };
    empty = refl;
    below = λ a line e. absurd cc;
    fresh = λ node le lt.
        (random.shuffle node (range 0 bucket_slots), offsets-IsShuffle random node, made node lt);
  }

  sim_new-IsServing : IsServing n [] (sim_new random n total bits).store
  unfolding sim_new new_bucket ring_bucket lookup
  sim_new-IsServing =
      let len = length-map-range (new_bucket random) 0 nodes in
      record {
        size = omega (arith, len, div-one (2 ^ n - 1));
        no_dummy = refl;
        idle = λ x l e. absurd (cc);
        leaves = λ a l e. absurd (cc);
        stash_leaves = λ x leaf e. absurd (cc);
        buckets = λ node b e.
            let lt = lt-of_get_elem? (map (new_bucket random) (range 0 nodes)) node e in
            let at = made node (omega (arith, len)) in
            let same : new_bucket random node ≡ b = cc in
            rw (← same) (record {
              valid = ring_bucket-IsValid node _ (offsets-IsShuffle random node);
              alive = λ z. omega arith;
              used = λ off line lt f. absurd (cc);
            });
      }

-- The last level has as many leaves as the level number says.
leaves_between : (k : ℕ) → (2 ^ (k + 1) - 1) / 1 - (2 ^ k - 1) / 1 ≡ 2 ^ k
leaves_between k =
    let double = two-pow-succ k in
    let same : k + 1 ≡ suc k = omega arith in
    rw same (omega (arith, div-one (2 ^ suc k - 1), div-one (2 ^ k - 1), pow_pos k))

-- The filling of the leaves at the start.
module _ (random : Random) (k total bits : ℕ) where
  abbrev left : ℕ
  left = (2 ^ k - 1) / 1

  abbrev fresh_sim : Sim
  fresh_sim = sim_new random (k + 1) total bits

  abbrev all_addrs : List ℕ
  all_addrs = random.shuffle fresh_sim.draws (range 0 (2 ^ k * z_slots))

  all_addrs-IsNew : IsNew all_addrs fresh_sim.store
  unfolding sim_new
  all_addrs-IsNew =
      let times = count-shuffled random fresh_sim.draws 0 (2 ^ k * z_slots) in
      record { once = λ x. ground (arith, times x); unmapped = λ x h. refl }

  filled_leaves :
      (st : Store) × (for_each
          (λ leaf. fill_leaf (suc z_slots) (left + leaf) leaf)
          (range 0 (2 ^ k))
          (all_addrs, fresh_sim.store)
        ≡ some ([], st))
      × IsUpTo (k + 1) 0 ((2 ^ (k + 1) - 1) / 1) (left + 0 + 2 ^ k) st
      × IsAdded 0 (0 + 2 ^ k) all_addrs fresh_sim.store st
  filled_leaves =
      let len = random.length-shuffle fresh_sim.draws (range 0 (2 ^ k * z_slots)) in
      let none_before : left + 0 ≡ left = omega arith in
      fill_leaves_total (k + 1) 0 ((2 ^ (k + 1) - 1) / 1) left k (omega arith) (omega arith)
        (leaf-path_node k) (2 ^ k) 0 all_addrs fresh_sim.store
        (omega (arith, leaves_between k, pow_pos k))
        (sim_new-IsUpTo random (k + 1) total bits (left + 0))
        (len ∙ length-range 0 (2 ^ k * z_slots)) all_addrs-IsNew

-- `main` of the stash simulation up to its loop finishes, where the tree has a level below the
-- cut, there are one or more blocks and not more than leaves, and the second rounded logarithm
-- is not the greater: the state is sound, it has as many levels as the logarithm says and one
-- more, and each address of the address space is in a bucket.
pub sim_start-IsSound :
    (ceil_log ceil_log2 : ℕ → ℕ) (random : Random) (total : ℕ)
    → cut_lvl + cutdown_lvl ≤ ceil_log total
    → 0 < total
    → total ≤ 2 ^ ceil_log total
    → ceil_log2 total ≤ ceil_log total
    → (s : Sim) × (sim_start ceil_log ceil_log2 random total ≡ some s)
      × IsSound s
      × (s.num_of_lvls ≡ ceil_log total + 1)
      × ((x : ℕ) → x < 2 ^ ceil_log total * z_slots → (leaf : ℕ) × IsMapped s.store x leaf)
unfolding sim_start sim_init_writeback sim_new
sim_start-IsSound ceil_log ceil_log2 random total deep some_block fits bits =
    let k = ceil_log total in
    let (st, run, u, g) = filled_leaves random k total (ceil_log2 total) in
    let last : k + 1 - 1 ≡ k = omega arith in
    let tall : leb 15 k ≡ true = ground arith in
    let wide = leaves_between k in
    let from = rounds_of_leaves ((2 ^ k - 1) / 1) 0 (2 ^ k) in
    let zero_less : (2 ^ k - 1) / 1 + 0 ≡ (2 ^ k - 1) / 1 = omega arith in
    let fresh = fresh_sim random k total (ceil_log2 total) in
    let joined = from (all_addrs random k total (ceil_log2 total), fresh.store) ∙ run in
    let run' = rw zero_less at joined in
    let half : 2 ^ k ≤ 2 ^ (k + 1 - 1) = rw last (omega arith) in
    let same : k + 1 - 1 ≡ k = omega arith in
    let times = count-shuffled random fresh.draws 0 (2 ^ k * z_slots) in
    (
      record fresh { store = st; draws = fresh.draws + 1 },
      rw (last, tall, wide, run') refl,
      record {
        levels = omega arith;
        some_block = some_block;
        fits = omega arith;
        bits_fit = omega arith;
        early = refl;
        holds = u.holds;
        serving =
            fill_leaves-IsServing (k + 1) ((2 ^ k - 1) / 1) 0 (2 ^ k) [] _ [] fresh.store st
              (omega arith) run (sim_new-IsServing random (k + 1) total (ceil_log2 total));
      },
      refl,
      λ x lt.
          let (line, e, _, _) = g.new x (ground (arith, times x)) in
          (line.block_id, (line, e, refl)),
    )
