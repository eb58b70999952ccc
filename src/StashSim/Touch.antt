-- ===== src/StashSim/Touch.antt =====
-- The reads of `read_pull` in src/stash_simulation/set_oram.cc: one slot of each kept bucket of a
-- path.
use palermo_oram.Base.{
  ℕ, ◌+◌, ◌-◌, ◌^◌, ◌<◌, ◌≡◌, ◌≢◌, ap, sym, subst, ◌∙◌, inl, inr, Bool, true, Option, none, some,
  List, [], ◌∷◌, ◌++◌, ◌==◌, leb, assert, count, length, arith, Bool-cases, >>=-eq-some,
}
use palermo_oram.Params.{s_slots}
use palermo_oram.Bucket.{Bucket, next_s, take_z, take_first, pop_back}
use palermo_oram.Bucket.Slots.{IsRead, next_s-IsRead, take_z-IsRead, count-take_first}
use palermo_oram.Bucket.Slots as Slots
use palermo_oram.Tree.{path_node}
use palermo_oram.StashSim.{is_kept, touch_bucket}

-- What the read of a bucket does, `intended` being the slot of the block, if it has one.
pub record IsTouched (intended : Option (ℕ × ℕ)) (node : ℕ) (b b' : Bucket) : Type 0 where
  pub valid : Slots.IsValid b'
  pub accessed : b'.accessed_times ≡ b.accessed_times + 1
  pub others :
      (off : ℕ) → intended ≢ some (node, off) → 0 < count off b.z_arr → 0 < count off b'.z_arr

z_arr-next_s :
    (b : Bucket) (r : ℕ × Bool) (b' : Bucket) → next_s b ≡ some (r, b') → b.z_arr ≡ b'.z_arr
unfolding next_s
z_arr-next_s b r b' e =
    let ((ret, rest), _, e₁) = >>=-eq-some (pop_back b.s_arr) _ e in
    let (_, _, e₂) = >>=-eq-some (assert (leb (length rest) s_slots)) _ e₁ in
    ap (λ (o : Option ((ℕ × Bool) × Bucket)). elim o [ none ↦ b.z_arr | some (_, c) ↦ c.z_arr ]) e₂

z_arr-take_z :
    (offset : ℕ) (b : Bucket) (r : ℕ × Bool) (b' : Bucket)
    → take_z offset b ≡ some (r, b')
    → take_first offset b.z_arr ≡ some b'.z_arr
unfolding take_z
z_arr-take_z offset b r b' e =
    let (rest, first, e₁) = >>=-eq-some (take_first offset b.z_arr) _ e in
    let (_, _, e₂) = >>=-eq-some (assert (leb (length b.s_arr) s_slots)) _ e₁ in
    first
    ∙ ap
        (λ (o : Option ((ℕ × Bool) × Bucket)). elim o [
          | none ↦ some rest
          | some (_, c) ↦ some c.z_arr
        ])
        e₂

-- A dummy read.
touch_dummy :
    (intended : Option (ℕ × ℕ)) (node : ℕ) (b : Bucket)
    → Slots.IsValid b
    → b.accessed_times < s_slots
    → (ret : ℕ) × (b' : Bucket) × (next_s b ≡ some ((ret, (b.accessed_times + 1) == s_slots), b'))
      × IsTouched intended node b b'
touch_dummy intended node b v lt =
    let (ret, b', run, r) = next_s-IsRead b v lt in
    let same = z_arr-next_s b _ b' run in
    (
      ret,
      b',
      run,
      record {
        valid = r.valid;
        accessed = r.accessed;
        others = λ off ne p. subst (λ (z : List ℕ). 0 < count off z) same p;
      },
    )

-- The read of the block's slot.
touch_block :
    (node offset : ℕ) (b : Bucket)
    → Slots.IsValid b
    → 0 < count offset b.z_arr
    → (b' : Bucket) × (take_z offset b ≡ some ((offset, (b.accessed_times + 1) == s_slots), b'))
      × IsTouched (some (node, offset)) node b b'
touch_block node offset b v there =
    let (b', run, r) = take_z-IsRead offset b v there in
    let rest = z_arr-take_z offset b _ b' run in
    (
      b',
      run,
      record {
        valid = r.valid;
        accessed = r.accessed;
        others = λ off ne p.
            let other : off ≢ offset = λ e. ne (ap (λ (o : ℕ). some (node, o)) (sym e)) in
            ground (arith, count-take_first off offset b.z_arr rest);
      },
    )

pub touch_bucket_total :
    (intended : Option (ℕ × ℕ)) (node : ℕ) (b : Bucket)
    → Slots.IsValid b
    → b.accessed_times < s_slots
    → ((off : ℕ) → intended ≡ some (node, off) → 0 < count off b.z_arr)
    → (ret : ℕ) × (b' : Bucket) × (touch_bucket intended node b
        ≡ some ((ret, (b.accessed_times + 1) == s_slots), b'))
      × IsTouched intended node b b'
unfolding touch_bucket
touch_bucket_total none node b v lt there = touch_dummy none node b v lt
touch_bucket_total (some (k, offset)) node b v lt there = elim (Bool-cases (k == node)) [
  | inl p ↦
      let here : k ≡ node = ground arith in
      let (b', run, t) =
        touch_block node offset b v (there offset (ap (λ (x : ℕ). some (x, offset)) here)) in
      (offset, b', rw p run, rw here t)
  | inr p ↦
      let (ret, b', run, t) = touch_dummy (some (k, offset)) node b v lt in (ret, b', rw p run, t)
]

-- The nodes of `early_reshuffle_nodes`.
abbrev pub nodes_of : List (ℕ × ℕ) → List ℕ
nodes_of [] = []
nodes_of ((node, _) ∷ rest) = node ∷ nodes_of rest

-- The nodes that may be used up during an access: those that wait for an early reshuffle, and the
-- root, if a path is about to be written back.
abbrev pub spent_of : Option ℕ → List (ℕ × ℕ) → List ℕ
spent_of none early = nodes_of early
spent_of (some _) early = 0 ∷ nodes_of early

-- The nodes that wait are nodes of the tree at kept levels.
abbrev pub AllEarly : ℕ → List (ℕ × ℕ) → Type 0
AllEarly n [] = Unit
AllEarly n ((node, lvl) ∷ rest) =
    ((leaf : ℕ) × (leaf < 2 ^ (n - 1))
      × (lvl < n)
      × (is_kept lvl ≡ true)
      × (path_node n leaf lvl ≡ node))
    × AllEarly n rest

pub AllEarly-append :
    (n : ℕ) (xs ys : List (ℕ × ℕ)) → AllEarly n xs → AllEarly n ys → AllEarly n (xs ++ ys)
AllEarly-append n [] ys p q = q
AllEarly-append n ((node, lvl) ∷ rest) ys p q = (p.0, AllEarly-append n rest ys p.1 q)

pub count-nodes_of-append :
    (x node lvl : ℕ) (early : List (ℕ × ℕ))
    → count x (nodes_of (early ++ ((node, lvl) ∷ [])))
      ≡ count x (nodes_of early) + count x (node ∷ [])
unfolding count
count-nodes_of-append x node lvl [] = omega arith
count-nodes_of-append x node lvl ((k, _) ∷ rest) =
    omega (arith, count-nodes_of-append x node lvl rest)
