-- ===== src/Schedule/Keys.antt =====
-- Keys, the deque and the pool of src/Memory.h and src/task.h.
use palermo_oram.Base.{
  ◌≡◌, refl, subst, inl, inr, ◌⊎◌, true, false, Option, none, some, List, [], ◌∷◌, Bool-cases,
  arith,
}
use palermo_oram.Tree.{TreeName, data_tree, pos1, pos2}
use palermo_oram.Schedule.{Key, Task2d, Deque, same_tree, same_key, deque_put, in_pool, pool_erase}

pub same_tree_self : (t : TreeName) → same_tree t t ≡ true
same_tree_self data_tree = refl
same_tree_self pos1 = refl
same_tree_self pos2 = refl

pub same_tree_eq : (t u : TreeName) → same_tree t u ≡ true → t ≡ u
same_tree_eq data_tree data_tree e = refl
same_tree_eq data_tree pos1 e = cc
same_tree_eq data_tree pos2 e = cc
same_tree_eq pos1 data_tree e = cc
same_tree_eq pos1 pos1 e = refl
same_tree_eq pos1 pos2 e = cc
same_tree_eq pos2 data_tree e = cc
same_tree_eq pos2 pos1 e = cc
same_tree_eq pos2 pos2 e = refl

pub same_key_self : (k : Key) → same_key k k ≡ true
same_key_self (i, t) = ground (arith, same_tree_self t)

pub same_key_eq : (k q : Key) → same_key k q ≡ true → k ≡ q
same_key_eq (i, t) (j, u) e =
    let here : i ≡ j = ground arith in
    let both : same_tree t u ≡ true = ground arith in let tree = same_tree_eq t u both in cc

-- What can be read after a write.
pub deque_put-some :
    (d : Deque) (k q : Key) (v : Task2d) {o : Task2d}
    → deque_put d k (some v) q ≡ some o
    → ((k ≡ q) × (v ≡ o)) ⊎ ((same_key k q ≡ false) × (d q ≡ some o))
deque_put-some d k q v e = elim (Bool-cases (same_key k q)) [
  | inl p ↦ let e' = rw p at e in inl (same_key_eq k q p, cc)
  | inr p ↦ let e' = rw p at e in inr (p, e')
]

pub deque_put-none :
    (d : Deque) (k q : Key) {o : Task2d}
    → deque_put d k none q ≡ some o
    → (same_key k q ≡ false) × (d q ≡ some o)
deque_put-none d k q e = elim (Bool-cases (same_key k q)) [
  | inl p ↦ let e' = rw p at e in absurd cc
  | inr p ↦ let e' = rw p at e in (p, e')
]

pub deque_put_same : (d : Deque) (k : Key) (v : Option Task2d) → deque_put d k v k ≡ v
deque_put_same d k v = rw (same_key_self k) refl

pub deque_put_other :
    (d : Deque) (k q : Key) (v : Option Task2d) → same_key k q ≡ false → deque_put d k v q ≡ d q
deque_put_other d k q v p = rw p refl

-- A pool that has each key at most once.
abbrev pub IsApart : List Key → Type 0
IsApart [] = Unit
IsApart (q ∷ qs) = (in_pool q qs ≡ false) × IsApart qs

pub in_pool-pool_erase :
    (q k : Key) (pool : List Key) → in_pool q (pool_erase k pool) ≡ true → in_pool q pool ≡ true
in_pool-pool_erase q k [] h = h
in_pool-pool_erase q k (p ∷ ps) h = elim (Bool-cases (same_key k p)) [
  | inl e ↦ let h' = rw e at h in ground arith
  | inr e ↦
      let h' = rw e at h in
      elim (Bool-cases (same_key q p)) [
        | inl s ↦ rw s refl
        | inr s ↦ let h'' = rw s at h' in rw s (in_pool-pool_erase q k ps h'')
      ]
]

pub in_pool-pool_erase_ne :
    (q k : Key) (pool : List Key)
    → same_key k q ≡ false
    → in_pool q pool ≡ true
    → in_pool q (pool_erase k pool) ≡ true
in_pool-pool_erase_ne q k [] ne h = h
in_pool-pool_erase_ne q k (p ∷ ps) ne h = elim (Bool-cases (same_key q p)) [
  | inl s ↦
      let here = same_key_eq q p s in
      let ne' = subst (λ w. same_key k w ≡ false) here ne in rw ne' (rw s refl)
  | inr s ↦
      let h' = rw s at h in
      elim (Bool-cases (same_key k p)) [
        | inl e ↦ rw e h'
        | inr e ↦ rw e (rw s (in_pool-pool_erase_ne q k ps ne h'))
      ]
]

pub pool_erase-IsApart : (k : Key) (pool : List Key) → IsApart pool → IsApart (pool_erase k pool)
pool_erase-IsApart k [] v = tt
pool_erase-IsApart k (p ∷ ps) v = elim (Bool-cases (same_key k p)) [
  | inl e ↦ rw e v.1
  | inr e ↦ rw e (
    elim (Bool-cases (in_pool p (pool_erase k ps))) [
      | inl h ↦ let h' = in_pool-pool_erase p k ps h in absurd cc
      | inr h ↦ h
    ],
    pool_erase-IsApart k ps v.1,
  )
]

pub pool_erase_gone :
    (k : Key) (pool : List Key) → IsApart pool → in_pool k (pool_erase k pool) ≡ false
pool_erase_gone k [] v = refl
pool_erase_gone k (p ∷ ps) v = elim (Bool-cases (same_key k p)) [
  | inl e ↦ let here = same_key_eq k p e in rw (e, here) v.0
  | inr e ↦ rw (e, e) (pool_erase_gone k ps v.1)
]
