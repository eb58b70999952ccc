-- ===== src/MetadataCache/Sets.antt =====
-- `cache_access` of src/cache.h on one set: its size, hits, and the order of use.
use palermo_oram.Base.{
  ℕ, zero, suc, ◌≤◌, ◌<◌, ◌≡◌, refl, ap, sym, subst, ◌∙◌, Bool, true, false, ◌||◌, none, some, List,
  [], ◌∷◌, arith, leb, Bool-cases, Option-cases, inl, inr, get_elem?, length,
}
use palermo_oram.MetadataCache.{Entry, same_entry, find_erase, drop_back, fill, touch_set}

length-drop_back : (x : Entry) (xs : List Entry) → length (drop_back (x ∷ xs)) ≡ length xs
unfolding drop_back
length-drop_back x [] = refl
length-drop_back x (y ∷ xs) = ap suc (length-drop_back y xs)

length-find_erase :
    (e : Entry) (xs rest : List Entry) → find_erase e xs ≡ some rest → length xs ≡ suc (length rest)
unfolding find_erase
length-find_erase e [] rest h = ground arith
length-find_erase e (x ∷ xs) rest h = elim (Bool-cases (same_entry x e)) [
  | inl p ↦ ground arith
  | inr p ↦ elim (Option-cases (find_erase e xs)) [
    | inl m ↦ ground arith
    | inr (r, m) ↦ ground (arith, length-find_erase e xs r m)
  ]
]

fill-full :
    (assoc : ℕ) (e : Entry) (s : List Entry)
    → length s ≡ assoc
    → 0 < assoc
    → (length (fill assoc e s) ≡ assoc) × (get_elem? (fill assoc e s) 0 ≡ some e)
unfolding fill drop_back
fill-full assoc e [] h p = absurd (omega arith)
fill-full assoc e (x ∷ s) h p =
    let full : leb assoc (suc (suc (length s))) ≡ true = ground arith in
    rw full (omega (arith, length-drop_back x s), refl)

-- Whether an entry is in a set.
pub holds : Entry → List Entry → Bool
holds e [] = false
holds e (x ∷ xs) = same_entry x e || holds e xs

holds_of_some : (e : Entry) (xs rest : List Entry) → find_erase e xs ≡ some rest → holds e xs ≡ true
unfolding find_erase holds
holds_of_some e [] rest h = ground arith
holds_of_some e (x ∷ xs) rest h = elim (Option-cases (find_erase e xs)) [
  | inl m ↦ ground arith
  | inr (r, m) ↦ ground (arith, holds_of_some e xs r m)
]

holds_of_none : (e : Entry) (xs : List Entry) → find_erase e xs ≡ none → holds e xs ≡ false
unfolding find_erase holds
holds_of_none e [] h = refl
holds_of_none e (x ∷ xs) h = ground (arith, holds_of_none e xs)

-- An access is a hit exactly when the set holds the entry.
pub touch_set-holds : (assoc : ℕ) (e : Entry) (s : List Entry) → (touch_set assoc e s).0 ≡ holds e s
unfolding touch_set
touch_set-holds assoc e s = elim (Option-cases (find_erase e s)) [
  | inl m ↦ rw (m, touch_set) (sym (holds_of_none e s m))
  | inr (r, m) ↦ rw (m, touch_set) (sym (holds_of_some e s r m))
]

-- A full set stays full, hit or miss, with the entry at its front.
pub touch_set-full :
    (assoc : ℕ) (e : Entry) (s : List Entry)
    → length s ≡ assoc
    → 0 < assoc
    → (length (touch_set assoc e s).1 ≡ assoc) × (get_elem? (touch_set assoc e s).1 0 ≡ some e)
unfolding touch_set
touch_set-full assoc e s h p = elim (Option-cases (find_erase e s)) [
  | inl m ↦ rw (m, touch_set) (fill-full assoc e s h p)
  | inr (rest, m) ↦ rw (m, touch_set) (omega (arith, length-find_erase e s rest m), refl)
]

-- What a drop from the back leaves alone.
get_elem?-drop_back :
    (xs : List Entry) (i : ℕ) → suc i < length xs → get_elem? (drop_back xs) i ≡ get_elem? xs i
unfolding drop_back
get_elem?-drop_back [] i h = elim h [ ]
get_elem?-drop_back (x ∷ []) i h = absurd (omega arith)
get_elem?-drop_back (x ∷ y ∷ xs) zero h = refl
get_elem?-drop_back (x ∷ y ∷ xs) (suc i) h = get_elem?-drop_back (y ∷ xs) i (omega arith)

moved_front :
    (e y x : Entry) (xs rest : List Entry) (i : ℕ)
    → xs ≡ rest
    → get_elem? (x ∷ xs) i ≡ some y
    → same_entry y e ≡ false
    → same_entry x e ≡ true
    → (j : ℕ) × (j ≤ suc i) × (get_elem? (e ∷ rest) j ≡ some y)
moved_front e y x xs rest zero h g n p =
    let same : x ≡ y = cc in
    let clash : same_entry x e ≡ false = subst (λ z. same_entry z e ≡ false) (sym same) n in
    absurd (ground arith)
moved_front e y x xs rest (suc i) h g n p = (suc i, omega arith, rw (← h) g)

past :
    (x e y : Entry) (xs r : List Entry) (i : ℕ)
    → get_elem? (x ∷ xs) i ≡ some y
    → ((k : ℕ) → get_elem? xs k ≡ some y → (j : ℕ) × (j ≤ suc k) × (get_elem? (e ∷ r) j ≡ some y))
    → (j : ℕ) × (j ≤ suc i) × (get_elem? (e ∷ x ∷ r) j ≡ some y)
past x e y xs r zero g ih = (1, omega arith, g)
past x e y xs r (suc i) g ih = step (ih i g)
  where
    step :
        (j : ℕ) × (j ≤ suc i) × (get_elem? (e ∷ r) j ≡ some y)
        → (j : ℕ) × (j ≤ suc (suc i)) × (get_elem? (e ∷ x ∷ r) j ≡ some y)
    step (zero, l, q) = (0, omega arith, q)
    step (suc j, l, q) = (suc (suc j), omega arith, q)

-- Another entry moves one place back at most, when `e` is taken out and put in front.
get_elem?-find_erase :
    (e y : Entry) (xs rest : List Entry) (i : ℕ)
    → find_erase e xs ≡ some rest
    → get_elem? xs i ≡ some y
    → same_entry y e ≡ false
    → (j : ℕ) × (j ≤ suc i) × (get_elem? (e ∷ rest) j ≡ some y)
unfolding find_erase
get_elem?-find_erase e y [] rest i h g n = absurd (ground arith)
get_elem?-find_erase e y (x ∷ xs) rest i h g n = elim (Bool-cases (same_entry x e)) [
  | inl p ↦ moved_front e y x xs rest i (ground arith) g n p
  | inr p ↦ elim (Option-cases (find_erase e xs)) [
    | inl m ↦ absurd (ground arith)
    | inr (r, m) ↦
        let same : rest ≡ x ∷ r = ground arith in
        rw same (past x e y xs r i g (λ k q. get_elem?-find_erase e y xs r k m q n))
  ]
]

pub touch_set-keeps :
    (assoc : ℕ) (e y : Entry) (s : List Entry) (i : ℕ)
    → length s ≡ assoc
    → suc i < assoc
    → get_elem? s i ≡ some y
    → same_entry y e ≡ false
    → (j : ℕ) × (j ≤ suc i) × (get_elem? (touch_set assoc e s).1 j ≡ some y)
unfolding touch_set fill
touch_set-keeps assoc e y s i len lt g n = elim (Option-cases (find_erase e s)) [
  | inl m ↦
      let full : leb assoc (suc (length s)) ≡ true = ground arith in
      rw (m, touch_set, full, fill)
        (suc i, omega arith, get_elem?-drop_back (e ∷ s) (suc i) (omega arith) ∙ g)
  | inr (rest, m) ↦ rw (m, touch_set) (get_elem?-find_erase e y s rest i m g n)
]
