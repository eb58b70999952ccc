-- ===== src/Base/Lists.antt =====
-- Lists measured and indexed by native numbers, under the library's names.
use Prim.Native.Nat.{ℕ, zero, suc, ◌+◌, ◌≤◌, ◌<◌}
use mathlib.Core.Path.{◌≡◌, refl, ap}
use mathlib.Core.Logic.{◌≢◌, inl, inr}
use mathlib.Core.List.{List, [], ◌∷◌, ◌++◌, map}
use mathlib.Core.Option.{Option, none, some}
use mathlib.Core.Bool.{◌&&◌}
use native.Mathlib.Omega.{arith}
use palermo_oram.Base.Tests.{ltb, leb, ◌==◌, if◌then◌else◌, Bool-cases}

module _ {ℓ} {A : Type ℓ} where
  abbrev pub length : List A → ℕ
  length [] = 0
  length (x ∷ xs) = suc (length xs)

  abbrev pub get_elem? : List A → ℕ → Option A
  get_elem? [] i = none
  get_elem? (x ∷ xs) zero = some x
  get_elem? (x ∷ xs) (suc i) = get_elem? xs i

  -- A write out of bounds changes nothing.
  abbrev pub set : List A → ℕ → A → List A
  set [] i v = []
  set (x ∷ xs) zero v = v ∷ xs
  set (x ∷ xs) (suc i) v = x ∷ set xs i v

  abbrev pub replicate : ℕ → A → List A
  replicate zero a = []
  replicate (suc n) a = a ∷ replicate n a

  abbrev pub take : ℕ → List A → List A
  take zero xs = []
  take (suc n) [] = []
  take (suc n) (x ∷ xs) = x ∷ take n xs

  abbrev pub drop : ℕ → List A → List A
  drop zero xs = xs
  drop (suc n) [] = []
  drop (suc n) (x ∷ xs) = drop n xs

  pub length-append : (xs ys : List A) → length (xs ++ ys) ≡ length xs + length ys
  length-append [] ys = omega arith
  length-append (x ∷ xs) ys = omega (arith, length-append xs ys)

  pub length-set : (xs : List A) (i : ℕ) (v : A) → length (set xs i v) ≡ length xs
  length-set [] i v = refl
  length-set (x ∷ xs) zero v = refl
  length-set (x ∷ xs) (suc i) v = ap suc (length-set xs i v)

  pub length-replicate : (n : ℕ) (a : A) → length (replicate n a) ≡ n
  length-replicate zero a = refl
  length-replicate (suc n) a = ap suc (length-replicate n a)

  pub get_elem?-set_self :
      (xs : List A) (i : ℕ) (v : A) → i < length xs → get_elem? (set xs i v) i ≡ some v
  get_elem?-set_self [] i v h = elim h [ ]
  get_elem?-set_self (x ∷ xs) zero v h = refl
  get_elem?-set_self (x ∷ xs) (suc i) v h = get_elem?-set_self xs i v (omega arith)

  pub get_elem?-set_ne :
      (xs : List A) (i j : ℕ) (v : A) → i ≢ j → get_elem? (set xs i v) j ≡ get_elem? xs j
  get_elem?-set_ne [] i j v h = refl
  get_elem?-set_ne (x ∷ xs) zero zero v h = absurd (h refl)
  get_elem?-set_ne (x ∷ xs) zero (suc j) v h = refl
  get_elem?-set_ne (x ∷ xs) (suc i) zero v h = refl
  get_elem?-set_ne (x ∷ xs) (suc i) (suc j) v h = get_elem?-set_ne xs i j v (λ e. h (ap suc e))

  pub get_elem?-of_lt : (xs : List A) (i : ℕ) → i < length xs → (a : A) × (get_elem? xs i ≡ some a)
  get_elem?-of_lt [] i h = elim h [ ]
  get_elem?-of_lt (x ∷ xs) zero h = (x, refl)
  get_elem?-of_lt (x ∷ xs) (suc i) h = get_elem?-of_lt xs i (omega arith)

  pub lt-of_get_elem? : (xs : List A) (i : ℕ) {a : A} → get_elem? xs i ≡ some a → i < length xs
  lt-of_get_elem? [] i h = ground arith
  lt-of_get_elem? (x ∷ xs) zero h = omega arith
  lt-of_get_elem? (x ∷ xs) (suc i) h = omega (arith, lt-of_get_elem? xs i h)

-- The numbers `a`, `a + 1`, …, of which there are `n`: the rounds of a counted `for` loop.
unfoldable pub range : ℕ → ℕ → List ℕ
range a zero = []
range a (suc n) = a ∷ range (suc a) n

-- How often a number stands in a list.
unfoldable pub count : ℕ → List ℕ → ℕ
count a [] = 0
count a (x ∷ xs) = (if a == x then 1 else 0) + count a xs

pub count-append : (a : ℕ) (xs ys : List ℕ) → count a (xs ++ ys) ≡ count a xs + count a ys
unfolding count
count-append a [] ys = omega arith
count-append a (x ∷ xs) ys = omega (arith, count-append a xs ys)

pub count-take-drop :
    (n a : ℕ) (xs : List ℕ) → count a (take n xs) + count a (drop n xs) ≡ count a xs
unfolding count
count-take-drop zero a xs = omega arith
count-take-drop (suc n) a [] = omega arith
count-take-drop (suc n) a (x ∷ xs) = omega (arith, count-take-drop n a xs)

-- An element that stands at an index is counted, and twice if it stands at two.
pub count-pos_of_get_elem? :
    (xs : List ℕ) (i : ℕ) {a : ℕ} → get_elem? xs i ≡ some a → 0 < count a xs
unfolding count
count-pos_of_get_elem? [] i h = ground arith
count-pos_of_get_elem? (x ∷ xs) zero h = ground arith
count-pos_of_get_elem? (x ∷ xs) (suc i) h = omega (arith, count-pos_of_get_elem? xs i h)

pub get_elem?-of_count :
    (xs : List ℕ) (a : ℕ) → 0 < count a xs → (i : ℕ) × (get_elem? xs i ≡ some a) × (i < length xs)
unfolding count
get_elem?-of_count [] a h = absurd (omega arith)
get_elem?-of_count (x ∷ xs) a h = elim (Bool-cases (a == x)) [
  | inl e ↦ (0, ground arith, omega arith)
  | inr n ↦ let (i, p, q) = get_elem?-of_count xs a (ground arith) in (suc i, p, omega arith)
]

pub get_elem?-inj :
    (xs : List ℕ) (i j : ℕ) {a : ℕ}
    → count a xs ≤ 1
    → get_elem? xs i ≡ some a
    → get_elem? xs j ≡ some a
    → i ≡ j
unfolding count
get_elem?-inj [] i j c p q = ground arith
get_elem?-inj (x ∷ xs) zero zero c p q = refl
get_elem?-inj (x ∷ xs) zero (suc j) c p q = ground (arith, count-pos_of_get_elem? xs j q)
get_elem?-inj (x ∷ xs) (suc i) zero c p q = ground (arith, count-pos_of_get_elem? xs i p)
get_elem?-inj (x ∷ xs) (suc i) (suc j) c p q = ap suc (get_elem?-inj xs i j (omega arith) p q)

pub length-take-drop {ℓ} :
    {A : Type ℓ} (n : ℕ) (xs : List A) → length (take n xs) + length (drop n xs) ≡ length xs
length-take-drop zero xs = omega arith
length-take-drop (suc n) [] = omega arith
length-take-drop (suc n) (x ∷ xs) = omega (arith, length-take-drop n xs)

pub length-take {ℓ} : {A : Type ℓ} (n : ℕ) (xs : List A) → n ≤ length xs → length (take n xs) ≡ n
length-take zero xs h = refl
length-take (suc n) [] h = omega arith
length-take (suc n) (x ∷ xs) h = omega (arith, length-take n xs)

-- A list that is short enough is taken whole.
pub take-whole {ℓ} : {A : Type ℓ} (xs : List A) (k : ℕ) → length xs < suc k → take k xs ≡ xs
take-whole [] zero short = refl
take-whole [] (suc k) short = refl
take-whole (y ∷ ys) zero short = absurd (omega arith)
take-whole (y ∷ ys) (suc k) short = let tail = take-whole ys k (omega arith) in rw tail refl

pub count-range : (a s n : ℕ) → count a (range s n) ≡ (if leb s a && ltb a (s + n) then 1 else 0)
unfolding range count
count-range a s zero = ground arith
count-range a s (suc n) = ground (arith, count-range a (suc s) n)

pub length-range : (s n : ℕ) → length (range s n) ≡ n
unfolding range
length-range s zero = refl
length-range s (suc n) = ap suc (length-range (suc s) n)

-- What a list made for the numbers of a range has at an index.
pub get_elem?-map-range {ℓ} :
    {A : Type ℓ} (f : ℕ → A) (s k i : ℕ)
    → i < k
    → get_elem? (map f (range s k)) i ≡ some (f (s + i))
unfolding range
get_elem?-map-range f s zero i h = absurd (omega arith)
get_elem?-map-range f s (suc k) zero h = let z : s + 0 ≡ s = omega arith in rw z refl
get_elem?-map-range f s (suc k) (suc i) h =
    let z : s + suc i ≡ suc s + i = omega arith in
    rw z (get_elem?-map-range f (suc s) k i (omega arith))
