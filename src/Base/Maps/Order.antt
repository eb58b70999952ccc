-- ===== src/Base/Maps/Order.antt =====
-- The order of the keys in a map that is walked.
use Prim.Native.Nat.{ℕ, ◌+◌, ◌<◌}
use mathlib.Core.Path.{◌≡◌, refl}
use mathlib.Core.List.{List, [], ◌∷◌}
use mathlib.Core.Option.{none}
use native.Mathlib.Omega.{arith}
use palermo_oram.Base.Maps.{lookup, insert, erase}

module _ {ℓ} {V : Type ℓ} where
  abbrev pub Above : ℕ → List (ℕ × V) → Type 0
  Above k [] = Unit
  Above k ((j, w) ∷ m) = (k < j) × Above k m

  abbrev pub IsSorted : List (ℕ × V) → Type 0
  IsSorted [] = Unit
  IsSorted ((j, w) ∷ m) = Above j m × IsSorted m

  Above-of_lt : (k j : ℕ) (m : List (ℕ × V)) → k < j → Above j m → Above k m
  Above-of_lt k j [] h a = tt
  Above-of_lt k j ((i, w) ∷ m) h a = (omega arith, Above-of_lt k j m h a.1)

  Above-insert : (b k : ℕ) (v : V) (m : List (ℕ × V)) → b < k → Above b m → Above b (insert k v m)
  unfolding insert
  Above-insert b k v [] h a = (h, tt)
  Above-insert b k v ((j, w) ∷ m) h a = ground (arith, Above-insert b k v m)

  pub insert-IsSorted : (k : ℕ) (v : V) (m : List (ℕ × V)) → IsSorted m → IsSorted (insert k v m)
  unfolding insert
  insert-IsSorted k v [] s = (tt, tt)
  insert-IsSorted k v ((j, w) ∷ m) s =
      ground (arith, insert-IsSorted k v m, Above-insert j k v m, Above-of_lt k j m)

  Above-erase : (b k : ℕ) (m : List (ℕ × V)) → Above b m → Above b (erase k m)
  unfolding erase
  Above-erase b k [] a = tt
  Above-erase b k ((j, w) ∷ m) a = ground (arith, Above-erase b k m)

  pub erase-IsSorted : (k : ℕ) (m : List (ℕ × V)) → IsSorted m → IsSorted (erase k m)
  unfolding erase
  erase-IsSorted k [] s = tt
  erase-IsSorted k ((j, w) ∷ m) s = ground (arith, erase-IsSorted k m, Above-erase j k m)

  pub lookup_of_Above : (k q : ℕ) (m : List (ℕ × V)) → Above k m → q < k + 1 → lookup q m ≡ none
  unfolding lookup
  lookup_of_Above k q [] a h = refl
  lookup_of_Above k q ((j, w) ∷ m) a h = ground (arith, lookup_of_Above k q m)
