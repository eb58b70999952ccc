-- ===== src/Base/Maps.antt =====
-- `std::map`: as a function where it is only looked up, and as a list in the order of the keys where
-- the code walks it.
pub mod Order
use Prim.Native.Nat.{ℕ}
use mathlib.Core.Path.{◌≡◌, refl}
use mathlib.Core.List.{List, [], ◌∷◌}
use mathlib.Core.Option.{Option, none, some}
use native.Mathlib.Omega.{arith}
use palermo_oram.Base.Tests.{◌==◌, ltb, if◌then◌else◌}

-- A map that is never walked; `none` is a key that is not there.
abbrev pub Table {ℓ} : Type ℓ → Type ℓ
Table V = ℕ → Option V

abbrev pub put_at {ℓ} : {V : Type ℓ} → Table V → ℕ → Option V → Table V
put_at t k v q = if k == q then v else t q

module _ {ℓ} {V : Type ℓ} where
  unfoldable pub lookup : ℕ → List (ℕ × V) → Option V
  lookup k [] = none
  lookup k ((j, v) ∷ m) = if j == k then some v else lookup k m

  -- `m[k] = v`, which keeps the keys in order
  unfoldable pub insert : ℕ → V → List (ℕ × V) → List (ℕ × V)
  insert k v [] = (k, v) ∷ []
  insert k v ((j, w) ∷ m) =
      if j == k then (k, v) ∷ m else if ltb k j then (k, v) ∷ (j, w) ∷ m else (j, w) ∷ insert k v m

  -- `m.erase(k)`
  unfoldable pub erase : ℕ → List (ℕ × V) → List (ℕ × V)
  erase k [] = []
  erase k ((j, w) ∷ m) = if j == k then erase k m else (j, w) ∷ erase k m

  pub lookup-insert :
      (k q : ℕ) (v : V) (m : List (ℕ × V))
      → lookup q (insert k v m) ≡ (if k == q then some v else lookup q m)
  unfolding lookup insert
  lookup-insert k q v [] = refl
  lookup-insert k q v ((j, w) ∷ m) = ground (arith, lookup-insert k q v m)

  pub lookup-erase :
      (k q : ℕ) (m : List (ℕ × V)) → lookup q (erase k m) ≡ (if k == q then none else lookup q m)
  unfolding lookup erase
  lookup-erase k q [] = ground arith
  lookup-erase k q ((j, w) ∷ m) = ground (arith, lookup-erase k q m)
