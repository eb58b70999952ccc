-- ===== src/Base/Steps.antt =====
-- Code that may fail: `none` is a failed `assert` or a vector read out of bounds.
use Prim.Native.Nat.{ℕ}
use mathlib.Core.Path.{◌≡◌, refl, subst}
use mathlib.Core.Bool.{Bool, true, false}
use mathlib.Core.List.{List, [], ◌∷◌}
use mathlib.Core.Option.{Option, none, some}
use palermo_oram.Base.Tests.{ltb, if◌then◌else◌}
use palermo_oram.Base.Lists.{length, set}

infixl 5 ◌>>=◌ ◌>>◌
abbrev pub ◌>>=◌ {ℓ κ} : {A : Type ℓ} {B : Type κ} → Option A → (A → Option B) → Option B
none >>= f = none
some a >>= f = f a

abbrev pub ◌>>◌ {ℓ} : {B : Type ℓ} → Option (Unit {0}) → Option B → Option B
m >> k = m >>= λ _. k

-- `assert(b)`; the build keeps the assertions (`src/Makefile` sets no `NDEBUG`).
abbrev pub assert : Bool → Option (Unit {0})
assert true = some tt
assert false = none

-- `v[i] = a` on a vector
abbrev pub store_at {ℓ} : {A : Type ℓ} → List A → ℕ → A → Option (List A)
store_at xs i a = if ltb i (length xs) then some (set xs i a) else none

-- `for (x : xs) s = body(x, s)`
unfoldable pub for_each {ℓ κ} :
    {A : Type ℓ} {S : Type κ} → (A → S → Option S) → List A → S → Option S
for_each body [] s = some s
for_each body (x ∷ xs) s = do s' ← body x s; for_each body xs s'

pub >>=-eq-some {ℓ κ} :
    {A : Type ℓ} {B : Type κ} (m : Option A) (f : A → Option B) {b : B}
    → (m >>= f) ≡ some b
    → (a : A) × (m ≡ some a) × (f a ≡ some b)
>>=-eq-some none f h = cc
>>=-eq-some (some a) f h = (a, refl, h)

-- An invariant of the body is an invariant of the loop.
pub for_each_inv {ℓ κ ι} :
    {A : Type ℓ} {S : Type κ} (P : S → Type ι) (body : A → S → Option S)
    → ((x : A) (s s' : S) → P s → body x s ≡ some s' → P s')
    → (xs : List A) (s : S) {t : S} → P s
    → for_each body xs s ≡ some t
    → P t
unfolding for_each
for_each_inv P body keep [] s {t} p e = let same : s ≡ t = cc in subst P same p
for_each_inv P body keep (x ∷ xs) s {t} p e =
    let (s', e₁, e₂) = >>=-eq-some (body x s) (for_each body xs) e in
    for_each_inv P body keep xs s' (keep x s s' p e₁) e₂
