-- ===== src/Bucket/Slots.antt =====
-- The invariant of a bucket of src/ring_bucket.h, and its slots under each operation.
use palermo_oram.Base.{
  ℕ, suc, ◌+◌, ◌≤◌, ◌<◌, ◌≡◌, refl, ap, Bool, some, List, [], ◌∷◌, arith, ◌==◌, if◌then◌else◌,
  Bool-cases, Option-cases, inl, inr, >>=-eq-some, take, drop, length, count, range,
  count-take-drop, length-take, length-take-drop, take-whole, count-range,
}
use palermo_oram.Params.{z_slots, s_slots, bucket_slots}
use palermo_oram.Bucket.{Bucket, ring_bucket, pop_back, next_s, take_first, take_z}

-- How often an offset is among the slots that no read has used yet.
abbrev pub unread : Bucket → ℕ → ℕ
unread b a = count a b.z_arr + count a b.s_arr

-- What `std::random_shuffle` promises of the offsets 0 .. Z+S-1.
pub record IsShuffle (tmp : List ℕ) : Type 0 where
  pub long_enough : length tmp ≡ bucket_slots
  pub same : (a : ℕ) → count a tmp ≡ count a (range 0 bucket_slots)

pub record IsValid (b : Bucket) : Type 0 where
  pub total : length b.z_arr + length b.s_arr + b.accessed_times ≡ bucket_slots
  pub z_fits : length b.z_arr ≤ z_slots
  pub s_fits : length b.s_arr ≤ s_slots
  pub once : (a : ℕ) → unread b a ≤ 1
  pub in_range : (a : ℕ) → bucket_slots ≤ a → unread b a ≡ 0

length-pop_back :
    (xs : List ℕ) {x : ℕ} {rest : List ℕ}
    → pop_back xs ≡ some (x, rest)
    → length xs ≡ suc (length rest)
unfolding pop_back
length-pop_back [] h = ground arith
length-pop_back (x ∷ []) h = ground arith
length-pop_back (x ∷ y ∷ xs) h =
    let (r, e, _) = >>=-eq-some (pop_back (y ∷ xs)) _ h in
    ground (arith, length-pop_back (y ∷ xs) {x = r.0} {rest = r.1} e)

count-pop_back :
    (a : ℕ) (xs : List ℕ) {x : ℕ} {rest : List ℕ}
    → pop_back xs ≡ some (x, rest)
    → count a xs ≡ (if a == x then 1 else 0) + count a rest
unfolding pop_back count
count-pop_back a [] h = ground arith
count-pop_back a (x ∷ []) h = ground arith
count-pop_back a (x ∷ y ∷ xs) h =
    let (r, e, _) = >>=-eq-some (pop_back (y ∷ xs)) _ h in
    ground (arith, count-pop_back a (y ∷ xs) {x = r.0} {rest = r.1} e)

pop_back_total : (xs : List ℕ) → 0 < length xs → (r : ℕ × List ℕ) × (pop_back xs ≡ some r)
unfolding pop_back
pop_back_total [] h = elim h [ ]
pop_back_total (x ∷ []) h = ((x, []), refl)
pop_back_total (x ∷ y ∷ xs) h =
    let (r, e) = pop_back_total (y ∷ xs) (omega arith) in ((r.0, x ∷ r.1), rw e)

length-take_first :
    (a : ℕ) (xs : List ℕ) {rest : List ℕ}
    → take_first a xs ≡ some rest
    → length xs ≡ suc (length rest)
unfolding take_first
length-take_first a [] h = ground arith
length-take_first a (x ∷ xs) h = elim (Option-cases (take_first a xs)) [
  | inl m ↦ ground arith
  | inr (r, m) ↦ ground (arith, length-take_first a xs m)
]

pub count-take_first :
    (q a : ℕ) (xs : List ℕ) {rest : List ℕ}
    → take_first a xs ≡ some rest
    → count q xs ≡ (if q == a then 1 else 0) + count q rest
unfolding take_first count
count-take_first q a [] h = ground arith
count-take_first q a (x ∷ xs) h = elim (Option-cases (take_first a xs)) [
  | inl m ↦ ground arith
  | inr (r, m) ↦ ground (arith, count-take_first q a xs m)
]

take_first_total :
    (a : ℕ) (xs : List ℕ) → 0 < count a xs → (r : List ℕ) × (take_first a xs ≡ some r)
unfolding take_first count
take_first_total a [] h = absurd (omega arith)
take_first_total a (x ∷ xs) h = elim (Bool-cases (a == x)) [
  | inl e ↦ (xs, rw e)
  | inr n ↦ let (r, e) = take_first_total a xs (ground arith) in (x ∷ r, rw (n, e))
]

module _ (n_id : ℕ) (tmp : List ℕ) (h : IsShuffle tmp) where
  s_arr-eq : take s_slots (drop z_slots tmp) ≡ drop z_slots tmp
  s_arr-eq =
      let both = length-take-drop z_slots tmp in
      let firsts = length-take z_slots tmp (omega (arith, h.long_enough)) in
      take-whole (drop z_slots tmp) s_slots (omega (arith, h.long_enough))

  -- Every slot of a freshly shuffled bucket is unread.
  pub unread-ring_bucket :
      (a : ℕ) → unread (ring_bucket n_id tmp) a ≡ count a (range 0 bucket_slots)
  unfolding ring_bucket
  unread-ring_bucket a = rw s_arr-eq (omega (arith, h.same a, count-take-drop z_slots a tmp))

  pub ring_bucket-IsValid : IsValid (ring_bucket n_id tmp)
  unfolding ring_bucket
  ring_bucket-IsValid =
      let firsts = length-take z_slots tmp (omega (arith, h.long_enough)) in
      let both = length-take-drop z_slots tmp in
      let dropped : length (take s_slots (drop z_slots tmp)) ≡ length (drop z_slots tmp) =
        ap length s_arr-eq in
      record {
        total = omega (arith, h.long_enough);
        z_fits = omega arith;
        s_fits = omega (arith, h.long_enough);
        once = λ a. ground (arith, unread-ring_bucket a, count-range a 0 bucket_slots);
        in_range = λ a le. ground (arith, unread-ring_bucket a, count-range a 0 bucket_slots);
      }

-- `b'` is the valid bucket `b` after a read of the unread slot `ret`, and of no other.
pub record IsRead (b : Bucket) (ret : ℕ) (b' : Bucket) : Type 0 where
  pub valid : IsValid b'
  pub accessed : b'.accessed_times ≡ b.accessed_times + 1
  pub free : b'.free_z_index ≡ b.free_z_index
  pub slots : (a : ℕ) → unread b a ≡ (if a == ret then 1 else 0) + unread b' a

next_s_of_pos :
    (b : Bucket)
    → IsValid b
    → 0 < length b.s_arr
    → (ret : ℕ) × (b' : Bucket) × (next_s b ≡ some ((ret, (b.accessed_times + 1) == s_slots), b'))
      × IsRead b ret b'
unfolding next_s
next_s_of_pos b v h =
    let (r, e) = pop_back_total b.s_arr h in
    let len = length-pop_back b.s_arr {x = r.0} {rest = r.1} e in
    let cnt = λ (a : ℕ). count-pop_back a b.s_arr {x = r.0} {rest = r.1} e in
    let b' : Bucket = record b { s_arr = r.1; accessed_times = b.accessed_times + 1 } in
    (
      r.0,
      b',
      rw e (ground (arith, v.s_fits, len)),
      record {
        valid = record {
          total = omega (arith, v.total, len);
          z_fits = v.z_fits;
          s_fits = omega (arith, v.s_fits, len);
          once = λ a. omega (arith, v.once a, cnt a);
          in_range = λ a le. omega (arith, v.in_range a le, cnt a);
        };
        accessed = refl;
        free = refl;
        slots = λ a. omega (arith, cnt a);
      },
    )

-- On a valid bucket with fewer than S reads a dummy read succeeds: it answers whether it was the
-- S-th, keeps the bucket valid, counts one more read, leaves `free_z_index`, and takes just the
-- slot that it returns out of the unread ones.
pub next_s-IsRead :
    (b : Bucket)
    → IsValid b
    → b.accessed_times < s_slots
    → (ret : ℕ) × (b' : Bucket) × (next_s b ≡ some ((ret, (b.accessed_times + 1) == s_slots), b'))
      × IsRead b ret b'
next_s-IsRead b v h = next_s_of_pos b v (omega (arith, v.total, v.z_fits))

-- On a valid bucket whose real slots include the offset, `take_z` succeeds with that offset: it
-- answers whether it was the S-th read, keeps the bucket valid, counts one more read, leaves
-- `free_z_index`, and takes just that slot out of the unread ones.
pub take_z-IsRead :
    (offset : ℕ) (b : Bucket)
    → IsValid b
    → 0 < count offset b.z_arr
    → (b' : Bucket) × (take_z offset b ≡ some ((offset, (b.accessed_times + 1) == s_slots), b'))
      × IsRead b offset b'
unfolding take_z
take_z-IsRead offset b v p =
    let (rest, e) = take_first_total offset b.z_arr p in
    let len = length-take_first offset b.z_arr e in
    let cnt = λ (a : ℕ). count-take_first a offset b.z_arr e in
    let b' : Bucket = record b { z_arr = rest; accessed_times = b.accessed_times + 1 } in
    (
      b',
      rw e (ground (arith, v.s_fits)),
      record {
        valid = record {
          total = omega (arith, v.total, len);
          z_fits = omega (arith, v.z_fits, len);
          s_fits = v.s_fits;
          once = λ a. omega (arith, v.once a, cnt a);
          in_range = λ a le. omega (arith, v.in_range a le, cnt a);
        };
        accessed = refl;
        free = refl;
        slots = λ a. omega (arith, cnt a);
      },
    )

s_arr-pos : (b : Bucket) (r : (ℕ × Bool) × Bucket) → next_s b ≡ some r → 0 < length b.s_arr
unfolding next_s
s_arr-pos b r e =
    let (q, p, _) = >>=-eq-some (pop_back b.s_arr) _ e in
    omega (arith, length-pop_back b.s_arr {x = q.0} {rest = q.1} p)

-- A dummy read that succeeds is a read of the slot that it returns.
pub IsRead-of_next_s :
    (b : Bucket) (r : (ℕ × Bool) × Bucket) → IsValid b → next_s b ≡ some r → IsRead b r.0.0 r.1
unfolding next_s
IsRead-of_next_s b r v e =
    let (ret, b', p, q) = next_s_of_pos b v (s_arr-pos b r e) in
    let same : r ≡ ((ret, (b.accessed_times + 1) == s_slots), b') = cc in rw same q

pub IsRead-of_take_z :
    (offset : ℕ) (b : Bucket) (r : (ℕ × Bool) × Bucket)
    → IsValid b
    → take_z offset b ≡ some r
    → IsRead b r.0.0 r.1
unfolding take_z
IsRead-of_take_z offset b r v e =
    let (rest, p, _) = >>=-eq-some (take_first offset b.z_arr) _ e in
    let found : 0 < count offset b.z_arr =
      ground (arith, count-take_first offset offset b.z_arr p) in
    let (b', q, isr) = take_z-IsRead offset b v found in
    let same : r ≡ ((offset, (b.accessed_times + 1) == s_slots), b') = cc in rw same isr
