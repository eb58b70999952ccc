-- ===== src/Bucket/Reads.antt =====
-- Sequences of reads of a bucket of src/ring_bucket.h between two shuffles.
use palermo_oram.Base.{
  ℕ, zero, suc, ◌+◌, ◌≤◌, ◌≡◌, refl, Bool, Option, some, List, [], ◌∷◌, arith, ◌>>=◌, >>=-eq-some,
  count, replicate,
}
use palermo_oram.Params.{s_slots, bucket_slots}
use palermo_oram.Bucket.{Bucket, ring_bucket, next_s, take_z}
use palermo_oram.Bucket.Slots.{
  IsShuffle, IsValid, IsRead, unread, next_s-IsRead, ring_bucket-IsValid, IsRead-of_take_z,
  IsRead-of_next_s,
}

-- A read of one bucket on a path: a dummy, or the block at an offset.
pub data Access : Type 0 where
  dummy : Access
  block : ℕ → Access

unfoldable pub access : Access → Bucket → Option ((ℕ × Bool) × Bucket)
access dummy b = next_s b
access (block offset) b = take_z offset b

-- The slots that a sequence of reads touches, in order.
unfoldable pub access_all : List Access → Bucket → Option (List ℕ × Bucket)
access_all [] b = some ([], b)
access_all (a ∷ as') b = do
  ((ret, _), b₁) ← access a b
  (rets, b₂) ← access_all as' b₁
  some (ret ∷ rets, b₂)

access-IsRead :
    (a : Access) (b : Bucket) (r : (ℕ × Bool) × Bucket)
    → IsValid b
    → access a b ≡ some r
    → IsRead b r.0.0 r.1
unfolding access
access-IsRead dummy b r v e = IsRead-of_next_s b r v e
access-IsRead (block offset) b r v e = IsRead-of_take_z offset b r v e

-- What the reads touched and what is still unread make up the slots that were unread before.
unread-access_all :
    (as' : List Access) (b : Bucket) (r : List ℕ × Bucket) (q : ℕ)
    → IsValid b
    → access_all as' b ≡ some r
    → unread b q ≡ count q r.0 + unread r.1 q
unfolding access_all count
unread-access_all [] b r q v e = let same : r ≡ ([], b) = cc in rw same (omega arith)
unread-access_all (a ∷ as') b r q v e =
    let (r₁, e₁, f₁) = >>=-eq-some (access a b) _ e in
    let (r₂, e₂, f₂) = >>=-eq-some (access_all as' r₁.1) _ f₁ in
    let ih = unread-access_all as' r₁.1 r₂ q (access-IsRead a b r₁ v e₁).valid e₂ in
    let here = (access-IsRead a b r₁ v e₁).slots q in
    let same : r ≡ (r₁.0.0 ∷ r₂.0, r₂.1) = cc in rw same (omega (arith, ih, here))

-- Between two shuffles of a bucket every slot is read at most once, and only slots of the bucket
-- are read: if `tmp` is a shuffle of the offsets and a sequence of reads, dummies and blocks in
-- any order, succeeds, no offset stands twice in what the reads touched, and none is Z + S or
-- more.
pub access_all-distinct :
    (n_id : ℕ) (tmp : List ℕ) (accesses : List Access) (slots : List ℕ) (b : Bucket)
    → IsShuffle tmp
    → access_all accesses (ring_bucket n_id tmp) ≡ some (slots, b)
    → (q : ℕ) → (count q slots ≤ 1) × (bucket_slots ≤ q → count q slots ≡ 0)
access_all-distinct n_id tmp accesses slots b h e q =
    let v = ring_bucket-IsValid n_id tmp h in
    let sum = unread-access_all accesses (ring_bucket n_id tmp) (slots, b) q v e in
    (omega (arith, v.once q), λ le. omega (arith, v.in_range q le))

-- A valid bucket serves as many dummy reads in a row as S leaves after its reads so far: all of
-- them succeed, and the bucket counts each.
pub access_all-replicate :
    (n : ℕ) (b : Bucket)
    → IsValid b
    → b.accessed_times + n ≤ s_slots
    → (r : List ℕ × Bucket) × (access_all (replicate n dummy) b ≡ some r)
      × (r.1.accessed_times ≡ b.accessed_times + n)
unfolding access_all access
access_all-replicate zero b v le = (([], b), refl, omega arith)
access_all-replicate (suc n) b v le =
    let (ret, b', e, isr) = next_s-IsRead b v (omega arith) in
    let (r, f, g) = access_all-replicate n b' isr.valid (omega (arith, isr.accessed)) in
    ((ret ∷ r.0, r.1), rw (e, f), omega (arith, isr.accessed))
