-- ===== src/Bucket.antt =====
-- src/ring_bucket.h: a bucket of the tree, with the offsets of its slots in a random order.
pub mod Slots
pub mod Reads
use palermo_oram.Base.{
  ℕ, ◌+◌, ◌<◌, Bool, Option, none, some, List, [], ◌∷◌, ◌++◌, ◌==◌, leb, ltb, if◌then◌else◌, ◌>>=◌,
  ◌>>◌, assert, get_elem?, take, drop, length,
}
use palermo_oram.Params.{z_slots, s_slots}

-- `ring_bucket`
pub record Bucket : Type 0 where
  pub bucket_id : ℕ
  pub z_arr : List ℕ
  pub s_arr : List ℕ
  pub free_z_index : ℕ
  pub accessed_times : ℕ

-- The constructor, given `tmp` after `std::random_shuffle`.
unfoldable pub ring_bucket : ℕ → List ℕ → Bucket
ring_bucket n_id tmp = record {
  bucket_id = n_id;
  z_arr = take z_slots tmp;
  s_arr = take s_slots (drop z_slots tmp);
  free_z_index = 0;
  accessed_times = 0;
}

unfoldable pub assign_z_off : Bucket → Option (ℕ × Bucket)
assign_z_off b = do
  assert (ltb 0 (length b.z_arr))
  ret ← get_elem? b.z_arr b.free_z_index
  assert (leb (length b.s_arr) s_slots)
  some (ret, record b { free_z_index = b.free_z_index + 1 })

unfoldable pub flush_offset : Bucket → List ℕ → Option (List ℕ)
flush_offset b flushed_offset = do
  assert (leb (length b.s_arr) s_slots)
  some (flushed_offset ++ (b.z_arr ++ b.s_arr))

-- `v.back()` with `v.pop_back()`: undefined on an empty vector
unfoldable pub pop_back : List ℕ → Option (ℕ × List ℕ)
pop_back [] = none
pop_back (x ∷ []) = some (x, [])
pop_back (x ∷ y ∷ xs) = do (last, rest) ← pop_back (y ∷ xs); some (last, x ∷ rest)

-- A dummy read: the slot, and whether the bucket is used up.
unfoldable pub next_s : Bucket → Option ((ℕ × Bool) × Bucket)
next_s b = do
  (ret_s, rest) ← pop_back b.s_arr
  let accessed = b.accessed_times + 1
  assert (leb (length rest) s_slots)
  some ((ret_s, accessed == s_slots), record b { s_arr = rest; accessed_times = accessed })

-- The loop of `take_z`: the vector without the first slot equal to `intended_offset`, or `none` if
-- there is none, when `ret` stays -1.
unfoldable pub take_first : ℕ → List ℕ → Option (List ℕ)
take_first intended_offset [] = none
take_first intended_offset (z ∷ zs) =
    let rest = take_first intended_offset zs in
    if intended_offset == z then some zs else (do r ← rest; some (z ∷ r))

unfoldable pub take_z : ℕ → Bucket → Option ((ℕ × Bool) × Bucket)
take_z intended_offset b = do
  rest ← take_first intended_offset b.z_arr
  let accessed = b.accessed_times + 1
  assert (leb (length b.s_arr) s_slots)
  some
      ((intended_offset, accessed == s_slots), record b { z_arr = rest; accessed_times = accessed })
