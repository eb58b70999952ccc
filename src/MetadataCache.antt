-- ===== src/MetadataCache.antt =====
-- src/cache.h: the set-associative cache with least-recently-used replacement that holds the
-- metadata lines of recently visited nodes.
pub mod Sets
pub mod Access
use palermo_oram.Base.{
  ℕ, ◌+◌, ◌-◌, ◌*◌, ◌/◌, ◌%◌, Bool, true, false, ◌&&◌, Option, none, some, List, [], ◌∷◌, ◌==◌, leb,
  if◌then◌else◌, ◌>>=◌, ◌>>◌, assert, get_elem?, set, store_at, length, replicate,
}
use palermo_oram.Tree.{TreeName, metadata_address}

-- `pair<long, int>`; the type -1 of an entry that was never filled is `none`.
pub record Entry : Type 0 where
  pub line : ℕ
  pub kind : Option ℕ

abbrev pub same_kind : Option ℕ → Option ℕ → Bool
same_kind none none = true
same_kind (some a) (some b) = a == b
same_kind _ _ = false

abbrev pub same_entry : Entry → Entry → Bool
same_entry a b = a.line == b.line && same_kind a.kind b.kind

-- `set_cache`
pub record SetCache : Type 0 where
  pub set_assoc : ℕ
  pub cache_total_separate : List ℕ
  pub cache_hit_separate : List ℕ
  pub cache_total : ℕ
  pub cache_hit : ℕ
  pub overall_total : ℕ
  pub overall_hit : ℕ
  pub caches : List (List Entry)

-- The constructor; its body divides by `_assoc`, so that 0 is undefined there.
unfoldable pub set_cache : ℕ → ℕ → SetCache
set_cache size assoc = record {
  set_assoc = assoc;
  cache_total_separate = replicate 3 0;
  cache_hit_separate = replicate 3 0;
  cache_total = 0;
  cache_hit = 0;
  overall_total = 0;
  overall_hit = 0;
  caches = replicate (size / 64 / assoc) (replicate assoc (record { line = 0; kind = none }));
}

-- `find` with `erase` of what it found; `none` is the end iterator.
unfoldable pub find_erase : Entry → List Entry → Option (List Entry)
find_erase e [] = none
find_erase e (x ∷ xs) =
    let rest = find_erase e xs in if same_entry x e then some xs else (do r ← rest; some (x ∷ r))

-- `pop_back` on a set that holds `e` and more
unfoldable pub drop_back : List Entry → List Entry
drop_back [] = []
drop_back (x ∷ []) = []
drop_back (x ∷ y ∷ xs) = x ∷ drop_back (y ∷ xs)

-- `v[i]++`
unfoldable pub count_up : List ℕ → ℕ → Option (List ℕ)
count_up v i = do n ← get_elem? v i; store_at v i (n + 1)

-- The miss: the entry goes to the front, and the last one of a full set out.
unfoldable pub fill : ℕ → Entry → List Entry → List Entry
fill assoc e s = if leb assoc (length (e ∷ s)) then drop_back (e ∷ s) else e ∷ s

-- The new contents of a set, and whether it was a hit.
unfoldable pub touch_set : ℕ → Entry → List Entry → Bool × List Entry
touch_set assoc e s = elim (find_erase e s) [
  | some rest ↦ (true, e ∷ rest)
  | none ↦ (false, fill assoc e s)
]

-- `x % v.size()` and `v[i]` of an empty vector are undefined: `none`.
unfoldable pub cache_access : SetCache → ℕ → ℕ → Option (Bool × SetCache)
cache_access c addr access_type = do
  let access_addr = addr - addr % 64
  let set_id = access_addr / 64 % length c.caches
  s ← get_elem? c.caches set_id
  totals ← count_up c.cache_total_separate access_type
  let (hit, s') = touch_set c.set_assoc (record { line = access_addr; kind = some access_type }) s
  hits ← (if hit then count_up c.cache_hit_separate access_type else some c.cache_hit_separate)
  some (
    hit,
    record c {
      cache_total_separate = totals;
      cache_hit_separate = hits;
      cache_total = c.cache_total + 1;
      overall_total = c.overall_total + 1;
      cache_hit = (if hit then c.cache_hit + 1 else c.cache_hit);
      overall_hit = (if hit then c.overall_hit + 1 else c.overall_hit);
      caches = set c.caches set_id s';
    },
  )

-- `posmap_nodeid_access`: the address to fetch, or `none` for the -1 of a hit
unfoldable pub posmap_nodeid_access : TreeName → ℕ → SetCache → Option (Option ℕ × SetCache)
posmap_nodeid_access name node_id c = do
  (hit, c') ← cache_access c (metadata_address name node_id) 1
  some ((if hit then none else some (metadata_address name node_id)), c')
