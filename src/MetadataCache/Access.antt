-- ===== src/MetadataCache/Access.antt =====
-- `cache_access` of src/cache.h on a whole cache.
use native.Mathlib.Nat.{mod-lt}
use palermo_oram.Base.{
  ℕ, zero, suc, ◌+◌, ◌-◌, ◌/◌, ◌%◌, ◌≤◌, ◌<◌, ◌≡◌, ◌≢◌, refl, sym, subst, ◌∙◌, Bool, true, false,
  some, List, arith, ◌==◌, ltb, if◌then◌else◌, get_elem?, set, length, replicate, length-set,
  get_elem?-set_self, get_elem?-set_ne, get_elem?-of_lt, length-replicate, inl, inr, Bool-cases,
}
use palermo_oram.MetadataCache.{
  Entry, same_entry, SetCache, set_cache, count_up, touch_set, cache_access,
}
use palermo_oram.MetadataCache.Sets.{holds, touch_set-holds, touch_set-full, touch_set-keeps}

pub record IsValid (c : SetCache) : Type 0 where
  pub assoc_pos : 0 < c.set_assoc
  pub some_set : 0 < length c.caches
  pub totals : length c.cache_total_separate ≡ 3
  pub hits : length c.cache_hit_separate ≡ 3
  pub full : (i : ℕ) (s : List Entry) → get_elem? c.caches i ≡ some s → length s ≡ c.set_assoc

-- The entry that an access looks for, and the set that it looks in.
abbrev pub entry_of : ℕ → ℕ → Entry
entry_of addr t = record { line = addr - addr % 64; kind = some t }

abbrev pub set_of : SetCache → ℕ → ℕ
set_of c addr = (addr - addr % 64) / 64 % length c.caches

get_elem?-replicate {ℓ} :
    {A : Type ℓ} (n i : ℕ) (a : A) {b : A} → get_elem? (replicate n a) i ≡ some b → a ≡ b
get_elem?-replicate zero i a h = cc
get_elem?-replicate (suc n) zero a h = cc
get_elem?-replicate (suc n) (suc i) a h = get_elem?-replicate n i a h

-- A new cache with room for at least one set of at least one way is valid.
pub set_cache-IsValid :
    (size assoc : ℕ) → 0 < assoc → 0 < size / 64 / assoc → IsValid (set_cache size assoc)
unfolding set_cache
set_cache-IsValid size assoc p q = record {
  assoc_pos = p;
  some_set = rw length-replicate q;
  totals = refl;
  hits = refl;
  full = λ i s h.
      let same = get_elem?-replicate (size / 64 / assoc) i _ h in
      rw (← same) (length-replicate assoc _);
}

count_up_total :
    (v : List ℕ) (i : ℕ)
    → i < length v
    → (w : List ℕ) × (count_up v i ≡ some w) × (length w ≡ length v)
unfolding count_up
count_up_total v i h =
    let (n, e) = get_elem?-of_lt v i h in
    let inside : ltb i (length v) ≡ true = ground arith in
    (set v i (n + 1), rw (e, inside), length-set v i (n + 1))

-- `hit` and `c'` are the answer of an access and the cache after it: the answer says whether the
-- line was in its set, and the cache is valid, with the entry at the front of its set, every other set
-- as it was, and every other entry of the set at most one place further back, unless it was last.
pub record IsAccess (c : SetCache) (addr t : ℕ) (hit : Bool) (c' : SetCache) : Type 0 where
  pub valid : IsValid c'
  pub sets : length c'.caches ≡ length c.caches
  pub assoc : c'.set_assoc ≡ c.set_assoc
  pub answer :
      (s : List Entry)
      → get_elem? c.caches (set_of c addr) ≡ some s
      → hit ≡ holds (entry_of addr t) s
  pub counted : c'.cache_total ≡ c.cache_total + 1
  pub front :
      (s : List Entry)
      → get_elem? c'.caches (set_of c addr) ≡ some s
      → get_elem? s 0 ≡ some (entry_of addr t)
  pub others : (i : ℕ) → i ≢ set_of c addr → get_elem? c'.caches i ≡ get_elem? c.caches i
  pub ages :
      (s s' : List Entry) (y : Entry) (i : ℕ)
      → get_elem? c.caches (set_of c addr) ≡ some s
      → get_elem? c'.caches (set_of c addr) ≡ some s'
      → suc i < c.set_assoc
      → get_elem? s i ≡ some y
      → same_entry y (entry_of addr t) ≡ false
      → (j : ℕ) × (j ≤ suc i) × (get_elem? s' j ≡ some y)

hits_total :
    (b : Bool) (v : List ℕ) (i : ℕ)
    → i < length v
    → (w : List ℕ) × ((if b then count_up v i else some v) ≡ some w) × (length w ≡ length v)
hits_total true v i h = count_up_total v i h
hits_total false v i h = (v, refl, refl)

module _ (c : SetCache) (addr t : ℕ) (v : IsValid c) (h : t < 3) where
  set_in_range : set_of c addr < length c.caches
  set_in_range = mod-lt ((addr - addr % 64) / 64) v.some_set

  full-set :
      (s s' : List Entry)
      → length s' ≡ c.set_assoc
      → (i : ℕ) (r : List Entry) → get_elem? (set c.caches (set_of c addr) s') i ≡ some r
      → length r ≡ c.set_assoc
  full-set s s' e i r g = elim (Bool-cases (set_of c addr == i)) [
    | inl p ↦
        let at : set_of c addr ≡ i = ground arith in
        let here = get_elem?-set_self c.caches (set_of c addr) s' set_in_range in
        let there = subst (λ k. get_elem? (set c.caches (set_of c addr) s') k ≡ some s') at here in
        let same : s' ≡ r = cc in rw (← same) e
    | inr p ↦ v.full i r (ground (arith, get_elem?-set_ne c.caches (set_of c addr) i s'))
  ]

-- On a valid cache an access of a type below 3 succeeds: it answers whether the line was in its
-- set, counts one more access, keeps the cache valid, puts the line at the front of its set,
-- leaves every other set as it was, and moves every other entry of the set at most one place
-- back, unless it was the last.
pub cache_access-IsAccess :
    (c : SetCache) (addr t : ℕ)
    → IsValid c
    → t < 3
    → (hit : Bool) × (c' : SetCache) × (cache_access c addr t ≡ some (hit, c'))
      × IsAccess c addr t hit c'
unfolding cache_access
cache_access-IsAccess c addr t v h =
    let (s, es) = get_elem?-of_lt c.caches (set_of c addr) (set_in_range c addr t v h) in
    let r = touch_set c.set_assoc (entry_of addr t) s in
    let (totals, et, lt) = count_up_total c.cache_total_separate t (omega (arith, v.totals)) in
    let (hits, eh, lh) = hits_total r.0 c.cache_hit_separate t (omega (arith, v.hits)) in
    let s_full = v.full (set_of c addr) s es in
    let (full, front) = touch_set-full c.set_assoc (entry_of addr t) s s_full v.assoc_pos in
    let here = get_elem?-set_self c.caches (set_of c addr) r.1 (set_in_range c addr t v h) in
    let only = λ (q : List Entry) (g : get_elem? c.caches (set_of c addr) ≡ some q).
      (let same : s ≡ q = cc in same) in
    (
      r.0,
      record c {
        cache_total_separate = totals;
        cache_hit_separate = hits;
        cache_total = c.cache_total + 1;
        overall_total = c.overall_total + 1;
        cache_hit = (if r.0 then c.cache_hit + 1 else c.cache_hit);
        overall_hit = (if r.0 then c.overall_hit + 1 else c.overall_hit);
        caches = set c.caches (set_of c addr) r.1;
      },
      rw (es, et, eh),
      record {
        valid = record {
          assoc_pos = v.assoc_pos;
          some_set = rw length-set v.some_set;
          totals = lt ∙ v.totals;
          hits = lh ∙ v.hits;
          full = full-set c addr t v h s r.1 full;
        };
        sets = length-set c.caches (set_of c addr) r.1;
        assoc = refl;
        answer = λ q g. rw (← only q g) (touch_set-holds c.set_assoc (entry_of addr t) s);
        counted = refl;
        front = λ q g. let same : r.1 ≡ q = cc in rw (← same) front;
        others = λ i n. get_elem?-set_ne c.caches (set_of c addr) i r.1 (λ e. n (sym e));
        ages = λ q q' y i g g' l e n.
            let same : s ≡ q = cc in
            let same' : r.1 ≡ q' = cc in
            let e' = subst (λ z. get_elem? z i ≡ some y) (sym same) e in
            rw (← same') (touch_set-keeps c.set_assoc (entry_of addr t) y s i s_full l e' n);
      },
    )
