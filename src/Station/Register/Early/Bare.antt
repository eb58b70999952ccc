-- ===== src/Station/Register/Early/Bare.antt =====
-- The pulls of `rs_line_register_early_reshuffle_r` in src/reservation.h, on the store.
use palermo_oram.Base.{
  ℕ, zero, suc, ◌+◌, ◌≤◌, ◌<◌, ◌≡◌, refl, sym, ap, subst, ◌∙◌, Option, none, some, [], arith, ◌==◌,
  inl, inr, Bool-cases, Option-cases, >>=-eq-some, get_elem?, set, range, for_each, ltb, length,
  true, length-set, get_elem?-set_self, lt-of_get_elem?,
}
use palermo_oram.Params.{bucket_slots}
use palermo_oram.Tree.{slot_address}
use palermo_oram.Store.{Store, pull_slot}
use palermo_oram.Store.Blocks.{Holds, pull_slot-Holds}
use palermo_oram.Store.Known.{IsKnown, pull_slot-IsKnown}
use palermo_oram.State.{Rs, RsLine, modify_line, unknown}
use palermo_oram.Station.Register.Early.{pull_early_slot}

pub pull_slot_clears : (a : ℕ) (st : Store) → (pull_slot a st).addr_to_origaddr a ≡ none
unfolding pull_slot
pull_slot_clears a st = elim (Option-cases (st.addr_to_origaddr a)) [
  | inl m ↦ rw (m, pull_slot) m
  | inr (line, m) ↦ rw (m, pull_slot) (ground arith)
]

pub pull_slot_keeps :
    (a b : ℕ) (st : Store)
    → st.addr_to_origaddr b ≡ none
    → (pull_slot a st).addr_to_origaddr b ≡ none
unfolding pull_slot
pull_slot_keeps a b st e = elim (Option-cases (st.addr_to_origaddr a)) [
  | inl m ↦ rw (m, pull_slot) e
  | inr (line, m) ↦ rw (m, pull_slot) (ground arith)
]

pub modify_line-store :
    (i : ℕ) (f : RsLine → Option RsLine) (r : Rs) {r' : Rs}
    → modify_line i f r ≡ some r'
    → r'.store ≡ r.store
modify_line-store i f r {r'} e =
    let (line, _, e₁) = >>=-eq-some (get_elem? r.rs_vec i) _ e in
    let (line', _, e₂) = >>=-eq-some (f line) _ e₁ in
    let same : record r { rs_vec = set r.rs_vec i line' } ≡ r' = cc in
    ap (λ (q : Rs). q.store) (sym same)

pull_early_slot-store :
    (node j : ℕ) (r : Rs) {r' : Rs}
    → pull_early_slot node j r ≡ some r'
    → r'.store ≡ pull_slot (slot_address node j) r.store
unfolding pull_early_slot
pull_early_slot-store node j r {r'} e =
    let (r₁, e₁, e₂) = >>=-eq-some (modify_line r.tail _ r) _ e in
    let same : record r₁ { store = pull_slot (slot_address node j) r₁.store } ≡ r' = cc in
    ap (λ (q : Rs). q.store) (sym same)
    ∙ ap (pull_slot (slot_address node j)) (modify_line-store r.tail _ r e₁)

-- What the pulls of the first slots of a node have done.
pub record IsPulled (n start node j : ℕ) (before after : Store) : Type 0 where
  pub holds : Holds n start [] after
  pub known : (x leaf : ℕ) → IsKnown before x leaf → IsKnown after x leaf
  pub bare : (off : ℕ) → off < j → after.addr_to_origaddr (slot_address node off) ≡ none

IsPulled-suc :
    (n start node j : ℕ) (before after : Store)
    → IsPulled n start node j before after
    → IsPulled n start node (suc j) before (pull_slot (slot_address node j) after)
IsPulled-suc n start node j before after q = record {
  holds = pull_slot-Holds n start (slot_address node j) after q.holds;
  known = λ x leaf k.
      pull_slot-IsKnown n start (slot_address node j) after q.holds x leaf (q.known x leaf k);
  bare = λ off lt. elim (Bool-cases (off == j)) [
    | inl p ↦
        let here : off ≡ j = ground arith in rw here (pull_slot_clears (slot_address node j) after)
    | inr p ↦
        pull_slot_keeps (slot_address node j) (slot_address node off) after
          (q.bare off (ground arith))
  ];
}

pub pull_slots :
    (n start node s k : ℕ) (before : Store) (r r' : Rs)
    → IsPulled n start node s before r.store
    → for_each (pull_early_slot node) (range s k) r ≡ some r'
    → IsPulled n start node (s + k) before r'.store
unfolding for_each range
pull_slots n start node s zero before r r' q e =
    let same : r ≡ r' = cc in
    let z : s + 0 ≡ s = omega arith in
    rw z (subst (λ (t : Rs). IsPulled n start node s before t.store) same q)
pull_slots n start node s (suc k) before r r' q e =
    let (r₁, e₁, e₂) = >>=-eq-some (pull_early_slot node s r) _ e in
    let next =
      subst (IsPulled n start node (suc s) before) (sym (pull_early_slot-store node s r e₁))
        (IsPulled-suc n start node s before r.store q) in
    let z : s + suc k ≡ suc s + k = omega arith in
    rw z (pull_slots n start node (suc s) k before r₁ r' next e₂)

-- The line at the tail has its two vectors for an early pull.
abbrev pub HasEarly : Rs → Type 0
HasEarly r =
    (l : RsLine) × (get_elem? r.rs_vec r.tail ≡ some l)
    × (length l.oram_addr_for_early_pull ≡ bucket_slots)
    × (length l.oram_finished_vec_for_early_pull ≡ bucket_slots)

pull_one_total :
    (node j : ℕ) (r : Rs)
    → j < bucket_slots
    → HasEarly r
    → (r' : Rs) × (pull_early_slot node j r ≡ some r') × HasEarly r'
unfolding pull_early_slot
pull_one_total node j r lt (l, at, la, lf) =
    let a = slot_address node j in
    let l' : RsLine = record l {
      oram_addr_for_early_pull = set l.oram_addr_for_early_pull j (some a);
      oram_finished_vec_for_early_pull = set l.oram_finished_vec_for_early_pull j (true, unknown);
    } in
    let ia : ltb j (length l.oram_addr_for_early_pull) ≡ true = ground arith in
    let jf : ltb j (length l.oram_finished_vec_for_early_pull) ≡ true = ground arith in
    (
      record r { rs_vec = set r.rs_vec r.tail l'; store = pull_slot a r.store },
      rw (at, ia, jf) refl,
      (
        l',
        get_elem?-set_self r.rs_vec r.tail l' (lt-of_get_elem? r.rs_vec r.tail at),
        length-set l.oram_addr_for_early_pull j (some a) ∙ la,
        length-set l.oram_finished_vec_for_early_pull j (true, unknown) ∙ lf,
      ),
    )

pull_all_total :
    (node s k : ℕ) (r : Rs)
    → s + k ≤ bucket_slots
    → HasEarly r
    → (r' : Rs) × (for_each (pull_early_slot node) (range s k) r ≡ some r')
unfolding for_each range
pull_all_total node s zero r le h = (r, refl)
pull_all_total node s (suc k) r le h =
    let (r₁, e, h₁) = pull_one_total node s r (omega arith) h in
    let (r', e') = pull_all_total node (suc s) k r₁ (omega arith) h₁ in (r', rw e e')

-- The first loop of `rs_line_register_early_reshuffle_r`, in a station that keeps the invariant
-- of the store and whose line at the tail has its Z + S addresses and flags: it finishes, the
-- invariant holds, no block is forgotten, and no block is mapped to a slot of the node.
pub pull_early_slot-IsPulled :
    (n start node : ℕ) (r : Rs)
    → Holds n start [] r.store
    → HasEarly r
    → (r' : Rs) × (for_each (pull_early_slot node) (range 0 bucket_slots) r ≡ some r')
      × IsPulled n start node bucket_slots r.store r'.store
pull_early_slot-IsPulled n start node r v h =
    let (r', e) = pull_all_total node 0 bucket_slots r (omega arith) h in
    (
      r',
      e,
      pull_slots n start node 0 bucket_slots r.store r r'
          (record { holds = v; known = λ x leaf k. k; bare = λ off lt. absurd (omega arith) }) e,
    )
