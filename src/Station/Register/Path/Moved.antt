-- ===== src/Station/Register/Path/Moved.antt =====
-- What pulls of src/reservation.h do to the store: blocks go to the stash, and none elsewhere.
use palermo_oram.Base.{
  ℕ, ◌<◌, ◌≡◌, refl, subst, ◌∙◌, none, some, [], arith, ◌==◌, lookup, lookup-insert, inl, inr,
  Bool-cases, Option-cases, length,
}
use palermo_oram.Store.{Store, PosMapLine, pull_slot}
use palermo_oram.Store.Blocks.{Holds, pull_slot-Holds}
use palermo_oram.Store.Known.{IsKnown, pull_slot-IsKnown}
use palermo_oram.Station.Register.Early.Bare.{pull_slot_keeps}

-- All leaves of the blocks are below `top`.
pub record LeavesFit (top : ℕ) (st : Store) : Type 0 where
  pub stash : (x leaf : ℕ) → lookup x st.stash ≡ some leaf → leaf < top
  pub slots : (a : ℕ) (line : PosMapLine) → st.addr_to_origaddr a ≡ some line → line.block_id < top

-- Blocks have moved to the stash, and none elsewhere.
pub record IsMoved (n start : ℕ) (before after : Store) : Type 0 where
  pub holds : Holds n start [] after
  pub known : (x leaf : ℕ) → IsKnown before x leaf → IsKnown after x leaf
  pub keeps : (a : ℕ) → before.addr_to_origaddr a ≡ none → after.addr_to_origaddr a ≡ none
  pub leaves : (top : ℕ) → LeavesFit top before → LeavesFit top after
  pub sized : length after.buckets ≡ length before.buckets

pull_slot-LeavesFit : (top a : ℕ) (st : Store) → LeavesFit top st → LeavesFit top (pull_slot a st)
unfolding pull_slot
pull_slot-LeavesFit top a st f = elim (Option-cases (st.addr_to_origaddr a)) [
  | inl m ↦ rw (m, pull_slot) f
  | inr (line, m) ↦
      let found = (λ (x : ℕ). lookup-insert line.original_address x line.block_id st.stash) in
      rw (m, pull_slot)
        (record {
          stash = λ x leaf e. elim (Bool-cases (line.original_address == x)) [
            | inl p ↦
                let here : some line.block_id ≡ some leaf = rw (found x, p) at e in
                let same : line.block_id ≡ leaf = cc in subst (λ y. y < top) same (f.slots a line m)
            | inr p ↦
                let there : lookup x st.stash ≡ some leaf = rw (found x, p) at e in
                f.stash x leaf there
          ];
          slots = λ b l e. elim (Bool-cases (a == b)) [
            | inl p ↦ absurd (ground (arith, e, p))
            | inr p ↦
                let there : st.addr_to_origaddr b ≡ some l = ground (arith, e, p) in
                f.slots b l there
          ];
        })
]

pull_slot-sized : (a : ℕ) (st : Store) → length (pull_slot a st).buckets ≡ length st.buckets
unfolding pull_slot
pull_slot-sized a st = elim (Option-cases (st.addr_to_origaddr a)) [
  | inl m ↦ rw (m, pull_slot) refl
  | inr (line, m) ↦ rw (m, pull_slot) refl
]

pub IsMoved-none : (n start : ℕ) (st : Store) → Holds n start [] st → IsMoved n start st st
IsMoved-none n start st v = record {
  holds = v;
  known = λ x leaf k. k;
  keeps = λ a e. e;
  leaves = λ top f. f;
  sized = refl;
}

pub pull_slot-IsMoved :
    (n start a : ℕ) (before after : Store)
    → IsMoved n start before after
    → IsMoved n start before (pull_slot a after)
pull_slot-IsMoved n start a before after m = record {
  holds = pull_slot-Holds n start a after m.holds;
  known = λ x leaf k. pull_slot-IsKnown n start a after m.holds x leaf (m.known x leaf k);
  keeps = λ b e. pull_slot_keeps a b after (m.keeps b e);
  leaves = λ top f. pull_slot-LeavesFit top a after (m.leaves top f);
  sized = pull_slot-sized a after ∙ m.sized;
}

pub IsMoved-trans :
    (n start : ℕ) (a b c : Store) → IsMoved n start a b → IsMoved n start b c → IsMoved n start a c
IsMoved-trans n start a b c p q = record {
  holds = q.holds;
  known = λ x leaf k. q.known x leaf (p.known x leaf k);
  keeps = λ x e. q.keeps x (p.keeps x e);
  leaves = λ top f. q.leaves top (p.leaves top f);
  sized = q.sized ∙ p.sized;
}
