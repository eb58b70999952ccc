-- ===== src/StashSim/Pulls.antt =====
-- The pulls of src/stash_simulation/set_oram.cc: of one node, and of the path that is written back.
use palermo_oram.Base.{
  ℕ, zero, suc, ◌+◌, ◌≤◌, ◌<◌, ◌≡◌, refl, inl, inr, true, none, some, List, [], ◌==◌, range, arith,
  Bool-cases, Option-cases, for_each,
}
use palermo_oram.Params.{bucket_slots}
use palermo_oram.Tree.{path_node, slot_address}
use palermo_oram.Store.{Store, pull_slot}
use palermo_oram.Store.Blocks.{Holds, pull_slot-Holds}
use palermo_oram.Store.Known.{IsKnown, pull_slot-IsKnown}
use palermo_oram.Posmap.Piggy.One.{IsBare}
use palermo_oram.StashSim.{is_kept, sim_path_node, pull_node, sim_pull_level}
use palermo_oram.StashSim.Serving.{IsServing, pull_slot-IsServing}

-- What pulls keep.
pub record IsPulled (n : ℕ) (spent : List ℕ) (st st' : Store) : Type 0 where
  pub holds : Holds n 0 [] st'
  pub serving : IsServing n spent st'
  pub known : (x leaf : ℕ) → IsKnown st x leaf → IsKnown st' x leaf
  pub empty : (a : ℕ) → st.addr_to_origaddr a ≡ none → st'.addr_to_origaddr a ≡ none

pub IsPulled-trans :
    {n : ℕ} {spent : List ℕ} {st st₁ st₂ : Store}
    → IsPulled n spent st st₁
    → IsPulled n spent st₁ st₂
    → IsPulled n spent st st₂
IsPulled-trans p q = record {
  holds = q.holds;
  serving = q.serving;
  known = λ x leaf k. q.known x leaf (p.known x leaf k);
  empty = λ a e. q.empty a (p.empty a e);
}

pull_empty :
    (a b : ℕ) (st : Store)
    → st.addr_to_origaddr b ≡ none
    → (pull_slot a st).addr_to_origaddr b ≡ none
unfolding pull_slot
pull_empty a b st e = elim (Option-cases (st.addr_to_origaddr a)) [
  | inl m ↦ rw (m, pull_slot) e
  | inr (line, m) ↦ rw (m, pull_slot) (ground arith)
]

pull_empties : (a : ℕ) (st : Store) → (pull_slot a st).addr_to_origaddr a ≡ none
unfolding pull_slot
pull_empties a st = elim (Option-cases (st.addr_to_origaddr a)) [
  | inl m ↦ rw (m, pull_slot) m
  | inr (line, m) ↦ rw (m, pull_slot) (ground arith)
]

module _ (n : ℕ) (spent : List ℕ) where
  pub pull_slot-IsPulled :
      (a : ℕ) (st : Store)
      → Holds n 0 [] st
      → IsServing n spent st
      → IsPulled n spent st (pull_slot a st)
  pull_slot-IsPulled a st h v = record {
    holds = pull_slot-Holds n 0 a st h;
    serving = pull_slot-IsServing n spent a st v;
    known = pull_slot-IsKnown n 0 a st h;
    empty = λ b e. pull_empty a b st e;
  }

  pull_slots_total :
      (node s k : ℕ) (st : Store)
      → Holds n 0 [] st
      → IsServing n spent st
      → (st' : Store) × (for_each
            (λ j (t : Store). some (pull_slot (slot_address node j) t))
            (range s k)
            st
          ≡ some st')
        × IsPulled n spent st st'
        × ((j : ℕ) → s ≤ j → j < s + k → st'.addr_to_origaddr (slot_address node j) ≡ none)
  unfolding for_each range
  pull_slots_total node s zero st h v = (
    st,
    refl,
    record { holds = h; serving = v; known = λ x leaf e. e; empty = λ a e. e },
    λ j a b. absurd (omega arith),
  )
  pull_slots_total node s (suc k) st h v =
      let p = pull_slot-IsPulled (slot_address node s) st h v in
      let (st', run, q, bare) =
        pull_slots_total node (suc s) k (pull_slot (slot_address node s) st) p.holds p.serving in
      (
        st',
        run,
        IsPulled-trans p q,
        λ j a b. elim (Bool-cases (s == j)) [
          | inl e ↦
              let here : s ≡ j = ground arith in
              rw (← here) (q.empty _ (pull_empties (slot_address node s) st))
          | inr e ↦ bare j (ground arith) (omega arith)
        ],
      )

  -- The pulls of a node leave it bare.
  pub pull_node_total :
      (node : ℕ) (st : Store)
      → Holds n 0 [] st
      → IsServing n spent st
      → (st' : Store) × (pull_node node st ≡ some st') × IsPulled n spent st st' × IsBare st' node
  unfolding pull_node
  pull_node_total node st h v =
      let (st', run, p, bare) = pull_slots_total node 0 bucket_slots st h v in
      (st', run, p, λ off lt. bare off (omega arith) (omega arith))

  -- The rounds of `writeback_pull` leave the kept levels of the path bare.
  pub pull_levels_total :
      (block_id s k : ℕ) (st : Store)
      → Holds n 0 [] st
      → IsServing n spent st
      → (st' : Store) × (for_each (sim_pull_level n block_id) (range s k) st ≡ some st')
        × IsPulled n spent st st'
        × ((i : ℕ) → s ≤ i → i < s + k → is_kept i ≡ true → IsBare st' (path_node n block_id i))
  unfolding for_each range sim_pull_level sim_path_node
  pull_levels_total block_id s zero st h v = (
    st,
    refl,
    record { holds = h; serving = v; known = λ x leaf e. e; empty = λ a e. e },
    λ i a b. absurd (omega arith),
  )
  pull_levels_total block_id s (suc k) st h v = elim (Bool-cases (is_kept s)) [
    | inr cut ↦
        let (st', run, p, bare) = pull_levels_total block_id (suc s) k st h v in
        (
          st',
          rw cut run,
          p,
          λ i a b kept. elim (Bool-cases (s == i)) [
            | inl e ↦
                let here : s ≡ i = ground arith in let kept' = rw (← here) at kept in absurd (cc)
            | inr e ↦ bare i (ground arith) (omega arith) kept
          ],
        )
    | inl keep ↦
        let (st₁, run₁, p₁, bare₁) = pull_node_total (path_node n block_id s) st h v in
        let (st', run, p, bare) = pull_levels_total block_id (suc s) k st₁ p₁.holds p₁.serving in
        (
          st',
          rw (keep, run₁) run,
          IsPulled-trans p₁ p,
          λ i a b kept. elim (Bool-cases (s == i)) [
            | inl e ↦
                let here : s ≡ i = ground arith in rw (← here) (λ off lt. p.empty _ (bare₁ off lt))
            | inr e ↦ bare i (ground arith) (omega arith) kept
          ],
        )
  ]
