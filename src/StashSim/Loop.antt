-- ===== src/StashSim/Loop.antt =====
-- The parts of `read_routine` in src/stash_simulation/set_oram.cc after the reads.
use native.Mathlib.Nat.{mod-lt}
use palermo_oram.Base.{
  ℕ, ◌-◌, ◌%◌, ◌^◌, ◌≤◌, ◌<◌, ◌≡◌, ◌≢◌, refl, ap, sym, subst, ◌∙◌, inl, inr, Option, none, some,
  List, [], ◌∷◌, ◌==◌, insert, arith, Bool-cases, for_each, lookup-insert,
}
use palermo_oram.Base.Maps.Order.{insert-IsSorted}
use palermo_oram.Store.{Store, Address, PosMapLine, mapped}
use palermo_oram.Store.Blocks.{Holds}
use palermo_oram.Store.Known.{IsKnown}
use palermo_oram.State.{Random}
use palermo_oram.StashSim.{Sim, to_stash}
use palermo_oram.StashSim.Routine.{write_back, reshuffle, reshuffle_all}
use palermo_oram.StashSim.Serving.{IsServing, fewer-IsServing}
use palermo_oram.StashSim.Writeback.{IsKnownIn, SameRun}
use palermo_oram.StashSim.Renewal.{IsRestored, write_back-IsRestored}
use palermo_oram.StashSim.Reshuffle.{reshuffle-IsRestored}
use palermo_oram.StashSim.Touch.{AllEarly, nodes_of, spent_of}

pub IsRestored-trans :
    {spent more : List ℕ} {s s₁ s₂ : Sim}
    → IsRestored spent s s₁
    → IsRestored more s₁ s₂
    → IsRestored more s s₂
IsRestored-trans {spent} {more} {s} {s₁} {s₂} p q = record {
  same = record {
    levels = q.same.levels ∙ p.same.levels;
    total = q.same.total ∙ p.same.total;
    bits = q.same.bits ∙ p.same.bits;
    early = q.same.early ∙ p.same.early;
  };
  holds = subst (λ n. Holds n 0 [] s₂.store) p.same.levels q.holds;
  serving = subst (λ n. IsServing n more s₂.store) p.same.levels q.serving;
  known = λ x leaf k.
      let (l₁, e₁, k₁) = p.known x leaf k in
      let (l₂, e₂, k₂) = subst (λ n. IsKnownIn n s₂.store x l₁) p.same.levels (q.known x l₁ k₁) in
      (l₂, e₂ ∙ e₁, k₂);
}

pub IsRestored-same :
    {spent : List ℕ} (s : Sim)
    → Holds s.num_of_lvls 0 [] s.store
    → IsServing s.num_of_lvls spent s.store
    → IsRestored spent s s
IsRestored-same s h v = record {
  same = record { levels = refl; total = refl; bits = refl; early = refl };
  holds = h;
  serving = v;
  known = λ x leaf k. (leaf, refl, k);
}

-- The write-back, if there is one.
pub write_back_total :
    (random : Random) (masking : Option ℕ) (early : List (ℕ × ℕ)) (s : Sim)
    → 0 < s.num_of_lvls
    → ((leaf : ℕ) → masking ≡ some leaf → leaf < 2 ^ (s.num_of_lvls - 1))
    → Holds s.num_of_lvls 0 [] s.store
    → IsServing s.num_of_lvls (spent_of masking early) s.store
    → (s' : Sim) × (write_back random masking s ≡ some s') × IsRestored (nodes_of early) s s'
unfolding write_back
write_back_total random none early s pos ok h v = (s, refl, IsRestored-same s h v)
write_back_total random (some leaf) early s pos ok h v =
    write_back-IsRestored random leaf (nodes_of early) s pos (ok leaf refl) h v

-- The early reshuffles, one after the other.
reshuffles_total :
    (random : Random) (early : List (ℕ × ℕ)) (s : Sim)
    → AllEarly s.num_of_lvls early
    → Holds s.num_of_lvls 0 [] s.store
    → IsServing s.num_of_lvls (nodes_of early) s.store
    → (s' : Sim) × (for_each (reshuffle random) early s ≡ some s') × IsRestored [] s s'
unfolding for_each
reshuffles_total random [] s a h v = (s, refl, IsRestored-same s h v)
reshuffles_total random ((node, lvl) ∷ rest) s a h v =
    let (leaf, small, lt, kept, here) = a.0 in
    let v' = subst (λ k. IsServing s.num_of_lvls (k ∷ nodes_of rest) s.store) (sym here) v in
    let (s₁, run, q) = reshuffle-IsRestored random leaf lvl (nodes_of rest) s lt kept small h v' in
    let run' = subst (λ k. reshuffle random (k, lvl) s ≡ some s₁) here run in
    let up = sym q.same.levels in
    let (s', runs, q') =
      reshuffles_total random rest s₁ (subst (λ n. AllEarly n rest) up a.1)
        (subst (λ n. Holds n 0 [] s₁.store) up q.holds)
        (subst (λ n. IsServing n (nodes_of rest) s₁.store) up q.serving) in
    (s', rw run' runs, IsRestored-trans q q')

-- After the loop over `early_reshuffle_nodes`, which is cleared, no bucket is used up.
pub reshuffle_all_total :
    (random : Random) (s : Sim)
    → AllEarly s.num_of_lvls s.early_nodes
    → Holds s.num_of_lvls 0 [] s.store
    → IsServing s.num_of_lvls (nodes_of s.early_nodes) s.store
    → (s' : Sim) × (reshuffle_all random s ≡ some (record s' { early_nodes = [] }))
      × IsRestored [] s s'
unfolding reshuffle_all
reshuffle_all_total random s a h v =
    let (s', run, q) = reshuffles_total random s.early_nodes s a h v in (s', rw run refl, q)

-- A block that is in no bucket goes to the stash.
pub record IsStashed (address : Address) (spent : List ℕ) (s s' : Sim) : Type 0 where
  pub same : SameRun s s'
  pub holds : Holds s.num_of_lvls 0 [] s'.store
  pub serving : IsServing s.num_of_lvls spent s'.store
  pub known : (x leaf : ℕ) → address ≢ some x → IsKnown s.store x leaf → IsKnown s'.store x leaf
  pub now : (x : ℕ) → address ≡ some x → (leaf : ℕ) × IsKnown s'.store x leaf

stash-Holds :
    (n x leaf : ℕ) (st : Store)
    → Holds n 0 [] st
    → ((l : PosMapLine) → st.pos_map (some x) ≢ some (mapped l))
    → Holds n 0 [] (record st { stash = insert x leaf st.stash })
stash-Holds n x leaf st h unmapped = record {
  sorted = insert-IsSorted x leaf st.stash h.sorted;
  slots = h.slots;
  lines = h.lines;
  apart = λ y l line e z f. elim (Bool-cases (x == y)) [
    | inl p ↦
        let same : x ≡ y = ground arith in
        unmapped line (subst (λ k. st.pos_map (some k) ≡ some (mapped line)) (sym same) f)
    | inr p ↦ h.apart y l line (ground (arith, lookup-insert x y leaf st.stash)) z f
  ];
}

pub to_stash-IsStashed :
    (random : Random) (address : Address) (spent : List ℕ) (s : Sim)
    → 0 < s.total_num_blocks
    → s.total_num_blocks ≤ 2 ^ (s.num_of_lvls - 1)
    → Holds s.num_of_lvls 0 [] s.store
    → IsServing s.num_of_lvls spent s.store
    → ((x : ℕ) (l : PosMapLine) → address ≡ some x → s.store.pos_map (some x) ≢ some (mapped l))
    → IsStashed address spent s (to_stash random address s)
unfolding to_stash
to_stash-IsStashed random none spent s pos fits h v unmapped = record {
  same = record { levels = refl; total = refl; bits = refl; early = refl };
  holds = h;
  serving = v;
  known = λ x leaf ne k. k;
  now = λ x e. absurd (cc);
}
to_stash-IsStashed random (some a) spent s pos fits h v unmapped =
    let leaf = random.rand s.draws % s.total_num_blocks in
    let small : leaf < 2 ^ (s.num_of_lvls - 1) = omega (arith, mod-lt (random.rand s.draws) pos) in
    let st' : Store = record (s.store) { stash = insert a leaf s.store.stash } in
    record {
      same = record { levels = refl; total = refl; bits = refl; early = refl };
      holds = stash-Holds s.num_of_lvls a leaf s.store h (λ l. unmapped a l refl);
      serving =
          fewer-IsServing s.store st' refl v.no_dummy (λ x l e. e) (λ b l e. e)
            (λ x l e. elim (Bool-cases (a == x)) [
              | inl p ↦ ground (arith, lookup-insert a x leaf s.store.stash)
              | inr p ↦ v.stash_leaves x l (ground (arith, lookup-insert a x leaf s.store.stash))
            ])
            v;
      known = λ x l ne k. elim k [
        | inl e ↦
            let other : a ≢ x = λ q. ne (ap (λ (z : ℕ). some z) q) in
            inl (ground (arith, lookup-insert a x leaf s.store.stash))
        | inr m ↦ inr m
      ];
      now = λ x e.
          let same : a ≡ x = cc in
          (leaf, inl (ground (arith, lookup-insert a x leaf s.store.stash)));
    }
