-- ===== src/StashSim/Rounds.antt =====
-- The loop of `main` in src/stash_simulation/set_oram.cc.
use palermo_oram.Base.{
  ℕ, zero, suc, ◌+◌, ◌%◌, ◌<◌, ◌≡◌, refl, ap, subst, ◌∙◌, inl, inr, Bool, true, false, none, some,
  ◌==◌, leb, length, arith, Bool-cases,
}
use palermo_oram.Store.Known.{IsKnown}
use palermo_oram.State.{Random}
use palermo_oram.StashSim.{Sim, stash_maitanence}
use palermo_oram.StashSim.Routine.{maintain, main_round}
use palermo_oram.StashSim.Writeback.{IsKnownIn}
use palermo_oram.StashSim.Sound.{IsSound, read_routine-IsServed}

-- The state between two accesses does not depend on the counters.
counted-IsSound :
    (s : Sim) (draws violations : ℕ)
    → IsSound s
    → IsSound (record s { draws = draws; stash_violation = violations })
counted-IsSound s draws violations v = record {
  levels = v.levels;
  some_block = v.some_block;
  fits = v.fits;
  bits_fit = v.bits_fit;
  early = v.early;
  holds = v.holds;
  serving = v.serving;
}

-- What a run of dummy accesses keeps.
pub record IsMaintained (s : Sim) (ended : Bool) (s' : Sim) : Type 0 where
  pub sound : IsSound s'
  pub same_levels : s'.num_of_lvls ≡ s.num_of_lvls
  pub known : (x leaf : ℕ) → IsKnown s.store x leaf → IsKnownIn s.num_of_lvls s'.store x leaf
  pub small : ended ≡ true → length s'.store.stash < stash_maitanence

maintain_total :
    (random : Random) (fuel : ℕ) (s : Sim)
    → IsSound s
    → (ended : Bool) × (s' : Sim) × (maintain random fuel s ≡ some (ended, s'))
      × IsMaintained s ended s'
unfolding maintain
maintain_total random zero s v = (
  false,
  s,
  refl,
  record {
    sound = v;
    same_levels = refl;
    known = λ x leaf k. (leaf, refl, k);
    small = λ e. absurd (cc);
  },
)
maintain_total random (suc fuel) s v =
    elim (Bool-cases (leb stash_maitanence (length s.store.stash))) [
      | inr fine ↦ (
        true,
        s,
        rw fine refl,
        record {
          sound = v;
          same_levels = refl;
          known = λ x leaf k. (leaf, refl, k);
          small = λ e. ground arith;
        },
      )
      | inl large ↦
          let s₀ = record s { stash_violation = s.stash_violation + 1 } in
          let (s₁, run₁, q) =
            read_routine-IsServed random none s₀
              (counted-IsSound s s.draws (s.stash_violation + 1) v) in
          let (ended, s', run, m) = maintain_total random fuel s₁ q.sound in
          (
            ended,
            s',
            rw (large, run₁) run,
            record {
              sound = m.sound;
              same_levels = m.same_levels ∙ q.same_levels;
              known = λ x leaf k.
                  let (l₁, e₁, k₁) = q.known x leaf (λ e. absurd (cc)) k in
                  let (l₂, e₂, k₂) =
                    subst (λ n. IsKnownIn n s'.store x l₁) q.same_levels (m.known x l₁ k₁) in
                  (l₂, e₂ ∙ e₁, k₂);
              small = m.small;
            },
          )
    ]

-- A round of the loop of `main` of the stash simulation in a sound state, with any fuel for its
-- inner loop: no assertion fails, the state is sound again, no block that was in the stash or in
-- a bucket is lost, and if the inner loop ends within the fuel the stash has fewer than
-- `STASH_MAITANENCE` blocks.
pub main_round-IsMaintained :
    (random : Random) (fuel space : ℕ) (s : Sim)
    → IsSound s
    → (ended : Bool) × (s' : Sim) × (main_round random fuel space s ≡ some (ended, s'))
      × IsSound s'
      × (ended ≡ true → length s'.store.stash < stash_maitanence)
      × ((x leaf : ℕ) → IsKnown s.store x leaf → (new : ℕ) × IsKnown s'.store x new)
unfolding main_round
main_round-IsMaintained random fuel space s v =
    let a = random.rand s.draws % space in
    let s₀ = record s { draws = s.draws + 1 } in
    let (s₁, run₁, q) =
      read_routine-IsServed random (some a) s₀
        (counted-IsSound s (s.draws + 1) s.stash_violation v) in
    let (ended, s', run, m) = maintain_total random fuel s₁ q.sound in
    (
      ended,
      s',
      rw run₁ run,
      m.sound,
      m.small,
      λ x leaf k. elim (Bool-cases (a == x)) [
        | inl p ↦
            let same : a ≡ x = ground arith in
            let (l₁, k₁) = q.now x (ap (λ (z : ℕ). some z) same) in
            let (l₂, _, k₂) = m.known x l₁ k₁ in (l₂, k₂)
        | inr p ↦
            let (l₁, _, k₁) = q.known x leaf (λ e. let same : a ≡ x = cc in ground arith) k in
            let (l₂, _, k₂) = m.known x l₁ k₁ in (l₂, k₂)
      ],
    )
