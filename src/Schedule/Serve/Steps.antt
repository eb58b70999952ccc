-- ===== src/Schedule/Serve/Steps.antt =====
-- `oram_task_finish` of src/Memory.h as a whole.
use palermo_oram.Base.{
  ℕ, zero, suc, ◌≤◌, ◌<◌, ◌≡◌, refl, sym, ap, subst, ◌∙◌, inl, inr, Bool, true, false, not, some,
  Bool-cases, arith,
}
use palermo_oram.Tree.{TreeName}
use palermo_oram.Schedule.{Key, Task2d, Schedule, oram_task_create}
use palermo_oram.Schedule.Window.{release_step}
use palermo_oram.Schedule.Spec.{Progress, following, Moves-append}
use palermo_oram.Schedule.Invariant.{Inv}
use palermo_oram.Schedule.Serve.{
  writes_back, finish_2, finish_3, finish_5, oram_task_finish, try_commit, wake_after,
  start_next_tree, create_step,
}
use palermo_oram.Schedule.Live.{Begun, Begun-elsewhere}
use palermo_oram.Schedule.Serve.Commit.{
  Tried, try_commit_total, committed-Inv, committed-Live, committed-Moves,
}
use palermo_oram.Schedule.Serve.Finish.{
  Moved, CanFinish, create_next, create_step_total, create_and_wake, quiet-Sent, near-Begun,
  Begun-same,
}
use palermo_oram.Schedule.Serve.Launch.{start_next_tree_total}

-- The results of `oram_task_finish`, call by call.
module _ (s s₁ s₂ s₃ : Schedule) (id : ℕ) (t : TreeName) where
  finish_2-some :
      oram_task_create (id, t) 3 s ≡ some s₁
      → wake_after (id, t) (λ q. not (writes_back q)) s₁ ≡ some s₂
      → finish_2 (id, t) s ≡ some (true, s₂)
  unfolding finish_2
  finish_2-some e₁ e₂ = rw (e₁, e₂) refl

  finish_5-some :
      (gone : Bool)
      → oram_task_create (id, t) 6 s ≡ some s₁
      → wake_after (id, t) writes_back s₁ ≡ some s₂
      → try_commit id s₂ ≡ some (gone, s₃)
      → finish_5 (id, t) s ≡ some (not gone, s₃)
  unfolding finish_5
  finish_5-some gone e₁ e₂ e₃ = rw (e₁, e₂, e₃) refl

  module _ (this : Task2d) (at : s.task_deque (id, t) ≡ some this) where
    finish_3-write_back :
        writes_back this ≡ true
        → oram_task_create (id, t) 4 s ≡ some s₁
        → start_next_tree (id, t) s₁ ≡ some s₂
        → finish_3 (id, t) s ≡ some (true, s₂)
    unfolding finish_3
    finish_3-write_back wb e₁ e₂ = rw (at, wb, e₁, e₂) refl

    finish_3-committed :
        (gone : Bool)
        → gone ≡ true
        → writes_back this ≡ false
        → oram_task_create (id, t) 6 s ≡ some s₁
        → try_commit id s₁ ≡ some (gone, s₂)
        → finish_3 (id, t) s ≡ some (false, s₂)
    unfolding finish_3
    finish_3-committed gone left reads e₁ e₂ = rw (at, reads, e₁, e₂, left) refl

    finish_3-next_tree :
        (gone : Bool)
        → gone ≡ false
        → s₂ ≡ s₁
        → writes_back this ≡ false
        → oram_task_create (id, t) 6 s ≡ some s₁
        → try_commit id s₁ ≡ some (gone, s₂)
        → start_next_tree (id, t) s₁ ≡ some s₃
        → finish_3 (id, t) s ≡ some (true, s₃)
    unfolding finish_3
    finish_3-next_tree gone not_yet kept reads e₁ e₂ e₃ =
        rw (at, reads, e₁, e₂, not_yet, kept, e₃) refl

-- The step after step 3.
following-write_back : (o : Task2d) → o.next_step ≡ 3 → writes_back o ≡ true → following o ≡ 4
following-write_back o e wb = ground arith

following-read : (o : Task2d) → o.next_step ≡ 3 → writes_back o ≡ false → following o ≡ 6
following-read o e wb = ground arith

module _ (s : Schedule) (id : ℕ) (t : TreeName) (this : Task2d) (f : CanFinish s (id, t) this) where
  finish_2_total :
      this.next_step ≡ 2
      → (more : Bool) × (s' : Schedule) × (finish_2 (id, t) s ≡ some (more, s')) × Moved s s'
  finish_2_total e =
      let next : following this ≡ 3 = ground arith in
      let (s₁, s₂, e₁, e₂, c, same, v, sent, m) =
        create_and_wake s id 3 t this f next (λ q. not (writes_back q)) (λ h. ground arith)
          (λ lo hi. ground arith) in
      let begun = near-Begun s id 3 t this f next s₁ c (λ lo hi. omega arith) in
      (
        true,
        s₂,
        finish_2-some s s₁ s₂ s₂ id t e₁ e₂,
        (v, record { sent = sent; begun = λ q o. Begun-same s₁ s₂ same q o (begun q o) }, m),
      )

  -- The oldest column is tried; the bounds of the column do not change.
  try_after :
      (s₁ : Schedule)
      → Inv s₁
      → s₁.current_rdy_to_commit ≡ s.current_rdy_to_commit
      → s₁.tail_n_id ≡ s.tail_n_id
      → (gone : Bool) × (s₂ : Schedule) × (try_commit id s₁ ≡ some (gone, s₂)) × Tried id s₁ gone s₂
  try_after s₁ v same_c same_t =
      let (lo, hi) = f.inv.within id t this f.at in
      try_commit_total s₁ id v (omega arith) (omega arith)

  finish_5_total :
      this.next_step ≡ 5
      → (more : Bool) × (s' : Schedule) × (finish_5 (id, t) s ≡ some (more, s')) × Moved s s'
  finish_5_total e =
      let next : following this ≡ 6 = ground arith in
      let (s₁, s₂, e₁, e₂, c, same, v, sent, m) =
        create_and_wake s id 6 t this f next writes_back (λ h. ground arith)
          (λ lo hi. ground arith) in
      let begun₁ = near-Begun s id 6 t this f next s₁ c (λ lo hi. omega arith) in
      let begun : (q : Key) (o : Task2d) → Begun s₂ q o =
        λ q o. Begun-same s₁ s₂ same q o (begun₁ q o) in
      let (gone, s₃, e₃, d) =
        try_after s₂ v (ap (λ (q : Progress). q.committed) same ∙ c.committed)
          (ap (λ (q : Progress). q.admitted) same ∙ c.admitted) in
      (
        not gone,
        s₃,
        finish_5-some s s₁ s₂ s₃ id t gone e₁ e₂ e₃,
        elim d [
          | inl (_, kept) ↦
              subst (λ r. Moved s r) (sym kept) (v, record { sent = sent; begun = begun }, m)
          | inr (_, left, _, done) ↦
              subst (λ r. Moved s r) (sym left)
                (
                  committed-Inv s₂ v done,
                  committed-Live s₂ v done sent (λ q o _. begun q o),
                  Moves-append m (committed-Moves s₂ v done),
                )
        ],
      )

  -- After step 3 without a write-back.
  finish_read :
      this.next_step ≡ 3
      → writes_back this ≡ false
      → (more : Bool) × (s' : Schedule) × (finish_3 (id, t) s ≡ some (more, s')) × Moved s s'
  finish_read e reads =
      let next = following-read this e reads in
      let (s₁, e₁, c, m) = create_next s id 6 t this f next in
      let sent = quiet-Sent s id 6 t this f next s₁ c (λ lo hi. ground arith) in
      let (gone, s₂, e₂, d) = try_after s₁ c.inv c.committed c.admitted in
      elim d [
        | inr (left, out, here, done) ↦ (
          false,
          s₂,
          finish_3-committed s s₁ s₂ s₂ id t this f.at gone left reads e₁ e₂,
          subst (λ r. Moved s r) (sym out)
              (
                committed-Inv s₁ c.inv done,
                committed-Live s₁ c.inv done sent (λ q o other.
                    Begun-elsewhere s s₁ f.inv id 6 t this f.at c f.but (omega arith) q o
                      (λ same. other (sym here ∙ same))),
                Moves-append m (committed-Moves s₁ c.inv done),
              ),
        )
        | inl (not_yet, kept) ↦
            let (s₃, e₃, (v₃, l₃, m₃)) =
              start_next_tree_total s s₁ f.inv id 6 t this f.at c f.but (omega arith) e
                (omega arith) sent in
            (
              true,
              s₃,
              finish_3-next_tree s s₁ s₂ s₃ id t this f.at gone not_yet kept reads e₁ e₂ e₃,
              (v₃, l₃, Moves-append m m₃),
            )
      ]

  finish_3_total :
      this.next_step ≡ 3
      → (more : Bool) × (s' : Schedule) × (finish_3 (id, t) s ≡ some (more, s')) × Moved s s'
  finish_3_total e = elim (Bool-cases (writes_back this)) [
    | inl wb ↦
        let next = following-write_back this e wb in
        let (s₁, e₁, c, m) = create_next s id 4 t this f next in
        let sent = quiet-Sent s id 4 t this f next s₁ c (λ lo hi. ground arith) in
        let (s₂, e₂, (v₂, l₂, m₂)) =
          start_next_tree_total s s₁ f.inv id 4 t this f.at c f.but (omega arith) e (omega arith)
            sent in
        (
          true,
          s₂,
          finish_3-write_back s s₁ s₂ s₂ id t this f.at wb e₁ e₂,
          (v₂, l₂, Moves-append m m₂),
        )
    | inr reads ↦ finish_read e reads
  ]

  -- The steps that set nothing else off.
  plain_step :
      (n : ℕ)
      → following this ≡ n
      → (this.next_step < release_step this → release_step this ≤ n → ⊥)
      → (this.next_step ≤ 3 → 4 ≤ n → ⊥)
      → (more : Bool) × (s' : Schedule) × (create_step (id, t) n s ≡ some (more, s')) × Moved s s'
  plain_step n next quiet near =
      let (s', e, m) = create_step_total s id n t this f next quiet near in (true, s', e, m)

  pub oram_task_finish_total :
      (step : ℕ)
      → this.next_step ≡ step
      → (more : Bool) × (s' : Schedule) × (oram_task_finish (id, t) step s ≡ some (more, s'))
        × Moved s s'
  unfolding oram_task_finish
  oram_task_finish_total zero e =
      plain_step 1 (ground arith) (λ lo hi. ground arith) (λ lo hi. omega arith)
  oram_task_finish_total (suc zero) e =
      plain_step 2 (ground arith) (λ lo hi. ground arith) (λ lo hi. omega arith)
  oram_task_finish_total (suc (suc zero)) e = finish_2_total e
  oram_task_finish_total (suc (suc (suc zero))) e = finish_3_total e
  oram_task_finish_total (suc (suc (suc (suc zero)))) e =
      plain_step 5 (ground arith) (λ lo hi. ground arith) (λ lo hi. omega arith)
  oram_task_finish_total (suc (suc (suc (suc (suc zero))))) e = finish_5_total e
  oram_task_finish_total (suc (suc (suc (suc (suc (suc n)))))) e = absurd (omega (arith, f.low))
