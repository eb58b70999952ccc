-- ===== src/Schedule/Serve/Held.antt =====
-- What a task held back until its step in `oram_task_finish` of src/Memory.h.
use palermo_oram.Base.{
  ℕ, suc, ◌+◌, ◌<◌, ◌≡◌, refl, sym, ap, subst, ◌∙◌, inl, inr, Bool, true, false, some, Bool-cases,
  arith, ltb,
}
use palermo_oram.Tree.{TreeName}
use palermo_oram.Schedule.{Key, Task2d, Deque, Schedule, same_key, in_pool}
use palermo_oram.Schedule.Keys.{deque_put_other, deque_put_same}
use palermo_oram.Schedule.Window.{release_step}
use palermo_oram.Schedule.Invariant.{Inv}
use palermo_oram.Schedule.Create.{IsCreated}
use palermo_oram.Schedule.Serve.{wake_after}
use palermo_oram.Schedule.Serve.Awake.{AreHeld, IsWoken, wake_next_total}

-- After a task `this` went to the step `n`, those that it held back are not in the pool.
module _ (s s₁ : Schedule) (v : Inv s) (id n : ℕ) (t : TreeName) (this : Task2d)
    (at : s.task_deque (id, t) ≡ some this) (c : IsCreated (id, t) n this s s₁) where
  old_task :
      (j : ℕ) (o : Task2d) → id < j → s₁.task_deque (j, t) ≡ some o → s.task_deque (j, t) ≡ some o
  old_task j o lt e =
      let apart : same_key (id, t) (j, t) ≡ false = ground arith in
      sym (deque_put_other s.task_deque (id, t) (j, t) _ apart)
      ∙ subst (λ d. d (j, t) ≡ some o) c.tasks e

  still_out :
      this.next_step < release_step this
      → (j : ℕ) (o : Task2d) → id < j
      → s₁.task_deque (j, t) ≡ some o
      → o.set_id ≡ this.set_id
      → o.next_step ≡ 1
      → in_pool (j, t) s₁.execution_pool ≡ false
  still_out held j o lt e same one = elim (Bool-cases (in_pool (j, t) s₁.execution_pool)) [
    | inr out ↦ out
    | inl sent ↦ elim (c.pool (j, t) sent) [
      | inl here ↦ let here' : id ≡ j = ap (λ (k : Key). k.0) here in absurd (omega arith)
      | inr before ↦
          let (o', e', le, r, clear) = v.pooled (j, t) before in
          let old = old_task j o lt e in
          let mine : o ≡ o' = cc in
          let one' = subst (λ (q : Task2d). q.next_step ≡ 1) mine one in
          let set = subst (λ (q : Task2d). q.set_id ≡ this.set_id) mine same in
          let released = clear (omega arith) id this lt at (sym set) in absurd (omega arith)
    ]
  ]

  pub are_held : this.next_step < release_step this → AreHeld t this.set_id id s₁
  are_held held j o lt e same = (
    elim (Bool-cases (ltb 1 o.next_step)) [
      | inl p ↦
          let free = v.clear (j, t) o (old_task j o lt e) (ground arith) in
          absurd (omega (arith, free id this lt at (sym same)))
      | inr p ↦ ground arith
    ],
    still_out held j o lt e same,
  )

  pub wake_after_total :
      (lets_go : Task2d → Bool)
      → (lets_go (record this { next_step = n }) ≡ true → this.next_step < release_step this)
      → (s₂ : Schedule) × (wake_after (id, t) lets_go s₁ ≡ some s₂)
        × IsWoken t this.set_id (id + 1) (lets_go (record this { next_step = n })) s₁ s₂
  unfolding wake_after
  wake_after_total lets_go held =
      let here : s₁.task_deque (id, t) ≡ some (record this { next_step = n }) =
        ap (λ (d : Deque). d (id, t)) c.tasks ∙ deque_put_same s.task_deque (id, t) _ in
      let (lo, hi) = v.within id t this at in
      let (s₂, e, w) =
        wake_next_total (suc s₁.tail_n_id) t this.set_id (lets_go (record this { next_step = n }))
          id (id + 1) s₁ c.inv (λ go. are_held (held go)) (omega (arith, c.committed)) (omega arith)
          (omega (arith, c.admitted)) (omega arith) in
      (s₂, rw (here, e) refl, w)
