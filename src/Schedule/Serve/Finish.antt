-- ===== src/Schedule/Serve/Finish.antt =====
-- `oram_task_finish` of src/Memory.h: each step of a task, with what it sets off.
use palermo_oram.Base.{
  ℕ, ◌+◌, ◌≤◌, ◌<◌, ◌≡◌, refl, sym, ap, subst, ◌∙◌, inl, inr, Bool, true, false, some, arith,
}
use palermo_oram.Tree.{TreeName}
use palermo_oram.Schedule.{Key, Task2d, Schedule, in_pool, oram_task_create}
use palermo_oram.Schedule.Window.{release_step, with_step}
use palermo_oram.Schedule.Spec.{
  IsReady, IsClear, Progress, progress, following, advance, Moves, stay, onward,
}
use palermo_oram.Schedule.Invariant.{Inv}
use palermo_oram.Schedule.Create.{IsCreated, create_total}
use palermo_oram.Schedule.Live.{Live, LiveBut, Sent, Begun, MayGo, created-sent, created-begun}
use palermo_oram.Schedule.Serve.{wake_after, create_step}
use palermo_oram.Schedule.Serve.Awake.{same_progress, IsWoken}
use palermo_oram.Schedule.Serve.Held.{wake_after_total}

-- What the end of a step must do: nothing fails, the invariant is kept, and the tasks move as they
-- should.
abbrev pub Moved : Schedule → Schedule → Type 0
Moved s s' = Inv s' × Live s' × Moves (progress s) (progress s')

-- A task of the column that is there, at a step that it may take, and out of the pool.
pub record CanFinish (s : Schedule) (k : Key) (this : Task2d) : Type 0 where
  pub inv : Inv s
  pub at : s.task_deque k ≡ some this
  pub low : this.next_step ≤ 5
  pub idle : in_pool k s.execution_pool ≡ false
  pub ready : IsReady s.task_deque k
  pub free : 1 ≤ this.next_step → IsClear s.task_deque k this
  pub but : LiveBut k s

-- The task goes to its next step.
module _ (s : Schedule) (id n : ℕ) (t : TreeName) (this : Task2d) (f : CanFinish s (id, t) this)
    (next : following this ≡ n) where
  pub create_next :
      (s' : Schedule) × (oram_task_create (id, t) n s ≡ some s')
      × IsCreated (id, t) n this s s'
      × Moves (progress s) (progress s')
  create_next =
      let up : this.next_step ≤ n = ground (arith, f.low) in
      let high : n ≤ 6 = ground (arith, f.low) in
      let free : 2 ≤ n → IsClear s.task_deque (id, t) this = λ h. f.free (ground (arith, f.low)) in
      let (s', e, c) = create_total s f.inv id t n this f.at up high f.idle f.ready free in
      let same =
        same_progress s s' (with_step (id, t) (following this) this s.task_deque)
          (c.tasks ∙ ap (λ m. with_step (id, t) m this s.task_deque) (sym next)) c.committed
          c.admitted in
      (
        s',
        e,
        c,
        subst (λ q. Moves (progress s) q) (sym same)
            (onward stay (advance (id, t) this f.at f.low f.ready f.free)),
      )

  above : 1 ≤ n
  above = ground (arith, f.low)

  -- A step that lets no task go.
  pub quiet-Sent :
      (s' : Schedule)
      → IsCreated (id, t) n this s s'
      → (this.next_step < release_step this → release_step this ≤ n → ⊥)
      → (q : Key) (o : Task2d) → Sent s' q o
  quiet-Sent s' c quiet q o e go =
      elim (created-sent s s' f.inv id n t this f.at c f.but above q o e go) [
        | inl behind ↦ let (_, _, _, lo, hi, _, _) = behind in absurd (quiet lo hi)
        | inr h ↦ h
      ]

  -- A step that lets no tree start.
  pub near-Begun :
      (s' : Schedule)
      → IsCreated (id, t) n this s s'
      → (this.next_step ≤ 3 → 4 ≤ n → ⊥)
      → (q : Key) (o : Task2d) → Begun s' q o
  near-Begun s' c near q o e r z =
      elim (created-begun s s' f.inv id n t this f.at c f.but above q o e r z) [
        | inl now ↦ let (lo, hi, _, _) = now in absurd (near lo hi)
        | inr h ↦ h
      ]

  pub create_step_total :
      (this.next_step < release_step this → release_step this ≤ n → ⊥)
      → (this.next_step ≤ 3 → 4 ≤ n → ⊥)
      → (s' : Schedule) × (create_step (id, t) n s ≡ some (true, s')) × Moved s s'
  unfolding create_step
  create_step_total quiet near =
      let (s', e, c, m) = create_next in
      (
        s',
        rw e refl,
        (c.inv, record { sent = quiet-Sent s' c quiet; begun = near-Begun s' c near }, m),
      )

  -- The next column of the set is woken after it.
  module _ (lets_go : Task2d → Bool)
      (held : lets_go (record this { next_step = n }) ≡ true → this.next_step < release_step this)
      (lets : this.next_step < release_step this
        → release_step this ≤ n
        → lets_go (record this { next_step = n }) ≡ true) where
    woken-Sent :
        (s₁ s₂ : Schedule)
        → IsCreated (id, t) n this s s₁
        → IsWoken t this.set_id (id + 1) (lets_go (record this { next_step = n })) s₁ s₂
        → (q : Key) (o : Task2d) → Sent s₂ q o
    woken-Sent s₁ s₂ c w q o e go =
        let same = ap (λ (p : Progress). p.tasks) w.same in
        let e' = subst (λ d. d q ≡ some o) same e in
        let go' = subst (λ d. MayGo d q o) same go in
        elim (created-sent s s₁ f.inv id n t this f.at c f.but above q o e' go') [
          | inr h ↦ w.keeps q h
          | inl (tree, lt, set, lo, hi, big, clear) ↦
              subst (λ u. in_pool (q.0, u) s₂.execution_pool ≡ true) tree
                (w.sent (lets lo hi) q.0 o (omega arith)
                  (subst (λ u. s₁.task_deque (q.0, u) ≡ some o) (sym tree) e') set big
                  (subst (λ u. IsClear s₁.task_deque (q.0, u) o) (sym tree) clear))
        ]

    pub create_and_wake :
        (s₁ s₂ : Schedule) × (oram_task_create (id, t) n s ≡ some s₁)
        × (wake_after (id, t) lets_go s₁ ≡ some s₂)
        × IsCreated (id, t) n this s s₁
        × (progress s₂ ≡ progress s₁)
        × Inv s₂
        × ((q : Key) (o : Task2d) → Sent s₂ q o)
        × Moves (progress s) (progress s₂)
    create_and_wake =
        let (s₁, e₁, c, m) = create_next in
        let (s₂, e₂, w) = wake_after_total s s₁ f.inv id n t this f.at c lets_go held in
        (
          s₁,
          s₂,
          e₁,
          e₂,
          c,
          w.same,
          w.inv,
          woken-Sent s₁ s₂ c w,
          subst (λ q. Moves (progress s) q) (sym w.same) m,
        )

-- The same steps of the tasks start the same trees.
pub Begun-same :
    (s₁ s₂ : Schedule)
    → progress s₂ ≡ progress s₁
    → (q : Key) (o : Task2d) → Begun s₁ q o
    → Begun s₂ q o
Begun-same s₁ s₂ same q o b e r z =
    let tasks = ap (λ (p : Progress). p.tasks) same in
    b (subst (λ d. d q ≡ some o) tasks e) (subst (λ d. IsReady d q) tasks r) z
