-- ===== src/Schedule/Live.antt =====
-- The schedule of src/Memory.h forgets no task: one that may take its step is in the pool.
pub mod Oldest
use palermo_oram.Base.{
  ℕ, zero, suc, ◌+◌, ◌%◌, ◌≤◌, ◌<◌, ◌≡◌, ◌≢◌, refl, sym, ap, subst, ◌∙◌, inl, inr, ◌⊎◌, Bool, true,
  false, some, ◌==◌, ◌&&◌, leb, ltb, if◌then◌else◌, Bool-cases, arith,
}
use palermo_oram.Params.{evict_rate}
use palermo_oram.Tree.{TreeName, data_tree, pos1, pos2}
use palermo_oram.Schedule.{Key, Task2d, Deque, Schedule, same_key, same_tree, in_pool}
use palermo_oram.Schedule.Keys.{
  deque_put-some, deque_put_same, same_key_eq, same_tree_eq, same_tree_self, same_key_self,
}
use palermo_oram.Schedule.Window.{release_step, with_step}
use palermo_oram.Schedule.Spec.{IsReady, IsClear}
use palermo_oram.Schedule.Invariant.{Inv}
use palermo_oram.Schedule.Create.{IsCreated}

-- A task may take the step that it is at: the first of `pos2` at once, the others when those before
-- them let them.
abbrev pub MayGo : Deque → Key → Task2d → Type 0
MayGo d (id, t) o =
    (o.next_step ≤ 5)
    × (((o.next_step ≡ 0) × (t ≡ pos2)) ⊎ ((1 ≤ o.next_step) × IsClear d (id, t) o))

abbrev pub Sent : Schedule → Key → Task2d → Type 0
Sent s k o = s.task_deque k ≡ some o → MayGo s.task_deque k o → in_pool k s.execution_pool ≡ true

-- A tree whose turn it is has started.
abbrev pub Begun : Schedule → Key → Task2d → Type 0
Begun s k o = s.task_deque k ≡ some o → IsReady s.task_deque k → o.next_step ≡ 0 → k.1 ≡ pos2

pub record Live (s : Schedule) : Type 0 where
  pub sent : (k : Key) (o : Task2d) → Sent s k o
  pub begun : (k : Key) (o : Task2d) → Begun s k o

-- All tasks but one.
pub record LiveBut (k : Key) (s : Schedule) : Type 0 where
  pub sent : (q : Key) (o : Task2d) → same_key k q ≡ false → Sent s q o
  pub begun : (q : Key) (o : Task2d) → same_key k q ≡ false → Begun s q o

-- The order of the trees of a column.
abbrev pub Follows : TreeName → TreeName → Type 0
Follows t u = ((t ≡ pos2) × (u ≡ pos1)) ⊎ ((t ≡ pos1) × (u ≡ data_tree))

-- A task `this` goes to the step `n`.
module _ (s s₁ : Schedule) (v : Inv s) (id n : ℕ) (t : TreeName) (this : Task2d)
    (at : s.task_deque (id, t) ≡ some this) (c : IsCreated (id, t) n this s s₁)
    (l : LiveBut (id, t) s) (one : 1 ≤ n) where
  -- A task of the same set that the step lets go.
  abbrev pub Behind : Key → Task2d → Type 0
  Behind (j, u) o =
      (t ≡ u)
      × (id < j)
      × (o.set_id ≡ this.set_id)
      × (this.next_step < release_step this)
      × (release_step this ≤ n)
      × (1 ≤ o.next_step)
      × IsClear s₁.task_deque (j, u) o

  moved_task :
      (q : Key) (o : Task2d)
      → s₁.task_deque q ≡ some o
      → (((id, t) ≡ q) × (record this { next_step = n } ≡ o))
        ⊎ ((same_key (id, t) q ≡ false) × (s.task_deque q ≡ some o))
  moved_task q o e =
      deque_put-some s.task_deque (id, t) q (record this { next_step = n })
        (subst (λ d. d q ≡ some o) c.tasks e)

  here_now : s₁.task_deque (id, t) ≡ some (record this { next_step = n })
  here_now = ap (λ (d : Deque). d (id, t)) c.tasks ∙ deque_put_same s.task_deque (id, t) _

  others_same : (q : Key) → same_key (id, t) q ≡ false → s₁.task_deque q ≡ s.task_deque q
  others_same q p = ap (λ (d : Deque). d q) c.tasks ∙ (rw p refl)

  -- What is let go now was let go before, unless the step lets it go.
  was-IsClear :
      (j : ℕ) (u : TreeName) (o : Task2d)
      → 1 ≤ o.next_step
      → IsClear s₁.task_deque (j, u) o
      → (Behind (j, u) o) ⊎ IsClear s.task_deque (j, u) o
  was-IsClear j u o big clear =
      elim (Bool-cases (
        same_tree t u
        && ltb id j
        && (o.set_id == this.set_id)
        && ltb this.next_step (release_step this))) [
          | inl p ↦
              let tree : t ≡ u = same_tree_eq t u (ground arith) in
              let lt : id < j = ground arith in
              let set : o.set_id ≡ this.set_id = ground arith in
              let now =
                subst (λ w. s₁.task_deque (id, w) ≡ some (record this { next_step = n })) tree
                  here_now in
              inl (
                tree,
                lt,
                set,
                ground arith,
                clear id (record this { next_step = n }) lt now (sym set),
                big,
                clear,
              )
          | inr p ↦ inr (λ i other lt e same. elim (Bool-cases (same_key (id, t) (i, u))) [
            | inl k ↦
                let eq = same_key_eq (id, t) (i, u) k in
                let e' = subst (λ (w : Key). s.task_deque w ≡ some other) (sym eq) e in
                let mine : this ≡ other = cc in
                let first : id ≡ i = ap (λ (w : Key). w.0) eq in
                let set = subst (λ (w : Task2d). w.set_id ≡ o.set_id) (sym mine) same in
                subst (λ (w : Task2d). release_step w ≤ w.next_step) mine (ground arith)
            | inr k ↦ clear i other lt (others_same (i, u) k ∙ e) same
          ])
        ]

  pub created-sent :
      (q : Key) (o : Task2d)
      → s₁.task_deque q ≡ some o
      → MayGo s₁.task_deque q o
      → (Behind q o) ⊎ (in_pool q s₁.execution_pool ≡ true)
  created-sent (j, u) o e (low, go) = elim (moved_task (j, u) o e) [
    | inl (here, mine) ↦ elim go [
      | inl (z, _) ↦
          let z' = subst (λ (w : Task2d). w.next_step ≡ 0) (sym mine) z in absurd (omega arith)
      | inr (big, clear) ↦
          let low' = subst (λ (w : Task2d). w.next_step ≤ 5) (sym mine) low in
          let clear' = subst (λ (w : Key). IsClear s₁.task_deque w o) (sym here) clear in
          let clear'' = subst (λ w. IsClear s₁.task_deque (id, t) w) (sym mine) clear' in
          inr (subst (λ (w : Key). in_pool w s₁.execution_pool ≡ true) here (c.sends low' clear''))
    ]
    | inr (ne, old) ↦ elim go [
      | inl first ↦ inr (c.keeps (j, u) (l.sent (j, u) o ne old (low, inl first)))
      | inr (big, clear) ↦ elim (was-IsClear j u o big clear) [
        | inl behind ↦ inl behind
        | inr before ↦ inr (c.keeps (j, u) (l.sent (j, u) o ne old (low, inr (big, before))))
      ]
    ]
  ]

  -- The tree that this step lets start.
  abbrev pub Launched : Key → Type 0
  Launched (j, u) = (this.next_step ≤ 3) × (4 ≤ n) × (id ≡ j) × Follows t u

  -- A tree that is ready after the step was ready before it, or starts now.
  ready_before :
      (j : ℕ) (p u : TreeName) (o : Task2d)
      → Follows p u
      → s₁.task_deque (j, p) ≡ some o
      → 4 ≤ o.next_step
      → Launched (j, u) ⊎ ((o' : Task2d) × (s.task_deque (j, p) ≡ some o') × (4 ≤ o'.next_step))
  ready_before j p u o f e le = elim (moved_task (j, p) o e) [
    | inr (ne, old) ↦ inr (o, old, le)
    | inl (here, mine) ↦ elim (Bool-cases (leb this.next_step 3)) [
      | inl low ↦
          let first : id ≡ j = ap (λ (w : Key). w.0) here in
          let tree : t ≡ p = ap (λ (w : Key). w.1) here in
          let le' = subst (λ (w : Task2d). 4 ≤ w.next_step) (sym mine) le in
          inl (ground arith, le', first, subst (λ w. Follows w u) (sym tree) f)
      | inr high ↦ inr (this, subst (λ (w : Key). s.task_deque w ≡ some this) here at, ground arith)
    ]
  ]

  begun_of :
      (j : ℕ) (u : TreeName) (o : Task2d)
      → same_key (id, t) (j, u) ≡ false
      → s.task_deque (j, u) ≡ some o
      → IsReady s₁.task_deque (j, u)
      → o.next_step ≡ 0
      → Launched (j, u) ⊎ (u ≡ pos2)
  begun_of j pos2 o ne old r z = inr refl
  begun_of j pos1 o ne old (o₁, e₁, le) z =
      elim (ready_before j pos2 pos1 o₁ (inl (refl, refl)) e₁ le) [
        | inl now ↦ inl now
        | inr before ↦ inr (l.begun (j, pos1) o ne old before z)
      ]
  begun_of j data_tree o ne old (o₁, e₁, le) z =
      elim (ready_before j pos1 data_tree o₁ (inr (refl, refl)) e₁ le) [
        | inl now ↦ inl now
        | inr before ↦ inr (l.begun (j, data_tree) o ne old before z)
      ]

  pub created-begun :
      (q : Key) (o : Task2d)
      → s₁.task_deque q ≡ some o
      → IsReady s₁.task_deque q
      → o.next_step ≡ 0
      → Launched q ⊎ (q.1 ≡ pos2)
  created-begun (j, u) o e r z = elim (moved_task (j, u) o e) [
    | inl (here, mine) ↦
        let z' = subst (λ (w : Task2d). w.next_step ≡ 0) (sym mine) z in absurd (omega arith)
    | inr (ne, old) ↦ begun_of j u o ne old r z
  ]

  pub Begun-elsewhere : (q : Key) (o : Task2d) → id ≢ q.0 → Begun s₁ q o
  Begun-elsewhere q o other e r z = elim (created-begun q o e r z) [
    | inl (_, _, here, _) ↦ absurd (other here)
    | inr h ↦ h
  ]
