-- ===== src/Schedule/Serve/Launch.antt =====
-- The next tree of a column starts when this one is done reading: `oram_task_finish` of src/Memory.h
-- after step 3.
use palermo_oram.Base.{
  ℕ, ◌≤◌, ◌≡◌, refl, sym, ap, subst, ◌∙◌, inl, inr, false, some, arith, Bool-cases, ltb,
}
use palermo_oram.Tree.{TreeName, data_tree, pos1, pos2}
use palermo_oram.Schedule.{Key, Task2d, Deque, Schedule, same_key, in_pool, oram_task_create}
use palermo_oram.Schedule.Keys.{deque_put_other, deque_put_same, same_key_self}
use palermo_oram.Schedule.Spec.{IsReady, following, stay}
use palermo_oram.Schedule.Invariant.{Inv}
use palermo_oram.Schedule.Create.{IsCreated}
use palermo_oram.Schedule.Live.{LiveBut, Sent, Begun, created-begun}
use palermo_oram.Schedule.Serve.{start_next_tree}
use palermo_oram.Schedule.Serve.Finish.{Moved, CanFinish, create_next, quiet-Sent, near-Begun}

-- The tree `u` follows on the tree `t`, whose task went from step 3 to the step `n`.
module _ (s s₁ : Schedule) (v : Inv s) (id n : ℕ) (t u : TreeName) (this : Task2d)
    (at : s.task_deque (id, t) ≡ some this) (three : this.next_step ≡ 3) (far : 4 ≤ n)
    (c : IsCreated (id, t) n this s s₁) (apart : same_key (id, t) (id, u) ≡ false)
    (uses : (d : Deque)
      → IsReady d (id, u)
      → (o : Task2d) × (d (id, t) ≡ some o) × (4 ≤ o.next_step))
    (makes : (d : Deque) (o : Task2d)
      → d (id, t) ≡ some o
      → 4 ≤ o.next_step
      → IsReady d (id, u)) where
  not_ready : IsReady s.task_deque (id, u) → ⊥
  not_ready r =
      let (o, e, le) = uses s.task_deque r in
      let same : this ≡ o = cc in
      let le' = subst (λ (q : Task2d). 4 ≤ q.next_step) (sym same) le in omega arith

  next_task : (o : Task2d) × (s.task_deque (id, u) ≡ some o) × (o.next_step ≡ 0)
  next_task =
      let (lo, hi) = v.within id t this at in
      let (o, e) = v.there id u lo hi in
      (
        o,
        e,
        elim (Bool-cases (ltb 0 o.next_step)) [
          | inl p ↦ absurd (not_ready (v.chain (id, u) o e (ground arith)))
          | inr p ↦ ground arith
        ],
      )

  still_idle : in_pool (id, u) s₁.execution_pool ≡ false
  still_idle = elim (Bool-cases (in_pool (id, u) s₁.execution_pool)) [
    | inr out ↦ out
    | inl sent ↦ elim (c.pool (id, u) sent) [
      | inl here ↦
          let self = subst (λ k. same_key (id, t) k ≡ false) (sym here) apart in
          let yes = same_key_self (id, t) in absurd cc
      | inr before ↦ let (o, e, le, r, free) = v.pooled (id, u) before in absurd (not_ready r)
    ]
  ]

  pub launch :
      ((q : Key) (o : Task2d) → Sent s₁ q o)
      → ((q : Key) (o : Task2d) → same_key (id, u) q ≡ false → Begun s₁ q o)
      → (s₂ : Schedule) × (oram_task_create (id, u) 1 s₁ ≡ some s₂) × Moved s₁ s₂
  launch sent begun =
      let (o, e, zero_step) = next_task in
      let there : s₁.task_deque (id, u) ≡ some o =
        ap (λ (d : Deque). d (id, u)) c.tasks
        ∙ (deque_put_other s.task_deque (id, t) (id, u) _ apart ∙ e) in
      let pred : s₁.task_deque (id, t) ≡ some (record this { next_step = n }) =
        ap (λ (d : Deque). d (id, t)) c.tasks ∙ deque_put_same s.task_deque (id, t) _ in
      let f : CanFinish s₁ (id, u) o = record {
        inv = c.inv;
        at = there;
        low = omega arith;
        idle = still_idle;
        ready = makes s₁.task_deque (record this { next_step = n }) pred far;
        free = λ h. absurd (omega arith);
        but = record { sent = λ q w _. sent q w; begun = begun };
      } in
      let next : following o ≡ 1 = ground arith in
      let (s₂, e₂, c₂, m) = create_next s₁ id 1 u o f next in
      (
        s₂,
        e₂,
        (
          c₂.inv,
          record {
            sent = quiet-Sent s₁ id 1 u o f next s₂ c₂ (λ lo hi. ground arith);
            begun = near-Begun s₁ id 1 u o f next s₂ c₂ (λ lo hi. omega arith);
          },
          m,
        ),
      )

-- A key with the same column and tree is the same.
same_column :
    (i j : ℕ) (w : TreeName) {u : TreeName} → i ≡ j → w ≡ u → same_key (i, u) (j, w) ≡ false → ⊥
same_column i j w {u} here tree ne =
    let e : same_key (j, w) (j, w) ≡ false =
      subst (λ x. same_key (j, x) (j, w) ≡ false) (sym tree)
        (subst (λ k. same_key (k, u) (j, w) ≡ false) here ne) in
    let self = same_key_self (j, w) in absurd cc

-- `start_next_tree` after step 3, which lets no task of the same tree go.
pub start_next_tree_total :
    (s s₁ : Schedule) (v : Inv s) (id n : ℕ) (t : TreeName) (this : Task2d)
    (at : s.task_deque (id, t) ≡ some this) (c : IsCreated (id, t) n this s s₁)
    (l : LiveBut (id, t) s) (one : 1 ≤ n)
    → this.next_step ≡ 3
    → 4 ≤ n
    → ((q : Key) (o : Task2d) → Sent s₁ q o)
    → (s₂ : Schedule) × (start_next_tree (id, t) s₁ ≡ some s₂) × Moved s₁ s₂
unfolding start_next_tree
start_next_tree_total s s₁ v id n data_tree this at c l one three far sent = (
  s₁,
  refl,
  (
    c.inv,
    record {
      sent = sent;
      begun = λ q o e r z. elim (created-begun s s₁ v id n data_tree this at c l one q o e r z) [
        | inl (_, _, _, inl (p, _)) ↦ absurd cc
        | inl (_, _, _, inr (p, _)) ↦ absurd cc
        | inr h ↦ h
      ];
    },
    stay,
  ),
)
start_next_tree_total s s₁ v id n pos1 this at c l one three far sent =
    launch s s₁ v id n pos1 data_tree this at three far c (ground arith) (λ d r. r)
      (λ d o e le. (o, e, le)) sent
      (λ (j, w) o ne e r z. elim (created-begun s s₁ v id n pos1 this at c l one (j, w) o e r z) [
        | inl (_, _, here, inl (p, _)) ↦ absurd cc
        | inl (_, _, here, inr (_, p)) ↦ absurd (same_column id j w here p ne)
        | inr h ↦ h
      ])
start_next_tree_total s s₁ v id n pos2 this at c l one three far sent =
    launch s s₁ v id n pos2 pos1 this at three far c (ground arith) (λ d r. r)
      (λ d o e le. (o, e, le)) sent
      (λ (j, w) o ne e r z. elim (created-begun s s₁ v id n pos2 this at c l one (j, w) o e r z) [
        | inl (_, _, here, inl (_, p)) ↦ absurd (same_column id j w here p ne)
        | inl (_, _, here, inr (p, _)) ↦ absurd cc
        | inr h ↦ h
      ])
