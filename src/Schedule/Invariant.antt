-- ===== src/Schedule/Invariant.antt =====
-- The invariant of the schedule of src/Memory.h, and `oram_task_create`.
use palermo_oram.Base.{
  ℕ, ◌≤◌, ◌<◌, ◌≡◌, refl, sym, subst, ◌∙◌, inl, inr, true, false, some, Bool-cases, arith,
}
use palermo_oram.Tree.{TreeName, data_tree, pos1, pos2}
use palermo_oram.Schedule.{Key, Task2d, Deque, Schedule, same_key, in_pool}
use palermo_oram.Schedule.Keys.{deque_put-some, deque_put_other, same_key_eq, IsApart}
use palermo_oram.Schedule.Window.{release_step, with_step}
use palermo_oram.Schedule.Spec.{IsReady, IsClear}

pub record Inv (s : Schedule) : Type 0 where
  pub ordered : s.current_rdy_to_commit ≤ s.tail_n_id
  -- The columns from the oldest that is not committed to the newest are there, and no others.
  pub there :
      (id : ℕ) (t : TreeName)
      → s.current_rdy_to_commit ≤ id
      → id < s.tail_n_id
      → (o : Task2d) × (s.task_deque (id, t) ≡ some o)
  pub within :
      (id : ℕ) (t : TreeName) (o : Task2d)
      → s.task_deque (id, t) ≡ some o
      → (s.current_rdy_to_commit ≤ id) × (id < s.tail_n_id)
  pub chain :
      (k : Key) (o : Task2d) → s.task_deque k ≡ some o → 1 ≤ o.next_step → IsReady s.task_deque k
  pub clear :
      (k : Key) (o : Task2d) → s.task_deque k ≡ some o → 2 ≤ o.next_step → IsClear s.task_deque k o
  -- A task in the pool may take the step that it is at.
  pub pooled :
      (k : Key)
      → in_pool k s.execution_pool ≡ true
      → (o : Task2d) × (s.task_deque k ≡ some o)
        × (o.next_step ≤ 5)
        × IsReady s.task_deque k
        × (1 ≤ o.next_step → IsClear s.task_deque k o)
  pub once : IsApart s.execution_pool

-- The deque after a task goes ahead.
module _ (k : Key) (step : ℕ) (this : Task2d) (d : Deque) (at : d k ≡ some this)
    (up : this.next_step ≤ step) where
  -- A task that was at a step is at it or beyond.
  ahead :
      (q : Key) (o : Task2d) (n : ℕ)
      → d q ≡ some o
      → n ≤ o.next_step
      → (o' : Task2d) × (with_step k step this d q ≡ some o') × (n ≤ o'.next_step)
  ahead q o n e le = elim (Bool-cases (same_key k q)) [
    | inl p ↦
        let here = same_key_eq k q p in
        let e' : d k ≡ some o = rw here e in
        let same : this ≡ o = cc in
        let le' : n ≤ this.next_step = rw same le in
        (record this { next_step = step }, rw p refl, omega arith)
    | inr p ↦ (o, rw p e, le)
  ]

  pub ahead-IsReady : (q : Key) → IsReady d q → IsReady (with_step k step this d) q
  ahead-IsReady (id, pos2) r = tt
  ahead-IsReady (id, pos1) (o, e, le) = ahead (id, pos2) o 4 e le
  ahead-IsReady (id, data_tree) (o, e, le) = ahead (id, pos1) o 4 e le

  pub ahead-IsClear : (q : Key) (o : Task2d) → IsClear d q o → IsClear (with_step k step this d) q o
  ahead-IsClear (id, t) o c j other lt e same =
      elim (deque_put-some d k (j, t) (record this { next_step = step }) e) [
        | inl (here, got) ↦
            let e' = subst (λ q. d q ≡ some this) here at in
            let set = subst (λ (r : Task2d). r.set_id ≡ o.set_id) (sym got) same in
            let old = c j this lt e' set in
            subst (λ (r : Task2d). release_step r ≤ r.next_step) got (omega arith)
        | inr (ne, e') ↦ c j other lt e' same
      ]

-- A task that is not in the pool goes to a step that it may take.
module _ (s : Schedule) (v : Inv s) (k : Key) (step : ℕ) (this : Task2d)
    (at : s.task_deque k ≡ some this) (up : this.next_step ≤ step)
    (idle : in_pool k s.execution_pool ≡ false) (ready : IsReady s.task_deque k)
    (free : 2 ≤ step → IsClear s.task_deque k this) where
  abbrev pub stepped : Schedule
  stepped = record s { task_deque = with_step k step this s.task_deque }

  still_there :
      (q : Key) (o : Task2d)
      → s.task_deque q ≡ some o
      → (o' : Task2d) × (stepped.task_deque q ≡ some o')
  still_there q o e = elim (Bool-cases (same_key k q)) [
    | inl p ↦ (record this { next_step = step }, rw p refl)
    | inr p ↦ (o, rw p e)
  ]

  was_there :
      (q : Key) (o : Task2d)
      → stepped.task_deque q ≡ some o
      → (o' : Task2d) × (s.task_deque q ≡ some o')
  was_there q o e = elim (deque_put-some s.task_deque k q (record this { next_step = step }) e) [
    | inl (here, got) ↦ (this, subst (λ r. s.task_deque r ≡ some this) here at)
    | inr (ne, e') ↦ (o, e')
  ]

  stepped-chain :
      (q : Key) (o : Task2d)
      → stepped.task_deque q ≡ some o
      → 1 ≤ o.next_step
      → IsReady stepped.task_deque q
  stepped-chain q o e le =
      elim (deque_put-some s.task_deque k q (record this { next_step = step }) e) [
        | inl (here, got) ↦
            subst (λ r. IsReady stepped.task_deque r) here
              (ahead-IsReady k step this s.task_deque at up k ready)
        | inr (ne, e') ↦ ahead-IsReady k step this s.task_deque at up q (v.chain q o e' le)
      ]

  stepped-IsClear :
      (q : Key) (o : Task2d)
      → stepped.task_deque q ≡ some o
      → 2 ≤ o.next_step
      → IsClear stepped.task_deque q o
  stepped-IsClear q o e le =
      elim (deque_put-some s.task_deque k q (record this { next_step = step }) e) [
        | inl (here, got) ↦
            let le' = subst (λ (r : Task2d). 2 ≤ r.next_step) (sym got) le in
            let mine = ahead-IsClear k step this s.task_deque at up k this (free le') in
            subst (λ (r : Task2d). IsClear stepped.task_deque q r) got
              (subst (λ r. IsClear stepped.task_deque r (record this { next_step = step })) here
                mine)
        | inr (ne, e') ↦ ahead-IsClear k step this s.task_deque at up q o (v.clear q o e' le)
      ]

  stepped-pooled :
      (q : Key)
      → in_pool q s.execution_pool ≡ true
      → (o : Task2d) × (stepped.task_deque q ≡ some o)
        × (o.next_step ≤ 5)
        × IsReady stepped.task_deque q
        × (1 ≤ o.next_step → IsClear stepped.task_deque q o)
  stepped-pooled q h =
      let (o, e, le, r, c) = v.pooled q h in
      let other : same_key k q ≡ false = elim (Bool-cases (same_key k q)) [
        | inl p ↦
            let here = same_key_eq k q p in
            let idle' = subst (λ r. in_pool r s.execution_pool ≡ false) here idle in absurd cc
        | inr p ↦ p
      ] in
      (
        o,
        deque_put_other s.task_deque k q _ other ∙ e,
        le,
        ahead-IsReady k step this s.task_deque at up q r,
        λ one. ahead-IsClear k step this s.task_deque at up q o (c one),
      )

  pub stepped-Inv : Inv stepped
  stepped-Inv = record {
    ordered = v.ordered;
    there = λ id t lo hi. let (o, e) = v.there id t lo hi in still_there (id, t) o e;
    within = λ id t o e. let (o', e') = was_there (id, t) o e in v.within id t o' e';
    chain = stepped-chain;
    clear = stepped-IsClear;
    pooled = stepped-pooled;
    once = v.once;
  }
