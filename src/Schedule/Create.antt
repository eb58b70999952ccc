-- ===== src/Schedule/Create.antt =====
-- `oram_task_create` of src/Memory.h finishes, and keeps the invariant of the schedule.
use palermo_oram.Base.{
  ℕ, zero, suc, ◌≤◌, ◌<◌, ◌≡◌, refl, sym, subst, inl, inr, ◌⊎◌, true, false, ◌&&◌, ◌||◌,
  Option-cases, some, ◌∷◌, ◌==◌, Bool-cases, arith,
}
use palermo_oram.Tree.{TreeName}
use palermo_oram.Schedule.{
  Key, Task2d, Deque, Schedule, same_key, in_pool, push_execution_pool, is_blocked,
  oram_task_create, holds_set,
}
use palermo_oram.Schedule.Keys.{deque_put_same, same_key_eq, same_key_self}
use palermo_oram.Schedule.Window.{release_step, with_step, IsWindow, is_blocked-false}
use palermo_oram.Schedule.Spec.{IsReady, IsClear}
use palermo_oram.Schedule.Invariant.{Inv, stepped, stepped-Inv, ahead-IsReady}

-- What a call of `oram_task_create` leaves.
pub record IsCreated (k : Key) (step : ℕ) (this : Task2d) (s s' : Schedule) : Type 0 where
  pub inv : Inv s'
  pub tasks : s'.task_deque ≡ with_step k step this s.task_deque
  pub committed : s'.current_rdy_to_commit ≡ s.current_rdy_to_commit
  pub admitted : s'.tail_n_id ≡ s.tail_n_id
  pub pool :
      (q : Key) → in_pool q s'.execution_pool ≡ true → (k ≡ q) ⊎ (in_pool q s.execution_pool ≡ true)
  pub keeps : (q : Key) → in_pool q s.execution_pool ≡ true → in_pool q s'.execution_pool ≡ true
  pub sends :
      step ≤ 5
      → IsClear s'.task_deque k (record this { next_step = step })
      → in_pool k s'.execution_pool ≡ true

abbrev pub pushed : Key → ℕ → Schedule → Schedule
pushed k step s = record s {
  execution_pool = k ∷ s.execution_pool;
  issued = record { key = k; step = step } ∷ s.issued;
}

pub pushed-Inv :
    (k : Key) (step : ℕ) (s : Schedule) (o : Task2d)
    → Inv s
    → in_pool k s.execution_pool ≡ false
    → s.task_deque k ≡ some o
    → o.next_step ≤ 5
    → IsReady s.task_deque k
    → (1 ≤ o.next_step → IsClear s.task_deque k o)
    → Inv (pushed k step s)
pushed-Inv k step s o v idle at le ready free = record {
  ordered = v.ordered;
  there = v.there;
  within = v.within;
  chain = v.chain;
  clear = v.clear;
  pooled = λ q h. elim (Bool-cases (same_key q k)) [
    | inl p ↦
        let here = same_key_eq q k p in
        subst
          (λ r.
            (o : Task2d) × (s.task_deque r ≡ some o)
            × (o.next_step ≤ 5)
            × IsReady s.task_deque r
            × (1 ≤ o.next_step → IsClear s.task_deque r o))
          (sym here) (o, at, le, ready, free)
    | inr p ↦ let h' = rw p at h in v.pooled q h'
  ];
  once = (idle, v.once);
}

-- A column that is there has every earlier one that is not committed before it.
window :
    (s : Schedule) (v : Inv s) (id j : ℕ) (t : TreeName) (other this : Task2d)
    → s.task_deque (j, t) ≡ some other
    → s.task_deque (id, t) ≡ some this
    → IsWindow s.task_deque t j id
window s v id j t other this e at i lo hi =
    v.there i t (omega (arith, v.within j t other e)) (omega (arith, v.within id t this at))

pub unblocked-IsClear :
    (s : Schedule) (v : Inv s) (id : ℕ) (t : TreeName) (this : Task2d)
    → s.task_deque (id, t) ≡ some this
    → is_blocked s.task_deque t this.set_id id ≡ false
    → IsClear s.task_deque (id, t) this
unblocked-IsClear s v id t this at unheld j other lt e same =
    is_blocked-false s.task_deque t this.set_id id j other unheld
      (window s v id j t other this e at) lt e same

-- What a task that is blocked waits for.
is_blocked-true :
    (d : Deque) (t : TreeName) (set_id id : ℕ)
    → is_blocked d t set_id id ≡ true
    → (j : ℕ) × (other : Task2d) × (j < id)
      × (d (j, t) ≡ some other)
      × (other.set_id ≡ set_id)
      × (other.next_step < release_step other)
unfolding is_blocked holds_set
is_blocked-true d t set_id zero e = absurd cc
is_blocked-true d t set_id (suc id) e = elim (Option-cases (d (id, t))) [
  | inl gone ↦ let e' = rw (gone, is_blocked) at e in absurd cc
  | inr (other, there) ↦
      let e' : ((other.set_id == set_id && holds_set other) || is_blocked d t set_id id) ≡ true =
        rw (there, is_blocked) at e in
      elim (Bool-cases (other.set_id == set_id && holds_set other)) [
        | inl p ↦ (id, other, omega arith, there, ground arith, ground arith)
        | inr p ↦
            let (j, o, lt, at, same, early) = is_blocked-true d t set_id id (rw p at e') in
            (j, o, omega arith, at, same, early)
      ]
]

-- A task that is not in the pool goes to a step from 1 to 6 that is not below its own, if the tree
-- before it in the column is done reading, and if its own set lets it where it goes beyond step 1.
module _ (s : Schedule) (v : Inv s) (id : ℕ) (t : TreeName) (step : ℕ) (this : Task2d)
    (at : s.task_deque (id, t) ≡ some this) (up : this.next_step ≤ step) (high : step ≤ 6)
    (idle : in_pool (id, t) s.execution_pool ≡ false) (ready : IsReady s.task_deque (id, t))
    (free : 2 ≤ step → IsClear s.task_deque (id, t) this) where
  abbrev after : Schedule
  after = stepped s v (id, t) step this at up idle ready free

  after-Inv : Inv after
  after-Inv = stepped-Inv s v (id, t) step this at up idle ready free

  waits :
      (step == 6 || is_blocked after.task_deque t this.set_id id) ≡ true
      → IsCreated (id, t) step this s after
  waits held = record {
    inv = after-Inv;
    tasks = refl;
    committed = refl;
    admitted = refl;
    pool = λ q h. inr h;
    keeps = λ q h. h;
    sends = λ low free. elim (Bool-cases (is_blocked after.task_deque t this.set_id id)) [
      | inl p ↦
          let (j, other, lt, e, same, early) =
            is_blocked-true after.task_deque t this.set_id id p in
          absurd (omega (arith, free j other lt e same))
      | inr p ↦ ground arith
    ];
  }

  goes :
      (step == 6) ≡ false
      → is_blocked after.task_deque t this.set_id id ≡ false
      → IsCreated (id, t) step this s (pushed (id, t) step after)
  goes low unheld =
      let here = deque_put_same s.task_deque (id, t) (some (record this { next_step = step })) in
      record {
        inv =
            pushed-Inv (id, t) step after (record this { next_step = step }) after-Inv idle here
              (ground arith) (ahead-IsReady (id, t) step this s.task_deque at up (id, t) ready)
              (λ one.
                unblocked-IsClear after after-Inv id t (record this { next_step = step }) here
                  unheld);
        tasks = refl;
        committed = refl;
        admitted = refl;
        pool = λ q h. elim (Bool-cases (same_key q (id, t))) [
          | inl p ↦ inl (sym (same_key_eq q (id, t) p))
          | inr p ↦ inr (rw p at h)
        ];
        keeps =
            λ q h. elim (Bool-cases (same_key q (id, t))) [ inl p ↦ rw p refl | inr p ↦ rw p h ];
        sends = λ small free. rw (same_key_self (id, t)) refl;
      }

  pub create_total :
      (s' : Schedule) × (oram_task_create (id, t) step s ≡ some s')
      × IsCreated (id, t) step this s s'
  unfolding oram_task_create push_execution_pool
  create_total =
      let here = deque_put_same s.task_deque (id, t) (some (record this { next_step = step })) in
      elim (Bool-cases (step == 6)) [
        | inl p ↦ (after, rw (at, oram_task_create, here, p) refl, waits (ground arith))
        | inr p ↦ elim (Bool-cases (is_blocked after.task_deque t this.set_id id)) [
          | inl q ↦ (after, rw (at, oram_task_create, here, p, q) refl, waits (ground arith))
          | inr q ↦ (
            pushed (id, t) step after,
            rw (at, oram_task_create, here, p, q, idle) refl,
            goes p q,
          )
        ]
      ]
