-- ===== src/Schedule/Serve/Awake.antt =====
-- The search of `oram_task_finish` in src/Memory.h for the next column of a set never fails.
use mathlib.Core.Path.{fun_ext}
use palermo_oram.Base.{
  ℕ, zero, suc, ◌+◌, ◌≤◌, ◌<◌, ◌≡◌, ◌≢◌, refl, sym, ap, subst, ◌∙◌, inl, inr, Bool, true, false,
  some, none, ◌==◌, Bool-cases, Option-cases, arith,
}
use palermo_oram.Tree.{TreeName}
use palermo_oram.Schedule.{Key, Task2d, Deque, Schedule, same_key, in_pool, oram_task_create}
use palermo_oram.Schedule.Keys.{same_key_eq}
use palermo_oram.Schedule.Window.{with_step}
use palermo_oram.Schedule.Spec.{IsClear, progress}
use palermo_oram.Schedule.Invariant.{Inv}
use palermo_oram.Schedule.Create.{create_total}
use palermo_oram.Schedule.Serve.{wake_next}

-- A task that is sent again at its step leaves the deque as it was.
with_step-same :
    (d : Deque) (k : Key) (n : ℕ) (o : Task2d)
    → d k ≡ some o
    → o.next_step ≡ n
    → with_step k n o d ≡ d
with_step-same d k n o at e = fun_ext (λ q. elim (Bool-cases (same_key k q)) [
  | inl p ↦
      let here = same_key_eq k q p in
      let mine : d q ≡ some o = subst (λ r. d r ≡ some o) here at in
      rw p (ap (λ m. some (record o { next_step = m })) (sym e) ∙ sym mine)
  | inr p ↦ rw p refl
])

-- Two schedules with the same columns at the same steps.
pub same_progress :
    (s s' : Schedule) (d : Deque)
    → s'.task_deque ≡ d
    → s'.current_rdy_to_commit ≡ s.current_rdy_to_commit
    → s'.tail_n_id ≡ s.tail_n_id
    → progress s' ≡ record (progress s) { tasks = d }
same_progress s s' d a b c = cc

-- No column of the set behind `id` is beyond step 1, and none at step 1 is in the pool.
abbrev pub AreHeld : TreeName → ℕ → ℕ → Schedule → Type 0
AreHeld t set_id id s =
    (j : ℕ) (o : Task2d)
    → id < j
    → s.task_deque (j, t) ≡ some o
    → o.set_id ≡ set_id
    → (o.next_step ≤ 1) × (o.next_step ≡ 1 → in_pool (j, t) s.execution_pool ≡ false)

-- The columns of the set from `from` on that wait at step 1 and are let go are in the pool.
abbrev pub AreSent : TreeName → ℕ → ℕ → Deque → Schedule → Type 0
AreSent t set_id from d s =
    (j : ℕ) (o : Task2d)
    → from ≤ j
    → d (j, t) ≡ some o
    → o.set_id ≡ set_id
    → 1 ≤ o.next_step
    → IsClear d (j, t) o
    → in_pool (j, t) s.execution_pool ≡ true

-- What the search leaves: no task changes its step.
pub record IsWoken (t : TreeName) (set_id from : ℕ) (lets_go : Bool) (s s' : Schedule)
    : Type 0 where
  pub inv : Inv s'
  pub same : progress s' ≡ progress s
  pub keeps : (q : Key) → in_pool q s.execution_pool ≡ true → in_pool q s'.execution_pool ≡ true
  pub sent : lets_go ≡ true → AreSent t set_id from s.task_deque s'

-- The first column behind that is found waiting is sent.
module _ (t : TreeName) (set_id id check_id : ℕ) (o : Task2d) (s : Schedule) (v : Inv s)
    (held : AreHeld t set_id id s) (lt : id < check_id) (at : s.task_deque (check_id, t) ≡ some o)
    (set : o.set_id ≡ set_id) where
  -- The columns behind the first are not let go.
  behind_first :
      (j : ℕ) (q : Task2d)
      → check_id < j
      → s.task_deque (j, t) ≡ some q
      → q.set_id ≡ set_id
      → IsClear s.task_deque (j, t) q
      → ⊥
  behind_first j q far e same clear =
      ground (arith, clear check_id o far at (set ∙ sym same), (held check_id o lt at set).0)

  first_sent :
      (s' : Schedule)
      → (o.next_step ≡ 1
          → IsClear s.task_deque (check_id, t) o
          → in_pool (check_id, t) s'.execution_pool ≡ true)
      → AreSent t set_id check_id s.task_deque s'
  first_sent s' here j q le e same one clear = elim (Bool-cases (j == check_id)) [
    | inl p ↦
        let eq : j ≡ check_id = ground arith in
        let e' = subst (λ i. s.task_deque (i, t) ≡ some q) eq e in
        let mine : o ≡ q = cc in
        let low = (held check_id o lt at set).0 in
        let one' = subst (λ (r : Task2d). 1 ≤ r.next_step) (sym mine) one in
        let clear' = subst (λ i. IsClear s.task_deque (i, t) q) eq clear in
        subst (λ i. in_pool (i, t) s'.execution_pool ≡ true) (sym eq)
          (here (omega arith) (subst (λ r. IsClear s.task_deque (check_id, t) r) (sym mine) clear'))
    | inr p ↦ absurd (behind_first j q (ground arith) e same clear)
  ]

  wake_one :
      o.next_step ≡ 1
      → (s' : Schedule) × (oram_task_create (check_id, t) 1 s ≡ some s')
        × IsWoken t set_id check_id true s s'
  wake_one one =
      let idle = (held check_id o lt at set).1 one in
      let (s', e, c) =
        create_total s v check_id t 1 o at (omega arith) (omega arith) idle
          (v.chain (check_id, t) o at (omega arith)) (λ h. absurd (omega arith)) in
      let same = c.tasks ∙ with_step-same s.task_deque (check_id, t) 1 o at one in
      (
        s',
        e,
        record {
          inv = c.inv;
          same = same_progress s s' s.task_deque same c.committed c.admitted;
          keeps = c.keeps;
          sent = λ _. first_sent s' (λ _ clear.
              c.sends (omega arith) (subst (λ d. IsClear d (check_id, t) o) (sym same) clear));
        },
      )

-- Nothing is done.
unwoken :
    (t : TreeName) (set_id from : ℕ) (lets_go : Bool) (s : Schedule)
    → Inv s
    → (lets_go ≡ true → AreSent t set_id from s.task_deque s)
    → IsWoken t set_id from lets_go s s
unwoken t set_id from lets_go s v h = record { inv = v; same = refl; keeps = λ q e. e; sent = h }

pub wake_next_total :
    (fuel : ℕ) (t : TreeName) (set_id : ℕ) (lets_go : Bool) (id check_id : ℕ) (s : Schedule)
    → Inv s
    → (lets_go ≡ true → AreHeld t set_id id s)
    → s.current_rdy_to_commit ≤ id
    → id < check_id
    → check_id ≤ s.tail_n_id
    → s.tail_n_id < check_id + fuel
    → (s' : Schedule) × (wake_next fuel t set_id lets_go check_id s ≡ some (true, s'))
      × IsWoken t set_id check_id lets_go s s'
unfolding wake_next
wake_next_total zero t set_id lets_go id check_id s v h old lt le enough = absurd (omega arith)
wake_next_total (suc fuel) t set_id lets_go id check_id s v h old lt le enough =
    elim (Option-cases (s.task_deque (check_id, t))) [
      | inl gone ↦ (
        s,
        rw (gone, wake_next) refl,
        unwoken t set_id check_id lets_go s v (λ _ j q far e same one clear.
            let (lo, hi) = v.within j t q e in
            let (o, there) = v.there check_id t (omega arith) (omega arith) in
            let wrong : none ≡ some o = sym gone ∙ there in absurd cc),
      )
      | inr (o, at) ↦
          let (lo, hi) = v.within check_id t o at in
          let (s', e, w) =
            wake_next_total fuel t set_id lets_go id (check_id + 1) s v h old (omega arith)
              (omega arith) (omega arith) in
          elim (Bool-cases (o.set_id == set_id)) [
            | inr other ↦ (
              s',
              rw (at, wake_next, other) e,
              record {
                inv = w.inv;
                same = w.same;
                keeps = w.keeps;
                sent = λ go j q far e' same one clear.
                    let ne : j ≢ check_id = λ eq.
                      let e'' = subst (λ i. s.task_deque (i, t) ≡ some q) eq e' in
                      let mine : o ≡ q = cc in
                      let set = subst (λ (r : Task2d). r.set_id ≡ set_id) (sym mine) same in
                      ground arith in
                    w.sent go j q (ground arith) e' same one clear;
              },
            )
            | inl same ↦ elim (Bool-cases lets_go) [
              | inr stays ↦ (
                s,
                rw (at, wake_next, same, stays) refl,
                unwoken t set_id check_id lets_go s v (λ go. absurd cc),
              )
              | inl goes ↦
                  let set : o.set_id ≡ set_id = ground arith in
                  elim (Bool-cases (o.next_step == 1)) [
                    | inr far ↦ (
                      s,
                      rw (at, wake_next, same, goes, far) refl,
                      unwoken t set_id check_id lets_go s v (λ go.
                          first_sent t set_id id check_id o s v (h go) lt at set s
                            (λ one _. absurd (ground arith))),
                    )
                    | inl one ↦
                        let (s₁, e₁, w₁) =
                          wake_one t set_id id check_id o s v (h goes) lt at set (ground arith) in
                        (
                          s₁,
                          rw (at, wake_next, same, goes, one, e₁) refl,
                          subst (λ b. IsWoken t set_id check_id b s s₁) (sym goes) w₁,
                        )
                  ]
            ]
          ]
    ]
