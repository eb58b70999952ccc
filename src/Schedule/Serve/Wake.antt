-- ===== src/Schedule/Serve/Wake.antt =====
-- The search of `oram_task_finish` in src/Memory.h for the next column of a set.
use palermo_oram.Base.{
  ℕ, zero, suc, ◌+◌, ◌≤◌, ◌<◌, ◌≡◌, ◌≢◌, refl, ap, ◌∙◌, Bool, true, Option, none, some, arith, ltb,
  inl, inr, ◌⊎◌, ◌==◌, ◌&&◌, if◌then◌else◌, ◌>>=◌, Bool-cases, Option-cases,
}
use palermo_oram.Tree.{TreeName}
use palermo_oram.Schedule.{Schedule, Task2d, oram_task_create}
use palermo_oram.Schedule.Serve.{wake_next}

-- No column is there from `tail_n_id` on.
abbrev pub IsTail : TreeName → Schedule → Type 0
IsTail t s = (i : ℕ) → s.tail_n_id ≤ i → s.task_deque (i, t) ≡ none

-- The columns from `check_id` to before `id` are there, all of other sets.
abbrev pub IsPassed : TreeName → ℕ → ℕ → ℕ → Schedule → Type 0
IsPassed t set_id check_id id s =
    (j : ℕ)
    → check_id ≤ j
    → j < id
    → (o : Task2d) × (s.task_deque (j, t) ≡ some o) × (o.set_id ≢ set_id)

-- The loop stops at `id`: no column is there, or the first of the set, which is created if it waits
-- at step 1 and may go on.
abbrev pub IsStop : TreeName → ℕ → Bool → ℕ → Schedule → Option (Bool × Schedule) → Type 0
IsStop t set_id lets_go id s result =
    ((s.task_deque (id, t) ≡ none) × (result ≡ some (true, s)))
    ⊎ ((o : Task2d) × (s.task_deque (id, t) ≡ some o)
        × (o.set_id ≡ set_id)
        × (result ≡ (
            if lets_go && o.next_step == 1
            then (oram_task_create (id, t) 1 s >>= λ s'. some (true, s'))
            else some (true, s))))

-- The search for the next column of a set ends within its fuel, where no column is there from
-- `tail_n_id` on, the search starts at `tail_n_id` or before and the fuel reaches beyond it: it
-- passes columns of other sets only, and stops at the first number with no column, changing
-- nothing, or at the first column of the set, which it creates again if that waits at step 1 and
-- may go on, and leaves as it is if not. It never runs out of fuel, which has an answer of its
-- own.
pub wake_next_stops :
    (fuel : ℕ) (t : TreeName) (set_id : ℕ) (lets_go : Bool) (check_id : ℕ) (s : Schedule)
    → IsTail t s
    → check_id ≤ s.tail_n_id
    → s.tail_n_id < check_id + fuel
    → (id : ℕ) × (check_id ≤ id)
      × IsPassed t set_id check_id id s
      × IsStop t set_id lets_go id s (wake_next fuel t set_id lets_go check_id s)
unfolding wake_next
wake_next_stops zero t set_id lets_go check_id s h le lt = absurd (omega arith)
wake_next_stops (suc fuel) t set_id lets_go check_id s h le lt =
    elim (Option-cases (s.task_deque (check_id, t))) [
      | inl gone ↦ (
        check_id,
        omega arith,
        (λ j lo hi. absurd (omega arith)),
        inl (gone, rw (gone, wake_next) refl),
      )
      | inr (other, there) ↦ elim (Bool-cases (other.set_id == set_id)) [
        | inl same ↦ (
          check_id,
          omega arith,
          (λ j lo hi. absurd (omega arith)),
          inr (other, there, ground arith, rw (there, wake_next, same) refl),
        )
        | inr differs ↦
            let inside : check_id < s.tail_n_id = elim (Bool-cases (ltb check_id s.tail_n_id)) [
              | inl q ↦ ground arith
              | inr q ↦ let gone = h check_id (ground arith) in absurd cc
            ] in
            let (id, far, passed, stop) =
              wake_next_stops fuel t set_id lets_go (check_id + 1) s h (omega arith)
                (omega arith) in
            (
              id,
              omega arith,
              (λ j lo hi. elim (Bool-cases (j == check_id)) [
                | inl p ↦
                    let here : j ≡ check_id = ground arith in
                    (other, ap (λ i. s.task_deque (i, t)) here ∙ there, λ e. ground arith)
                | inr p ↦ passed j (ground arith) hi
              ]),
              rw (there, wake_next, differs) stop,
            )
      ]
    ]
