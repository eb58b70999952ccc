-- ===== src/Schedule/Serve/Column.antt =====
-- The tasks of a new column in the deque of src/task.h.
use palermo_oram.Base.{
  ℕ, ◌+◌, ◌<◌, ◌≡◌, ◌≢◌, refl, sym, subst, ◌∙◌, inl, inr, ◌⊎◌, true, false, List, ◌∷◌, some, ◌==◌,
  Bool-cases, arith,
}
use palermo_oram.Tree.{TreeName, data_tree, pos1, pos2}
use palermo_oram.Schedule.{Key, Task2d, Deque, Schedule, in_pool, same_key}
use palermo_oram.Schedule.Keys.{same_key_self}
use palermo_oram.Schedule.Live.{Live}
use palermo_oram.Schedule.Spec.{IsReady, IsClear, with_column}
use palermo_oram.Schedule.Invariant.{Inv}
use palermo_oram.Schedule.Create.{pushed}

with_column_ne :
    (id i : ℕ) (t : TreeName) (a b c : Task2d) (d : Deque)
    → id ≢ i
    → with_column id a b c d (i, t) ≡ d (i, t)
with_column_ne id i t a b c d h = ground arith

with_column_self :
    (id : ℕ) (t : TreeName) (a b c : Task2d) (d : Deque)
    → (o : Task2d) × (with_column id a b c d (id, t) ≡ some o)
with_column_self id data_tree a b c d = (a, ground arith)
with_column_self id pos1 a b c d = (b, ground arith)
with_column_self id pos2 a b c d = (c, ground arith)

-- The tasks of the new column are at step 0.
module _ (id : ℕ) (a b c : Task2d) (d : Deque) (za : a.next_step ≡ 0) (zb : b.next_step ≡ 0)
    (zc : c.next_step ≡ 0) where
  with_column-self_step :
      (t : TreeName) {o : Task2d} → with_column id a b c d (id, t) ≡ some o → o.next_step ≡ 0
  with_column-self_step data_tree {o} e =
      let e' : some a ≡ some o = ground arith in
      let same : a ≡ o = cc in subst (λ (q : Task2d). q.next_step ≡ 0) same za
  with_column-self_step pos1 {o} e =
      let e' : some b ≡ some o = ground arith in
      let same : b ≡ o = cc in subst (λ (q : Task2d). q.next_step ≡ 0) same zb
  with_column-self_step pos2 {o} e =
      let e' : some c ≡ some o = ground arith in
      let same : c ≡ o = cc in subst (λ (q : Task2d). q.next_step ≡ 0) same zc

  with_column-some :
      (i : ℕ) (t : TreeName) (o : Task2d)
      → with_column id a b c d (i, t) ≡ some o
      → ((id ≡ i) × (o.next_step ≡ 0)) ⊎ ((id ≢ i) × (d (i, t) ≡ some o))
  with_column-some i t o e = elim (Bool-cases (id == i)) [
    | inl p ↦
        let here : id ≡ i = ground arith in
        let e' = subst (λ j. with_column id a b c d (j, t) ≡ some o) (sym here) e in
        inl (here, with_column-self_step t e')
    | inr p ↦
        let ne : id ≢ i = λ q. ground arith in inr (ne, sym (with_column_ne id i t a b c d ne) ∙ e)
  ]

  old-IsReady :
      (i : ℕ) (t : TreeName) → id ≢ i → IsReady d (i, t) → IsReady (with_column id a b c d) (i, t)
  old-IsReady i pos2 ne r = tt
  old-IsReady i pos1 ne (o, e, le) = (o, with_column_ne id i pos2 a b c d ne ∙ e, le)
  old-IsReady i data_tree ne (o, e, le) = (o, with_column_ne id i pos1 a b c d ne ∙ e, le)

  old-IsClear :
      (i : ℕ) (t : TreeName) (o : Task2d)
      → i < id
      → IsClear d (i, t) o
      → IsClear (with_column id a b c d) (i, t) o
  old-IsClear i t o lt f j other small e same = elim (with_column-some j t other e) [
    | inl (here, _) ↦ absurd (omega arith)
    | inr (ne, e') ↦ f j other small e' same
  ]

-- The schedule with the column, before a task of it is sent.
abbrev pub entered : Schedule → (TreeName → ℕ → ℕ) → Task2d → Task2d → Task2d → Schedule
entered s counts a b c = record s {
  trace_end = false;
  set_cnt_map = counts;
  task_deque = with_column s.tail_n_id a b c s.task_deque;
  tail_n_id = s.tail_n_id + 1;
}

module _ (s : Schedule) (v : Inv s) (counts : TreeName → ℕ → ℕ) (a b c : Task2d)
    (za : a.next_step ≡ 0) (zb : b.next_step ≡ 0) (zc : c.next_step ≡ 0) where
  pub entered-Inv : Inv (entered s counts a b c)
  entered-Inv =
      let id = s.tail_n_id in
      let ordered = v.ordered in
      record {
        ordered = omega arith;
        there = λ i t lo hi. elim (Bool-cases (id == i)) [
          | inl p ↦
              let here : id ≡ i = ground arith in
              subst (λ j. (o : Task2d) × (with_column id a b c s.task_deque (j, t) ≡ some o)) here
                (with_column_self id t a b c s.task_deque)
          | inr p ↦
              let (o, e) = v.there i t lo (ground arith) in
              (o, with_column_ne id i t a b c s.task_deque (λ q. ground arith) ∙ e)
        ];
        within = λ i t o e. elim (with_column-some id a b c s.task_deque za zb zc i t o e) [
          | inl (here, _) ↦ (omega arith, omega arith)
          | inr (ne, e') ↦ let (lo, hi) = v.within i t o e' in (lo, omega arith)
        ];
        chain = λ (i, t) o e le. elim (with_column-some id a b c s.task_deque za zb zc i t o e) [
          | inl (here, z) ↦ absurd (omega arith)
          | inr (ne, e') ↦
              old-IsReady id a b c s.task_deque za zb zc i t ne (v.chain (i, t) o e' le)
        ];
        clear = λ (i, t) o e le. elim (with_column-some id a b c s.task_deque za zb zc i t o e) [
          | inl (here, z) ↦ absurd (omega arith)
          | inr (ne, e') ↦
              let (lo, hi) = v.within i t o e' in
              old-IsClear id a b c s.task_deque za zb zc i t o hi (v.clear (i, t) o e' le)
        ];
        pooled = λ (i, t) h.
            let (o, e, le, r, f) = v.pooled (i, t) h in
            let (lo, hi) = v.within i t o e in
            let ne : id ≢ i = λ q. omega arith in
            (
              o,
              with_column_ne id i t a b c s.task_deque ne ∙ e,
              le,
              old-IsReady id a b c s.task_deque za zb zc i t ne r,
              λ one. old-IsClear id a b c s.task_deque za zb zc i t o hi (f one),
            );
        once = v.once;
      }

-- The tasks of the old columns wait for what they waited for.
module _ (s : Schedule) (v : Inv s) (l : Live s) (counts : TreeName → ℕ → ℕ) (a b c : Task2d)
    (za : a.next_step ≡ 0) (zb : b.next_step ≡ 0) (zc : c.next_step ≡ 0) where
  abbrev grown : Deque
  grown = with_column s.tail_n_id a b c s.task_deque

  grown-IsClear :
      (i : ℕ) (t : TreeName) (o : Task2d)
      → i < s.tail_n_id
      → IsClear grown (i, t) o
      → IsClear s.task_deque (i, t) o
  grown-IsClear i t o lt f j other small e same =
      f j other small (with_column_ne s.tail_n_id j t a b c s.task_deque (λ q. omega arith) ∙ e)
        same

  grown-IsReady :
      (i : ℕ) (t : TreeName) → s.tail_n_id ≢ i → IsReady grown (i, t) → IsReady s.task_deque (i, t)
  grown-IsReady i pos2 ne r = tt
  grown-IsReady i pos1 ne (o, e, le) =
      (o, sym (with_column_ne s.tail_n_id i pos2 a b c s.task_deque ne) ∙ e, le)
  grown-IsReady i data_tree ne (o, e, le) =
      (o, sym (with_column_ne s.tail_n_id i pos1 a b c s.task_deque ne) ∙ e, le)

  new_waits : (t : TreeName) → IsReady grown (s.tail_n_id, t) → t ≡ pos2
  new_waits pos2 r = refl
  new_waits pos1 (o, e, le) =
      let z = with_column-self_step s.tail_n_id a b c s.task_deque za zb zc pos2 e in
      absurd (omega arith)
  new_waits data_tree (o, e, le) =
      let z = with_column-self_step s.tail_n_id a b c s.task_deque za zb zc pos1 e in
      absurd (omega arith)

  grown_keeps : (q k : Key) (pool : List Key) → in_pool q pool ≡ true → in_pool q (k ∷ pool) ≡ true
  grown_keeps q k pool h = elim (Bool-cases (same_key q k)) [ inl p ↦ rw p refl | inr p ↦ rw p h ]

  pub entered-Live : Live (pushed (s.tail_n_id, pos2) 0 (entered s counts a b c))
  entered-Live = record {
    sent = λ (i, t) o e (low, go).
        elim (with_column-some s.tail_n_id a b c s.task_deque za zb zc i t o e) [
          | inl (here, z) ↦ elim go [
            | inr (big, _) ↦ absurd (omega arith)
            | inl (_, first) ↦ rw (← here, first, same_key_self (s.tail_n_id, pos2)) refl
          ]
          | inr (ne, e') ↦
              let (lo, hi) = v.within i t o e' in
              grown_keeps (i, t) (s.tail_n_id, pos2) s.execution_pool
                (l.sent (i, t) o e'
                  (
                    low,
                    elim go [
                      | inl first ↦ inl first
                      | inr (big, clear) ↦ inr (big, grown-IsClear i t o hi clear)
                    ],
                  ))
        ];
    begun = λ (i, t) o e r z.
        elim (with_column-some s.tail_n_id a b c s.task_deque za zb zc i t o e) [
          | inl (here, _) ↦ new_waits t (subst (λ j. IsReady grown (j, t)) (sym here) r)
          | inr (ne, e') ↦ l.begun (i, t) o e' (grown-IsReady i t ne r) z
        ];
  }
