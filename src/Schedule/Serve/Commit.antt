-- ===== src/Schedule/Serve/Commit.antt =====
-- The commit of a column, in `oram_task_finish` and `serve_until_need_address` of src/Memory.h.
use palermo_oram.Base.{
  ℕ, ◌+◌, ◌≤◌, ◌<◌, ◌≡◌, ◌≢◌, refl, sym, ◌⊎◌, subst, ◌∙◌, inl, inr, Bool, true, false, some, ◌==◌,
  Bool-cases, arith,
}
use palermo_oram.Tree.{TreeName, data_tree, pos1, pos2}
use palermo_oram.Schedule.{Key, Task2d, Deque, Schedule}
use palermo_oram.Schedule.Spec.{IsReady, IsClear, IsDone, progress, commit, Moves, stay, onward}
use palermo_oram.Schedule.Invariant.{Inv}
use palermo_oram.Schedule.Window.{release_step}
use palermo_oram.Schedule.Live.{Live, Sent, Begun}
use palermo_oram.Schedule.Serve.{erase_column, is_finished, column_finished, try_commit}

-- The other columns stay.
erase_column_ne :
    (id i : ℕ) (t : TreeName) (d : Deque) → id ≢ i → erase_column id d (i, t) ≡ d (i, t)
erase_column_ne id i t d h = ground arith

erase_column-some :
    (id i : ℕ) (t : TreeName) (d : Deque) {o : Task2d}
    → erase_column id d (i, t) ≡ some o
    → (id ≢ i) × (d (i, t) ≡ some o)
erase_column-some id i data_tree d e = (λ p. ground arith, ground arith)
erase_column-some id i pos1 d e = (λ p. ground arith, ground arith)
erase_column-some id i pos2 d e = (λ p. ground arith, ground arith)

erased-IsReady :
    (id i : ℕ) (t : TreeName) (d : Deque)
    → id ≢ i
    → IsReady d (i, t)
    → IsReady (erase_column id d) (i, t)
erased-IsReady id i pos2 d ne r = tt
erased-IsReady id i pos1 d ne (o, e, le) = (o, erase_column_ne id i pos2 d ne ∙ e, le)
erased-IsReady id i data_tree d ne (o, e, le) = (o, erase_column_ne id i pos1 d ne ∙ e, le)

unerased-IsReady :
    (id i : ℕ) (t : TreeName) (d : Deque) → IsReady (erase_column id d) (i, t) → IsReady d (i, t)
unerased-IsReady id i pos2 d r = tt
unerased-IsReady id i pos1 d (o, e, le) = (o, (erase_column-some id i pos2 d e).1, le)
unerased-IsReady id i data_tree d (o, e, le) = (o, (erase_column-some id i pos1 d e).1, le)

erased-IsClear :
    (id i : ℕ) (t : TreeName) (d : Deque) (o : Task2d)
    → IsClear d (i, t) o
    → IsClear (erase_column id d) (i, t) o
erased-IsClear id i t d o c j other lt e same = c j other lt (erase_column-some id j t d e).1 same

-- The three tasks of the oldest column are done.
abbrev pub IsColumnDone : Schedule → Type 0
IsColumnDone s =
    IsDone s.task_deque (s.current_rdy_to_commit, data_tree)
    × IsDone s.task_deque (s.current_rdy_to_commit, pos1)
    × IsDone s.task_deque (s.current_rdy_to_commit, pos2)

abbrev pub committed : Schedule → Schedule
committed s = record s {
  task_deque = erase_column s.current_rdy_to_commit s.task_deque;
  current_rdy_to_commit = s.current_rdy_to_commit + 1;
}

IsDone-of :
    (s : Schedule) (t : TreeName)
    → IsColumnDone s
    → IsDone s.task_deque (s.current_rdy_to_commit, t)
IsDone-of s data_tree (a, b, c) = a
IsDone-of s pos1 (a, b, c) = b
IsDone-of s pos2 (a, b, c) = c

pub committed-Inv : (s : Schedule) → Inv s → IsColumnDone s → Inv (committed s)
committed-Inv s v done =
    let id = s.current_rdy_to_commit in
    let (o₀, e₀, _) = IsDone-of s data_tree done in
    let (_, newest) = v.within id data_tree o₀ e₀ in
    record {
      ordered = omega arith;
      there = λ i t lo hi.
          let (o, e) = v.there i t (omega arith) hi in
          (o, erase_column_ne id i t s.task_deque (λ p. omega arith) ∙ e);
      within = λ i t o e.
          let (ne, e') = erase_column-some id i t s.task_deque e in
          let (lo, hi) = v.within i t o e' in (ground arith, hi);
      chain = λ (i, t) o e le.
          let (ne, e') = erase_column-some id i t s.task_deque e in
          erased-IsReady id i t s.task_deque ne (v.chain (i, t) o e' le);
      clear = λ (i, t) o e le.
          let (ne, e') = erase_column-some id i t s.task_deque e in
          erased-IsClear id i t s.task_deque o (v.clear (i, t) o e' le);
      pooled = λ (i, t) h.
          let (o, e, le, r, c) = v.pooled (i, t) h in
          let ne : id ≢ i = λ same.
            let (o', e', six) = IsDone-of s t done in
            let e'' = subst (λ k. s.task_deque (k, t) ≡ some o') same e' in
            let one : o' ≡ o = cc in
            let five = subst (λ (q : Task2d). q.next_step ≤ 5) (sym one) le in omega arith in
          (
            o,
            erase_column_ne id i t s.task_deque ne ∙ e,
            le,
            erased-IsReady id i t s.task_deque ne r,
            λ one. erased-IsClear id i t s.task_deque o (c one),
          );
      once = v.once;
    }

is_finished_eq :
    (id : ℕ) (t : TreeName) (s : Schedule) (o : Task2d)
    → s.task_deque (id, t) ≡ some o
    → is_finished id t s ≡ some (o.next_step == 6)
is_finished_eq id t s o e = rw e refl

-- The test of a column that is there.
column_finished_total :
    (s : Schedule) (id : ℕ)
    → Inv s
    → s.current_rdy_to_commit ≤ id
    → id < s.tail_n_id
    → (done : Bool) × (column_finished id s ≡ some done)
      × (done ≡ true
          → IsDone s.task_deque (id, data_tree)
            × IsDone s.task_deque (id, pos1)
            × IsDone s.task_deque (id, pos2))
unfolding column_finished
column_finished_total s id v lo hi =
    let (a, ea) = v.there id data_tree lo hi in
    let (b, eb) = v.there id pos1 lo hi in
    let (c, ec) = v.there id pos2 lo hi in
    elim (Bool-cases (a.next_step == 6)) [
      | inr p ↦ (false, rw (ea, p) refl, λ q. absurd cc)
      | inl p ↦ elim (Bool-cases (b.next_step == 6)) [
        | inr q ↦ (false, rw (ea, p, eb, q) refl, λ z. absurd cc)
        | inl q ↦ (
          c.next_step == 6,
          rw (ea, p, eb, q, ec) refl,
          λ z. ((a, ea, ground arith), (b, eb, ground arith), (c, ec, ground arith)),
        )
      ]
    ]

-- `try_commit` on a column that is there: either nothing happens, or the oldest column leaves.
abbrev pub Tried : ℕ → Schedule → Bool → Schedule → Type 0
Tried id s gone s' =
    ((gone ≡ false) × (s' ≡ s))
    ⊎ ((gone ≡ true) × (s' ≡ committed s) × (id ≡ s.current_rdy_to_commit) × IsColumnDone s)

pub try_commit_total :
    (s : Schedule) (id : ℕ)
    → Inv s
    → s.current_rdy_to_commit ≤ id
    → id < s.tail_n_id
    → (gone : Bool) × (s' : Schedule) × (try_commit id s ≡ some (gone, s')) × Tried id s gone s'
unfolding try_commit
try_commit_total s id v lo hi = elim (Bool-cases (id == s.current_rdy_to_commit)) [
  | inr p ↦ (false, s, rw p refl, inl (refl, refl))
  | inl p ↦
      let (done, e, all) = column_finished_total s id v lo hi in
      elim (Bool-cases done) [
        | inr q ↦ (false, s, rw (p, e, q) refl, inl (refl, refl))
        | inl q ↦
            let here : id ≡ s.current_rdy_to_commit = ground arith in
            let d : IsColumnDone s =
              subst
                (λ i.
                  IsDone s.task_deque (i, data_tree)
                  × IsDone s.task_deque (i, pos1)
                  × IsDone s.task_deque (i, pos2))
                here (all q) in
            (true, committed s, rw (p, e, q, here) refl, inr (refl, refl, here, d))
      ]
]

module _ (s : Schedule) (v : Inv s) (done : IsColumnDone s) where
  pub committed-Moves : Moves (progress s) (progress (committed s))
  committed-Moves =
      onward stay
        (commit (IsDone-of s data_tree done) (IsDone-of s pos1 done) (IsDone-of s pos2 done))

  cleared_before :
      (j : ℕ) (u : TreeName) (o : Task2d)
      → IsClear (committed s).task_deque (j, u) o
      → IsClear s.task_deque (j, u) o
  cleared_before j u o clear i other lt e same = elim (Bool-cases (s.current_rdy_to_commit == i)) [
    | inl p ↦
        let here : s.current_rdy_to_commit ≡ i = ground arith in
        let (o', e', six) = IsDone-of s u done in
        let e'' = subst (λ k. s.task_deque (k, u) ≡ some o') here e' in
        let mine : o' ≡ other = cc in
        subst (λ (w : Task2d). release_step w ≤ w.next_step) mine (ground arith)
    | inr p ↦
        clear i other lt
          (erase_column_ne s.current_rdy_to_commit i u s.task_deque (λ q. ground arith) ∙ e) same
  ]

  -- The columns that are left are as live as they were.
  pub committed-Live :
      ((q : Key) (o : Task2d) → Sent s q o)
      → ((q : Key) (o : Task2d) → s.current_rdy_to_commit ≢ q.0 → Begun s q o)
      → Live (committed s)
  committed-Live sent begun = record {
    sent = λ (j, u) o e (low, go).
        let (ne, e') = erase_column-some s.current_rdy_to_commit j u s.task_deque e in
        sent (j, u) o e'
          (
            low,
            elim go [
              | inl first ↦ inl first
              | inr (big, clear) ↦ inr (big, cleared_before j u o clear)
            ],
          );
    begun = λ (j, u) o e r z.
        let (ne, e') = erase_column-some s.current_rdy_to_commit j u s.task_deque e in
        begun (j, u) o ne e' (unerased-IsReady s.current_rdy_to_commit j u s.task_deque r) z;
  }
