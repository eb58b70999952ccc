-- ===== src/Schedule/Reach.antt =====
-- The runs of the schedule of src/Memory.h: from no column on, by new columns, the answers of the
-- memory, and the commits that `serve_until_need_address` tries.
use palermo_oram.Base.{
  ℕ, ◌+◌, ◌≤◌, ◌<◌, ◌≡◌, sym, subst, inl, inr, Bool, false, none, some, [], arith,
}
use palermo_oram.Tree.{TreeName, Geometry}
use palermo_oram.Store.{Address}
use palermo_oram.Schedule.{Schedule}
use palermo_oram.Schedule.Invariant.{Inv}
use palermo_oram.Schedule.Live.{Live}
use palermo_oram.Schedule.Live.Oldest.{OldestMoves, oldest_moves}
use palermo_oram.Schedule.Serve.{Queues, pop_execution_pool, try_commit, admit}
use palermo_oram.Schedule.Serve.Commit.{try_commit_total, committed-Inv, committed-Live}
use palermo_oram.Schedule.Serve.Admit.{admit-Inv}
use palermo_oram.Schedule.Serve.Pop.{IsAnswer, pop_execution_pool-Inv}

-- No column yet.
abbrev pub no_columns : ℕ → (TreeName → Geometry) → Schedule
no_columns depth geos = record {
  current_rdy_to_commit = 0;
  depth = depth;
  trace_end = false;
  task_deque = (λ _. none);
  execution_pool = [];
  tail_n_id = 0;
  set_cnt_map = (λ _ _. 0);
  geos = geos;
  issued = [];
}

-- What can be reached, where the code runs without a failed assertion.
pub data Reached (depth : ℕ) (geos : TreeName → Geometry) : Schedule → Type 0 where
  start : Reached depth geos (no_columns depth geos)
  admitted :
      {s s' : Schedule} (random : TreeName → ℕ) (addr : Address)
      → Reached depth geos s
      → s.tail_n_id < s.current_rdy_to_commit + s.depth
      → admit random addr false s ≡ some s'
      → Reached depth geos s'
  answered :
      {s s' : Schedule} (queues : Queues) (more : Bool)
      → Reached depth geos s
      → IsAnswer queues s
      → pop_execution_pool queues s ≡ some (more, s')
      → Reached depth geos s'
  tried :
      {s s' : Schedule} (id : ℕ) (gone : Bool)
      → Reached depth geos s
      → s.current_rdy_to_commit ≤ id
      → id < s.tail_n_id
      → try_commit id s ≡ some (gone, s')
      → Reached depth geos s'

-- What a schedule keeps.
abbrev pub IsSound : Schedule → Type 0
IsSound s = Inv s × Live s

pub no_columns-IsSound : (depth : ℕ) (geos : TreeName → Geometry) → IsSound (no_columns depth geos)
no_columns-IsSound depth geos = (
  record {
    ordered = omega arith;
    there = λ id t lo hi. absurd (omega arith);
    within = λ id t o e. absurd cc;
    chain = λ k o e. absurd cc;
    clear = λ k o e. absurd cc;
    pooled = λ k h. absurd cc;
    once = tt;
  },
  record { sent = λ k o e. absurd cc; begun = λ k o e. absurd cc },
)

tried-IsSound :
    (s s' : Schedule) (id : ℕ) (gone : Bool)
    → IsSound s
    → s.current_rdy_to_commit ≤ id
    → id < s.tail_n_id
    → try_commit id s ≡ some (gone, s')
    → IsSound s'
tried-IsSound s s' id gone (v, l) lo hi e =
    let (g, r, e', d) = try_commit_total s id v lo hi in
    let same : r ≡ s' = cc in
    subst IsSound same (elim d [
      | inl (_, kept) ↦ subst IsSound (sym kept) (v, l)
      | inr (_, left, _, done) ↦
          subst IsSound (sym left)
            (committed-Inv s v done, committed-Live s v done l.sent (λ q o _. l.begun q o))
    ])

pub Reached-IsSound :
    {depth : ℕ} {geos : TreeName → Geometry} {s : Schedule} → Reached depth geos s → IsSound s
Reached-IsSound {depth} {geos} start = no_columns-IsSound depth geos
Reached-IsSound (admitted {s} {s'} random addr r room e) =
    let (v, l) = Reached-IsSound r in
    let (q, e', v', l', _) = admit-Inv random addr s v l room in
    let same : q ≡ s' = cc in subst IsSound same (v', l')
Reached-IsSound (answered {s} {s'} queues more r a e) =
    let (v, l) = Reached-IsSound r in
    let (m, q, e', v', l', _) = pop_execution_pool-Inv queues s v l a in
    let same : q ≡ s' = cc in subst IsSound same (v', l')
Reached-IsSound (tried {s} {s'} id gone r lo hi e) =
    tried-IsSound s s' id gone (Reached-IsSound r) lo hi e

-- The schedule is never stuck: after any run of new columns, each when there is room, answers of
-- the memory and tried commits of columns that are there, if a column is not committed, the
-- oldest has a task in the pool or its three tasks are at step 6.
pub reached_moves :
    {depth : ℕ} {geos : TreeName → Geometry} (s : Schedule)
    → Reached depth geos s
    → s.current_rdy_to_commit < s.tail_n_id
    → OldestMoves s
reached_moves s r some_column = let (v, l) = Reached-IsSound r in oldest_moves s v l some_column
