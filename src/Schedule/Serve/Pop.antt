-- ===== src/Schedule/Serve/Pop.antt =====
-- `pop_execution_pool` of src/Memory.h as a whole.
use palermo_oram.Base.{◌≤◌, ◌≡◌, refl, Bool, true, ◌||◌, some, List, [], ◌∷◌}
use palermo_oram.State.{TaskRs}
use palermo_oram.Schedule.{Key, Task2d, Schedule, in_pool, pool_erase}
use palermo_oram.Schedule.Keys.{
  in_pool-pool_erase, in_pool-pool_erase_ne, pool_erase-IsApart, pool_erase_gone,
}
use palermo_oram.Schedule.Spec.{IsReady, IsClear, progress, Moves}
use palermo_oram.Schedule.Invariant.{Inv}
use palermo_oram.Schedule.Serve.{Queues, next_ready, pop_execution_pool}
use palermo_oram.Schedule.Live.{Live}
use palermo_oram.Schedule.Serve.Finish.{CanFinish}
use palermo_oram.Schedule.Serve.Steps.{oram_task_finish_total}

-- The memory answers with a task of the pool, at the step that the task is at.
pub record IsAnswer (queues : Queues) (s : Schedule) : Type 0 where
  pub ready : TaskRs
  pub first : next_ready queues.ready_pos2 queues.ready_pos1 queues.ready_data ≡ some ready
  pub sent : in_pool (ready.id, ready.level) s.execution_pool ≡ true
  pub same_step :
      (o : Task2d) → s.task_deque (ready.id, ready.level) ≡ some o → o.next_step ≡ ready.next_step

-- A task that leaves the pool may take its step.
erased-CanFinish :
    (s : Schedule) (k : Key) (o : Task2d)
    → Inv s
    → Live s
    → s.task_deque k ≡ some o
    → o.next_step ≤ 5
    → IsReady s.task_deque k
    → (1 ≤ o.next_step → IsClear s.task_deque k o)
    → CanFinish (record s { execution_pool = pool_erase k s.execution_pool }) k o
erased-CanFinish s k o v l at low ready free = record {
  inv = record {
    ordered = v.ordered;
    there = v.there;
    within = v.within;
    chain = v.chain;
    clear = v.clear;
    pooled = λ q h. v.pooled q (in_pool-pool_erase q k s.execution_pool h);
    once = pool_erase-IsApart k s.execution_pool v.once;
  };
  at = at;
  low = low;
  idle = pool_erase_gone k s.execution_pool v.once;
  ready = ready;
  free = free;
  but = record {
    sent = λ q w ne e go. in_pool-pool_erase_ne q k s.execution_pool ne (l.sent q w e go);
    begun = λ q w _. l.begun q w;
  };
}

-- A pool with a task is not empty.
nonempty :
    (k : Key) (pool : List Key)
    → in_pool k pool ≡ true
    → (q : Key) × (qs : List Key) × (pool ≡ q ∷ qs)
nonempty k [] h = absurd cc
nonempty k (q ∷ qs) h = (q, qs, refl)

-- `pop_execution_pool` fails no assertion and does what the abstract schedule allows: in a
-- schedule that keeps the invariant and forgets no task, when the memory answers with a task of
-- the pool at the step that the task is at, the call succeeds, the invariant holds again (each
-- column between the oldest and the newest is there, a tree of a column starts after the one
-- before it, a task is beyond step 1 only when the earlier ones of its set let it, no task is in
-- the pool twice), each task that may take its step is in the pool again, and the steps of the
-- tasks change by moves of the abstract schedule.
pub pop_execution_pool-Inv :
    (queues : Queues) (s : Schedule)
    → Inv s
    → Live s
    → IsAnswer queues s
    → (more : Bool) × (s' : Schedule) × (pop_execution_pool queues s ≡ some (more, s'))
      × Inv s'
      × Live s'
      × Moves (progress s) (progress s')
unfolding pop_execution_pool
pop_execution_pool-Inv queues s v l a =
    let k : Key = (a.ready.id, a.ready.level) in
    let (o, at, low, ready, free) = v.pooled k a.sent in
    let f = erased-CanFinish s k o v l at low ready free in
    let (more, s', e, m) =
      oram_task_finish_total (record s { execution_pool = pool_erase k s.execution_pool })
        a.ready.id a.ready.level o f a.ready.next_step (a.same_step o at) in
    let (q, qs, some_task) = nonempty k s.execution_pool a.sent in
    (
      more || s'.trace_end,
      s',
      rw (some_task, pop_execution_pool, a.first, a.sent, e) refl,
      m.0,
      m.1,
      m.2,
    )
