-- ===== src/Schedule/Spec.antt =====
-- What the schedule of src/Memory.h promises, without its pool and its calls of the memory: how the
-- tasks of the columns go from step to step.
use palermo_oram.Base.{ℕ, ◌+◌, ◌≤◌, ◌<◌, ◌≡◌, some, not, ◌==◌, ◌&&◌, if◌then◌else◌}
use palermo_oram.Tree.{data_tree, pos1, pos2}
use palermo_oram.Schedule.{Key, Task2d, Deque, deque_put, Schedule}
use palermo_oram.Schedule.Serve.{erase_column, writes_back}
use palermo_oram.Schedule.Window.{release_step, with_step}

-- The columns that are there, and how many are committed and admitted.
pub record Progress : Type 0 where
  pub tasks : Deque
  pub committed : ℕ
  pub admitted : ℕ

abbrev pub progress : Schedule → Progress
progress s = record {
  tasks = s.task_deque;
  committed = s.current_rdy_to_commit;
  admitted = s.tail_n_id;
}

-- The steps of a task are 0, 1, 2, 3 and 6, with 4 and 5 before the last if it writes back.
abbrev pub following : Task2d → ℕ
following t = if not (writes_back t) && t.next_step == 3 then 6 else t.next_step + 1

-- In a column `pos2` goes first, then `pos1`, then `data`: each starts when the one before it has
-- the block, after step 3.
abbrev pub IsReady : Deque → Key → Type 0
IsReady d (id, pos2) = Unit
IsReady d (id, pos1) = (o : Task2d) × (d (id, pos2) ≡ some o) × (4 ≤ o.next_step)
IsReady d (id, data_tree) = (o : Task2d) × (d (id, pos1) ≡ some o) × (4 ≤ o.next_step)

-- All earlier tasks of the set have reached step 3, or step 6 when they write back.
abbrev pub IsClear : Deque → Key → Task2d → Type 0
IsClear d (id, t) this =
    (j : ℕ) (other : Task2d)
    → j < id
    → d (j, t) ≡ some other
    → other.set_id ≡ this.set_id
    → release_step other ≤ other.next_step

-- A task is at the last step.
abbrev pub IsDone : Deque → Key → Type 0
IsDone d k = (o : Task2d) × (d k ≡ some o) × (o.next_step ≡ 6)

-- The tasks of a new column.
abbrev pub with_column : ℕ → Task2d → Task2d → Task2d → Deque → Deque
with_column id a b c d =
    deque_put (deque_put (deque_put d (id, data_tree) (some a)) (id, pos1) (some b)) (id, pos2)
      (some c)

-- A task takes its next step, and behind step 1 only when the earlier ones of its set let it; or the
-- oldest column leaves; or a new one comes.
pub data Move (p : Progress) : Progress → Type 0 where
  advance :
      (k : Key) (t : Task2d)
      → p.tasks k ≡ some t
      → t.next_step ≤ 5
      → IsReady p.tasks k
      → (1 ≤ t.next_step → IsClear p.tasks k t)
      → Move p (record p { tasks = with_step k (following t) t p.tasks })
  commit :
      IsDone p.tasks (p.committed, data_tree)
      → IsDone p.tasks (p.committed, pos1)
      → IsDone p.tasks (p.committed, pos2)
      → Move p (record p { tasks = erase_column p.committed p.tasks; committed = p.committed + 1 })
  enter :
      (a b c : Task2d)
      → a.next_step ≡ 0
      → b.next_step ≡ 0
      → c.next_step ≡ 0
      → Move p
          (record p { tasks = with_column p.admitted a b c p.tasks; admitted = p.admitted + 1 })

pub data Moves (p : Progress) : Progress → Type 0 where
  stay : Moves p p
  onward : {q r : Progress} → Moves p q → Move q r → Moves p r

pub Moves-append : {p q r : Progress} → Moves p q → Moves q r → Moves p r
Moves-append m stay = m
Moves-append m (onward n l) = onward (Moves-append m n) l
