-- ===== src/Station/Metadata.antt =====
-- The metadata of the nodes on a path: `check_metadata_after_posmap`, `check_wb_metadata`,
-- `metadata_remove`, and the ring counter that picks the path to write back.
pub mod RingOrder
use palermo_oram.Base.{
  ℕ, zero, suc, ◌+◌, ◌-◌, ◌*◌, ◌/◌, ◌%◌, ◌^◌, true, Option, none, some, List, [], ◌∷◌, ◌++◌, ◌==◌,
  leb, if◌then◌else◌, ◌>>=◌, ◌>>◌, assert, get_elem?, set, store_at, length, for_each, put_at,
  range,
}
use palermo_oram.Params.{s_slots}
use palermo_oram.Tree.{TreeName, path_node}
use palermo_oram.MetadataCache.{posmap_nodeid_access}
use palermo_oram.State.{TaskRs, Rs, task_at, new_task, push_ready, send_packet}
use palermo_oram.Station.Mshr.{count_down}

-- The levels from `start_lvl` to the leaves.
abbrev pub block_levels : Rs → List ℕ
block_levels r = range r.geo.start_lvl (r.geo.num_of_lvls - r.geo.start_lvl)

-- The tasks that wait for a metadata line; the first to wait sends the request.
unfoldable pub open_metadata : ℕ → ℕ → Rs → List ℕ × Rs
open_metadata step metadata_addr r = elim (r.mshr_metadata metadata_addr) [
  | none ↦ (
    [],
    send_packet
        (record {
          address = metadata_addr;
          pull = true;
          metadata = true;
          name = r.geo.name;
          step = some step;
        })
        (record r { stats = record (r.stats) { check_nodeid_ddr = r.stats.check_nodeid_ddr + 1 } }),
  )
  | some tasks ↦ (tasks, r)
]

-- The wait of task `p` for the metadata line at `metadata_addr`.
unfoldable pub await_metadata : ℕ → ℕ → ℕ → Rs → Option Rs
await_metadata p step metadata_addr r = do
  let (waiting, r₁) = open_metadata step metadata_addr r
  t ← task_at p r₁
  some (record r₁ {
    mshr_metadata = put_at r₁.mshr_metadata metadata_addr (some (waiting ++ (p ∷ [])));
    task_heap = set r₁.task_heap p (some (record t { cnt = t.cnt + 1 }));
  })

-- One level of the loop of both checks; the number counts `submitted_jobs`.
unfoldable pub check_level : ℕ → ℕ → ℕ → ℕ → ℕ × Rs → Option (ℕ × Rs)
check_level block_id p step lvl (submitted_jobs, r) = do
  let node_id = path_node r.geo.num_of_lvls block_id lvl
  (missing, cache) ← posmap_nodeid_access r.geo.name node_id r.metadata_cache
  let r₁ = record r { metadata_cache = cache }
  elim missing [
    | none ↦ some (submitted_jobs, r₁)
    | some metadata_addr ↦ do
      r₂ ← await_metadata p step metadata_addr r₁
      some (submitted_jobs + 1, r₂)
  ]

unfoldable pub check_metadata_after_posmap : ℕ → ℕ → TreeName → ℕ → Rs → Option Rs
check_metadata_after_posmap block_id id level step r = do
  let p = length r.task_heap
  let shared_task : TaskRs = record { id = id; level = level; next_step = step; cnt = 0 }
  (submitted_jobs, r₁) ←
      for_each (check_level block_id p step) (block_levels r) (0, new_task shared_task r)
  some (
      if submitted_jobs == 0
      then push_ready shared_task (record r₁ { task_heap = set r₁.task_heap p none })
      else r₁)

-- The loop of `get_ring_counter`: the low bits of the counter in reverse. The bits that `|=` adds
-- are not yet set, so that it is a sum.
unfoldable pub ring_reverse : ℕ → ℕ → ℕ
ring_reverse zero ring_cp = 0
ring_reverse (suc i) ring_cp = (ring_cp % 2) * 2 ^ i + ring_reverse i (ring_cp / 2)

-- `ceil_log2` is `ceil(log2(float(n)))`.
unfoldable pub get_ring_counter : (ℕ → ℕ) → ℕ → Rs → Option (ℕ × Rs)
get_ring_counter ceil_log2 set_id r = do
  ring_cp ← get_elem? r.ring_counter set_id
  let ret = ring_reverse (ceil_log2 r.geo.num_of_ways) ring_cp
  some (
    ret + set_id * r.geo.num_of_ways,
    record r { ring_counter = set r.ring_counter set_id (ring_cp + 1) },
  )

unfoldable pub check_wb_metadata : (ℕ → ℕ) → ℕ → TreeName → ℕ → ℕ → Rs → Option Rs
check_wb_metadata ceil_log2 id level step set_id r = do
  let p = length r.task_heap
  let shared_task : TaskRs = record { id = id; level = level; next_step = step; cnt = 0 }
  (wb_block_id, r₁) ← get_ring_counter ceil_log2 set_id (new_task shared_task r)
  last ← store_at r₁.wb_block_id_last set_id (some wb_block_id)
  (submitted_jobs, r₂) ←
      for_each (check_level wb_block_id p step) (block_levels r)
        (0, record r₁ { wb_block_id_last = last })
  some (
      if submitted_jobs == 0
      then push_ready shared_task (record r₂ { task_heap = set r₂.task_heap p none })
      else r₂)

-- `mshr_metadata[address]`, which is empty where nobody waits
unfoldable pub waiting_tasks : ℕ → Rs → List ℕ
waiting_tasks address r = elim (r.mshr_metadata address) [ none ↦ [] | some tasks ↦ tasks ]

-- The answer of the memory to a metadata request.
unfoldable pub metadata_remove : ℕ → Rs → Option Rs
metadata_remove address r = do
  r₁ ← for_each count_down (waiting_tasks address r) r
  some (record r₁ { mshr_metadata = put_at r₁.mshr_metadata address none })

-- `check_early_need`: the nodes of a path that one more read would use up.
unfoldable pub check_early_need : ℕ → Rs → Option Rs
check_early_need block_id r =
    for_each
      (λ i (r' : Rs). do
        let node_id = path_node r'.geo.num_of_lvls block_id i
        b ← get_elem? r'.store.buckets node_id
        if b.accessed_times == s_slots - 1
            then (do
              assert (leb r'.geo.cache_end_nodeid node_id)
              some (record r' {
                early_reshuffle_nodes = r'.early_reshuffle_nodes ++ ((node_id, i) ∷ []);
              }))
            else some r')
      (block_levels r) r
