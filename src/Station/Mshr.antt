-- ===== src/Station/Mshr.antt =====
-- The requests in flight, and the commit of lines whose requests have all come back:
-- `mshr_add`, `mshr_remove`, `rs_line_commit_attempt`.
pub mod Commit
pub mod Once
use palermo_oram.Base.{
  ℕ, zero, suc, ◌+◌, ◌-◌, ◌%◌, Bool, true, false, not, ◌&&◌, ◌||◌, Option, none, some, List, [],
  ◌∷◌, ◌++◌, map, ◌==◌, ltb, if◌then◌else◌, ◌>>=◌, ◌>>◌, assert, get_elem?, set, store_at, length,
  for_each, put_at,
}
use palermo_oram.Params.{embed_repeat}
use palermo_oram.Tree.{TreeName, data_tree, pos1, pos2, packet_addresses, slot_of_packet}
use palermo_oram.State.{
  TaskRs, RsLine, RequestType, read, write, early, MshrEntry, Packet, PullTag, unknown, Rs, task_at,
  push_ready,
}

-- The packets that `oram_packet_construct` appends.
unfoldable pub oram_packets : TreeName → ℕ → Bool → List Packet
oram_packets name address pull =
    map (λ a. record { address = a; pull = pull; metadata = false; name = name; step = none })
      (packet_addresses name address)

unfoldable pub oram_packet_construct : ℕ → Bool → Rs → Rs
oram_packet_construct address pull r = record r {
  ramulator_input_vec = r.ramulator_input_vec ++ oram_packets r.geo.name address pull;
}

-- The assertions and counters at the head of `mshr_add`.
unfoldable pub count_request : ℕ → ℕ → Bool → RequestType → Rs → Option Rs
count_request row offset pull read r = do
  assert pull
  line ← get_elem? r.rs_vec row
  finished ← get_elem? line.oram_finished_vec_for_read offset
  assert (not finished)
  some (record r { stats = record (r.stats) { rs_read_ddr_lines = r.stats.rs_read_ddr_lines + 1 } })
count_request row offset pull write r = do
  (if pull
      then (do
        line ← get_elem? r.rs_vec row
        finished ← get_elem? line.oram_finished_vec_for_pull offset
        assert (not finished.0))
      else some tt)
  some (record r {
    stats = record (r.stats) { rs_write_ddr_lines = r.stats.rs_write_ddr_lines + 1 };
  })
count_request row offset pull early r = do
  (if pull
      then (do
        line ← get_elem? r.rs_vec row
        finished ← get_elem? line.oram_finished_vec_for_early_pull offset
        assert (not finished.0))
      else some tt)
  some (record r {
    stats = record (r.stats) { rs_early_ddr_lines = r.stats.rs_early_ddr_lines + 1 };
  })

-- How many packets answer a slot of this tree.
abbrev pub repeats : TreeName → ℕ
repeats data_tree = embed_repeat
repeats pos1 = 1
repeats pos2 = 1

-- A pull that no request in flight serves yet sends its packets.
unfoldable pub open_request : ℕ → Rs → (List MshrEntry × ℕ) × Rs
open_request address r = elim (r.mshr_array address) [
  | none ↦ (([], repeats r.geo.name), oram_packet_construct address true r)
  | some waiting ↦ (waiting, r)
]

unfoldable pub mshr_add : ℕ → ℕ → ℕ → Bool → RequestType → Rs → Option Rs
mshr_add address row offset pull type r = do
  r₁ ← count_request row offset pull type r
  let ((entries, cnt), r₂) = open_request address r₁
  let entry : MshrEntry = record { rs_row_num = row; rs_offset = offset; pull = pull; type = type }
  some (
      if pull
      then record r₂ {
        mshr_array = put_at r₂.mshr_array address (some (entries ++ (entry ∷ []), cnt));
      }
      else oram_packet_construct address pull r₁)

-- `rs_line::update_ready_bit`
unfoldable pub update_ready_bit : RsLine → Option (Bool × RsLine)
update_ready_bit l = do
  assert (l.valid && (not l.ready && ltb 0 l.oram_unfinished_cnt))
  let cnt = l.oram_unfinished_cnt - 1
  some (
      if cnt == 0
      then (true, record l { oram_unfinished_cnt = cnt; ready = true })
      else (false, record l { oram_unfinished_cnt = cnt }))

-- A task after `cnt--`: at 0 its copy goes into the queue, and it is deleted.
unfoldable pub settle : ℕ → TaskRs → Rs → Rs
settle p t r =
    if t.cnt == 0
    then push_ready t (record r { task_heap = set r.task_heap p none })
    else record r { task_heap = set r.task_heap p (some t) }

-- `cnt--` on a task
unfoldable pub count_down : ℕ → Rs → Option Rs
count_down p r = do
  t ← task_at p r
  assert (ltb 0 t.cnt)
  some (settle p (record t { cnt = t.cnt - 1 }) r)

-- The step of `rs_line_commit_attempt` on a line that is valid and ready.
unfoldable pub commit_line : RsLine → Rs → Option Rs
commit_line l r = do
  let r₁ = record r { rs_vec = set r.rs_vec r.head (record l { valid = false }) }
  p ← r₁.rs_line_task_map r.head
  r₂ ← count_down p r₁
  some (record r₂ { head = (r.head + 1) % r.geo.num_of_entries })

unfoldable pub rs_line_commit_attempt : Rs → Option (Bool × Rs)
rs_line_commit_attempt r = do
  l ← get_elem? r.rs_vec r.head
  if not l.valid || not l.ready then some (false, r) else (do r' ← commit_line l r; some (true, r'))

-- `while (true) { if (rs_line_commit_attempt() == false) break; }`, with fuel: the first part says
-- whether the `break` was reached, and `none` is a failed assertion only.
unfoldable pub commit_all : ℕ → Rs → Option (Bool × Rs)
commit_all zero r = some (false, r)
commit_all (suc fuel) r = do
  (more, r') ← rs_line_commit_attempt r
  let rest = commit_all fuel r'
  if more then rest else some (true, r')

-- `assert(v[i] == false); v[i] = true`
unfoldable pub raise_flag : List Bool → ℕ → Option (List Bool)
raise_flag v i = do finished ← get_elem? v i; assert (not finished); store_at v i true

unfoldable pub raise_pull_flag : List (Bool × PullTag) → ℕ → Option (List (Bool × PullTag))
raise_pull_flag v i = do
  finished ← get_elem? v i
  assert (not finished.0)
  store_at v i (true, unknown)

-- The flag of one request that came back.
unfoldable pub finish_flag : RequestType → Bool → ℕ → RsLine → Option RsLine
unfolding raise_flag raise_pull_flag
finish_flag read pull o l = do
  assert pull
  v ← raise_flag l.oram_finished_vec_for_read o
  some (record l { oram_finished_vec_for_read = v })
finish_flag write true o l = do
  v ← raise_pull_flag l.oram_finished_vec_for_pull o
  some (record l { oram_finished_vec_for_pull = v })
finish_flag write false o l = do
  v ← raise_flag l.oram_finished_vec_for_write o
  some (record l { oram_finished_vec_for_write = v })
finish_flag early true o l = do
  v ← raise_pull_flag l.oram_finished_vec_for_early_pull o
  some (record l { oram_finished_vec_for_early_pull = v })
finish_flag early false o l = do
  v ← raise_flag l.oram_finished_vec_for_early_write o
  some (record l { oram_finished_vec_for_early_write = v })

-- One round of the loop of `mshr_remove`. The fuel is one more than there are lines.
unfoldable pub finish_entry : MshrEntry → Rs → Option Rs
finish_entry entry r = do
  l ← get_elem? r.rs_vec entry.rs_row_num
  l₁ ← finish_flag entry.type entry.pull entry.rs_offset l
  (ready, l₂) ← update_ready_bit l₁
  let r' = record r { rs_vec = set r.rs_vec entry.rs_row_num l₂ }
  if ready && entry.rs_row_num == r.head
      then (do (ended, q) ← commit_all (suc (length r.rs_vec)) r'; assert ended; some q)
      else some r'

unfoldable pub mshr_remove : ℕ → Rs → Option Rs
mshr_remove packet_address r = do
  let address = slot_of_packet r.geo.name packet_address
  (entries, cnt) ← r.mshr_array address
  assert (ltb 0 cnt)
  let r₁ = record r { mshr_array = put_at r.mshr_array address (some (entries, cnt - 1)) }
  if ltb 0 (cnt - 1) then some r₁ else (do
    r₂ ← for_each finish_entry entries r₁
    some (record r₂ { mshr_array = put_at r₂.mshr_array address none }))
