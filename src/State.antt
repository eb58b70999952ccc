-- ===== src/State.antt =====
-- The state of `rs` in src/reservation.h: the table of reservation lines, the requests in flight,
-- the blocks, the tasks that wait, and the counters.
use palermo_oram.Base.{
  ℕ, Bool, true, false, Option, some, List, [], ◌∷◌, ◌++◌, ◌>>=◌, get_elem?, set, length, count,
  Table,
}
use mathlib.Core.Path.{◌≡◌}
use palermo_oram.Tree.{TreeName, Geometry}
use palermo_oram.MetadataCache.{SetCache}
use palermo_oram.Store.{Store, Address}

-- `rand()` and `std::random_shuffle`: what the n-th call gives.
pub record Random : Type 0 where
  pub rand : ℕ → ℕ
  pub shuffle : ℕ → List ℕ → List ℕ
  pub length-shuffle : (n : ℕ) (xs : List ℕ) → length (shuffle n xs) ≡ length xs
  pub count-shuffle : (n : ℕ) (xs : List ℕ) (a : ℕ) → count a (shuffle n xs) ≡ count a xs

-- `task_rs`. The counter is never taken below 0: the code would go on with -1, the model stops.
pub record TaskRs : Type 0 where
  pub id : ℕ
  pub level : TreeName
  pub next_step : ℕ
  pub cnt : ℕ

-- `rs_line::type`; `unset` is the empty string of a new line.
pub data LineType : Type 0 where
  unset init read_pull write_pull write_push early_pull early_push : LineType

abbrev pub is_init : LineType → Bool
is_init init = true
is_init _ = false

-- The string of a pull flag; the code also spells it "unkown".
pub data PullTag : Type 0 where
  unknown unkown useful dummy : PullTag

abbrev pub is_useful : PullTag → Bool
is_useful useful = true
is_useful _ = false

-- `rs_line`; -1 is `none`. `line_id` and `num_of_lvls` never change, and `result` is never set.
pub record RsLine : Type 0 where
  pub is_write : Bool
  pub type : LineType
  pub orig_addr : Address
  pub oram_node_id : List (Option ℕ)
  pub bucket_offset : List (Option ℕ)
  pub oram_lvl_addr : List (Option ℕ)
  pub oram_finished_vec_for_read : List Bool
  pub leading_write_line_num : Option ℕ
  pub oram_addr_for_pull : List (Option ℕ)
  pub oram_finished_vec_for_pull : List (Bool × PullTag)
  pub oram_addr_for_write : List (Option ℕ)
  pub oram_finished_vec_for_write : List Bool
  pub oram_addr_for_early_pull : List (Option ℕ)
  pub oram_finished_vec_for_early_pull : List (Bool × PullTag)
  pub oram_addr_for_early_write : List (Option ℕ)
  pub oram_finished_vec_for_early_write : List Bool
  pub oram_unfinished_cnt : ℕ
  pub valid : Bool
  pub ready : Bool

-- The `type` of a request in flight.
pub data RequestType : Type 0 where
  read write early : RequestType

-- `mshr_entry`
pub record MshrEntry : Type 0 where
  pub rs_row_num : ℕ
  pub rs_offset : ℕ
  pub pull : Bool
  pub type : RequestType

-- `ramulator_packet`
pub record Packet : Type 0 where
  pub address : ℕ
  pub pull : Bool
  pub metadata : Bool
  pub name : TreeName
  pub step : Option ℕ

-- The counters that `print_stats` reports.
pub record Stats : Type 0 where
  pub rs_read_ddr_lines : ℕ
  pub rs_write_ddr_lines : ℕ
  pub rs_early_ddr_lines : ℕ
  pub rs_read_rs_lines : ℕ
  pub rs_write_rs_lines : ℕ
  pub rs_early_rs_lines : ℕ
  pub stash_size_max : ℕ
  pub local_stash_size_max : ℕ
  pub stash_size_total : ℕ
  pub stash_sample_times : ℕ
  pub lvl_counter : ℕ → ℕ
  pub useful_read_pull_ddr : ℕ
  pub dummy_read_pull_ddr : ℕ
  pub useful_early_pull_ddr : ℕ
  pub dummy_early_pull_ddr : ℕ
  pub useful_early_push_ddr : ℕ
  pub dummy_early_push_ddr : ℕ
  pub useful_write_pull_ddr : ℕ
  pub dummy_write_pull_ddr : ℕ
  pub useful_write_push_ddr : ℕ
  pub dummy_write_push_ddr : ℕ
  pub check_nodeid_ddr : ℕ
  pub update_nodeid_ddr : ℕ

-- `reset_stats`. It sets `check_nodeid_ddr` twice, and leaves `update_nodeid_ddr` as it is.
unfoldable pub reset_stats : Stats → Stats
reset_stats s = record s {
  useful_read_pull_ddr = 0;
  dummy_read_pull_ddr = 0;
  useful_early_pull_ddr = 0;
  useful_early_push_ddr = 0;
  useful_write_pull_ddr = 0;
  useful_write_push_ddr = 0;
  dummy_early_pull_ddr = 0;
  dummy_early_push_ddr = 0;
  dummy_write_pull_ddr = 0;
  dummy_write_push_ddr = 0;
  check_nodeid_ddr = 0;
}

-- `rs`. `task_heap` holds the objects that `new task_rs` makes, by the number of the allocation, and
-- `none` where one was deleted; the two maps after it hold pointers into it. `draws` counts the
-- calls of `rand` and `random_shuffle`.
pub record Rs : Type 0 where
  pub geo : Geometry
  pub is_oram : Bool
  pub rs_vec : List RsLine
  pub early_reshuffle_nodes : List (ℕ × ℕ)
  pub head : ℕ
  pub tail : ℕ
  pub last_write_line : ℕ
  pub node_id_vec : List (Option ℕ)
  pub offset_vec : List (Option ℕ)
  pub ramulator_input_vec : List Packet
  pub mshr_array : Table (List MshrEntry × ℕ)
  pub store : Store
  pub task_heap : List (Option TaskRs)
  pub rs_line_task_map : Table ℕ
  pub mshr_metadata : Table (List ℕ)
  pub stats : Stats
  pub ring_counter : List ℕ
  pub wb_block_id_last : List (Option ℕ)
  pub set_cnt_map : ℕ → ℕ
  pub metadata_cache : SetCache
  pub ready_to_pop_task : List TaskRs
  pub draws : ℕ

-- `rs_vec[i]->… = …`
abbrev pub modify_line : ℕ → (RsLine → Option RsLine) → Rs → Option Rs
modify_line i f r = do
  line ← get_elem? r.rs_vec i
  line' ← f line
  some (record r { rs_vec = set r.rs_vec i line' })

-- A pointer read: `none` for one that was deleted.
abbrev pub task_at : ℕ → Rs → Option TaskRs
task_at p r = do cell ← get_elem? r.task_heap p; cell

-- `new task_rs(…)`: the pointer is the length of the heap.
abbrev pub new_task : TaskRs → Rs → Rs
new_task t r = record r { task_heap = r.task_heap ++ (some t ∷ []) }

abbrev pub push_ready : TaskRs → Rs → Rs
push_ready t r = record r { ready_to_pop_task = r.ready_to_pop_task ++ (t ∷ []) }

abbrev pub send_packet : Packet → Rs → Rs
send_packet p r = record r { ramulator_input_vec = r.ramulator_input_vec ++ (p ∷ []) }
