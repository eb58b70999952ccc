-- ===== src/Lib.antt =====
-- Palermo ORAM: a ring ORAM on the DRAM simulator Ramulator (src/reservation.h, src/ring_bucket.h,
-- src/cache.h, src/task.h, and the schedule in src/Memory.h), and a simulation of its stash
-- (stash_simulation/set_oram.cc).
--
-- The program keeps three trees of buckets: the data, and two levels of its position map, `pos1` and
-- `pos2`. Each tree has a reservation station (`rs`) and the object that serves its accesses
-- (`posmap_and_stash`). An access is a column of three tasks, one for each tree; the schedule sends
-- each task through the steps 0 to 6, and a step registers lines with the station, which sends
-- requests to the memory and commits a line when its requests have come back.
--
-- - Base: numbers, lists, maps as functions and as sorted lists, and code that may fail: `none` is
--   a failed `assert`, an undefined read, or, where a loop has no answer of its own for it, being out of
--   fuel.
-- - Params: the macros. A, S, Z and KTREE have the values that the code gives them.
-- - Bucket: `ring_bucket`. The offsets after `random_shuffle` are a parameter; that they are a
--   shuffle is a hypothesis (`IsShuffle`).
-- - Tree: `P`, the numbers of the slots, and the addresses of packets and of metadata.
-- - MetadataCache: `set_cache` and `posmap_nodeid_access`.
-- - Store: `posMap`, `addr_to_origaddr`, `stash` and `ring_bucket_vec`, and the moves of one block.
--   Blocks has the invariant `Holds`, Known says where a block is.
-- - State: `rs` and its parts. `task_heap` stands for the objects made by `new task_rs`: a task is
--   shared by the lines and the metadata requests that it waits for, which hold its number.
-- - Station: the operations of `rs`. Mshr: requests and commits; Metadata: `check_*` and the ring
--   counter; Forward: `ld_fwd_st_check` and `struct_hazard`; Register: the four registrations;
--   Core: what they leave as it is.
-- - Posmap: `posmap_and_stash`. Piggy: `piggy_one` and `piggy_writeback`; Access: `push_to_pending_read`,
--   the steps of `init_step` (Reading has 0 to 2, Steps the others, PathWrite and PathStep the write
--   of a path as a whole); Start: the constructors, with
--   Leaf, Sets and Init on how the leaves are filled.
-- - Schedule: `m_task_deque` and the functions of `Memory` from `push_execution_pool` to
--   `serve_until_need_address`. Serve has what happens when the memory finishes a task, Spec the
--   abstract schedule, Invariant and Live what a schedule keeps, Reach the runs.
-- - StashSim: stash_simulation/set_oram.cc, which has one tree, with a level cut out, and no
--   memory. Piggy: the write-backs; Routine: `read_routine` and `main`; Begin, Rounds and Sound: what
--   `main` and an access do; the others have their parts: Serving what a bucket can still serve,
--   Subtrees the leaves across the cut, Touch and Reads the reads, Clear and Aim the block of an
--   access, Shifting and Fill the way of the blocks out of the stash.
-- - Examples: concrete inputs to which the results apply.
--
-- Numbers are natural numbers; -1 is `none` of an option, and a `vector` index out of range is `none`.
-- The counters of the code are of 64 bits, which the model does not bound. `rand` and
-- `random_shuffle` are the record `Random`, with what the library promises of a shuffle; the
-- logarithms of floating-point numbers are parameters as well. Shifts of an `int` are unbounded too
-- (`lvl_base_lookup`: they overflow from level 31 on), and `start_lvl`, which the code lets go negative
-- for more ways than leaves, stops at 0. Division by zero is `none` in the constructors.
--
-- Loops over a known range are recursion on the list of their rounds. Four loops have fuel: the
-- commits of `mshr_remove` (one round more than there are lines), the search for the next column of a
-- set (one round more than there are columns), the filling of a leaf at the start (Z + 1 rounds), and
-- the loop of the simulation that makes the stash smaller, which goes on for as long as the random
-- leaves keep the stash large: any fuel will do. The first two and the last say whether they have ended;
-- the filling of a leaf that is out of fuel is `none`, and the start is shown to finish.
--
-- Not modelled: printing and the statistics that nothing else reads; `privacy_hazard_check` and
-- `mshr_hazard`, which nothing calls; the DRAM model, the controllers and the processor of Ramulator;
-- `call_ramulator_package`, whose calls the schedule lists, with the tasks that the memory finishes as
-- an input; src/Main.cpp, the trace generators and the scripts.
pub mod Base
pub mod Params
pub mod Bucket
pub mod Tree
pub mod MetadataCache
pub mod Store
pub mod State
pub mod Station
pub mod Posmap
pub mod Schedule
pub mod StashSim
pub mod Examples
