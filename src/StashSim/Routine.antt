-- ===== src/StashSim/Routine.antt =====
-- `read_routine` of src/stash_simulation/set_oram.cc, and the rounds of `main`.
use palermo_oram.Base.{
  ℕ, zero, suc, ◌+◌, ◌-◌, ◌/◌, ◌^◌, ◌%◌, map, range, ◌>>◌, assert, Bool, true, false, Option, none,
  some, [], ◌==◌, leb, if◌then◌else◌, ◌>>=◌, length, for_each,
}
use palermo_oram.Params.{evict_rate, ktree}
use palermo_oram.Posmap.Start.{new_bucket}
use palermo_oram.Store.{Address, PosEntry, mapped, pos_put}
use palermo_oram.State.{Random}
use palermo_oram.StashSim.{
  Sim, cut_lvl, cutdown_lvl, stash_maitanence, sim_init_writeback, sim_ring_counter, read_pull,
  early_reshuffle_pull, writeback_pull,
}
use palermo_oram.StashSim.Piggy.{sim_writeback, sim_piggy_one}

-- `block_id`, and the node and offset of a task, if it has any.
abbrev pub Target : Type 0
Target = ℕ × Option (ℕ × ℕ)

abbrev pub random_target : Random → Sim → Target × Sim
random_target random s =
    ((random.rand s.draws % s.total_num_blocks, none), record s { draws = s.draws + 1 })

-- The path of an access: that of the block where `posMap` has it and it is not pending, else a random
-- one. No entry of `posMap` is blank in this program, where only lines are written.
unfoldable pub find_target : Random → Address → Option PosEntry → Sim → Target × Sim
find_target random address (some (mapped line)) s =
    if line.pending then random_target random s else (
      (line.block_id, some (line.node_id, line.offset)),
      record s {
        store = record (s.store) {
          pos_map =
              pos_put s.store.pos_map address (some (mapped (record line { pending = true })));
        };
      },
    )
find_target random address _ s = random_target random s

-- The leaf that is written back after each `A` accesses.
unfoldable pub next_writeback : Sim → Option ℕ × Sim
next_writeback s =
    if s.rw_counter % evict_rate == 0
    then (let (leaf, s') = sim_ring_counter s in (some leaf, s'))
    else (none, s)

unfoldable pub write_back : Random → Option ℕ → Sim → Option Sim
write_back random none s = some s
write_back random (some leaf) s = do s' ← writeback_pull leaf s; sim_writeback random leaf s'

-- One round of the loop over `early_reshuffle_nodes`.
unfoldable pub reshuffle : Random → ℕ × ℕ → Sim → Option Sim
reshuffle random (node_id, node_lvl) s = do
  s' ← early_reshuffle_pull node_id node_lvl s
  sim_piggy_one random node_id node_lvl s'

unfoldable pub reshuffle_all : Random → Sim → Option Sim
reshuffle_all random s = do
  s' ← for_each (reshuffle random) s.early_nodes s
  some (record s' { early_nodes = [] })

unfoldable pub read_routine : Random → Address → Sim → Option Sim
read_routine random access_addr s = do
  let ((block_id, intended), s₁) = find_target random access_addr (s.store.pos_map access_addr) s
  let s₂ = record s₁ { rw_counter = s₁.rw_counter + 1 }
  let (wb_block_id, s₃) = next_writeback s₂
  s₄ ← read_pull random access_addr block_id intended wb_block_id s₃
  s₅ ← write_back random wb_block_id s₄
  reshuffle_all random s₅

-- `while (stash.size() >= STASH_MAITANENCE)`, with fuel. The first part says whether it ended.
unfoldable pub maintain : Random → ℕ → Sim → Option (Bool × Sim)
maintain random zero s = some (false, s)
maintain random (suc fuel) s =
    let again : Option (Bool × Sim) = (do
      s' ← read_routine random none (record s { stash_violation = s.stash_violation + 1 })
      maintain random fuel s') in
    if leb stash_maitanence (length s.store.stash) then again else some (true, s)

-- A round of `main`: an access to a random address below `total_num_of_original_addr_space`.
unfoldable pub main_round : Random → ℕ → ℕ → Sim → Option (Bool × Sim)
main_round random fuel space s = do
  s' ← read_routine random (some (random.rand s.draws % space)) (record s { draws = s.draws + 1 })
  maintain random fuel s'

-- The global variables at the start, and the loop of `main` that makes the buckets. `n` is
-- `num_of_lvls`.
unfoldable pub sim_new : Random → ℕ → ℕ → ℕ → Sim
sim_new random n total_num_blocks bits =
    let valid_leaf_right = (ktree ^ n - 1) / (ktree - 1) in
    record {
      num_of_lvls = n;
      total_num_blocks = total_num_blocks;
      bits = bits;
      store = record {
        buckets = map (new_bucket random) (range 0 valid_leaf_right);
        addr_to_origaddr = (λ _. none);
        pos_map = (λ _. none);
        stash = [];
      };
      early_nodes = [];
      ring_counter = 0;
      rw_counter = 0;
      stash_size_max = 0;
      stash_size_total = 0;
      stash_sample_times = 0;
      stash_violation = 0;
      draws = valid_leaf_right;
    }

-- `main` up to its loop. `ceil_log` is `ceil(log(float(n)) / log(float(KTREE)))`, `ceil_log2` is
-- `ceil(log2(float(n)))`.
unfoldable pub sim_start : (ℕ → ℕ) → (ℕ → ℕ) → Random → ℕ → Option Sim
sim_start ceil_log ceil_log2 random total_num_blocks = do
  let n = ceil_log total_num_blocks + 1
  assert (leb (cut_lvl + cutdown_lvl) (n - 1))
  let valid_leaf_left = (ktree ^ (n - 1) - 1) / (ktree - 1)
  let valid_leaf_right = (ktree ^ n - 1) / (ktree - 1)
  sim_init_writeback random valid_leaf_left valid_leaf_right
      (sim_new random n total_num_blocks (ceil_log2 total_num_blocks))
