-- ===== src/Examples/Writes.antt =====
-- The write of a path of the small tree, and step 5.
use palermo_oram.Base.{
  ℕ, ◌≡◌, refl, Bool, true, false, Option, none, some, List, [], ◌∷◌, map, range, for_each, lookup,
  arith,
}
use palermo_oram.Bucket.{ring_bucket}
use palermo_oram.Tree.{
  data_tree, path_node, lvl_base_lookup, leaf_division, slot_address, packet_addresses,
}
use palermo_oram.Store.{pull_slot}
use palermo_oram.State.{Rs}
use palermo_oram.Station.Mshr.{
  mshr_add, count_request, open_request, oram_packet_construct, oram_packets,
  rs_line_commit_attempt,
}
use palermo_oram.Station.Forward.{back, ld_fwd_st_check, mark_finished, struct_hazard}
use palermo_oram.Station.Register.{open_line, close_line, request_write_pull}
use palermo_oram.Station.Register.Path.{
  set_pull_slot, pull_top_level, pull_path_slot, pull_level, register_write_pull, push_level,
  push_path_slot, register_write_push, rs_line_register_write,
}
use palermo_oram.Station.Register.Path.Bare.{IsPathBare, register_write_pull-IsPathBare}
use palermo_oram.Station.Register.Path.Moved.{IsMoved}
use palermo_oram.Posmap.{Posmap, Task}
use palermo_oram.Posmap.Start.{rs_fields, rs_line}
use palermo_oram.Posmap.Piggy.One.{IsRenewed}
use palermo_oram.Posmap.Access.{hazard_for, evaluate_next_task, lines_for_levels}
use palermo_oram.Posmap.Access.Reading.{StepOf}
use palermo_oram.Posmap.Access.Steps.{step_5}
use palermo_oram.Posmap.Access.PathWrite.{CanWritePath}
use palermo_oram.Posmap.Access.PathStep.{with_write_task, step_5-IsRenewed}
use palermo_oram.Examples.{start, no_shuffle, small_cache-IsValid, three_blocks-Holds}
use palermo_oram.Examples.Blocks.{within_small}

abbrev has_rs : Option Rs → Bool
has_rs none = false
has_rs (some _) = true

has_run : (o : Option Rs) → has_rs o ≡ true → (r : Rs) × (o ≡ some r)
has_run none h = absurd cc
has_run (some r) h = (r, refl)

-- The nodes of the path to leaf 2.
abbrev path_2 : List ℕ
path_2 = 0 ∷ 2 ∷ 5 ∷ []

-- The pull of the path to leaf 2 succeeds.
pull_runs : has_rs (register_write_pull path_2 start.rs) ≡ true
unfolding register_write_pull open_line for_each range pull_top_level pull_level pull_path_slot
    set_pull_slot pull_slot slot_address rs_fields rs_line ring_bucket ld_fwd_st_check mark_finished
    request_write_pull mshr_add count_request open_request oram_packet_construct oram_packets
    packet_addresses close_line rs_line_commit_attempt back
pull_runs = refl

path_pulled : (r : Rs) × (register_write_pull path_2 start.rs ≡ some r)
path_pulled = has_run (register_write_pull path_2 start.rs) pull_runs

register_write_pull-IsPathBare_example :
    IsMoved 3 0 start.rs.store path_pulled.0.store × IsPathBare path_2 0 3 path_pulled.0.store
unfolding rs_fields
register_write_pull-IsPathBare_example =
    register_write_pull-IsPathBare path_2 start.rs path_pulled.0 three_blocks-Holds (omega arith)
      path_pulled.1

-- The small tree after a read of leaf 2.
abbrev read_once : Posmap
read_once = record start { rs = record (start.rs) { wb_block_id_last = some 2 ∷ [] } }

abbrev fifth : StepOf
fifth = record { id = 0; level = data_tree; step = 5; set_id = 0; addr = some 7 }

abbrev of_leaf_2 : Task
of_leaf_2 = record {
  original_address = some 7;
  block_id = some 2;
  node_id = none;
  offset = none;
  local_node_id_vec = [];
  local_offset_vec = [];
  is_read = true;
}

abbrev path_vec : List (Option ℕ)
path_vec = some 0 ∷ some 2 ∷ some 5 ∷ []

step_runs :
    has_rs (
      rs_line_register_write
        (map (path_node 3 2) (range 0 3))
        (with_write_task fifth (record (read_once.rs) { node_id_vec = path_vec })))
    ≡ true
unfolding rs_line_register_write register_write_pull register_write_push open_line for_each range
    pull_top_level pull_level pull_path_slot set_pull_slot push_level push_path_slot pull_slot
    slot_address rs_fields rs_line ring_bucket ld_fwd_st_check mark_finished request_write_pull
    mshr_add count_request open_request oram_packet_construct oram_packets packet_addresses
    close_line rs_line_commit_attempt back path_node lvl_base_lookup leaf_division
step_runs = refl

abbrev write_registered : Option Rs
write_registered =
    rs_line_register_write (map (path_node 3 2) (range 0 3))
      (with_write_task fifth (record (read_once.rs) { node_id_vec = path_vec }))

step_written : (r : Rs) × (write_registered ≡ some r)
step_written = has_run write_registered step_runs

read_once-CanWritePath : CanWritePath 2 read_once
unfolding rs_fields range lookup
read_once-CanWritePath = record {
  cache = small_cache-IsValid;
  all_levels = refl;
  some_level = omega arith;
  cut = omega arith;
  leaf_ok = omega arith;
  leaves = record { stash = λ x leaf e. ground arith; slots = λ a line e. absurd cc };
  within = within_small;
  holds = three_blocks-Holds;
}

step_5-IsRenewed_example :
    (p' : Posmap) × (head' : Task) × (step_5 no_shuffle fifth (read_once, of_leaf_2)
      ≡ some (true, (p', head')))
    × IsRenewed read_once p'
unfolding rs_fields rs_line hazard_for struct_hazard for_each range path_node lvl_base_lookup
    leaf_division evaluate_next_task lines_for_levels ring_bucket
step_5-IsRenewed_example =
    step_5-IsRenewed no_shuffle fifth read_once of_leaf_2 2 2 path_vec step_written.0 refl refl refl
      refl read_once-CanWritePath refl step_written.1
