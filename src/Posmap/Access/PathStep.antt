-- ===== src/Posmap/Access/PathStep.antt =====
-- The whole of step 5 of `init_step` of src/reservation.h, the write of a path.
use palermo_oram.Base.{
  ℕ, ◌+◌, ◌/◌, ◌%◌, ◌≡◌, refl, true, false, inl, inr, Option, some, List, map, range, length, ◌==◌,
  ◌&&◌, arith, Bool-cases, get_elem?, for_each, store_at,
}
use palermo_oram.Tree.{path_node, data_tree}
use palermo_oram.State.{Random, Rs, new_task}
use palermo_oram.Station.Core.{core}
use palermo_oram.Station.Register.Path.{rs_line_register_write}
use palermo_oram.Posmap.{Posmap, Task}
use palermo_oram.Posmap.Piggy.One.{IsRenewed}
use palermo_oram.Posmap.Access.{hazard_for}
use palermo_oram.Posmap.Access.Reading.{StepOf, task_rs, map_line, with_rs}
use palermo_oram.Posmap.Access.Steps.{convert_to_ring_path_write, sample_local, step_5}
use palermo_oram.Posmap.Access.PathWrite.{CanWritePath, path_refill}

-- The station with the task of the two lines of the write.
abbrev pub with_write_task : StepOf → Rs → Rs
with_write_task s r =
    let task = length r.task_heap in
    let one = map_line r.tail task (new_task (task_rs s 2) r) in
    map_line ((one.tail + 1) % one.geo.num_of_entries) task one

sample_local-core : (s : StepOf) (r : Rs) → core (sample_local s r) ≡ core r
unfolding sample_local
sample_local-core s r =
    elim (Bool-cases
      ((s.id + 1) % 5000 == 0 && elim (r.geo.name) [ data_tree ↦ true | _ ↦ false ])) [
        | inl h ↦ rw (h, sample_local) refl
        | inr h ↦ rw (h, sample_local) refl
      ]

can_write :
    (s : StepOf) (p : Posmap) (vec : List (Option ℕ)) (wb : ℕ)
    → CanWritePath wb p
    → CanWritePath wb (with_rs p (with_write_task s (record (p.rs) { node_id_vec = vec })))
can_write s p vec wb c = record {
  cache = c.cache;
  all_levels = c.all_levels;
  some_level = c.some_level;
  cut = c.cut;
  leaf_ok = c.leaf_ok;
  leaves = c.leaves;
  within = c.within;
  holds = c.holds;
}

-- Step 5 of a task in a tree without a hazard, of the set of the leaf that was read last, where
-- the tree keeps the invariant of the store, with a valid metadata cache, a bucket for each node
-- of the path to that leaf, room for the path in `node_id_vec` and leaves of the tree only: if
-- `rs_line_register_write` succeeds, the step is done, no assertion failing, the geometry stays,
-- the metadata cache is valid and the invariant holds again, and each block that was in the
-- stash or in a bucket still is, on its way to the same leaf.
pub step_5-IsRenewed :
    (random : Random) (s : StepOf) (p : Posmap) (head : Task) (block wb : ℕ) (vec : List (Option ℕ))
    (r : Rs)
    → head.block_id ≡ some block
    → hazard_for block p ≡ some false
    → get_elem? p.rs.wb_block_id_last s.set_id ≡ some (some wb)
    → wb / p.rs.geo.num_of_ways ≡ s.set_id
    → CanWritePath wb p
    → for_each
        (λ i v. store_at v i (some (path_node p.rs.geo.num_of_lvls wb i)))
        (range 0 p.rs.geo.num_of_lvls)
        p.rs.node_id_vec
      ≡ some vec
    → rs_line_register_write
        (map (path_node p.rs.geo.num_of_lvls wb) (range 0 p.rs.geo.num_of_lvls))
        (with_write_task s (record (p.rs) { node_id_vec = vec }))
      ≡ some r
    → (p' : Posmap) × (head' : Task) × (step_5 random s (p, head) ≡ some (true, (p', head')))
      × IsRenewed p p'
unfolding step_5 convert_to_ring_path_write sample_local
step_5-IsRenewed random s p head block wb vec r has calm last set c stored e =
    let r₀ = record (p.rs) { node_id_vec = vec } in
    let q = record p { rw_counter = p.rw_counter + 1; rs = sample_local s r } in
    let (p₁, run, w) =
      path_refill random wb (with_rs p (with_write_task s r₀)) q r (can_write s p vec wb c) e refl
        (sample_local-core s r) in
    let own : (wb / p.rs.geo.num_of_ways == s.set_id) ≡ true = ground arith in
    (
      with_rs p₁ (record (p₁.rs) {
        stats = record (p₁.rs.stats) { rs_write_rs_lines = p₁.rs.stats.rs_write_rs_lines + 2 };
      }),
      record head {
        local_node_id_vec =
            map some (map (path_node p.rs.geo.num_of_lvls wb) (range 0 p.rs.geo.num_of_lvls));
      },
      rw (has, calm, last, own, stored, e, run) refl,
      record { geo = w.geo; cache = w.cache; holds = w.holds; known = w.known },
    )
