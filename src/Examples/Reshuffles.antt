-- ===== src/Examples/Reshuffles.antt =====
-- An early reshuffle of node 1 of the small tree, and two pulls of one slot.
use palermo_oram.Base.{
  ◌≡◌, refl, Bool, true, false, ◌>>=◌, >>=-eq-some, Option, none, some, for_each, range, arith,
}
use palermo_oram.Station.Mshr.Once.{entry, mshr_add-once}
use palermo_oram.State.{MshrEntry, write}
use palermo_oram.Base.{List, [], ◌∷◌, ◌++◌, ℕ}
use palermo_oram.Tree.{slot_address, packet_addresses}
use palermo_oram.Bucket.{ring_bucket, flush_offset}
use palermo_oram.Store.{pull_slot}
use palermo_oram.State.{Rs}
use palermo_oram.Station.Mshr.{
  mshr_add, count_request, open_request, oram_packet_construct, oram_packets,
  rs_line_commit_attempt,
}
use palermo_oram.Station.Forward.{ld_fwd_st_check, mark_finished}
use palermo_oram.Station.Register.{open_line, close_line, request_early_pull}
use palermo_oram.Station.Register.Early.{
  early_nodes, pull_early_slot, mark_early, skip_early, push_early_slot,
  rs_line_register_early_reshuffle_r, rs_line_register_early_reshuffle_w,
}
use palermo_oram.Posmap.{Posmap}
use palermo_oram.Posmap.Start.{rs_fields, rs_line}
use palermo_oram.Posmap.Access.Reading.{early_pull_node, early_push_node, map_line}
use palermo_oram.Posmap.Access.Early.{early_push_node-IsRenewed}
use palermo_oram.Posmap.Piggy.One.{IsRenewed}
use palermo_oram.Examples.{start, no_shuffle, small_cache-IsValid, three_blocks-Holds}

abbrev write_node : Posmap → Option (Posmap × Rs)
write_node p = do
  r ← rs_line_register_early_reshuffle_w 1 1 (map_line p.rs.tail 0 p.rs)
  some (p, r)

abbrev is_there : Option (Posmap × Rs) → Bool
is_there none = false
is_there (some _) = true

there_is : (o : Option (Posmap × Rs)) → is_there o ≡ true → (x : Posmap × Rs) × (o ≡ some x)
there_is none h = absurd cc
there_is (some x) h = (x, refl)

-- Both registrations succeed.
runs : is_there (early_pull_node 0 (1, 1) start >>= write_node) ≡ true
unfolding early_pull_node rs_line_register_early_reshuffle_r open_line for_each range
    pull_early_slot pull_slot slot_address rs_fields rs_line ring_bucket early_nodes mark_early
    skip_early ld_fwd_st_check mark_finished request_early_pull mshr_add count_request open_request
    oram_packet_construct oram_packets packet_addresses close_line rs_line_commit_attempt
    flush_offset rs_line_register_early_reshuffle_w push_early_slot
runs = refl

registered :
    (p : Posmap) × (r : Rs) × (early_pull_node 0 (1, 1) start ≡ some p)
    × (rs_line_register_early_reshuffle_w 1 1 (map_line p.rs.tail 0 p.rs) ≡ some r)
registered =
    let ((p, r), e) = there_is (early_pull_node 0 (1, 1) start >>= write_node) runs in
    let (p', e₁, e₂) = >>=-eq-some (early_pull_node 0 (1, 1) start) write_node e in
    let (r', e₃, e₄) =
      >>=-eq-some (rs_line_register_early_reshuffle_w 1 1 (map_line p'.rs.tail 0 p'.rs)) _ e₂ in
    (p', r', e₁, e₃)

early_push_node-IsRenewed_example :
    (p₂ : Posmap) × (early_push_node no_shuffle 0 (1, 1) registered.0 ≡ some p₂)
    × IsRenewed start p₂
unfolding rs_fields
early_push_node-IsRenewed_example =
    early_push_node-IsRenewed no_shuffle 0 1 1 start registered.0 registered.1 small_cache-IsValid
      three_blocks-Holds (omega arith) registered.2 registered.3

abbrev or_start : Option Rs → Rs
or_start none = start.rs
or_start (some r) = r

-- A pull of slot 40 in flight, and a second one behind it.
abbrev one_pull : Rs
one_pull = or_start (mshr_add 40 0 0 true write start.rs)

abbrev two_pulls : Rs
two_pulls = or_start (mshr_add 40 1 7 true write one_pull)

mshr_add-once_example :
    (two_pulls.ramulator_input_vec ≡ one_pull.ramulator_input_vec)
    × ((entries : List MshrEntry) × (cnt : ℕ) × (one_pull.mshr_array 40
          ≡ some (entries ++ (entry 0 0 write ∷ []), cnt))
        × (two_pulls.mshr_array 40
            ≡ some ((entries ++ (entry 0 0 write ∷ [])) ++ (entry 1 7 write ∷ []), cnt)))
unfolding mshr_add count_request open_request oram_packet_construct oram_packets packet_addresses
    rs_fields rs_line
mshr_add-once_example = mshr_add-once 40 0 1 0 7 write write start.rs one_pull refl refl
