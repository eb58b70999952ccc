-- ===== src/Examples/Blocks.antt =====
-- The write-back and the pulls, at the tree of Examples.
use palermo_oram.Base.{
  ℕ, zero, suc, ◌<◌, ◌≡◌, refl, inl, some, [], ◌∷◌, arith, lookup, erase, count, range,
}
use palermo_oram.Base.{for_each}
use palermo_oram.Params.{bucket_slots}
use palermo_oram.State.{Rs}
use palermo_oram.Station.Register.Early.{pull_early_slot}
use palermo_oram.Station.Register.Early.Bare.{HasEarly, IsPulled, pull_early_slot-IsPulled}
use palermo_oram.Posmap.Start.{rs_line}
use palermo_oram.Bucket.{ring_bucket}
use palermo_oram.Tree.{path_node, leaf_division, lvl_base_lookup}
use palermo_oram.Store.{pull_slot, put_line}
use palermo_oram.Store.Blocks.{Holds, pull_slot-Holds, put_line-Holds}
use palermo_oram.Store.Known.{IsKnown, pull_slot-IsKnown}
use palermo_oram.Posmap.{Posmap}
use palermo_oram.Posmap.Start.{rs_fields}
use palermo_oram.Posmap.Piggy.{piggy_writeback, Leaving, fill_node, piggy_one, erase_all}
use palermo_oram.Posmap.Piggy.Writeback.{CanWriteBack, piggy_writeback-IsRenewed}
use palermo_oram.Posmap.Piggy.Fill.{Holds_buckets}
use palermo_oram.Posmap.Piggy.Node.{IsMoving, Pending-all, fill_node_total}
use palermo_oram.Posmap.Piggy.One.{renewed, renewed-IsFilling, IsRenewed, piggy_one-IsRenewed}
use palermo_oram.Examples.{
  in_order, in_order-IsShuffle, no_shuffle, three_blocks, three_blocks-Holds, small_cache-IsValid,
  start, start-CanRenew, line_7, line_7-CanPut, seven_out, seven_out-Holds,
}

piggy_one-IsRenewed_example :
    (p' : Posmap) × (piggy_one no_shuffle 1 1 start ≡ some p') × IsRenewed start p'
piggy_one-IsRenewed_example = piggy_one-IsRenewed no_shuffle 1 1 start start-CanRenew

abbrev filling : Leaving
filling = record { store = renewed three_blocks 1 in_order; to_erase = [] }

filling-IsMoving : IsMoving 3 0 three_blocks filling
unfolding count
filling-IsMoving = record {
  holds = Holds_buckets _ three_blocks-Holds;
  same = refl;
  kept = λ x leaf k. k;
  gone = λ x leaf e c. absurd (omega arith);
}

fill_node_total_example :
    (w : Leaving) × (fill_node 3 1 1 three_blocks.stash filling ≡ some w)
    × IsMoving 3 0 three_blocks w
unfolding ring_bucket range
fill_node_total_example =
    fill_node_total 3 0 1 1 three_blocks (omega arith) (omega arith) three_blocks.stash
      (ring_bucket 1 in_order) filling three_blocks-Holds.sorted
      (Pending-all three_blocks.stash three_blocks-Holds.sorted) filling-IsMoving
      (renewed-IsFilling three_blocks 1 in_order in_order-IsShuffle (omega arith) (λ off lt. refl))
      (omega arith)

pub within_small : (i : ℕ) → i < 3 → path_node 3 2 i < 7
unfolding path_node lvl_base_lookup leaf_division
within_small zero h = omega arith
within_small (suc zero) h = omega arith
within_small (suc (suc zero)) h = omega arith
within_small (suc (suc (suc i))) h = absurd (omega arith)

start-CanWriteBack : CanWriteBack 2 start
unfolding rs_fields range lookup
start-CanWriteBack = record {
  cache = small_cache-IsValid;
  some_level = omega arith;
  fits = omega arith;
  leaf_ok = omega arith;
  leaves = λ x leaf e. ground arith;
  within = within_small;
  holds = three_blocks-Holds;
  bare = λ i a c off lt. refl;
}

piggy_writeback-IsRenewed_example :
    (p' : Posmap) × (piggy_writeback no_shuffle 2 start ≡ some p') × IsRenewed start p'
piggy_writeback-IsRenewed_example = piggy_writeback-IsRenewed no_shuffle 2 start start-CanWriteBack

put_line-Holds_example : Holds 3 0 (7 ∷ []) (put_line line_7 three_blocks)
put_line-Holds_example = put_line-Holds line_7 three_blocks-Holds line_7-CanPut

pull_slot-Holds_example : Holds 3 0 [] (pull_slot 86 seven_out)
pull_slot-Holds_example = pull_slot-Holds 3 0 86 seven_out seven_out-Holds

pull_slot-IsKnown_example : IsKnown (pull_slot 86 seven_out) 5 1
unfolding erase_all erase lookup put_line
pull_slot-IsKnown_example = pull_slot-IsKnown 3 0 86 seven_out seven_out-Holds 5 1 (inl refl)

abbrev seven_station : Rs
seven_station = record (start.rs) { store = seven_out }

seven_station-HasEarly : HasEarly seven_station
unfolding rs_fields rs_line
seven_station-HasEarly = (_, refl, refl, refl)

pull_early_slot-IsPulled_example :
    (r : Rs) × (for_each (pull_early_slot 2) (range 0 bucket_slots) seven_station ≡ some r)
    × IsPulled 3 0 2 bucket_slots seven_out r.store
pull_early_slot-IsPulled_example =
    pull_early_slot-IsPulled 3 0 2 seven_station seven_out-Holds seven_station-HasEarly
