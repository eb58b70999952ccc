-- ===== src/Station/Register/Early.antt =====
-- `rs_line_register_early_reshuffle_r` and `rs_line_register_early_reshuffle_w`.
pub mod Bare
pub mod Whole
use palermo_oram.Base.{
  ℕ, true, false, ◌&&◌, ◌||◌, Option, none, some, List, [], ◌==◌, leb, ltb, if◌then◌else◌, ◌>>=◌,
  ◌>>◌, assert, get_elem?, store_at, length, for_each, range, map,
}
use palermo_oram.Params.{bucket_slots}
use palermo_oram.Bucket.{flush_offset}
use palermo_oram.Tree.{slot_address}
use palermo_oram.Store.{pull_slot}
use palermo_oram.State.{
  RsLine, PullTag, unknown, useful, dummy, early_pull, early_push, early, Rs, modify_line,
}
use palermo_oram.Station.Mshr.{mshr_add}
use palermo_oram.Station.Forward.{ld_fwd_st_check}
use palermo_oram.Station.Register.{no_address, open_line, close_line, request_early_pull}

-- `oram_node_id` of an early line: the node, its level, and -1 behind them
unfoldable pub early_nodes : ℕ → ℕ → ℕ → List (Option ℕ)
early_nodes n node_id node_lvl =
    map (λ i. if i == 0 then some node_id else if i == 1 then some node_lvl else none) (range 0 n)

-- One round of the first loop: slot `j` of the node, its flag, and its block to the stash.
unfoldable pub pull_early_slot : ℕ → ℕ → Rs → Option Rs
pull_early_slot node_id j r = do
  let pull_addr = slot_address node_id j
  r₁ ←
      modify_line r.tail
        (λ l. do
          addrs ← store_at l.oram_addr_for_early_pull j (some pull_addr)
          flags ← store_at l.oram_finished_vec_for_early_pull j (true, unknown)
          some (record l {
            oram_addr_for_early_pull = addrs;
            oram_finished_vec_for_early_pull = flags;
          }))
        r
  some (record r₁ { store = pull_slot pull_addr r₁.store })

-- The flags of the slots that no read has used.
unfoldable pub mark_early : PullTag → List ℕ → RsLine → Option RsLine
mark_early tag offsets l = do
  flags ← for_each (λ o v. store_at v o (false, tag)) offsets l.oram_finished_vec_for_early_pull
  some (record l { oram_finished_vec_for_early_pull = flags })

-- The flags of all slots of a cached node.
unfoldable pub skip_early : RsLine → Option RsLine
skip_early l = do
  flags ←
      for_each (λ j v. store_at v j (true, unknown)) (range 0 bucket_slots)
        l.oram_finished_vec_for_early_pull
  some (record l { oram_finished_vec_for_early_pull = flags })

unfoldable pub rs_line_register_early_reshuffle_r : ℕ → ℕ → Rs → Option Rs
rs_line_register_early_reshuffle_r node_id node_lvl r₀ = do
  assert (leb r₀.geo.start_lvl node_lvl && leb r₀.geo.cache_end_nodeid node_id)
  r ← open_line early_pull (some no_address) r₀
  r ← for_each (pull_early_slot node_id) (range 0 bucket_slots) r
  r ←
      modify_line r.tail
        (λ l. some (record l { oram_node_id = early_nodes r₀.geo.num_of_lvls node_id node_lvl })) r
  b ← get_elem? r.store.buckets node_id
  _ ← flush_offset b []
  r ← modify_line r.tail (λ l. do l₁ ← mark_early useful b.z_arr l; mark_early dummy b.s_arr l₁) r
  r ←
      (if ltb node_lvl r.geo.lowest_uncached_lvl || ltb node_id r.geo.cache_end_nodeid
        then modify_line r.tail skip_early r
        else some r)
  r ← ld_fwd_st_check r.tail node_id true true r
  l ← get_elem? r.rs_vec r.tail
  r ← for_each request_early_pull (range 0 (length l.oram_finished_vec_for_early_pull)) r
  close_line false r

-- One round of the loop of the write: slot `j`, which is sent unless the node is cached.
unfoldable pub push_early_slot : ℕ → ℕ → ℕ → Rs → Option Rs
push_early_slot node_id node_lvl j r = do
  let addr = slot_address node_id j
  r₁ ←
      modify_line r.tail
        (λ l. do
          addrs ← store_at l.oram_addr_for_early_write j (some addr)
          flags ← store_at l.oram_finished_vec_for_early_write j true
          some (record l {
            oram_addr_for_early_write = addrs;
            oram_finished_vec_for_early_write = flags;
          }))
        r
  if leb r.geo.lowest_uncached_lvl node_lvl && leb r.geo.cache_end_nodeid node_id
      then mshr_add addr r₁.tail j false early r₁
      else some r₁

unfoldable pub rs_line_register_early_reshuffle_w : ℕ → ℕ → Rs → Option Rs
rs_line_register_early_reshuffle_w node_id node_lvl r₀ = do
  r ← open_line early_push (some no_address) r₀
  r ← for_each (push_early_slot node_id node_lvl) (range 0 bucket_slots) r
  r ←
      modify_line r.tail
        (λ l. some (record l { oram_node_id = early_nodes r₀.geo.num_of_lvls node_id node_lvl })) r
  close_line true r
