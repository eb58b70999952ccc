-- ===== src/Station/Register/Path.antt =====
-- `rs_line_register_write` and `rs_line_register_read`.
pub mod Moved
pub mod Bare
pub mod Whole
use palermo_oram.Base.{
  ℕ, ◌+◌, ◌-◌, ◌*◌, Bool, true, false, ◌||◌, Option, none, some, List, leb, ltb, if◌then◌else◌,
  ◌>>=◌, ◌>>◌, assert, get_elem?, store_at, length, for_each, range, take, drop,
}
use palermo_oram.Params.{z_slots, bucket_slots}
use palermo_oram.Tree.{Geometry, slot_address}
use palermo_oram.Store.{Address, pull_slot}
use palermo_oram.State.{
  RsLine, PullTag, unknown, unkown, useful, dummy, read_pull, write_pull, write_push, write, Rs,
  modify_line,
}
use palermo_oram.Station.Mshr.{mshr_add}
use palermo_oram.Station.Forward.{back, ld_fwd_st_check}
use palermo_oram.Station.Register.{
  no_address, open_line, close_line, request_write_pull, request_read,
}

-- A slot of a line of a path pull: its address and its flag.
unfoldable pub set_pull_slot : ℕ → ℕ → ℕ → Bool × PullTag → RsLine → Option RsLine
set_pull_slot node_id i j flag l = do
  addrs ← store_at l.oram_addr_for_pull (i * bucket_slots + j) (some (slot_address node_id j))
  flags ← store_at l.oram_finished_vec_for_pull (i * bucket_slots + j) flag
  some (record l { oram_addr_for_pull = addrs; oram_finished_vec_for_pull = flags })

abbrev pub set_node : ℕ → ℕ → RsLine → Option RsLine
set_node i node_id l = do
  nodes ← store_at l.oram_node_id i (some node_id)
  some (record l { oram_node_id = nodes })

-- A level above those that hold blocks: nothing to pull.
unfoldable pub pull_top_level : List ℕ → ℕ → Rs → Option Rs
pull_top_level nodes i r = do
  node_id ← get_elem? nodes i
  modify_line r.tail
      (λ l. do
        l₁ ← set_node i node_id l
        for_each (λ j. set_pull_slot node_id i j (true, unkown)) (range 0 bucket_slots) l₁)
      r

-- Slot `j` of the node at level `i`: its flag, and its block to the stash.
unfoldable pub pull_path_slot : ℕ → ℕ → ℕ → Rs → Option Rs
pull_path_slot node_id i j r = do
  r₁ ← modify_line r.tail (set_pull_slot node_id i j (true, unkown)) r
  some (record r₁ { store = pull_slot (slot_address node_id j) r₁.store })

-- The flag of a slot that is read, unless the node is cached.
abbrev pub pull_flag : Geometry → ℕ → ℕ → PullTag → Bool × PullTag
pull_flag g i node_id tag =
    if ltb i g.start_lvl || ltb node_id g.cache_end_nodeid then (true, unknown) else (false, tag)

unfoldable pub pull_level : List ℕ → ℕ → Rs → Option Rs
pull_level nodes i r = do
  node_id ← get_elem? nodes i
  r ← modify_line r.tail (set_node i node_id) r
  r ← for_each (pull_path_slot node_id i) (range 0 bucket_slots) r
  b ← get_elem? r.store.buckets node_id
  r ←
      modify_line r.tail
        (for_each (λ o. set_pull_slot node_id i o (pull_flag r.geo i node_id useful)) b.z_arr) r
  assert (leb (length b.z_arr) z_slots)
  let remaining_s = z_slots - length b.z_arr
  assert (leb remaining_s (length b.s_arr))
  r ←
      modify_line r.tail
        (for_each (λ o. set_pull_slot node_id i o (pull_flag r.geo i node_id dummy))
          (take remaining_s b.s_arr))
        r
  modify_line r.tail
      (for_each (λ o. set_pull_slot node_id i o (true, unknown)) (drop remaining_s b.s_arr)) r

-- One slot of the path write: it is sent unless its node is cached.
unfoldable pub push_path_slot : Bool → ℕ → ℕ → ℕ → Rs → Option Rs
push_path_slot top node_id i j r = do
  let addr = slot_address node_id j
  r₁ ←
      modify_line r.tail
        (λ l. do
          addrs ← store_at l.oram_addr_for_write (i * bucket_slots + j) (some addr)
          flags ← store_at l.oram_finished_vec_for_write (i * bucket_slots + j) true
          some (record l { oram_addr_for_write = addrs; oram_finished_vec_for_write = flags }))
        r
  if top || (ltb i r.geo.start_lvl || ltb node_id r.geo.cache_end_nodeid)
      then some r₁
      else mshr_add addr r₁.tail (i * bucket_slots + j) false write r₁

unfoldable pub push_level : Bool → List ℕ → ℕ → Rs → Option Rs
push_level top nodes i r = do
  node_id ← get_elem? nodes i
  r₁ ← modify_line r.tail (set_node i node_id) r
  for_each (push_path_slot top node_id i) (range 0 bucket_slots) r₁

-- The pull of a path.
unfoldable pub register_write_pull : List ℕ → Rs → Option Rs
register_write_pull nodes r = do
  let g = r.geo
  leaf ← back nodes
  r ← open_line write_pull (some no_address) r
  r ← for_each (pull_top_level nodes) (range 0 g.start_lvl) r
  r ← for_each (pull_level nodes) (range g.start_lvl (g.num_of_lvls - g.start_lvl)) r
  r ← ld_fwd_st_check r.tail leaf true false r
  l ← get_elem? r.rs_vec r.tail
  r ← for_each request_write_pull (range 0 (length l.oram_finished_vec_for_pull)) r
  close_line false r

-- Its write back.
unfoldable pub register_write_push : List ℕ → Rs → Option Rs
register_write_push nodes r = do
  let g = r.geo
  r ← open_line write_push (some no_address) r
  r ← for_each (push_level true nodes) (range 0 g.lowest_uncached_lvl) r
  r ←
      for_each (push_level false nodes)
        (range g.lowest_uncached_lvl (g.num_of_lvls - g.lowest_uncached_lvl)) r
  close_line true r

unfoldable pub rs_line_register_write : List ℕ → Rs → Option Rs
rs_line_register_write nodes r = do r₁ ← register_write_pull nodes r; register_write_push nodes r₁

-- The address of a slot, where both parts are known. At an offset of -1 the code writes a number that
-- no request uses.
abbrev pub known_slot : Option ℕ → Option ℕ → Option ℕ
known_slot (some node) (some offset) = some (slot_address node offset)
known_slot _ _ = none

abbrev pub is_none : Option ℕ → Bool
is_none none = true
is_none (some _) = false

-- `extract_node_id < cache_end_nodeid`, which -1 satisfies.
abbrev pub below_cache_end : Geometry → Option ℕ → Bool
below_cache_end g none = true
below_cache_end g (some node) = ltb node g.cache_end_nodeid

-- One level of a read.
unfoldable pub read_level : List (Option ℕ) → List (Option ℕ) → ℕ → Rs → Option Rs
read_level nodes offsets i r = do
  node ← get_elem? nodes i
  offset ← get_elem? offsets i
  modify_line r.tail
      (λ l. do
        ns ← store_at l.oram_node_id i node
        os ← store_at l.bucket_offset i offset
        addrs ← store_at l.oram_lvl_addr i (known_slot node offset)
        flags ←
            store_at l.oram_finished_vec_for_read i
              (is_none offset || (ltb i r.geo.start_lvl || below_cache_end r.geo node))
        some (record l {
          oram_node_id = ns;
          bucket_offset = os;
          oram_lvl_addr = addrs;
          oram_finished_vec_for_read = flags;
        }))
      r

-- `node_id_vec` holds a whole path when a read is registered, so that its last entry is not -1.
unfoldable pub rs_line_register_read : Address → List (Option ℕ) → List (Option ℕ) → Rs → Option Rs
rs_line_register_read orig_addr nodes offsets r = do
  r ← open_line read_pull orig_addr r
  r ← for_each (read_level nodes offsets) (range 0 r.geo.num_of_lvls) r
  last ← back r.node_id_vec
  leaf ← last
  r ← ld_fwd_st_check r.tail leaf false false r
  l ← get_elem? r.rs_vec r.tail
  r ← for_each request_read (range 0 (length l.oram_finished_vec_for_read)) r
  close_line false r
