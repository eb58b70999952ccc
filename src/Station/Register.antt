-- ===== src/Station/Register.antt =====
-- A line enters the table at `tail`: its opening, the requests for its slots, and its last steps, which
-- the four registrations share.
pub mod Early
pub mod Path
use palermo_oram.Base.{
  ℕ, ◌+◌, ◌%◌, Bool, true, false, not, ◌&&◌, ◌||◌, Option, none, some, List, ◌==◌, if◌then◌else◌,
  ◌>>=◌, ◌>>◌, assert, get_elem?, set, store_at, length, for_each, range,
}
use palermo_oram.State.{
  RsLine, LineType, PullTag, is_init, is_useful, RequestType, read, write, early, Stats, Rs,
  modify_line,
}
use palermo_oram.Store.{Address}
use palermo_oram.Station.Mshr.{mshr_add, rs_line_commit_attempt}

-- `0xdeadbeef`
abbrev pub no_address : ℕ
no_address = 0xdeadbeef

-- `assert(!valid || type == "init")`, then the type and the address of the line at `tail`
unfoldable pub open_line : LineType → Address → Rs → Option Rs
open_line t addr r =
    modify_line r.tail
      (λ l. do
        assert (not l.valid || is_init l.type)
        some (record l { type = t; orig_addr = addr }))
      r

-- `oram_unfinished_cnt++` on the line at `tail`
abbrev pub count_unfinished : Rs → Option Rs
count_unfinished r =
    modify_line r.tail (λ l. some (record l { oram_unfinished_cnt = l.oram_unfinished_cnt + 1 })) r

-- The end of a registration: the line becomes valid, a write becomes the last write, a line that
-- waits for nothing commits at the head, and `tail` moves on.
unfoldable pub close_line : Bool → Rs → Option Rs
close_line is_write r = do
  l ← get_elem? r.rs_vec r.tail
  let ready = l.oram_unfinished_cnt == 0
  let l' : RsLine = record l {
    valid = true;
    ready = ready;
    is_write = is_write;
    leading_write_line_num = some r.last_write_line;
  }
  let r₁ = record r {
    rs_vec = set r.rs_vec r.tail l';
    last_write_line = (if is_write then r.tail else r.last_write_line);
  }
  r₂ ←
      (if ready && r₁.tail == r₁.head
        then (do (_, r') ← rs_line_commit_attempt r₁; some r')
        else some r₁)
  some (record r₂ { tail = (r₂.tail + 1) % r₂.geo.num_of_entries })

-- The counters of a pull.
abbrev pub count_early_pull : Bool → Stats → Stats
count_early_pull true s = record s { useful_early_pull_ddr = s.useful_early_pull_ddr + 1 }
count_early_pull false s = record s { dummy_early_pull_ddr = s.dummy_early_pull_ddr + 1 }

abbrev pub count_write_pull : Bool → Stats → Stats
count_write_pull true s = record s { useful_write_pull_ddr = s.useful_write_pull_ddr + 1 }
count_write_pull false s = record s { dummy_write_pull_ddr = s.dummy_write_pull_ddr + 1 }

-- A request for slot `i` of the line at `tail`, if its flag says that it is needed.
unfoldable pub request_early_pull : ℕ → Rs → Option Rs
request_early_pull i r = do
  l ← get_elem? r.rs_vec r.tail
  (finished, tag) ← get_elem? l.oram_finished_vec_for_early_pull i
  slot ← get_elem? l.oram_addr_for_early_pull i
  if finished then some r else (do
    addr ← slot
    r₁ ←
        mshr_add addr r.tail i true early
          (record r { stats = count_early_pull (is_useful tag) r.stats })
    count_unfinished r₁)

unfoldable pub request_write_pull : ℕ → Rs → Option Rs
request_write_pull i r = do
  l ← get_elem? r.rs_vec r.tail
  (finished, tag) ← get_elem? l.oram_finished_vec_for_pull i
  slot ← get_elem? l.oram_addr_for_pull i
  if finished then some r else (do
    addr ← slot
    r₁ ←
        mshr_add addr r.tail i true write
          (record r { stats = count_write_pull (is_useful tag) r.stats })
    count_unfinished r₁)

unfoldable pub request_read : ℕ → Rs → Option Rs
request_read i r = do
  l ← get_elem? r.rs_vec r.tail
  finished ← get_elem? l.oram_finished_vec_for_read i
  slot ← get_elem? l.oram_lvl_addr i
  if finished
      then some r
      else (do addr ← slot; r₁ ← mshr_add addr r.tail i true read r; count_unfinished r₁)
