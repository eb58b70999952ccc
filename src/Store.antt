-- ===== src/Store.antt =====
-- Where the blocks are: the buckets, the position map and its inverse, and the stash, which
-- src/reservation.h keeps as fields of `rs`; and the moves of one block between them.
pub mod Blocks
pub mod Known
use palermo_oram.Base.{
  ℕ, ◌+◌, Bool, true, false, Option, none, some, List, [], ◌∷◌, ◌==◌, if◌then◌else◌, ◌>>=◌,
  get_elem?, set, store_at, length, Table, put_at, insert, erase,
}
use palermo_oram.Bucket.{Bucket, ring_bucket, assign_z_off}
use palermo_oram.Tree.{slot_address}

-- `pos_map_line`, as every line that the code fills in
pub record PosMapLine : Type 0 where
  pub original_address : ℕ
  pub block_id : ℕ
  pub node_id : ℕ
  pub offset : ℕ
  pub pending : Bool

-- An entry of `posMap`. `blank p` is a line with the default values, -1 in each number, and the
-- flag `pending`: `posMap[a]` makes one when `a` is missing.
pub data PosEntry : Type 0 where
  mapped : PosMapLine → PosEntry
  blank : Bool → PosEntry

-- Addresses that may be -1, `none`.
abbrev pub Address : Type 0
Address = Option ℕ

abbrev pub same_address : Address → Address → Bool
same_address none none = true
same_address (some a) (some b) = a == b
same_address _ _ = false

abbrev pub PosMap : Type 0
PosMap = Address → Option PosEntry

abbrev pub pos_put : PosMap → Address → Option PosEntry → PosMap
pos_put m a v q = if same_address a q then v else m q

pub record Store : Type 0 where
  pub buckets : List Bucket
  pub addr_to_origaddr : Table PosMapLine
  pub pos_map : PosMap
  pub stash : List (ℕ × ℕ)

-- A pull of the slot `pull_addr`: a block that is mapped there goes to the stash.
unfoldable pub pull_slot : ℕ → Store → Store
pull_slot pull_addr st = elim (st.addr_to_origaddr pull_addr) [
  | none ↦ st
  | some line ↦ record st {
    stash = insert line.original_address line.block_id st.stash;
    addr_to_origaddr = put_at st.addr_to_origaddr pull_addr none;
    pos_map = pos_put st.pos_map (some line.original_address) none;
  }
]

-- `(*ring_bucket_vec)[node_id] = ring_bucket(node_id)`, given the shuffled offsets
unfoldable pub refresh_bucket : ℕ → List ℕ → Store → Option Store
refresh_bucket node_id tmp st = do
  buckets ← store_at st.buckets node_id (ring_bucket node_id tmp)
  some (record st { buckets = buckets })

-- The line of a block at a slot, and the maps with it.
unfoldable pub line_at : ℕ → ℕ → ℕ → ℕ → PosMapLine
line_at address block_id node_id assigned_offset = record {
  original_address = address;
  block_id = block_id;
  node_id = node_id;
  offset = assigned_offset;
  pending = false;
}

unfoldable pub put_line : PosMapLine → Store → Store
put_line tmp st = record st {
  pos_map = pos_put st.pos_map (some tmp.original_address) (some (mapped tmp));
  addr_to_origaddr = put_at st.addr_to_origaddr (slot_address tmp.node_id tmp.offset) (some tmp);
}

-- A block of the stash gets the next real slot of a bucket. It leaves the stash later.
unfoldable pub place_block : ℕ → ℕ → ℕ → Store → Option Store
unfolding line_at put_line
place_block address block_id node_id st = do
  b ← get_elem? st.buckets node_id
  (assigned_offset, b') ← assign_z_off b
  buckets ← store_at st.buckets node_id b'
  some (
      put_line (line_at address block_id node_id assigned_offset) (record st { buckets = buckets }))
