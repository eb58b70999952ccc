-- ===== src/Posmap.antt =====
-- `posmap_and_stash` of src/reservation.h, which works on the `rs` of its tree.
pub mod Piggy
pub mod Access
pub mod Start
use palermo_oram.Base.{ℕ, Option, List, Bool}
use palermo_oram.Store.{Address}
use palermo_oram.State.{Rs}

-- `task`; its vectors start as -1, and `is_read` says that `type` is "read".
pub record Task : Type 0 where
  pub original_address : Address
  pub block_id : Option ℕ
  pub node_id : Option ℕ
  pub offset : Option ℕ
  pub local_node_id_vec : List (Option ℕ)
  pub local_offset_vec : List (Option ℕ)
  pub is_read : Bool

-- `posmap_and_stash` with the `rs` that it points to; the buckets are those of `rs`.
pub record Posmap : Type 0 where
  pub max_num_levels : ℕ
  pub valid_leaf_left : ℕ
  pub total_num_of_original_addr_space : ℕ
  pub pending_q : List Task
  pub rw_counter : ℕ
  pub wb_lvl_useful_count : ℕ → ℕ
  pub rs : Rs
