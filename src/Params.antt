-- ===== src/Params.antt =====
-- The macros of src/ring_bucket.h and src/reservation.h.
use palermo_oram.Base.{ℕ, ◌+◌, ◌/◌}

-- `Z`: real slots of a bucket
abbrev pub z_slots : ℕ
z_slots = 16

-- `S`: dummy slots of a bucket
abbrev pub s_slots : ℕ
s_slots = 27

-- `Z + S`
abbrev pub bucket_slots : ℕ
bucket_slots = z_slots + s_slots

-- `A`: reads of a set between two write-backs
abbrev pub evict_rate : ℕ
evict_rate = 20

-- `KTREE`
abbrev pub ktree : ℕ
ktree = 2

-- `EMBED_REPEAT`: `((int) (EMBED_DIM) / (64 / 4))` with `EMBED_DIM` 16
abbrev pub embed_repeat : ℕ
embed_repeat = 16 / (64 / 4)

-- `CACHED_NUM_NODE`: `((int) 95 / EMBED_REPEAT)`
abbrev pub cached_num_node : ℕ
cached_num_node = 95 / embed_repeat

abbrev pub nodeid_metadata_start : ℕ
nodeid_metadata_start = 0x7000000

abbrev pub pos1_metadata_start : ℕ
pos1_metadata_start = 0x8000000

abbrev pub pos2_metadata_start : ℕ
pos2_metadata_start = 0x9000000

abbrev pub data_tree_start : ℕ
data_tree_start = 0x0000000

abbrev pub pos1_tree_start : ℕ
pos1_tree_start = 0x2000000

abbrev pub pos2_tree_start : ℕ
pos2_tree_start = 0x4000000
