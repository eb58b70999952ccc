-- ===== src/Tree/Layout.antt =====
-- Where slots and metadata lie in memory.
use palermo_oram.Base.{ℕ, ◌/◌, ◌%◌, ◌<◌, ◌≡◌, ap, [], ◌∷◌, map, range, arith}
use palermo_oram.Params.{bucket_slots}
use palermo_oram.Tree.{
  TreeName, data_tree, pos1, pos2, slot_address, packet_addresses, slot_of_packet, metadata_address,
}

-- Two slots with offsets below Z + S have the same number only if they have the same node and
-- the same offset.
pub slot_address-inj :
    (n m i j : ℕ)
    → i < bucket_slots
    → j < bucket_slots
    → slot_address n i ≡ slot_address m j
    → (n ≡ m) × (i ≡ j)
unfolding slot_address
slot_address-inj n m i j p q e = omega arith

-- The answer to each packet that is sent for a slot, in any of the three trees, is booked on
-- that slot.
pub slot_of_packet-packet_addresses :
    (t : TreeName) (slot : ℕ)
    → map (slot_of_packet t) (packet_addresses t slot) ≡ map (λ _. slot) (packet_addresses t slot)
unfolding slot_of_packet packet_addresses range
slot_of_packet-packet_addresses data_tree slot = ap (λ a. a ∷ []) (omega arith)
slot_of_packet-packet_addresses pos1 slot = ap (λ a. a ∷ []) (omega arith)
slot_of_packet-packet_addresses pos2 slot = ap (λ a. a ∷ []) (omega arith)

-- Two nodes of a tree have the same metadata line exactly when they lie in one block of 32, and
-- the line starts at a multiple of 64.
pub metadata_address_eq :
    (t : TreeName) (n m : ℕ)
    → (metadata_address t n ≡ metadata_address t m → n / 32 ≡ m / 32)
      × (n / 32 ≡ m / 32 → metadata_address t n ≡ metadata_address t m)
      × (metadata_address t n % 64 ≡ 0)
unfolding metadata_address
metadata_address_eq data_tree n m = omega arith
metadata_address_eq pos1 n m = omega arith
metadata_address_eq pos2 n m = omega arith
