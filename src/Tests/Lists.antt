-- ===== src/Tests/Lists.antt =====
-- includes/data_packets.h: a memory on which the theorems about lists of packets are applied.
use real_time_data_transfer.Base.{
  ◌==◌, if◌then◌else◌, some_injective, ℕ, ◌≡◌, refl, ◌≢◌, none, some, [], ◌∷◌, arith,
}
use real_time_data_transfer.Packets.{DataPacket, memory_location}
use real_time_data_transfer.Packets.Memory.{Heap, store, Allocator, DataPacketsList, block, assign}
use real_time_data_transfer.Packets.Memory.Copies.{Owns, assign-Owns, assign_self}

abbrev first_packet : DataPacket
first_packet = record {
  data_ptr_type = memory_location;
  data_ptr = 8;
  data_size = 2;
  data_offset = 0;
}

abbrev stale_packet : DataPacket
stale_packet = record first_packet { data_ptr = 0 }

-- Block 1 has one packet, block 2 has none.
abbrev memory : Heap
memory a = if a == 1 then some (first_packet ∷ []) else if a == 2 then some [] else none

abbrev one_packet : DataPacketsList
one_packet = record { packets = some 1; num_packets = 1 }

abbrev no_packets : DataPacketsList
no_packets = record { packets = some 2; num_packets = 0 }

-- The first block that is free, of the blocks 1 to 3.
abbrev first_free : Heap → ℕ
first_free h = elim (h 1) [ none ↦ 1 | some a ↦ elim (h 2) [ none ↦ 2 | some b ↦ 3 ] ]

abbrev allocator : Allocator
allocator = record { address = λ n h. first_free h; leftover = λ n h. stale_packet ∷ [] }

assign_self_example :
    block
      (assign allocator one_packet one_packet memory).0.packets
      (assign allocator one_packet one_packet memory).1
    ≡ stale_packet ∷ []
unfolding store
assign_self_example = assign_self allocator one_packet 1 memory refl refl

assign-Owns_example :
    Owns allocator
      (assign allocator no_packets one_packet memory).0
      (first_packet ∷ [])
      (assign allocator no_packets one_packet memory).1
    × Owns allocator one_packet
        (first_packet ∷ [])
        (assign allocator no_packets one_packet memory).1
    × ((assign allocator no_packets one_packet memory).0.packets ≢ some 1)
unfolding store
assign-Owns_example =
    assign-Owns allocator no_packets one_packet (first_packet ∷ []) memory refl
      (record { at = 1; is_at = refl; has = refl; many = refl })
      (λ e. absurd (omega (arith, some_injective e)))
