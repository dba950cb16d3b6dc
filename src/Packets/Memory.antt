-- ===== src/Packets/Memory.antt =====
-- includes/data_packets.h: the memory of a DataPacketsList.
pub mod Copies
use real_time_data_transfer.Base.{◌==◌, if◌then◌else◌, take, ℕ, Option, none, some, []}
use real_time_data_transfer.Packets.{Packets}

-- The packets in each allocated block.
abbrev pub Heap : Type 0
Heap = ℕ → Option Packets

unfoldable pub store : ℕ → Option Packets → Heap → Heap
store a v h b = if b == a then v else h b

-- malloc picks the address, and leaves in the block what happens to be there. A malloc that fails
-- ends the program, and is left out.
pub record Allocator : Type 0 where
  pub address : ℕ → Heap → ℕ
  pub leftover : ℕ → Heap → Packets

pub record DataPacketsList : Type 0 where
  pub packets : Option ℕ
  pub num_packets : ℕ

-- free; of NULL it does nothing, and here it is not called then.
abbrev pub release : Option ℕ → Heap → Heap
release none h = h
release (some a) h = store a none h

-- What a pointer leads to; nothing that one can rely on when the block is not allocated.
abbrev pub block : Option ℕ → Heap → Packets
block none h = []
block (some a) h = elim (h a) [ none ↦ [] | some ps ↦ ps ]

module _ (alloc : Allocator) where
  open alloc use {address, leftover}

  -- The constructor with a number of packets.
  unfoldable pub allocate : ℕ → Heap → DataPacketsList × Heap
  allocate n h = (
    record { packets = some (address n h); num_packets = n },
    store (address n h) (some (leftover n h)) h,
  )

  -- malloc, then memcpy from `obj`.
  unfoldable pub copy_construct : DataPacketsList → Heap → DataPacketsList × Heap
  unfolding allocate
  copy_construct obj h0 =
      let (l, h) = allocate obj.num_packets h0 in
      (l, store (address obj.num_packets h0) (some (take obj.num_packets (block obj.packets h))) h)

  -- `operator=`: the old block is freed first.
  unfoldable pub assign : DataPacketsList → DataPacketsList → Heap → DataPacketsList × Heap
  unfolding copy_construct
  assign l obj h = copy_construct obj (release l.packets h)

-- The destructor.
abbrev pub destruct : DataPacketsList → Heap → DataPacketsList × Heap
destruct l h = (record l { packets = none }, release l.packets h)
