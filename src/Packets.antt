-- ===== src/Packets.antt =====
-- includes/data_packets.h: the packets that the application hands over.
pub mod Memory
use real_time_data_transfer.Base.{ℕ, List}

-- DATA_PTR_TYPE. The packets of a list come from malloc, so the field may also hold a value that
-- names neither kind.
pub data DataPtrType : Type 0 where
  memory_location file_descriptor unknown_type : DataPtrType

pub record DataPacket : Type 0 where
  pub data_ptr_type : DataPtrType
  pub data_ptr : ℕ
  pub data_size : ℕ
  pub data_offset : ℕ

-- The packets of a DataPacketsList, `num_packets` of them.
abbrev pub Packets : Type 0
Packets = List DataPacket
