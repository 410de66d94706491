-- ===== src/CapabilityTypes.antt =====
-- kernel/capability/capability_types.hpp and capability_local_state.hpp: the types of capabilities,
-- and the words that a slot holds for its component.
use a9n.Base.{ℕ, Bool, ◌==◌}

pub data CapabilityType : Type 0 where
  none debug node generic address_space page_table frame process_control_block : CapabilityType
  ipc_port notification_port interrupt_region interrupt_port io_port : CapabilityType
  virtual_cpu virtual_address_space virtual_page_table : CapabilityType

-- The value of the enumerator.
abbrev pub type_code : CapabilityType → ℕ
type_code CapabilityType.none = 0
type_code CapabilityType.debug = 1
type_code CapabilityType.node = 2
type_code CapabilityType.generic = 3
type_code CapabilityType.address_space = 4
type_code CapabilityType.page_table = 5
type_code CapabilityType.frame = 6
type_code CapabilityType.process_control_block = 7
type_code CapabilityType.ipc_port = 8
type_code CapabilityType.notification_port = 9
type_code CapabilityType.interrupt_region = 10
type_code CapabilityType.interrupt_port = 11
type_code CapabilityType.io_port = 12
type_code CapabilityType.virtual_cpu = 13
type_code CapabilityType.virtual_address_space = 14
type_code CapabilityType.virtual_page_table = 15

abbrev pub is_none : CapabilityType → Bool
is_none t = type_code t == 0

-- `capability_slot_data`: ENTRY_DATA_MAX = 3 words.
pub record SlotData : Type 0 where
  pub word_0 : ℕ
  pub word_1 : ℕ
  pub word_2 : ℕ

abbrev pub zero_data : SlotData
zero_data = record { word_0 = 0; word_1 = 0; word_2 = 0 }

-- capability_result.hpp.
pub data CapabilityError : Type 0 where
  illegal_operation permission_denied invalid_descriptor invalid_depth : CapabilityError
  invalid_argument fatal debug_unimplemented : CapabilityError

-- capability_component.hpp.
pub data LookupError : Type 0 where
  terminal index_out_of_range unavailable empty unexpected : LookupError
