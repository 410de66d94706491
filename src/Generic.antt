-- ===== src/Generic.antt =====
-- kernel/capability/generic.{hpp,cpp}: the memory that a Generic capability describes, its allocation
-- cursor, and its revocation. A `word` is below 2^64, and its arithmetic wraps around; a shift by 64 or
-- more, which the language leaves undefined, gives 0.
pub mod Allocation
pub mod Conversion
pub mod Teardown
use a9n.Base.{
  ℕ, zero, suc, ◌+◌, ◌*◌, ◌/◌, ◌%◌, ◌^◌, Bool, true, false, Option, none, some, ltb, leb, ◌==◌,
  if◌then◌else◌,
}
use a9n.Base.Result.{Result, ok, err}
use a9n.Calculate.{align_value, word_mod}
use a9n.CapabilityTypes.{SlotData, CapabilityError, illegal_operation}
use a9n.Slot.{Slots, set_local, has_child}

pub data MemoryError : Type 0 where
  out_of_memory invalid_address invalid_alignment : MemoryError

-- The two parts share no bit, so that `|=` adds them; `& 127` is the rest by 128.
pub serialize_generic_flags : Bool → ℕ → ℕ
serialize_generic_flags is_device size_bits = (if is_device then 128 else 0) + size_bits % 128

pub generic_flags_size_bits : ℕ → ℕ
generic_flags_size_bits flags = flags % 128

pub generic_flags_is_device : ℕ → Bool
generic_flags_is_device flags = flags / 128 % 2 == 1

pub record GenericInfo : Type 0 where
  pub base_address : ℕ
  pub size_bits : ℕ
  pub watermark : ℕ
  pub device : Bool

abbrev pub shifted_one : ℕ → ℕ
shifted_one bits = 2 ^ bits % word_mod

abbrev pub size : GenericInfo → ℕ
size info = shifted_one (info.size_bits)

abbrev pub end_address : GenericInfo → ℕ
end_address info = (info.base_address + size info) % word_mod

abbrev pub reset : GenericInfo → GenericInfo
reset info = record info { watermark = info.base_address }

pub is_allocatable : GenericInfo → ℕ → ℕ → Bool
is_allocatable info memory_size_bits count =
    let unit = shifted_one memory_size_bits in
    let aligned_watermark = align_value (info.watermark) unit in
    leb ((aligned_watermark + unit * count % word_mod) % word_mod) (end_address info)

unfoldable pub apply_allocate : GenericInfo → ℕ → GenericInfo
apply_allocate info memory_size_bits =
    let unit = shifted_one memory_size_bits in
    record info { watermark = (align_value (info.watermark) unit + unit) % word_mod }

unfoldable pub try_apply_allocate : GenericInfo → ℕ → Result ℕ MemoryError × GenericInfo
try_apply_allocate info memory_size_bits =
    let unit = shifted_one memory_size_bits in
    let aligned_watermark = align_value (info.watermark) unit in
    if ltb (end_address info) ((aligned_watermark + unit) % word_mod)
    then (err out_of_memory, info)
    else (ok aligned_watermark, apply_allocate info memory_size_bits)

pub dump_slot_data : GenericInfo → SlotData
dump_slot_data info = record {
  word_0 = info.base_address;
  word_1 = serialize_generic_flags (info.device) (info.size_bits);
  word_2 = info.watermark;
}

pub create_generic_info : SlotData → GenericInfo
create_generic_info local = record {
  base_address = local.word_0;
  size_bits = generic_flags_size_bits (local.word_1);
  device = generic_flags_is_device (local.word_1);
  watermark = local.word_2;
}

-- `generic::revoke`, on fuel for the walk along the alias group.
pub revoke : ℕ → Slots → ℕ → Option (Result (Unit {0}) CapabilityError × Slots)
revoke fuel s self = elim (has_child fuel s self) [
  | none ↦ none
  | some true ↦ some (err illegal_operation, s)
  | some false ↦
      some (ok tt, set_local s self (dump_slot_data (reset (create_generic_info (s.local self)))))
]
