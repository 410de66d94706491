-- ===== src/Node.antt =====
-- kernel/capability/capability_node.{hpp,cpp}: the construction and lookup of a node, and its operations
-- COPY, MOVE, MINT and DEMOTE. `register` is the hardware layer's `get_message_register` of the calling
-- process, and `traverse` the lookup of a descriptor from its root slot. The slots of a node are
-- consecutive addresses.
pub mod Rights
pub mod Traverse
pub mod Reclaim
mod Examples
use a9n.Base.{
  ℕ, zero, suc, ◌+◌, ◌-◌, ◌*◌, ◌/◌, ◌%◌, ◌^◌, Bool, true, false, not, ◌&&◌, Option, none, some, ltb,
  leb, ◌==◌, if◌then◌else◌, bit_and, write,
}
use a9n.Base.Result.{Result, ok, err, KernelError}
use a9n.Calculate.{word_mod}
use a9n.CapabilityTypes.{
  CapabilityError, LookupError, illegal_operation, permission_denied, invalid_argument, fatal,
  unavailable,
}
use a9n.Slot.{Slots, init, set_rights, try_copy_capability_slot, try_move_capability_slot}

pub record Node : Type 0 where
  pub ignore_bits : ℕ
  pub radix_bits : ℕ
  pub capability_slots : Option ℕ

pub is_geometry_valid : ℕ → ℕ → Bool
is_geometry_valid ignored radix =
    ltb ignored 64 && (not (radix == 0) && (ltb radix 64 && leb radix (64 - ignored)))

clear_slots : ℕ → ℕ → Slots → Slots
clear_slots zero p s = s
clear_slots (suc n) p s = clear_slots n (suc p) (init s p)

-- The constructor, with what it does to the slots.
pub construct_node : ℕ → ℕ → Option ℕ → Slots → Node × Slots
unfolding clear_slots
construct_node ignored radix none s =
    (record { ignore_bits = ignored; radix_bits = radix; capability_slots = none }, s)
construct_node ignored radix (some p) s =
    if is_geometry_valid ignored radix
    then (
      record { ignore_bits = ignored; radix_bits = radix; capability_slots = some p },
      clear_slots (2 ^ radix) p s,
    )
    else (record { ignore_bits = ignored; radix_bits = radix; capability_slots = none }, s)

pub calculate_used_bits : Node → ℕ → ℕ
calculate_used_bits node used = (node.ignore_bits + node.radix_bits + used) % word_mod

-- `(descriptor >> shift_bits) & mask_bits`, for a shift below 64.
pub calculate_capability_index : Node → ℕ → ℕ → ℕ
calculate_capability_index node descriptor used =
    let shift_bits = (64 + (word_mod - calculate_used_bits node used)) % word_mod in
    descriptor / 2 ^ shift_bits % 2 ^ (node.radix_bits)

pub retrieve_slot : Node → ℕ → Result ℕ LookupError
retrieve_slot node index = elim (node.capability_slots) [
  | none ↦ err unavailable
  | some slots ↦ ok (slots + index)
]

pub lookup_slot : Node → ℕ → ℕ → Result ℕ LookupError
lookup_slot node descriptor used =
    retrieve_slot node (calculate_capability_index node descriptor used)

abbrev pub convert_lookup_to_capability_error : LookupError → CapabilityError
convert_lookup_to_capability_error e = invalid_argument

abbrev pub Outcome : Type 0
Outcome = Result (Unit {0}) CapabilityError × Slots

-- `.transform_error(convert_kernel_to_capability_error)`.
abbrev pub convert_kernel : Result (Unit {0}) KernelError × Slots → Outcome
convert_kernel (ok _, s) = (ok tt, s)
convert_kernel (err e, s) = (err fatal, s)

pub data Transfer : Type 0 where
  copy move mint : Transfer

-- `unwrap_or(0)`.
abbrev pub register_or_zero : (ℕ → Option ℕ) → ℕ → ℕ
register_or_zero register i = elim (register i) [ some v ↦ v | none ↦ 0 ]

abbrev pub may_use : Slots → ℕ → Bool
may_use s p = bit_and (s.rights p) 3 == 3

abbrev pub may_copy : Slots → ℕ → Bool
may_copy s p = not (bit_and (s.rights p) 4 == 0)

-- `destination_slot->rights = new_rights` of a byte.
abbrev pub minted : ℕ → ℕ → Outcome → Outcome
minted destination new_rights (ok _, s) = (ok tt, set_rights s destination (new_rights % 256))
minted destination new_rights (err e, s) = (err e, s)

pub transfer : Slots → Transfer → ℕ → ℕ → ℕ → Outcome
transfer s Transfer.move new_rights destination source =
    convert_kernel (try_move_capability_slot s destination source)
transfer s Transfer.copy new_rights destination source =
    if may_copy s source
    then convert_kernel (try_copy_capability_slot s destination source)
    else (err permission_denied, s)
transfer s Transfer.mint new_rights destination source =
    if may_copy s source && (bit_and (s.rights source) new_rights == new_rights)
    then minted destination new_rights
        (convert_kernel (try_copy_capability_slot s destination source))
    else (err permission_denied, s)

-- DESTINATION_INDEX, SOURCE_DESCRIPTOR and NEW_RIGHTS are the registers 2, 3 and 4.
pub operation_transfer :
    (ℕ → Option ℕ) → (ℕ → Result ℕ LookupError) → Node → Slots → ℕ → Transfer → Outcome
unfolding transfer
operation_transfer register traverse node s self operation =
    if may_use s self
    then elim (retrieve_slot node (register_or_zero register 2)) [
      | err e ↦ (err (convert_lookup_to_capability_error e), s)
      | ok destination ↦ elim (traverse (register_or_zero register 3)) [
        | err e ↦ (err (convert_lookup_to_capability_error e), s)
        | ok source ↦ transfer s operation (register_or_zero register 4) destination source
      ]
    ]
    else (err illegal_operation, s)

pub operation_demote : (ℕ → Option ℕ) → Node → Slots → ℕ → Outcome
operation_demote register node s self =
    let new_rights = register_or_zero register 4 in
    if not (bit_and (s.rights self) 2 == 0)
    then elim (retrieve_slot node (register_or_zero register 2)) [
      | err e ↦ (err (convert_lookup_to_capability_error e), s)
      | ok target ↦
          if bit_and (s.rights target) new_rights == new_rights
          then (ok tt, set_rights s target (new_rights % 256))
          else (err permission_denied, s)
    ]
    else (err illegal_operation, s)
