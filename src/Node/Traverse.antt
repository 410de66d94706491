-- ===== src/Node/Traverse.antt =====
-- kernel/capability/capability_node.cpp: the traversal of a descriptor through nodes, `traverse_slot`, and
-- `extract_depth` of kernel/types.hpp. The class of a slot's component is the one that the slot's type
-- names; every component but a node answers TERMINAL.
pub mod Path
mod Examples
use a9n.Base.{ℕ, zero, suc, ◌+◌, ◌/◌, ◌%◌, ◌^◌, Bool, true, false, Option, none, some, ◌==◌}
use a9n.Base.Result.{Result, ok, err}
use a9n.CapabilityTypes.{LookupError, type_code, terminal, empty}
use a9n.Node.{Node, calculate_used_bits, lookup_slot}
use a9n.Slot.{Slots}

-- The depth is the first byte, without the byte itself.
pub extract_depth : ℕ → ℕ
extract_depth descriptor = descriptor / 2 ^ 56 % 256 + 8

-- `none` is an end of fuel, which each node takes one of.
pub traverse_slot : ℕ → (ℕ → Node) → Slots → ℕ → ℕ → ℕ → ℕ → Option (Result ℕ LookupError)
traverse_slot zero nodes s n descriptor max_bits used_bits = none
traverse_slot (suc fuel) nodes s n descriptor max_bits used_bits =
    let new_used_bits = calculate_used_bits (nodes n) used_bits in
    elim (lookup_slot (nodes n) descriptor used_bits) [
      | err e ↦ some (err e)
      | ok slot ↦ elim (new_used_bits == max_bits) [
        | true ↦ some (ok slot)
        | false ↦ elim (s.component slot) [
          | none ↦ some (err empty)
          | some c ↦ elim (type_code (s.type slot) == 2) [
            | true ↦ traverse_slot fuel nodes s c descriptor max_bits new_used_bits
            | false ↦ some (err terminal)
          ]
        ]
      ]
    ]

-- `traverse_slot(descriptor, extract_depth(descriptor), BYTE_BITS)` of the node `root`.
pub traverse_from : ℕ → (ℕ → Node) → Slots → ℕ → ℕ → Option (Result ℕ LookupError)
unfolding extract_depth traverse_slot
traverse_from fuel nodes s root descriptor =
    traverse_slot fuel nodes s root descriptor (extract_depth descriptor) 8
