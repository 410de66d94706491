-- ===== src/Node/Examples.antt =====
-- A node of four slots at the addresses 10 to 13, whose slot 10 holds a capability with all rights.
use a9n.Base.{ℕ, refl, Option, none, some, arith, write, false}
use a9n.Base.Result.{Result, ok}
use a9n.CapabilityTypes.{CapabilityType, LookupError, zero_data}
use a9n.Slot.{Slots}
use a9n.Node.{Node, Transfer, operation_transfer, operation_demote, retrieve_slot}
use a9n.Node.Rights.{Attenuated, operation_transfer-Attenuated, operation_demote-Attenuated}

abbrev node : Node
node = record { ignore_bits = 0; radix_bits = 2; capability_slots = some 10 }

abbrev slots : Slots
slots = record {
  component = write (λ q. none) 10 (some 100);
  type = write (λ q. CapabilityType.none) 10 CapabilityType.ipc_port;
  rights = write (λ q. 0) 10 15;
  reclaiming = λ q. false;
  local = λ q. zero_data;
  next_slot = λ q. none;
  preview_slot = λ q. none;
  depth = λ q. 0;
}

-- DESTINATION_INDEX 1, and NEW_RIGHTS 5.
abbrev register : ℕ → Option ℕ
register = write (write (λ i. some 0) 2 (some 1)) 4 (some 5)

abbrev traverse : ℕ → Result ℕ LookupError
traverse descriptor = ok 10

operation_transfer-Attenuated_example :
    Attenuated slots 11 10 (operation_transfer register traverse node slots 10 Transfer.mint)
unfolding retrieve_slot
operation_transfer-Attenuated_example =
    operation_transfer-Attenuated slots 11 10 (λ e. omega (arith, e)) register traverse node 10
      Transfer.mint refl refl (omega arith)

operation_demote-Attenuated_example :
    Attenuated slots 11 11 (operation_demote register node slots 10)
unfolding retrieve_slot
operation_demote-Attenuated_example =
    operation_demote-Attenuated register node slots 10 11 refl (omega arith)
