-- ===== src/Slot/Examples.antt =====
-- Slots 1 and 2 of one chain, two aliases of the object 100, with slot 3 behind them at the depth
-- below; slot 5 is empty.
use a9n.Base.{write, ◌+◌, ◌≡◌, refl, false, none, some, [], ◌∷◌, ◌++◌, arith}
use a9n.CapabilityTypes.{CapabilityType, zero_data}
use a9n.Slot.{
  Slots, try_copy_capability_slot, try_move_capability_slot, insert_child, is_same_object,
  component_is_same_object,
}
use a9n.Slot.Chain.{Chain}
use a9n.Slot.Copy.{Copied, try_copy-Copied}
use a9n.Slot.Move.{Moved, try_move-Moved}
use a9n.Slot.Alias.{insert_child_lem, peers, beyond}

abbrev slots : Slots
slots = record {
  component = write (write (write (λ q. none) 1 (some 100)) 2 (some 100)) 3 (some 101);
  type =
      write
        (write (write (λ q. CapabilityType.none) 1 CapabilityType.ipc_port) 2
          CapabilityType.ipc_port)
        3 CapabilityType.ipc_port;
  rights = λ q. 15;
  reclaiming = λ q. false;
  local = λ q. zero_data;
  next_slot = write (write (λ q. none) 1 (some 2)) 2 (some 3);
  preview_slot = write (write (λ q. none) 2 (some 1)) 3 (some 2);
  depth = write (λ q. 0) 3 1;
}

slots-Chain : Chain slots (1 ∷ 2 ∷ 3 ∷ [])
slots-Chain = record {
  links = (refl, refl, (refl, refl, (refl, refl, tt)));
  distinct = (refl, (refl, (refl, tt)));
}

try_copy-Copied_example :
    Copied slots (1 ∷ []) (2 ∷ 3 ∷ []) 5 1 (try_copy_capability_slot slots 5 1)
try_copy-Copied_example = try_copy-Copied slots (1 ∷ []) (2 ∷ 3 ∷ []) 5 1 refl slots-Chain refl

try_move-Moved_example : Moved slots (1 ∷ []) (3 ∷ []) 5 2 (try_move_capability_slot slots 5 2)
try_move-Moved_example = try_move-Moved slots (1 ∷ []) (3 ∷ []) 5 2 slots-Chain refl

insert_child_example :
    (s' : Slots) × (insert_child 8 slots 1 5 ≡ some s')
    × Chain s' ((1 ∷ [] ++ peers slots 1 (2 ∷ 3 ∷ [])) ++ 5 ∷ beyond slots 1 (2 ∷ 3 ∷ []))
    × (s'.depth 5 ≡ slots.depth 1 + 1)
insert_child_example =
    insert_child_lem 8 slots (1 ∷ []) (2 ∷ 3 ∷ []) 1 5 refl slots-Chain refl (omega arith)

aliases_run : peers slots 1 (2 ∷ 3 ∷ []) ≡ 2 ∷ []
unfolding is_same_object component_is_same_object
aliases_run = refl
