-- ===== src/Node/Traverse/Examples.antt =====
-- Node 100 of four slots from address 10, which ignores three bits, with node 200 in slot 11, whose two
-- slots start at address 20.
use a9n.Base.{ℕ, ◌≡◌, refl, none, some, [], ◌∷◌, write, false, arith}
use a9n.Base.Result.{ok}
use a9n.CapabilityTypes.{CapabilityType, zero_data}
use a9n.Slot.{Slots}
use a9n.Node.{Node, retrieve_slot}
use a9n.Node.Traverse.{traverse_from}
use a9n.Node.Traverse.Path.{Step, last, into, descriptor, traverse_from-descriptor}

abbrev outer : Node
outer = record { ignore_bits = 3; radix_bits = 2; capability_slots = some 10 }

abbrev inner : Node
inner = record { ignore_bits = 0; radix_bits = 1; capability_slots = some 20 }

abbrev nodes : ℕ → Node
nodes = write (λ n. inner) 100 outer

abbrev slots : Slots
slots = record {
  component = write (λ q. none) 11 (some 200);
  type = write (λ q. CapabilityType.none) 11 CapabilityType.node;
  rights = λ q. 15;
  reclaiming = λ q. false;
  local = λ q. zero_data;
  next_slot = λ q. none;
  preview_slot = λ q. none;
  depth = λ q. 0;
}

-- Slot 1 of the outer node, with 5 in the ignored bits, and slot 0 of the inner.
abbrev first : Step
first = record { geometry = outer; ignored = 5; index = 1 }

abbrev second : Step
second = record { geometry = inner; ignored = 0; index = 0 }

traverse_from-descriptor_example :
    traverse_from 2 nodes slots 100 (descriptor (first ∷ second ∷ [])) ≡ some (ok 20)
unfolding retrieve_slot
traverse_from-descriptor_example =
    traverse_from-descriptor nodes slots 2 100 20 (first ∷ second ∷ [])
      (into
        (record {
          geometry = refl;
          radix = omega arith;
          ignored = omega arith;
          index = omega arith;
          found = refl;
        })
        refl refl
        (last (record {
          geometry = refl;
          radix = omega arith;
          ignored = omega arith;
          index = omega arith;
          found = refl;
        })))
      (omega arith) (omega arith)
