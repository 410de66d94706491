-- ===== src/Reclamation/Examples.antt =====
-- A chain of four slots: a Generic 1, a Generic 2 derived from it, a frame 3 derived from that, and a
-- Generic 4 beside 1.
use a9n.Base.{
  ◌≡◌, ◌<◌, ◌^◌, ℕ, refl, true, false, none, some, [], ◌∷◌, ◌++◌, arith, write, List, elem, inl,
  inr, Bool-cases, ==_iff, ◌==◌, subst, Bool,
}
use a9n.Base.Result.{ok}
use a9n.CapabilityTypes.{CapabilityType, SlotData}
use a9n.Slot.{Slots, set_local, is_peer, is_deeper}
use a9n.Slot.Alias.{beyond}
use a9n.Slot.Chain.{Chain}
use a9n.Dll.{front}
use a9n.Reclamation.{Objects, revoke_slot, remove_slot}
use a9n.Reclamation.Dropped.{Dropped}
use a9n.Reclamation.Grouped.{Grouped}
use a9n.Reclamation.Revoke.{IsLocal, Quiet}
use a9n.Reclamation.Revoked.{Revoked, revoke_slot-Revoked, remove_slot-Dropped}
use a9n.Generic.{
  GenericInfo, create_generic_info, dump_slot_data, reset, revoke, try_apply_allocate,
  apply_allocate,
}
use a9n.Generic.Allocation.{
  Allocated, try_apply_allocate-Allocated, try_apply_allocate-wraps,
  create_generic_info-dump_slot_data,
}
use a9n.Calculate.{align_value}
use a9n.Generic.Conversion.{make_generic, make_generic-detaches}
use a9n.Generic.Teardown.{Torn, revoke-Torn}

abbrev region : SlotData
region = record { word_0 = 65536; word_1 = 16; word_2 = 69632 }

abbrev slots : Slots
slots = record {
  component = λ q. some 100;
  type = write (λ q. CapabilityType.generic) 3 CapabilityType.frame;
  rights = λ q. 3;
  reclaiming = λ q. false;
  local = λ q. region;
  next_slot = write (write (write (λ q. none) 1 (some 2)) 2 (some 3)) 3 (some 4);
  preview_slot = write (write (write (λ q. none) 2 (some 1)) 3 (some 2)) 4 (some 3);
  depth = write (write (λ q. 0) 2 1) 3 2;
}

slots-Chain : Chain slots (1 ∷ 2 ∷ 3 ∷ 4 ∷ [])
slots-Chain = record {
  links = (refl, refl, (refl, refl, (refl, refl, (refl, refl, tt))));
  distinct = (refl, (refl, (refl, (refl, tt))));
}

-- Objects that go back to the base of their region.
abbrev objects : Objects (Unit {0})
objects = record {
  revoke =
      λ s o p. (true, set_local s p (dump_slot_data (reset (create_generic_info (s.local p)))), o);
  is_reclaiming = λ s o p. false;
}

abbrev any_type : CapabilityType → Bool
any_type t = true

objects-IsLocal : IsLocal objects any_type
objects-IsLocal = record {
  revokes = λ s o p l n. (dump_slot_data (reset (create_generic_info (s.local p))), o, refl);
}

slots-Quiet : (q : ℕ) → Quiet any_type slots q
slots-Quiet q = record { idle = refl; of_leaf = refl }

apart_2 : (q : ℕ) → elem q (3 ∷ 4 ∷ []) ≡ true → is_peer slots 2 q ≡ false
apart_2 q m = elim (Bool-cases (3 == q)) [
  | inl e ↦ subst (λ (k : ℕ). is_peer slots 2 k ≡ false) ((==_iff 3 q).0 e) refl
  | inr ne ↦
      subst (λ (k : ℕ). is_peer slots 2 k ≡ false) ((==_iff 4 q).0 (ground (arith, ne, m))) refl
]

apart_3 : (q : ℕ) → elem q (4 ∷ []) ≡ true → is_peer slots 3 q ≡ false
apart_3 q m = subst (λ (k : ℕ). is_peer slots 3 k ≡ false) ((==_iff 4 q).0 (ground (arith, m))) refl

slots-Grouped : Grouped slots (2 ∷ 3 ∷ 4 ∷ [])
slots-Grouped = (apart_2, (apart_3, (λ q m. absurd (ground (arith, m)), tt)))

revoke_slot-Revoked_example :
    (s' : Slots) × (o' : Unit {0}) × (revoke_slot objects 8 slots tt 2 ≡ some (ok tt, s', o'))
    × Revoked slots (1 ∷ 2 ∷ []) (3 ∷ 4 ∷ []) 2 s'
revoke_slot-Revoked_example =
    revoke_slot-Revoked objects any_type objects-IsLocal 8 slots tt (1 ∷ 2 ∷ []) (3 ∷ 4 ∷ []) 2 refl
      slots-Chain refl refl (slots-Quiet 2) slots-Grouped (λ q m. slots-Quiet q) (omega arith)

remove_slot-Dropped_example :
    (s' : Slots) × (o' : Unit {0}) × (gone : List ℕ) × (rest : List ℕ) × (remove_slot objects 9
        slots tt 2
      ≡ some (ok tt, s', o'))
    × (3 ∷ 4 ∷ [] ≡ gone ++ rest)
    × ((q : ℕ) → elem q gone ≡ true → slots.depth 2 < slots.depth q)
    × Dropped slots s' (1 ∷ []) (2 ∷ gone) rest
remove_slot-Dropped_example =
    remove_slot-Dropped objects any_type objects-IsLocal 9 slots tt (1 ∷ []) (3 ∷ 4 ∷ []) 2
      slots-Chain (slots-Quiet 2) slots-Grouped (λ q m. slots-Quiet q) (omega arith)

revoke-Torn_example :
    Torn slots 2 (is_deeper slots 2 (front (beyond slots 2 (3 ∷ 4 ∷ [])) none)) (revoke 8 slots 2)
revoke-Torn_example = revoke-Torn 8 slots (1 ∷ 2 ∷ []) (3 ∷ 4 ∷ []) 2 refl slots-Chain (omega arith)

abbrev info : GenericInfo
info = record { base_address = 65536; size_bits = 16; watermark = 69632; device = false }

try_apply_allocate-Allocated_example : Allocated info 12 (try_apply_allocate info 12)
try_apply_allocate-Allocated_example =
    try_apply_allocate-Allocated info 12
      (record {
        sized = omega arith;
        in_space = omega arith;
        above = omega arith;
        inside = omega arith;
      })
      (omega arith)

try_apply_allocate-wraps_example :
    try_apply_allocate info 63 ≡ (ok (2 ^ 63), record info { watermark = 0 })
try_apply_allocate-wraps_example = try_apply_allocate-wraps info (omega arith) (omega arith)

dump_slot_data_example : create_generic_info (dump_slot_data info) ≡ info
dump_slot_data_example = create_generic_info-dump_slot_data info (omega arith)

abbrev info_left : GenericInfo
info_left = record { base_address = 65536; size_bits = 16; watermark = 73728; device = false }

make_generic-detaches_example :
    (s' : Slots) × (make_generic 100 8 slots 2 5 info 12 ≡ some (ok tt, s'))
    × (s'.next_slot 2 ≡ some 5)
    × (s'.next_slot 5 ≡ none)
    × (s'.preview_slot 2 ≡ none)
    × (s'.depth 2 ≡ 0)
unfolding try_apply_allocate apply_allocate align_value
make_generic-detaches_example =
    make_generic-detaches 100 7 slots 2 5 info 12 (λ e. omega (arith, e)) info_left 69632 refl
