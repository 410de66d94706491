-- ===== src/Generic/Teardown.antt =====
-- `generic::revoke` on a dependency chain: the guard against a reset below live objects.
use a9n.Base.{
  ℕ, ◌≡◌, ◌<◌, refl, true, false, Bool, Option, none, some, arith, inl, inr, Bool-cases, List, ◌++◌,
  length,
}
use native.Mathlib.Nat.{mod-lt}
use a9n.Base.Result.{Result, ok, err}
use a9n.CapabilityTypes.{SlotData, CapabilityError, illegal_operation}
use a9n.Dll.{front, back}
use a9n.Slot.{Slots, set_local, is_deeper}
use a9n.Slot.Alias.{beyond, has_child_lem}
use a9n.Slot.Chain.{Chain}
use a9n.Generic.{revoke, create_generic_info, dump_slot_data, reset, generic_flags_size_bits}
use a9n.Generic.Allocation.{create_generic_info-dump_slot_data}

-- What a revocation of a Generic may do: refuse with nothing changed, while a deeper slot stands behind
-- its alias group, or move its cursor back to the base, with no other slot changed.
pub data Torn (s : Slots) (p : ℕ) (has_derived : Bool)
    : Option (Result (Unit {0}) CapabilityError × Slots) → Type 0 where
  guarded : has_derived ≡ true → Torn s p has_derived (some (err illegal_operation, s))
  resets :
      (d : SlotData)
      → has_derived ≡ false
      → create_generic_info d ≡ reset (create_generic_info (s.local p))
      → Torn s p has_derived (some (ok tt, set_local s p d))

small_size : (d : SlotData) → (create_generic_info d).size_bits < 128
unfolding create_generic_info generic_flags_size_bits
small_size d = mod-lt (d.word_1) (omega arith)

-- On a dependency chain, with fuel for the slots behind, `generic::revoke` ends; it refuses with nothing
-- changed exactly where the slot right behind the alias group of the Generic is deeper in the chain,
-- and else moves the cursor back to the base of the region, with no other slot changed.
pub revoke-Torn :
    (fuel : ℕ) (s : Slots) (us vs : List ℕ) (p : ℕ)
    → back none us ≡ some p
    → Chain s (us ++ vs)
    → length vs < fuel
    → Torn s p (is_deeper s p (front (beyond s p vs) none)) (revoke fuel s p)
unfolding revoke
revoke-Torn fuel s us vs p e h enough =
    let found = has_child_lem fuel s us vs p e h enough in
    elim (Bool-cases (is_deeper s p (front (beyond s p vs) none))) [
      | inl deep ↦ rw (found, revoke, deep) (guarded refl)
      | inr off ↦
          rw (found, revoke, off)
            (resets (dump_slot_data (reset (create_generic_info (s.local p)))) refl (
              create_generic_info-dump_slot_data (reset (create_generic_info (s.local p)))
                (small_size (s.local p))))
    ]
