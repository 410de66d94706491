-- ===== src/Node/Reclaim.antt =====
-- kernel/capability/capability_node.cpp: REVOKE and REMOVE, the dispatch of a node's operations, and the
-- teardown of a node. The nodes in teardown (active_node_reclamations) stand before the state `O` of
-- the other objects.
use a9n.Base.{
  ℕ, zero, suc, ◌^◌, Bool, not, ◌||◌, Option, none, some, List, ◌∷◌, elem, is_some, ◌==◌,
  if◌then◌else◌,
}
use a9n.Base.Result.{Result, ok, err}
use a9n.CapabilityTypes.{
  CapabilityError, LookupError, is_none, illegal_operation, permission_denied, invalid_descriptor,
  fatal,
}
use a9n.Node.{
  Node, Transfer, retrieve_slot, register_or_zero, may_use, operation_transfer, operation_demote,
  convert_lookup_to_capability_error,
}
use a9n.Reclamation.{Objects, unlink_and_clear_slot, revoke_slot, remove_slot}
use a9n.Reclamation as Reclamation
use a9n.Slot.{Slots, is_same_object}

-- The nodes in teardown, and the objects.
abbrev pub Scopes : Type 0 → Type 0
Scopes O = List ℕ × O

abbrev pub Outcome : Type 0 → Type 0
Outcome O = Result (Unit {0}) CapabilityError × Slots × Scopes O

abbrev pub convert_outcome : {O : Type 0} → Reclamation.Outcome (Scopes O) → Outcome O
convert_outcome (ok _, s, o) = (ok tt, s, o)
convert_outcome (err e, s, o) = (err fatal, s, o)

abbrev pub convert_all : {O : Type 0} → Option (Reclamation.Outcome (Scopes O)) → Option (Outcome O)
convert_all none = none
convert_all (some out) = some (convert_outcome out)

-- The destructor of `node_reclamation_scope`.
abbrev pub leave_scope : {O : Type 0} → List ℕ → Option (Outcome O) → Option (Outcome O)
leave_scope active none = none
leave_scope active (some (r, s, (_, o))) = some (r, s, (active, o))

module _ {O : Type 0} (objects : Objects (Scopes O)) where
  pub is_reclaiming : ℕ → Scopes O → Bool
  is_reclaiming this (active, o) = elem this active

  -- One slot of the node; `self` is the slot that the teardown goes through.
  revoke_one : ℕ → ℕ → ℕ → Slots → Scopes O → Option (Reclamation.Outcome (Scopes O))
  revoke_one fuel self slot s o =
      if slot == self
      then some (ok tt, s, o)
      else if is_same_object s slot self
      then some (ok tt, unlink_and_clear_slot s slot, o)
      else if is_none (s.type slot)
      then some (ok tt, s, o)
      else remove_slot objects fuel s o slot

  -- `for (a9n::word i = 0; …)`, over the slots left.
  revoke_remaining : ℕ → ℕ → ℕ → ℕ → Slots → Scopes O → Option (Outcome O)
  unfolding revoke_one
  revoke_remaining fuel self zero slot s o = some (ok tt, s, o)
  revoke_remaining fuel self (suc n) slot s o = elim (revoke_one fuel self slot s o) [
    | none ↦ none
    | some (ok _, s1, o1) ↦ revoke_remaining fuel self n (suc slot) s1 o1
    | some (err e, s1, o1) ↦ some (err illegal_operation, s1, o1)
  ]

  -- In a scope of its own.
  revoke_slots : ℕ → ℕ → Node → ℕ → Slots → Scopes O → Option (Outcome O)
  unfolding revoke_remaining
  revoke_slots fuel this node self s (active, o) = elim (node.capability_slots) [
    | none ↦ some (err illegal_operation, s, (active, o))
    | some base ↦
        leave_scope active
          (revoke_remaining fuel self (2 ^ node.radix_bits) base s (this ∷ active, o))
  ]

  pub revoke : ℕ → ℕ → Node → ℕ → Slots → Scopes O → Option (Outcome O)
  unfolding is_reclaiming revoke_slots
  revoke fuel this node self s o =
      if is_reclaiming this o then some (ok tt, s, o) else revoke_slots fuel this node self s o

  module _ (register : ℕ → Option ℕ) (node : Node) where
    -- A slot of the node that another operation than REMOVE may act on.
    revoke_target : ℕ → Slots → Scopes O → ℕ → Option (Outcome O)
    revoke_target fuel s o target =
        if is_none (s.type target) || not (is_some (s.component target))
        then some (err invalid_descriptor, s, o)
        else if not (may_use s target)
        then some (err permission_denied, s, o)
        else convert_all (revoke_slot objects fuel s o target)

    -- DESTINATION_INDEX is the register 2.
    abbrev pub on_target : (ℕ → Option (Outcome O)) → Slots → Scopes O → ℕ → Option (Outcome O)
    on_target act s o self =
        if not (may_use s self)
        then some (err permission_denied, s, o)
        else elim (retrieve_slot node (register_or_zero register 2)) [
          | err e ↦ some (err (convert_lookup_to_capability_error e), s, o)
          | ok target ↦ act target
        ]

    pub operation_revoke : ℕ → Slots → Scopes O → ℕ → Option (Outcome O)
    unfolding revoke_target
    operation_revoke fuel s o self = on_target (revoke_target fuel s o) s o self

    pub operation_remove : ℕ → Slots → Scopes O → ℕ → Option (Outcome O)
    operation_remove fuel s o self =
        on_target (λ target. convert_all (remove_slot objects fuel s o target)) s o self

    abbrev pub with_objects :
        Result (Unit {0}) CapabilityError × Slots → Scopes O → Option (Outcome O)
    with_objects (r, s) o = some (r, s, o)

    -- By the operation of the register 1.
    pub execute : (ℕ → Result ℕ LookupError) → ℕ → Slots → Scopes O → ℕ → Option (Outcome O)
    execute traverse fuel s o self =
        let operation = register_or_zero register 1 in
        if operation == 1
        then with_objects (operation_transfer register traverse node s self Transfer.copy) o
        else if operation == 2
        then with_objects (operation_transfer register traverse node s self Transfer.move) o
        else if operation == 3
        then with_objects (operation_transfer register traverse node s self Transfer.mint) o
        else if operation == 4
        then with_objects (operation_demote register node s self) o
        else if operation == 5
        then operation_revoke fuel s o self
        else if operation == 6
        then operation_remove fuel s o self
        else some (err illegal_operation, s, o)
