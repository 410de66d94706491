-- ===== src/Reclamation.antt =====
-- kernel/capability/capability_node_reclamation.cpp: revocation and removal of capability slots. The
-- objects behind the slots are an interface: the virtual `revoke` and `is_reclaiming` of
-- `capability_component`, over an object state `O` of their own.
pub mod Dropped
pub mod Grouped
pub mod Groups
pub mod Revoke
mod Examples
pub mod Revoked
pub mod Loop
pub mod Remove
use a9n.Base.{ℕ, zero, suc, Bool, true, false, not, ◌||◌, Option, none, some, ltb, is_some}
use a9n.Base.Result.{Result, ok, err, KernelError, illegal_argument, unexpected}
use a9n.CapabilityTypes.{is_none}
use a9n.Slot.{
  Slots, init, remove_from_dependency_node, set_reclaiming, last_alias_in_group, has_sibling,
}

pub record Objects (O : Type 0) : Type 0 where
  -- `slot.component->revoke(slot)`, with whether it succeeded.
  pub revoke : Slots → O → ℕ → Bool × Slots × O
  -- `component->is_reclaiming()` of the component of a slot.
  pub is_reclaiming : Slots → O → ℕ → Bool

abbrev pub Outcome : Type 0 → Type 0
Outcome O = Result (Unit {0}) KernelError × Slots × O

pub unlink_and_clear_slot : Slots → ℕ → Slots
unlink_and_clear_slot s p = init (remove_from_dependency_node s p) p

-- The destructor of `reclamation_guard`.
abbrev pub unguard : {O : Type 0} → ℕ → Outcome O → Outcome O
unguard p (r, s, o) = (r, set_reclaiming s p false, o)

-- `if (!slot.component->revoke(slot)) return UNEXPECTED;`.
abbrev pub finish : {O : Type 0} → Bool × Slots × O → Outcome O
finish (true, s, o) = (ok tt, s, o)
finish (false, s, o) = (err unexpected, s, o)

-- The outcome of `remove_slot` from that of its call of `revoke_slot`.
abbrev pub unlink_revoked : {O : Type 0} → ℕ → Outcome O → Outcome O
unlink_revoked p (ok _, s, o) = (ok tt, unlink_and_clear_slot s p, o)
unlink_revoked p (err e, s, o) = (err unexpected, s, o)

module _ {O : Type 0} (objects : Objects O) where
  mutual
    -- All three run on one fuel: `none` is an end of fuel.
    pub revoke_slot : ℕ → Slots → O → ℕ → Option (Outcome O)
    revoke_slot zero s o p = none
    revoke_slot (suc fuel) s o p =
        elim (is_none (s.type p) || not (is_some (s.component p)) || s.reclaiming p) [
          | true ↦ some (err illegal_argument, s, o)
          | false ↦
              let s1 = set_reclaiming s p true in
              elim (last_alias_in_group fuel s1 p) [
                | none ↦ none
                | some last ↦ elim (remove_children fuel s1 o p last) [
                  | none ↦ none
                  | some (ok _, s2, o2) ↦ some (unguard p (finish (objects.revoke s2 o2 p)))
                  | some (err e, s2, o2) ↦ some (unguard p (err e, s2, o2))
                ]
              ]
        ]

    -- `while (last_alias->next_slot && last_alias->next_slot->depth > slot.depth)`.
    pub remove_children : ℕ → Slots → O → ℕ → ℕ → Option (Outcome O)
    remove_children zero s o p last = none
    remove_children (suc fuel) s o p last = elim (s.next_slot last) [
      | none ↦ some (ok tt, s, o)
      | some child ↦ elim (ltb (s.depth p) (s.depth child)) [
        | false ↦ some (ok tt, s, o)
        | true ↦ elim (remove_slot fuel s o child) [
          | none ↦ none
          | some (ok _, s1, o1) ↦ remove_children fuel s1 o1 p last
          | some (err e, s1, o1) ↦ some (err e, s1, o1)
        ]
      ]
    ]

    pub remove_slot : ℕ → Slots → O → ℕ → Option (Outcome O)
    remove_slot zero s o p = none
    remove_slot (suc fuel) s o p = elim (s.reclaiming p) [
      | true ↦ elim (is_some (s.component p)) [
        | false ↦ some (err illegal_argument, s, o)
        | true ↦ elim (objects.is_reclaiming s o p) [
          | false ↦ some (err illegal_argument, s, o)
          | true ↦ some (ok tt, unlink_and_clear_slot s p, o)
        ]
      ]
      | false ↦ elim (is_none (s.type p) || has_sibling s p || not (is_some (s.component p))) [
        | true ↦ some (ok tt, unlink_and_clear_slot s p, o)
        | false ↦ elim (revoke_slot fuel s o p) [ none ↦ none | some r ↦ some (unlink_revoked p r) ]
      ]
    ]
