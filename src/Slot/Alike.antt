-- ===== src/Slot/Alike.antt =====
-- When two slots are aliases: what `is_same_object` of capability_component.hpp reads.
use a9n.Base.{
  ◌+◌, ℕ, ◌≡◌, refl, ◌∙◌, true, false, some, none, arith, suc, zero, ◌≢◌, inl, inr, Option-cases,
}
use a9n.CapabilityTypes.{CapabilityType}
use a9n.Slot.{
  insert, insert_child, set_depth, Slots, is_peer, is_same_object, component_is_same_object,
  is_deeper, last_alias, has_child, has_sibling,
}
use a9n.Slot.Unlink.{Kept}

-- The fields that tell the object of a slot, and its depth, are the same.
pub record Alike (s s' : Slots) (q : ℕ) : Type 0 where
  pub component : s'.component q ≡ s.component q
  pub type : s'.type q ≡ s.type q
  pub local : s'.local q ≡ s.local q
  pub depth : s'.depth q ≡ s.depth q

pub Kept-Alike : {s s' : Slots} {q : ℕ} → Kept s s' q → Alike s s' q
Kept-Alike k = record { component = k.component; type = k.type; local = k.local; depth = k.depth }

pub Alike-trans : {s t u : Slots} {q : ℕ} → Alike s t q → Alike t u q → Alike s u q
Alike-trans a b = record {
  component = b.component ∙ a.component;
  type = b.type ∙ a.type;
  local = b.local ∙ a.local;
  depth = b.depth ∙ a.depth;
}

module _ (s s' : Slots) (p q : ℕ) (a : Alike s s' p) (b : Alike s s' q) where
  component-Alike :
      (t : CapabilityType) → component_is_same_object s' t p q ≡ component_is_same_object s t p q
  unfolding component_is_same_object
  component-Alike CapabilityType.generic = rw (a.local, b.local) refl
  component-Alike CapabilityType.address_space = rw (a.local, b.local) refl
  component-Alike CapabilityType.page_table = rw (a.local, b.local) refl
  component-Alike CapabilityType.frame = rw (a.local, b.local) refl
  component-Alike CapabilityType.interrupt_port = rw (a.local, b.local) refl
  component-Alike CapabilityType.io_port = rw (a.local, b.local) refl
  component-Alike _ = rw (a.component, b.component) refl

  pub is_peer-Alike : is_peer s' p q ≡ is_peer s p q
  unfolding is_same_object
  is_peer-Alike =
      rw
        (
          a.depth,
          b.depth,
          is_same_object,
          a.type,
          b.type,
          a.component,
          b.component,
          component-Alike (s.type p),
        )
        refl

-- A slot with no peer behind it is the last of its group.
module _ (s : Slots) (p : ℕ)
    (alone : (q : ℕ) → s.next_slot p ≡ some q → is_peer s p q ≡ false) where
  pub last_alias_alone : (fuel : ℕ) → last_alias (suc fuel) s p p ≡ some p
  unfolding last_alias
  last_alias_alone fuel = elim (Option-cases (s.next_slot p)) [
    | inl e ↦ rw (e, last_alias) refl
    | inr (q, e) ↦ rw (e, last_alias, alone q e) refl
  ]

  pub has_child_alone :
      (fuel : ℕ) → is_deeper s p (s.next_slot p) ≡ false → has_child fuel s p ≢ some true
  unfolding has_child last_alias
  has_child_alone zero off e = ground arith
  has_child_alone (suc fuel) off e =
      let found = last_alias_alone fuel in
      let h : has_child (suc fuel) s p ≡ some false = rw (found, has_child, off) refl in
      ground arith

pub has_sibling-next :
    (s : Slots) (p q : ℕ) → has_sibling s p ≡ false → s.next_slot p ≡ some q → is_peer s p q ≡ false
unfolding has_sibling
has_sibling-next s p q h e = ground arith

-- A child of a slot that ends its chain stands right behind it.
pub insert_child_alone :
    (fuel : ℕ) (s : Slots) (p c : ℕ)
    → s.next_slot p ≡ none
    → insert_child (suc fuel) s p c ≡ some (insert (set_depth s c (s.depth p + 1)) p c)
unfolding insert_child
insert_child_alone fuel s p c e =
    let found =
      last_alias_alone (set_depth s c (s.depth p + 1)) p (λ q h. ground (arith, e, h)) fuel in
    rw (found, insert_child) refl
