-- ===== src/Slot.antt =====
-- kernel/capability/capability_component.hpp: capability slots and the dependency chain through them. A slot is
-- an address, and each field is a map from addresses. The class of a slot's component, which the
-- virtual `is_same_object` dispatches on, is the one that the slot's type names.
pub mod Chain
pub mod Copy
pub mod Move
mod Examples
pub mod Alias
pub mod Alike
pub mod Unlink
pub mod Rights
use a9n.Base.{
  ℕ, zero, suc, ◌+◌, ◌%◌, Bool, true, false, not, ◌&&◌, ◌||◌, Option, none, some, ltb, ◌==◌,
  if◌then◌else◌, is_some, same_pointer, write,
}
use a9n.CapabilityTypes.{CapabilityType, SlotData, type_code, is_none, zero_data}
use a9n.Base.Result.{Result, ok, err, KernelError, init_first}

pub record Slots : Type 0 where
  pub component : ℕ → Option ℕ
  pub type : ℕ → CapabilityType
  pub rights : ℕ → ℕ
  pub reclaiming : ℕ → Bool
  pub local : ℕ → SlotData
  pub next_slot : ℕ → Option ℕ
  pub preview_slot : ℕ → Option ℕ
  pub depth : ℕ → ℕ

abbrev pub set_next : Slots → ℕ → Option ℕ → Slots
set_next s p v = record s { next_slot = write s.next_slot p v }

abbrev pub set_preview : Slots → ℕ → Option ℕ → Slots
set_preview s p v = record s { preview_slot = write s.preview_slot p v }

abbrev pub set_depth : Slots → ℕ → ℕ → Slots
set_depth s p v = record s { depth = write s.depth p v }

abbrev pub set_local : Slots → ℕ → SlotData → Slots
set_local s p v = record s { local = write s.local p v }

abbrev pub set_rights : Slots → ℕ → ℕ → Slots
set_rights s p v = record s { rights = write s.rights p v }

abbrev pub set_reclaiming : Slots → ℕ → Bool → Slots
set_reclaiming s p v = record s { reclaiming = write s.reclaiming p v }

unfoldable pub init : Slots → ℕ → Slots
init s p = record {
  component = write s.component p none;
  type = write s.type p CapabilityType.none;
  rights = write s.rights p 0;
  reclaiming = write s.reclaiming p false;
  local = write s.local p zero_data;
  next_slot = write s.next_slot p none;
  preview_slot = write s.preview_slot p none;
  depth = write s.depth p 0;
}

pub remove_from_dependency_node : Slots → ℕ → Slots
remove_from_dependency_node s p =
    let s1 : Slots = elim (s.preview_slot p) [ some q ↦ set_next s q (s.next_slot p) | none ↦ s ] in
    elim (s1.next_slot p) [ some t ↦ set_preview s1 t (s1.preview_slot p) | none ↦ s1 ]

-- The overrides of `capability_component::is_same_object`, by the class of the component.
pub component_is_same_object : Slots → CapabilityType → ℕ → ℕ → Bool
component_is_same_object s CapabilityType.generic p q =
    ((s.local p).word_0 == (s.local q).word_0)
    && ((s.local p).word_1 % 128 == (s.local q).word_1 % 128)
component_is_same_object s CapabilityType.address_space p q =
    (s.local p).word_0 == (s.local q).word_0
component_is_same_object s CapabilityType.page_table p q =
    ((s.local p).word_0 == (s.local q).word_0)
    && ((s.local p).word_1 % 256 == (s.local q).word_1 % 256)
component_is_same_object s CapabilityType.frame p q =
    ((s.local p).word_0 == (s.local q).word_0) && ((s.local p).word_2 == (s.local q).word_2)
component_is_same_object s CapabilityType.interrupt_port p q =
    (s.local p).word_0 == (s.local q).word_0
component_is_same_object s CapabilityType.io_port p q =
    ((s.local p).word_0 == (s.local q).word_0) && ((s.local p).word_1 == (s.local q).word_1)
component_is_same_object s _ p q = same_pointer (s.component p) (s.component q)

pub is_same_object : Slots → ℕ → ℕ → Bool
is_same_object s p q =
    if is_none (s.type p)
      || not (type_code (s.type p) == type_code (s.type q))
      || not (is_some (s.component p))
      || not (same_pointer (s.component p) (s.component q))
    then false
    else component_is_same_object s (s.type p) p q

abbrev pub is_peer : Slots → ℕ → ℕ → Bool
is_peer s p q = (s.depth q == s.depth p) && is_same_object s p q

-- The `while` loop of `last_alias_in_group`, from the alias `last` on.
pub last_alias : ℕ → Slots → ℕ → ℕ → Option ℕ
last_alias zero s p last = none
last_alias (suc fuel) s p last = elim (s.next_slot last) [
  | none ↦ some last
  | some q ↦ let further = last_alias fuel s p q in if is_peer s p q then further else some last
]

abbrev pub last_alias_in_group : ℕ → Slots → ℕ → Option ℕ
last_alias_in_group fuel s p = last_alias fuel s p p

abbrev pub is_deeper : Slots → ℕ → Option ℕ → Bool
is_deeper s p none = false
is_deeper s p (some q) = ltb (s.depth p) (s.depth q)

pub has_child : ℕ → Slots → ℕ → Option Bool
has_child fuel s p = elim (last_alias_in_group fuel s p) [
  | some last ↦ some (is_deeper s p (s.next_slot last))
  | none ↦ none
]

abbrev pub is_sibling : Slots → ℕ → Option ℕ → Bool
is_sibling s p none = false
is_sibling s p (some q) = (s.depth p == s.depth q) && is_same_object s p q

pub has_sibling : Slots → ℕ → Bool
has_sibling s p = is_sibling s p (s.next_slot p) || is_sibling s p (s.preview_slot p)

pub insert : Slots → ℕ → ℕ → Slots
insert s p slot =
    let temp_next_slot = s.next_slot p in
    let s1 = set_next (set_preview (set_next s p (some slot)) slot (some p)) slot temp_next_slot in
    elim temp_next_slot [ none ↦ s1 | some t ↦ set_preview s1 t (some slot) ]

pub insert_child : ℕ → Slots → ℕ → ℕ → Option Slots
unfolding insert
insert_child fuel s p child =
    let s1 = set_depth s child (s.depth p + 1) in
    elim (last_alias_in_group fuel s1 p) [ some last ↦ some (insert s1 last child) | none ↦ none ]

pub insert_sibling : Slots → ℕ → ℕ → Slots
insert_sibling s p sibling = insert (set_depth s sibling (s.depth p)) p sibling

-- `destination.type = source.type` and so on, for type, data, component and rights.
pub copy_content : Slots → ℕ → ℕ → Slots
copy_content s destination source = record s {
  type = write s.type destination (s.type source);
  local = write s.local destination (s.local source);
  component = write s.component destination (s.component source);
  rights = write s.rights destination (s.rights source);
}

-- The dependency node of `source`, taken over by `destination`.
pub take_over : Slots → ℕ → ℕ → Slots
take_over s destination source =
    let s1 =
      set_preview
        (set_next (set_depth s destination (s.depth source)) destination (s.next_slot source))
        destination (s.preview_slot source) in
    let s2 : Slots = elim (s1.preview_slot destination) [
      | some q ↦ set_next s1 q (some destination)
      | none ↦ s1
    ] in
    elim (s2.next_slot destination) [ some t ↦ set_preview s2 t (some destination) | none ↦ s2 ]

pub try_move_capability_slot : Slots → ℕ → ℕ → Result (Unit {0}) KernelError × Slots
try_move_capability_slot s destination source =
    if is_none (s.type destination)
    then (
      ok tt,
      init (take_over (copy_content (init s destination) destination source) destination source)
          source,
    )
    else (err init_first, s)

pub try_copy_capability_slot : Slots → ℕ → ℕ → Result (Unit {0}) KernelError × Slots
try_copy_capability_slot s destination source =
    if is_none (s.type destination)
    then (
      ok tt,
      insert_sibling (copy_content (init s destination) destination source) source destination,
    )
    else (err init_first, s)
