-- ===== src/Generic/Conversion.antt =====
-- The conversion of a Generic into a smaller one in generic.cpp: the GENERIC case of
-- `try_make_capability` with `try_configure_generic_slot`, and the update of the source that `convert`
-- makes after it. `generic_core` is the address of the one object of all Generics.
use a9n.Base.{ℕ, suc, ◌≡◌, ◌≢◌, refl, sym, ap, ◌∙◌, Option, none, some, arith, write, write-ne, ◌+◌}
use a9n.Base.Result.{Result, ok, err}
use a9n.CapabilityTypes.{CapabilityType}
use a9n.Slot.{Slots, init, set_local, set_depth, insert_child, insert}
use a9n.Slot.Alike.{insert_child_alone}
use a9n.Slot.Chain.{insert-next_self, insert-next_new, insert-preview, insert-Content}
use a9n.Generic.{GenericInfo, MemoryError, try_apply_allocate, dump_slot_data}

pub try_configure_generic_slot : ℕ → Slots → ℕ → GenericInfo → Slots
unfolding init
try_configure_generic_slot generic_core s p info =
    let s1 = init s p in
    record s1 {
      component = write s1.component p (some generic_core);
      type = write s1.type p CapabilityType.generic;
      rights = write s1.rights p 3;
      local = write s1.local p (dump_slot_data info);
    }

-- The new Generic's memory.
abbrev pub child_info : GenericInfo → ℕ → ℕ → GenericInfo
child_info info bits a = record {
  base_address = a;
  size_bits = bits;
  watermark = a;
  device = info.device;
}

abbrev pub configure_both : ℕ → Slots → ℕ → ℕ → GenericInfo → ℕ → ℕ → Slots
configure_both generic_core s self target info bits a =
    try_configure_generic_slot generic_core (try_configure_generic_slot generic_core s self info)
      target (child_info info bits a)

-- `.and_then` of the allocation.
make_allocated :
    ℕ
    → ℕ
    → Slots
    → ℕ
    → ℕ
    → ℕ
    → Result ℕ MemoryError × GenericInfo
    → Option (Result (Unit {0}) MemoryError × Slots)
make_allocated generic_core fuel s self target bits (err e, info) = some (err e, s)
make_allocated generic_core fuel s self target bits (ok a, info) =
    elim (insert_child fuel
      (set_local (configure_both generic_core s self target info bits a) self (dump_slot_data info))
      self target) [ some s' ↦ some (ok tt, s') | none ↦ none ]

pub make_generic :
    ℕ → ℕ → Slots → ℕ → ℕ → GenericInfo → ℕ → Option (Result (Unit {0}) MemoryError × Slots)
make_generic generic_core fuel s self target info bits =
    make_allocated generic_core fuel s self target bits (try_apply_allocate info bits)

module _ (generic_core fuel : ℕ) (s : Slots) (self target : ℕ) (info : GenericInfo) (bits : ℕ)
    (apart : self ≢ target) where
  module _ (info' : GenericInfo) (a : ℕ) where
    abbrev made : Slots
    made =
        set_local (configure_both generic_core s self target info' bits a) self
          (dump_slot_data info')

    made_next : (made.next_slot self ≡ none) × (made.next_slot target ≡ none)
    unfolding try_configure_generic_slot init
    made_next = ground (arith, apart)

    made_rest : (made.preview_slot self ≡ none) × (made.depth self ≡ 0)
    unfolding try_configure_generic_slot init
    made_rest = ground (arith, apart)

  -- A conversion that gets memory ends and succeeds, and leaves the source Generic at the head of a
  -- chain of its own, at depth 0 with the new Generic alone behind it, wherever in the dependency chain
  -- it stood before.
  pub make_generic-detaches :
      (info' : GenericInfo) (a : ℕ)
      → try_apply_allocate info bits ≡ (ok a, info')
      → (s' : Slots) × (make_generic generic_core (suc fuel) s self target info bits
          ≡ some (ok tt, s'))
        × (s'.next_slot self ≡ some target)
        × (s'.next_slot target ≡ none)
        × (s'.preview_slot self ≡ none)
        × (s'.depth self ≡ 0)
  unfolding make_generic make_allocated
  make_generic-detaches info' a e =
      let t = made info' a in
      let (end, end') = made_next info' a in
      let (first, top) = made_rest info' a in
      let t' = set_depth t target (t.depth self + 1) in
      (
        insert t' self target,
        rw (e, make_allocated, insert_child_alone fuel t self target end) refl,
        insert-next_self t' self target apart,
        insert-next_new t' self target ∙ end,
        insert-preview t' self target self (λ h. apart (sym h)) (λ h. ground (arith, end, h))
            ∙ first,
        ap (λ (f : ℕ → ℕ). f self) (insert-Content t' self target).depth
            ∙ write-ne t.depth target (t.depth self + 1) (λ h. apart (sym h))
            ∙ top,
      )
