-- ===== src/Slot/Rights.antt =====
-- The rights after `try_copy_capability_slot` and `try_move_capability_slot`, on any slots.
use a9n.Base.{ℕ, ◌≡◌, ◌≢◌, refl, true, false, arith}
use a9n.Base.Result.{ok, err, init_first}
use a9n.CapabilityTypes.{is_none}
use a9n.Slot.{
  Slots, init, insert_sibling, copy_content, take_over, set_depth, try_copy_capability_slot,
  try_move_capability_slot,
}
use a9n.Slot.Chain.{insert-Content}

module _ (s : Slots) (d p : ℕ) (apart : d ≢ p) (free : is_none (s.type d) ≡ true) where
  pub try_copy-rights : (try_copy_capability_slot s d p).1.rights d ≡ s.rights p
  unfolding try_copy_capability_slot insert_sibling copy_content init
  try_copy-rights =
      let t = copy_content (init s d) d p in
      let same = (insert-Content (set_depth t d (t.depth p)) p d).rights in
      rw (free, same) (ground (arith, apart))

  pub try_move-rights : (try_move_capability_slot s d p).1.rights d ≡ s.rights p
  unfolding try_move_capability_slot take_over copy_content init
  try_move-rights = rw free (ground (arith, apart))

  pub try_copy-rights_other :
      (q : ℕ) → d ≢ q → (try_copy_capability_slot s d p).1.rights q ≡ s.rights q
  unfolding try_copy_capability_slot insert_sibling copy_content init
  try_copy-rights_other q ne =
      let t = copy_content (init s d) d p in
      let same = (insert-Content (set_depth t d (t.depth p)) p d).rights in
      rw (free, same) (ground (arith, apart))

  pub try_move-rights_other :
      (q : ℕ) → d ≢ q → p ≢ q → (try_move_capability_slot s d p).1.rights q ≡ s.rights q
  unfolding try_move_capability_slot take_over copy_content init
  try_move-rights_other q ne ne' = rw free (ground (arith, apart))

module _ (s : Slots) (d p : ℕ) where
  pub try_copy-runs :
      is_none (s.type d) ≡ true
      → try_copy_capability_slot s d p ≡ (ok tt, (try_copy_capability_slot s d p).1)
  unfolding try_copy_capability_slot
  try_copy-runs free = rw free refl

  pub try_move-runs :
      is_none (s.type d) ≡ true
      → try_move_capability_slot s d p ≡ (ok tt, (try_move_capability_slot s d p).1)
  unfolding try_move_capability_slot
  try_move-runs free = rw free refl

  pub try_copy-occupied :
      is_none (s.type d) ≡ false → try_copy_capability_slot s d p ≡ (err init_first, s)
  unfolding try_copy_capability_slot
  try_copy-occupied taken = rw taken refl

  pub try_move-occupied :
      is_none (s.type d) ≡ false → try_move_capability_slot s d p ≡ (err init_first, s)
  unfolding try_move_capability_slot
  try_move-occupied taken = rw taken refl
