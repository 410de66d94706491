-- ===== src/Generic/Allocation.antt =====
-- The allocation cursor of generic.cpp: `try_apply_allocate`, and the words of a slot that hold it.
use a9n.Base.{
  ℕ, ◌+◌, ◌*◌, ◌/◌, ◌%◌, ◌^◌, ◌≤◌, ◌<◌, ◌≡◌, refl, Bool, true, false, arith, Bool-cases, inl, inr,
  ltb, if◌then◌else◌,
}
use a9n.Base.Bits.{pow-pos}
use a9n.Base.Result.{Result, ok, err}
use native.Mathlib.Nat.{mod-eq_of_lt}
use a9n.Calculate.{align_value, word_mod}
use a9n.Calculate.Bounds.{Aligned, align_value-Aligned}
use a9n.Generic.{
  GenericInfo, MemoryError, out_of_memory, apply_allocate, try_apply_allocate, end_address,
  shifted_one, serialize_generic_flags, generic_flags_size_bits, generic_flags_is_device,
  dump_slot_data, create_generic_info,
}

-- A region of the address space whose cursor stands in it.
pub record IsRegion (info : GenericInfo) : Type 0 where
  pub sized : info.size_bits < 64
  pub in_space : info.base_address + 2 ^ (info.size_bits) < word_mod
  pub above : info.base_address ≤ info.watermark
  pub inside : info.watermark ≤ info.base_address + 2 ^ (info.size_bits)

shifted_one_lem : (bits : ℕ) → 2 ^ bits < word_mod → shifted_one bits ≡ 2 ^ bits
shifted_one_lem bits small = mod-eq_of_lt small

end_address_lem :
    (info : GenericInfo)
    → IsRegion info
    → end_address info ≡ info.base_address + 2 ^ (info.size_bits)
end_address_lem info r =
    let space = r.in_space in
    let one : shifted_one (info.size_bits) ≡ 2 ^ (info.size_bits) =
      shifted_one_lem _ (omega arith) in
    rw one (mod-eq_of_lt space)

-- What an allocation may do: hand out an aligned unit between the old cursor and the new one, inside
-- the region, or, where no such unit is left, refuse with nothing changed.
pub data Allocated (info : GenericInfo) (bits : ℕ)
    : Result ℕ MemoryError × GenericInfo → Type 0 where
  allocates :
      (a : ℕ) {info' : GenericInfo}
      → Aligned (info.watermark) (2 ^ bits) a
      → a + 2 ^ bits ≤ info.base_address + 2 ^ (info.size_bits)
      → info'.watermark ≡ a + 2 ^ bits
      → info'.base_address ≡ info.base_address
      → info'.size_bits ≡ info.size_bits
      → IsRegion info'
      → Allocated info bits (ok a, info')
  refuses :
      (a : ℕ)
      → Aligned (info.watermark) (2 ^ bits) a
      → info.base_address + 2 ^ (info.size_bits) < a + 2 ^ bits
      → Allocated info bits (err out_of_memory, info)

module _ (info : GenericInfo) (bits : ℕ) (r : IsRegion info)
    (fits : info.watermark + 2 * 2 ^ bits ≤ word_mod) where
  abbrev aligned : ℕ
  aligned = align_value (info.watermark) (2 ^ bits)

  positive : 0 < 2 ^ bits
  positive = pow-pos bits

  small : shifted_one bits ≡ 2 ^ bits
  small = shifted_one_lem bits (omega (arith, positive))

  aligned_fits : Aligned (info.watermark) (2 ^ bits) aligned
  aligned_fits = align_value-Aligned (info.watermark) (2 ^ bits) positive (omega arith)

  boundary : (aligned + 2 ^ bits) % word_mod ≡ aligned + 2 ^ bits
  boundary = let near = aligned_fits.near in mod-eq_of_lt (omega arith)

  abbrev taken : GenericInfo
  taken = record info { watermark = aligned + 2 ^ bits }

  apply_lem : apply_allocate info bits ≡ taken
  unfolding apply_allocate
  apply_lem = rw (small, boundary) refl

  try_lem : try_apply_allocate info bits ≡ (
      if ltb (info.base_address + 2 ^ (info.size_bits)) (aligned + 2 ^ bits)
      then (err out_of_memory, info)
      else (ok aligned, taken))
  unfolding try_apply_allocate
  try_lem = rw (apply_lem, try_apply_allocate, small, boundary, end_address_lem info r) refl

  -- Where the units next to the cursor do not wrap around the address space, `try_apply_allocate` hands
  -- out the first aligned unit from the cursor on and moves the cursor behind it, or refuses because
  -- that unit ends outside the region.
  pub try_apply_allocate-Allocated : Allocated info bits (try_apply_allocate info bits)
  try_apply_allocate-Allocated = elim (Bool-cases over) [
    | inl e ↦ rw (try_lem, e) (refuses aligned aligned_fits (ground (arith, e)))
    | inr e ↦
        let room : aligned + 2 ^ bits ≤ info.base_address + 2 ^ (info.size_bits) =
          ground (arith, e) in
        let up = aligned_fits.above in
        let from = r.above in
        rw (try_lem, e)
          (allocates aligned aligned_fits room refl refl refl
            (record { sized = r.sized; in_space = r.in_space; above = omega arith; inside = room }))
  ]
    where
      over : Bool
      over = ltb (info.base_address + 2 ^ (info.size_bits)) (aligned + 2 ^ bits)

flags_size_bits :
    (d : Bool) (b : ℕ) → b < 128 → generic_flags_size_bits (serialize_generic_flags d b) ≡ b
unfolding generic_flags_size_bits serialize_generic_flags
flags_size_bits true b h = omega arith
flags_size_bits false b h = omega arith

flags_is_device : (d : Bool) (b : ℕ) → generic_flags_is_device (serialize_generic_flags d b) ≡ d
unfolding generic_flags_is_device serialize_generic_flags
flags_is_device true b = let one : (128 + b % 128) / 128 % 2 ≡ 1 = omega arith in rw one refl
flags_is_device false b =
    let none_set : (0 + b % 128) / 128 % 2 ≡ 0 = omega arith in rw none_set refl

-- A slot's words hold the whole description of the memory: `create_generic_info` reads back what
-- `dump_slot_data` wrote, for sizes below 2^128.
pub create_generic_info-dump_slot_data :
    (info : GenericInfo) → info.size_bits < 128 → create_generic_info (dump_slot_data info) ≡ info
unfolding create_generic_info dump_slot_data
create_generic_info-dump_slot_data info h =
    rw
      (
        flags_size_bits (info.device) (info.size_bits) h,
        flags_is_device (info.device) (info.size_bits),
      )
      refl

-- A unit of 2^63 bytes is not refused by any region, however small, whose cursor is above 0 and at most
-- 2^63: the end of the unit wraps around to 0, the address 2^63 is handed out, and the cursor is 0.
pub try_apply_allocate-wraps :
    (info : GenericInfo)
    → 0 < info.watermark
    → info.watermark ≤ 2 ^ 63
    → try_apply_allocate info 63 ≡ (ok (2 ^ 63), record info { watermark = 0 })
unfolding try_apply_allocate apply_allocate
try_apply_allocate-wraps info low high =
    let a = align_value-Aligned (info.watermark) (2 ^ 63) (omega arith) (omega arith) in
    let up = a.above in
    let near = a.near in
    let multiple = a.multiple in
    let at : align_value (info.watermark) (2 ^ 63) ≡ 2 ^ 63 = omega arith in
    let never : ltb (end_address info) 0 ≡ false = ground arith in rw (at, never) refl
