-- ===== src/Calculate.antt =====
-- liba9n/common/calculate.hpp: alignment and powers of two on 64-bit words. `leading_zeros` is the
-- compiler's `__builtin_clzll` at a width. A shift is by less than the width.
pub mod Bounds
pub mod Examples
use a9n.Base.{
  ℕ, zero, suc, ◌+◌, ◌-◌, ◌*◌, ◌/◌, ◌%◌, ◌^◌, Option, none, some, ltb, leb, ◌==◌, if◌then◌else◌,
  bit_and, Bool,
}

abbrev pub word_bits : ℕ
word_bits = 64

abbrev pub word_mod : ℕ
word_mod = 2 ^ 64

unfoldable pub align_value : ℕ → ℕ → ℕ
align_value value base = if base == 0 then 0 else (value + base - 1) % word_mod / base * base

pub align_value_floor : ℕ → ℕ → ℕ
align_value_floor value base = if base == 0 then 0 else value / base * base

-- The zeros above the highest one of a word of `width` bits.
leading_zeros : ℕ → ℕ → ℕ
leading_zeros zero value = 0
leading_zeros (suc width) value =
    let further = leading_zeros width value in if leb (2 ^ width) value then 0 else suc further

highest_bit : ℕ → ℕ
highest_bit value = word_bits - 1 - leading_zeros word_bits value

pub round_up_power_of_2 : ℕ → ℕ
round_up_power_of_2 value =
    if value == 0
    then 1
    else (if bit_and value (value - 1) == 0 then value else 2 ^ (highest_bit value + 1) % word_mod)

pub round_down_power_of_2 : ℕ → ℕ
round_down_power_of_2 value = if value == 0 then 0 else 2 ^ highest_bit value % word_mod

-- `while (power >>= 1) radix++;` on fuel.
radix_loop : ℕ → ℕ → ℕ → Option ℕ
radix_loop zero power radix = none
radix_loop (suc fuel) power radix =
    let further = radix_loop fuel (power / 2) (radix + 1) in
    if power / 2 == 0 then some radix else further

pub calculate_radix : ℕ → Option ℕ
calculate_radix power = if power == 0 then some 0 else radix_loop word_bits power 0

pub calculate_radix_ceil : ℕ → Option ℕ
calculate_radix_ceil value =
    if value == 0 then some 0 else calculate_radix (round_up_power_of_2 value)

pub calculate_radix_floor : ℕ → Option ℕ
calculate_radix_floor value =
    if value == 0 then some 0 else calculate_radix (round_down_power_of_2 value)
