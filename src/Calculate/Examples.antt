-- ===== src/Calculate/Examples.antt =====
-- Runs of the arithmetic of calculate.hpp.
use a9n.Base.{refl, arith, ◌≡◌, ◌≤◌, ◌<◌, ◌*◌, ◌^◌, ℕ, some}
use a9n.Calculate.{
  align_value, align_value_floor, calculate_radix, calculate_radix_ceil, calculate_radix_floor,
  radix_loop, round_down_power_of_2, highest_bit, leading_zeros,
}
use a9n.Calculate.Bounds.{Aligned, align_value-Aligned, calculate_radix_ceil_lem}

align_value-Aligned_example : Aligned 4097 4096 (align_value 4097 4096)
align_value-Aligned_example = align_value-Aligned 4097 4096 (omega arith) (omega arith)

calculate_radix_ceil_example :
    (r : ℕ) × (calculate_radix_ceil 1000 ≡ some r) × (1000 ≤ 2 ^ r) × (2 ^ r < 2 * 1000)
calculate_radix_ceil_example = calculate_radix_ceil_lem 1000 (omega arith) (omega arith)

radix_floor_run : calculate_radix_floor 1000 ≡ some 9
unfolding calculate_radix_floor calculate_radix round_down_power_of_2 highest_bit leading_zeros
    radix_loop
radix_floor_run = refl

align_floor_run : align_value_floor 4097 4096 ≡ 4096
unfolding align_value_floor
align_floor_run = refl
