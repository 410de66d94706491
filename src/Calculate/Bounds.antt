-- ===== src/Calculate/Bounds.antt =====
-- The results of calculate.hpp: the least aligned value above, and the radix of a word.
use a9n.Base.{
  ℕ, zero, suc, ◌+◌, ◌-◌, ◌*◌, ◌/◌, ◌%◌, ◌^◌, ◌≤◌, ◌<◌, ◌≡◌, ◌≢◌, ap, ◌∙◌, some, arith, Bool-cases,
  inl, inr, leb, ◌==◌, ==_false, ==_iff, bit_and,
}
use a9n.Base.Bits.{pow-pos, pow-inj, bit_and-mask, power_of_clear}
use native.Mathlib.Numerals.{add-one}
use native.Mathlib.Nat.{mod_self, pow-suc, div-add-mod', mod-lt, mod-eq_of_lt, mul-mod_left}
use a9n.Calculate.{
  word_mod, word_bits, align_value, leading_zeros, highest_bit, round_up_power_of_2, radix_loop,
  calculate_radix, calculate_radix_ceil,
}

-- Where the sum does not wrap, the result is the least multiple of the base from the value on.
pub record Aligned (value base result : ℕ) : Type 0 where
  pub above : value ≤ result
  pub near : result < value + base
  pub multiple : result % base ≡ 0

-- Where the base is not 0 and the sum of value and base is a word or 2^64, `align_value` gives the least
-- multiple of the base from the value on.
pub align_value-Aligned :
    (value base : ℕ)
    → 0 < base
    → value + base ≤ word_mod
    → Aligned value base (align_value value base)
unfolding align_value
align_value-Aligned value base p fits =
    let e : (value + base - 1) % word_mod ≡ value + base - 1 = mod-eq_of_lt (omega arith) in
    rw (==_false base 0 (λ h. omega arith), e)
      (record {
        above = omega (arith, div-add-mod' (value + base - 1) base, mod-lt (value + base - 1) p);
        near = omega (arith, div-add-mod' (value + base - 1) base);
        multiple = mul-mod_left ((value + base - 1) / base) base;
      })

-- The loop counts the halvings of a word: 64 rounds are enough, and the result is its logarithm.
radix_loop_lem :
    (fuel power radix : ℕ)
    → 0 < power
    → power < 2 ^ fuel
    → (r : ℕ) × (radix_loop fuel power radix ≡ some (radix + r))
      × (2 ^ r ≤ power)
      × (power < 2 * 2 ^ r)
unfolding radix_loop
radix_loop_lem zero power radix p h = absurd (omega arith)
radix_loop_lem (suc fuel) power radix p h = elim (Bool-cases (power / 2 == 0)) [
  | inl e ↦
      let one : power / 2 ≡ 0 = (==_iff _ _).0 e in
      (0, rw e (ap some (omega arith)), omega arith, omega arith)
  | inr ne ↦
      let more : power / 2 ≢ 0 = ground (arith, ne) in
      let (r, e, low, high) =
        radix_loop_lem fuel (power / 2) (radix + 1) (omega arith) (omega (arith, pow-suc 2 fuel)) in
      (
        suc r,
        rw ne (e ∙ ap some (omega arith)),
        omega (arith, pow-suc 2 r),
        omega (arith, pow-suc 2 r),
      )
]

-- `calculate_radix` ends on every word, with the logarithm of the word rounded down.
pub calculate_radix_lem :
    (power : ℕ)
    → 0 < power
    → power < word_mod
    → (r : ℕ) × (calculate_radix power ≡ some r) × (2 ^ r ≤ power) × (power < 2 * 2 ^ r)
unfolding calculate_radix
calculate_radix_lem power p h =
    let (r, e, low, high) = radix_loop_lem word_bits power 0 p h in
    (r, rw (==_false power 0 (λ z. omega arith)) (e ∙ ap some (omega arith)), low, high)

leading_zeros_lem :
    (width value : ℕ)
    → 0 < value
    → value < 2 ^ width
    → (k : ℕ) × (leading_zeros width value + k + 1 ≡ width) × (2 ^ k ≤ value) × (value < 2 * 2 ^ k)
unfolding leading_zeros
leading_zeros_lem zero value p h = absurd (omega arith)
leading_zeros_lem (suc width) value p h = elim (Bool-cases (leb (2 ^ width) value)) [
  | inl e ↦ (width, rw e (omega arith), ground (arith, e), omega (arith, pow-suc 2 width))
  | inr ne ↦
      let (k, e, low, high) = leading_zeros_lem width value p (ground (arith, ne)) in
      (k, rw ne (omega arith), low, high)
]

highest_bit_lem :
    (value : ℕ)
    → 0 < value
    → value < word_mod
    → (2 ^ highest_bit value ≤ value) × (value < 2 * 2 ^ highest_bit value)
unfolding highest_bit
highest_bit_lem value p h =
    let (k, e, low, high) = leading_zeros_lem word_bits value p h in
    let same : word_bits - 1 - leading_zeros word_bits value ≡ k = omega arith in
    rw same (low, high)

-- The least power of two from a value on, which is a word up to 2^63.
pub round_up_power_of_2_lem :
    (value : ℕ)
    → 0 < value
    → value ≤ 2 ^ 63
    → (k : ℕ) × (round_up_power_of_2 value ≡ 2 ^ k) × (value ≤ 2 ^ k) × (2 ^ k < 2 * value)
unfolding round_up_power_of_2
round_up_power_of_2_lem value p h = elim (Bool-cases (bit_and value (value - 1) == 0)) [
  | inl e ↦
      let (k, e') = power_of_clear value p ((==_iff _ _).0 e) in
      (k, rw (==_false value 0 (λ z. omega arith), e) e', omega arith, omega arith)
  | inr ne ↦
      let (low, high) = highest_bit_lem value p (omega arith) in
      let other : value ≢ 2 ^ highest_bit value = λ e.
        let clear = bit_and-mask (highest_bit value) (2 ^ highest_bit value) ∙ mod_self _ in
        let same = ap (λ (v : ℕ). bit_and v (v - 1)) e ∙ clear in ground (arith, ne, same) in
      let small : 2 * 2 ^ highest_bit value < word_mod = omega arith in
      let power = pow-suc 2 (highest_bit value) in
      (
        suc (highest_bit value),
        rw (==_false value 0 (λ z. omega arith), ne, add-one) (mod-eq_of_lt (omega arith)),
        omega arith,
        omega arith,
      )
]

-- `calculate_radix_ceil` gives the least radix whose power covers the value.
pub calculate_radix_ceil_lem :
    (value : ℕ)
    → 0 < value
    → value ≤ 2 ^ 63
    → (r : ℕ) × (calculate_radix_ceil value ≡ some r) × (value ≤ 2 ^ r) × (2 ^ r < 2 * value)
unfolding calculate_radix_ceil
calculate_radix_ceil_lem value p h =
    let (k, e, above, near) = round_up_power_of_2_lem value p h in
    let (r, e', low, high) = calculate_radix_lem (2 ^ k) (pow-pos k) (omega arith) in
    let same = pow-inj r k low high in
    (k, rw (==_false value 0 (λ z. omega arith), e) (e' ∙ ap some same), above, near)
