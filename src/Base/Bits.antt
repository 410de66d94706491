-- ===== src/Base/Bits.antt =====
-- Laws of `bit_and` and `bit_or` at variables, from the digit recursion that they stand for.
use Prim.Native.Nat.{
  ℕ, zero, suc, ◌+◌, ◌-◌, ◌*◌, ◌/◌, ◌%◌, ◌^◌, ◌≤◌, ◌<◌, min, max, bit_and, bit_or, digits, bitwise,
  bit_and-bitwise, bit_or-bitwise,
}
use mathlib.Core.Path.{◌≡◌, refl, ap, ◌∙◌, subst}
use native.Mathlib.Decide.{dec_le, ℕ_discrete}
use native.Mathlib.Nat.{pow-suc, mul-add-mod_self_right, mod-eq_of_lt, div-add-mod', mod-lt}
use native.Mathlib.Omega.{arith}

module _ (ends : ℕ → ℕ) (op : ℕ → ℕ → ℕ) where
  -- One unit of fuel beyond the first operand changes nothing.
  digits-suc_fuel :
      (fuel a b : ℕ) → a ≤ fuel → digits ends op (suc fuel) a b ≡ digits ends op fuel a b
  digits-suc_fuel zero zero b h = refl
  digits-suc_fuel zero (suc a) b h = absurd (omega arith)
  digits-suc_fuel (suc fuel) zero b h = refl
  digits-suc_fuel (suc fuel) (suc a) b h =
      rw (digits-suc_fuel fuel (suc a / 2) (b / 2) (omega arith))

  digits-surplus :
      (more fuel a b : ℕ)
      → a ≤ fuel
      → fuel ≤ more
      → digits ends op more a b ≡ digits ends op fuel a b
  digits-surplus zero fuel a b h k = let e : fuel ≡ 0 = omega arith in rw e
  digits-surplus (suc more) fuel a b h k = elim (dec_le fuel more) [
    | yes fits ↦ digits-suc_fuel more a b (omega arith) ∙ digits-surplus more fuel a b h fits
    | no last ↦ let e : fuel ≡ suc more = omega arith in rw e
  ]

  lowest_digit :
      (a b : ℕ)
      → bitwise ends op (suc a) b ≡ bitwise ends op (suc a / 2) (b / 2) * 2 + op (suc a % 2) (b % 2)
  lowest_digit a b =
      rw (digits-surplus a (suc a / 2) (suc a / 2) (b / 2) (omega arith) (omega arith))

zero-bit_and : (b : ℕ) → bit_and 0 b ≡ 0
zero-bit_and b = bit_and-bitwise 0 b

zero-bit_or : (b : ℕ) → bit_or 0 b ≡ b
zero-bit_or b = bit_or-bitwise 0 b

-- The lowest bit and the rest of a conjunction, and of a disjunction.
pub bit_and_step : (x y : ℕ) → min (x % 2) (y % 2) + 2 * bit_and (x / 2) (y / 2) ≡ bit_and x y
bit_and_step (suc x) y =
    let low = lowest_digit (λ _. 0) min x y in simp bit_and-bitwise (omega (arith, low))
bit_and_step zero y = omega (arith, zero-bit_and (y / 2), zero-bit_and y)

pub bit_or_step : (x y : ℕ) → max (x % 2) (y % 2) + 2 * bit_or (x / 2) (y / 2) ≡ bit_or x y
bit_or_step (suc x) y =
    let low = lowest_digit (λ d. d) max x y in simp bit_or-bitwise (omega (arith, low))
bit_or_step zero y = omega (arith, zero-bit_or (y / 2), zero-bit_or y)

bit_and_comm_fuel : (n a b : ℕ) → a ≤ n → b ≤ n → bit_and a b ≡ bit_and b a
bit_and_comm_fuel zero zero zero h k = refl
bit_and_comm_fuel zero (suc a) b h k = absurd (omega arith)
bit_and_comm_fuel zero zero (suc b) h k = absurd (omega arith)
bit_and_comm_fuel (suc n) a b h k = omega (
  arith,
  bit_and_step a b,
  bit_and_step b a,
  bit_and_comm_fuel n (a / 2) (b / 2) (omega arith) (omega arith),
)

pub bit_and_comm : (a b : ℕ) → bit_and a b ≡ bit_and b a
bit_and_comm a b = bit_and_comm_fuel (a + b) a b (omega arith) (omega arith)

bit_and-le_fuel : (n a b : ℕ) → a ≤ n → bit_and a b ≤ a
bit_and-le_fuel zero zero b h = omega (arith, zero-bit_and b)
bit_and-le_fuel zero (suc a) b h = absurd (omega arith)
bit_and-le_fuel (suc n) a b h =
    omega (arith, bit_and_step a b, bit_and-le_fuel n (a / 2) (b / 2) (omega arith))

pub bit_and-le : (a b : ℕ) → bit_and a b ≤ a
bit_and-le a b = bit_and-le_fuel a a b (omega arith)

subset_trans_fuel : (n a b c : ℕ) → c ≤ n → bit_and a b ≡ b → bit_and b c ≡ c → bit_and a c ≡ c
subset_trans_fuel zero a b zero h k l = omega (arith, bit_and_comm a 0, zero-bit_and a)
subset_trans_fuel zero a b (suc c) h k l = absurd (omega arith)
subset_trans_fuel (suc n) a b c h k l =
    let ab = bit_and_step a b in
    let bc = bit_and_step b c in
    omega (
      arith,
      ab,
      bc,
      bit_and_step a c,
      subset_trans_fuel n (a / 2) (b / 2) (c / 2) (omega arith) (omega arith) (omega arith),
    )

-- Inclusion of bit sets, `(a & b) == b`, is transitive.
pub subset_trans : (a b c : ℕ) → bit_and a b ≡ b → bit_and b c ≡ c → bit_and a c ≡ c
subset_trans a b c h k = subset_trans_fuel c a b c (omega arith) h k

pub bit_and-zero : (a : ℕ) → bit_and a 0 ≡ 0
bit_and-zero a = omega (arith, bit_and_comm a 0, zero-bit_and a)

pub pow-pos : (k : ℕ) → 1 ≤ 2 ^ k
pow-pos zero = omega arith
pow-pos (suc k) = omega (arith, pow-suc 2 k, pow-pos k)

half_mask : (k : ℕ) → 2 ^ k - 1 ≡ (2 ^ suc k - 1) / 2
half_mask k = omega (arith, pow-suc 2 k, pow-pos k)

mod_double : (k a : ℕ) → a % 2 ^ suc k ≡ (a / 2) % 2 ^ k * 2 + a % 2
mod_double k a =
    ap (λ (n : ℕ). n % 2 ^ suc k) split
    ∙ mul-add-mod_self_right (a / 2 / 2 ^ k) (2 ^ suc k) (a / 2 % 2 ^ k * 2 + a % 2)
    ∙ mod-eq_of_lt small
  where
    split : a ≡ a / 2 / 2 ^ k * 2 ^ suc k + (a / 2 % 2 ^ k * 2 + a % 2)
    split =
        omega (arith, ap (λ (t : ℕ). a / 2 / 2 ^ k * t) (pow-suc 2 k), div-add-mod' (a / 2) (2 ^ k))

    small : a / 2 % 2 ^ k * 2 + a % 2 < 2 ^ suc k
    small = omega (arith, pow-suc 2 k, mod-lt (a / 2) (pow-pos k))

-- A mask of `k` low bits is the remainder by `2 ^ k`.
pub bit_and-mask : (k a : ℕ) → bit_and a (2 ^ k - 1) ≡ a % 2 ^ k
bit_and-mask zero a = omega (arith, bit_and-zero a)
bit_and-mask (suc k) a = omega (
  arith,
  bit_and_step a (2 ^ suc k - 1),
  pow-suc 2 k,
  pow-pos k,
  subst (λ m. bit_and (a / 2) m ≡ (a / 2) % 2 ^ k) (half_mask k) (bit_and-mask k (a / 2)),
  mod_double k a,
)

bit_and_self_fuel : (n a : ℕ) → a ≤ n → bit_and a a ≡ a
bit_and_self_fuel zero zero h = refl
bit_and_self_fuel zero (suc a) h = absurd (omega arith)
bit_and_self_fuel (suc n) a h =
    omega (arith, bit_and_step a a, bit_and_self_fuel n (a / 2) (omega arith))

pub bit_and_self : (a : ℕ) → bit_and a a ≡ a
bit_and_self a = bit_and_self_fuel a a (omega arith)

-- A word that has no bit in common with its predecessor is a power of two.
power_of_clear_fuel : (n a : ℕ) → 0 < a → a ≤ n → bit_and a (a - 1) ≡ 0 → (k : ℕ) × (a ≡ 2 ^ k)
power_of_clear_fuel zero a p h e = absurd (omega arith)
power_of_clear_fuel (suc n) a p h e = elim (ℕ_discrete (a % 2) 1) [
  | yes odd ↦
      let half : (a - 1) / 2 ≡ a / 2 = omega arith in
      let same = ap (bit_and (a / 2)) half ∙ bit_and_self (a / 2) in
      (0, omega (arith, bit_and_step a (a - 1), same))
  | no even ↦
      let half : (a - 1) / 2 ≡ a / 2 - 1 = omega arith in
      let same = ap (bit_and (a / 2)) half in
      let (k, e') =
        power_of_clear_fuel n (a / 2) (omega arith) (omega arith)
          (omega (arith, bit_and_step a (a - 1), same)) in
      (suc k, omega (arith, pow-suc 2 k, e'))
]

pub power_of_clear : (a : ℕ) → 0 < a → bit_and a (a - 1) ≡ 0 → (k : ℕ) × (a ≡ 2 ^ k)
power_of_clear a p e = power_of_clear_fuel a a p (omega arith) e

pub pow_mono : (d m n : ℕ) → m + d ≡ n → 2 ^ m ≤ 2 ^ n
pow_mono zero m n e = let same : m ≡ n = omega arith in rw same (omega arith)
pow_mono (suc d) m (suc n) e = omega (arith, pow-suc 2 n, pow_mono d m n (omega arith))
pow_mono (suc d) m zero e = absurd (omega arith)

-- Two powers of two within a factor of two of one another are the same.
pub pow-inj : (r k : ℕ) → 2 ^ r ≤ 2 ^ k → 2 ^ k < 2 * 2 ^ r → r ≡ k
pow-inj r k low high = elim (dec_le r k) [
  | yes le ↦ elim (dec_le k r) [
    | yes ge ↦ omega arith
    | no gt ↦ absurd (omega (arith, pow-suc 2 r, pow_mono (k - suc r) (suc r) k (omega arith)))
  ]
  | no lt ↦
      absurd (omega (arith, pow-suc 2 k, pow-pos k, pow_mono (r - suc k) (suc k) r (omega arith)))
]
