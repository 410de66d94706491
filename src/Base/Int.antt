-- ===== src/Base/Int.antt =====
-- Signed words (`sword`) as integers over the native numbers; the kernel's signed values are small,
-- so they do not wrap.
use Prim.Native.Nat.{ℕ, suc, ◌+◌, ◌-◌}
use mathlib.Core.Path.{◌≡◌}
use mathlib.Core.Bool.{Bool}
use a9n.Base.Tests.{ltb, leb, if◌then◌else◌}

-- `negsuc n` is -(n + 1).
pub data ℤ : Type 0 where
  pos : ℕ → ℤ
  negsuc : ℕ → ℤ

abbrev pub pos_part : ℤ → ℕ
pos_part (pos n) = n
pos_part (negsuc n) = 0

abbrev pub neg_part : ℤ → ℕ
neg_part (pos n) = 0
neg_part (negsuc n) = suc n

abbrev pub ltb_ℤ : ℤ → ℤ → Bool
ltb_ℤ a b = ltb (pos_part a + neg_part b) (pos_part b + neg_part a)

abbrev pub leb_ℤ : ℤ → ℤ → Bool
leb_ℤ a b = leb (pos_part a + neg_part b) (pos_part b + neg_part a)

-- `x - 1`.
abbrev pub pred_ℤ : ℤ → ℤ
pred_ℤ (pos n) = if leb 1 n then pos (n - 1) else negsuc 0
pred_ℤ (negsuc n) = negsuc (suc n)

pub pos-inj : {m n : ℕ} → pos m ≡ pos n → m ≡ n
pos-inj e = cc
