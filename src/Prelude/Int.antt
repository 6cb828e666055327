-- ===== src/Prelude/Int.antt =====
-- Go's signed integers: integers over the native numbers, and the conversion to 32 bits.
use Prim.Native.Nat.{ℕ, suc, ◌+◌, ◌-◌, ◌≤◌, ◌<◌, ◌%◌, ◌^◌}
use mathlib.Core.Path.{◌≡◌}
use mathlib.Core.Logic.{◌↔◌}
use mathlib.Core.Bool.{Bool, true, false}
use native.Mathlib.Omega.{arith}
use kube_dtn.Prelude.Tests.{ltb, leb, nat_eq, if◌then◌else◌, Eq}

-- `negsuc n` is -(n + 1)
pub data ℤ : Type 0 where
  pos : ℕ → ℤ
  negsuc : ℕ → ℤ

abbrev pub pos_part : ℤ → ℕ
pos_part (pos n) = n
pos_part (negsuc _) = 0

abbrev pub neg_part : ℤ → ℕ
neg_part (pos _) = 0
neg_part (negsuc n) = suc n

abbrev pub sub_ℕ : ℕ → ℕ → ℤ
sub_ℕ a b = if leb b a then pos (a - b) else negsuc (b - a - 1)

infixl 65 ◌+ℤ◌ ◌-ℤ◌
infix 50 ◌≤ℤ◌
abbrev pub ◌+ℤ◌ : ℤ → ℤ → ℤ
a +ℤ b = sub_ℕ (pos_part a + pos_part b) (neg_part a + neg_part b)

abbrev pub ◌-ℤ◌ : ℤ → ℤ → ℤ
a -ℤ b = sub_ℕ (pos_part a + neg_part b) (neg_part a + pos_part b)

abbrev pub ◌≤ℤ◌ : ℤ → ℤ → Type 0
a ≤ℤ b = pos_part a + neg_part b ≤ pos_part b + neg_part a

abbrev pub is_negative : ℤ → Bool
is_negative a = ltb (pos_part a) (neg_part a)

abbrev pub int_test : ℤ → ℤ → Bool
int_test (pos a) (pos b) = nat_eq a b
int_test (pos a) (negsuc b) = false
int_test (negsuc a) (pos b) = false
int_test (negsuc a) (negsuc b) = nat_eq a b

pub int_test_iff : (a b : ℤ) → (int_test a b ≡ true) ↔ (a ≡ b)
int_test_iff (pos a) (pos b) = ground arith
int_test_iff (pos a) (negsuc b) = ground arith
int_test_iff (negsuc a) (pos b) = ground arith
int_test_iff (negsuc a) (negsuc b) = ground arith

instance abbrev pub ℤ_eq : Eq ℤ
ℤ_eq = record { test = int_test; test_iff = int_test_iff }

-- `int32(a)`: the low 32 bits, read as two's complement.
abbrev pub low32 : ℤ → ℕ
low32 (pos n) = n % 2 ^ 32
low32 (negsuc n) = 2 ^ 32 - 1 - n % 2 ^ 32

abbrev pub signed32 : ℕ → ℤ
signed32 r = if ltb r (2 ^ 31) then pos r else negsuc (2 ^ 32 - 1 - r)

unfoldable pub to_int32 : ℤ → ℤ
to_int32 a = signed32 (low32 a)

abbrev pub IsInt32 : ℤ → Type 0
IsInt32 a = (pos_part a < 2 ^ 31) × (neg_part a ≤ 2 ^ 31)

pub to_int32_of_IsInt32 : (a : ℤ) → IsInt32 a → to_int32 a ≡ a
unfolding to_int32
to_int32_of_IsInt32 (pos n) h = ground arith
to_int32_of_IsInt32 (negsuc n) h = ground arith

pub to_int32-IsInt32 : (a : ℤ) → IsInt32 (to_int32 a)
unfolding to_int32
to_int32-IsInt32 (pos n) = ground arith
to_int32-IsInt32 (negsuc n) = ground arith
