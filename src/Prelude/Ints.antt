-- ===== src/Prelude/Ints.antt =====
-- Signed integers over the native numbers, as the program's int64 ids.
use Prim.Native.Nat.{ℕ}
use mathlib.Core.Path.{◌≡◌}
use mathlib.Core.Logic.{◌↔◌}
use mathlib.Core.Bool.{Bool, true, false}
use native.Mathlib.Omega.{arith}
use go_im_system.Prelude.Tests.{Eq, ◌==◌, ltb}

-- `negsuc n` is -(n + 1).
pub data ℤ : Type 0 where
  pos : ℕ → ℤ
  negsuc : ℕ → ℤ

abbrev pub int_eq : ℤ → ℤ → Bool
int_eq (pos a) (pos b) = a == b
int_eq (negsuc a) (negsuc b) = a == b
int_eq (pos _) (negsuc _) = false
int_eq (negsuc _) (pos _) = false

pub int_eq_iff : (a b : ℤ) → (int_eq a b ≡ true) ↔ (a ≡ b)
int_eq_iff (pos a) (pos b) = ground arith
int_eq_iff (negsuc a) (negsuc b) = ground arith
int_eq_iff (pos a) (negsuc b) = ground arith
int_eq_iff (negsuc a) (pos b) = ground arith

abbrev pub int_lt : ℤ → ℤ → Bool
int_lt (pos a) (pos b) = ltb a b
int_lt (negsuc a) (negsuc b) = ltb b a
int_lt (pos _) (negsuc _) = false
int_lt (negsuc _) (pos _) = true

pub int_lt_total : (a b : ℤ) → int_lt a b ≡ false → int_lt b a ≡ false → a ≡ b
int_lt_total (pos a) (pos b) h k = ground arith
int_lt_total (negsuc a) (negsuc b) h k = ground arith
int_lt_total (pos a) (negsuc b) h k = ground arith
int_lt_total (negsuc a) (pos b) h k = ground arith

pub int_lt_asymm : (a b : ℤ) → int_lt a b ≡ true → int_lt b a ≡ false
int_lt_asymm (pos a) (pos b) h = ground arith
int_lt_asymm (negsuc a) (negsuc b) h = ground arith
int_lt_asymm (pos a) (negsuc b) h = ground arith
int_lt_asymm (negsuc a) (pos b) h = ground arith

instance abbrev pub int_Eq : Eq ℤ
int_Eq = record { test = int_eq; test_iff = int_eq_iff }
