-- ===== src/Bits.antt =====
-- Machine words: wrap-around, shifts and masks of uint32, uint64 and int64, and the laws that join
-- and split fields of bits.
use Prim.Native.Nat.{
  min, max, bit_and, bit_or, bit_and-bitwise, bit_or-bitwise, digits as bit_digits,
}
use go_im_system.Prelude.{
  ℕ, zero, suc, ◌+◌, ◌-◌, ◌*◌, ◌/◌, ◌%◌, ◌≤◌, ◌<◌, ◌≡◌, refl, sym, ◌∙◌, arith,
}
use native.Mathlib.Nat.{add-zero}

-- 2 ^ k, by recursion on `k`.
abbrev pub pow2 : ℕ → ℕ
pow2 zero = 1
pow2 (suc k) = pow2 k * 2

abbrev pub wrap64 : ℕ → ℕ
wrap64 n = n % 18446744073709551616

-- `x << k` and `x >> k` on a 64-bit pattern that is not negative.
abbrev pub shl : ℕ → ℕ → ℕ
shl x k = wrap64 (x * pow2 k)

abbrev pub shr : ℕ → ℕ → ℕ
shr x k = x / pow2 k

-- Both operations walk down the binary digits of their first argument, which is fuel enough.
module _ (rest : ℕ → ℕ) (join : ℕ → ℕ → ℕ) where
  walk_stable :
      (k m x y : ℕ) → x ≤ k → x ≤ m → bit_digits rest join k x y ≡ bit_digits rest join m x y
  walk_stable zero zero x y p q = refl
  walk_stable zero (suc m) zero y p q = refl
  walk_stable (suc k) zero zero y p q = refl
  walk_stable (suc k) (suc m) zero y p q = refl
  walk_stable zero (suc m) (suc x) y p q = absurd (omega arith)
  walk_stable (suc k) zero (suc x) y p q = absurd (omega arith)
  walk_stable (suc k) (suc m) (suc x) y p q =
      let lower = walk_stable k m (suc x / 2) (y / 2) (omega arith) (omega arith) in
      omega (arith, lower)

  walk_low :
      (x y : ℕ)
      → bit_digits rest join (suc x) (suc x) y
        ≡ bit_digits rest join (suc x / 2) (suc x / 2) (y / 2) * 2 + join (suc x % 2) (y % 2)
  walk_low x y =
      let same = walk_stable x (suc x / 2) (suc x / 2) (y / 2) (omega arith) (omega arith) in
      omega (arith, same)

or_low : (x y : ℕ) → bit_or x y ≡ bit_or (x / 2) (y / 2) * 2 + max (x % 2) (y % 2)
or_low zero y = omega (arith, bit_or-bitwise 0 y, bit_or-bitwise 0 (y / 2))
or_low (suc x) y =
    let whole = bit_or-bitwise (suc x) y in
    let upper = bit_or-bitwise (suc x / 2) (y / 2) in
    omega (arith, whole, upper, walk_low (λ b. b) max x y)

and_low : (x y : ℕ) → bit_and x y ≡ bit_and (x / 2) (y / 2) * 2 + min (x % 2) (y % 2)
and_low zero y = omega (arith, bit_and-bitwise 0 y, bit_and-bitwise 0 (y / 2))
and_low (suc x) y =
    let whole = bit_and-bitwise (suc x) y in
    let upper = bit_and-bitwise (suc x / 2) (y / 2) in
    omega (arith, whole, upper, walk_low (λ b. zero) min x y)

or_nothing : (k x : ℕ) → x ≤ k → bit_or x 0 ≡ x
or_nothing k zero h = refl
or_nothing zero (suc x) h = elim h [ ]
or_nothing (suc k) (suc x) h =
    let upper = or_nothing k (suc x / 2) (omega arith) in omega (arith, upper, or_low (suc x) 0)

and_nothing : (k x : ℕ) → x ≤ k → bit_and x 0 ≡ 0
and_nothing k zero h = refl
and_nothing zero (suc x) h = elim h [ ]
and_nothing (suc k) (suc x) h =
    let upper = and_nothing k (suc x / 2) (omega arith) in omega (arith, upper, and_low (suc x) 0)

pow2_pos : (k : ℕ) → 0 < pow2 k
pow2_pos zero = omega arith
pow2_pos (suc k) = omega (arith, pow2_pos k)

halve_field : (x p : ℕ) → x * (p * 2) / 2 ≡ x * p
halve_field x p = omega arith

even_field : (x p : ℕ) → x * (p * 2) % 2 ≡ 0
even_field x p = omega arith

-- A field of `k` bits below another: `|` joins them as `+` does.
pub bit_or_low : (k x y : ℕ) → y < pow2 k → bit_or (x * pow2 k) y ≡ x * pow2 k + y
bit_or_low zero x zero h = or_nothing (x * 1) (x * 1) (omega arith) ∙ sym (add-zero (x * 1))
bit_or_low zero x (suc y) h = absurd (omega arith)
bit_or_low (suc k) x y h =
    rw (or_low (x * (pow2 k * 2)) y, halve_field x (pow2 k), even_field x (pow2 k))
      (omega (arith, bit_or_low k x (y / 2) (omega arith)))

-- A mask of `k` ones takes the remainder.
pub bit_and_mask : (k x : ℕ) → bit_and x (pow2 k - 1) ≡ x % pow2 k
bit_and_mask zero x = omega (arith, and_nothing x x (omega arith))
bit_and_mask (suc k) x =
    grind (arith, and_low x (pow2 (suc k) - 1), bit_and_mask k (x / 2), pow2_pos k)
