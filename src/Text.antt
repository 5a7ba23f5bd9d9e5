-- ===== src/Text.antt =====
-- Texts as lists of code points, and the decimal printing that `strconv.FormatInt` and `%d` do.
use Prim.Native.Char.{code}
use Prim.Native.String.{String}
use go_im_system.Prelude.{
  ℕ, zero, suc, ◌+◌, ◌/◌, ◌%◌, ◌≡◌, refl, Bool, List, [], ◌∷◌, ◌++◌, ltb, if◌then◌else◌, ℤ, pos,
  negsuc,
}
pub mod Decimal
pub mod Split

abbrev pub Text : Type 0
Text = List ℕ

abbrev pub codes : String → Text
codes String.[] = []
codes (String.◌∷◌ c s) = code c ∷ codes s

-- The digits of `n`; fuel above `n` is enough, since each round divides by ten.
digits : ℕ → ℕ → Text
digits zero n = []
digits (suc f) n =
    let rest = digits f (n / 10) in
    if ltb n 10 then (b'0' + n) ∷ [] else rest ++ (b'0' + n % 10) ∷ []

pub format_nat : ℕ → Text
unfolding digits
format_nat n = digits (suc n) n

-- `strconv.FormatInt(n, 10)`, `strconv.Itoa` and the verb `%d`.
unfoldable pub format_int : ℤ → Text
unfolding format_nat
format_int (pos n) = format_nat n
format_int (negsuc n) = b'-' ∷ format_nat (suc n)

format_int_test : format_int (pos 1024) ++ format_int (negsuc 6) ≡ codes "1024-7"
unfolding format_int
format_int_test = refl
