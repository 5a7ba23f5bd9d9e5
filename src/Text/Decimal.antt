-- ===== src/Text/Decimal.antt =====
-- Decimal printing is read back, so it is injective, and it prints digits and a sign only: texts
-- joined by another character come apart again.
use go_im_system.Prelude.{
  ℕ, zero, suc, ◌+◌, ◌-◌, ◌*◌, ◌/◌, ◌%◌, ◌≤◌, ◌<◌, ◌≡◌, refl, sym, ap, ◌∙◌, ◌≢◌, [], ◌∷◌, ◌++◌, ltb,
  Bool-cases, inl, inr, ℤ, pos, negsuc, arith, All, All-append, All-map,
}
use go_im_system.Text.{Text, digits, format_nat, format_int}

value : ℕ → Text → ℕ
value acc [] = acc
value acc (c ∷ s) = value (acc * 10 + (c - b'0')) s

value-append :
    (acc : ℕ) (s : Text) (c : ℕ) → value acc (s ++ c ∷ []) ≡ value acc s * 10 + (c - b'0')
unfolding value
value-append acc [] c = refl
value-append acc (d ∷ s) c = value-append (acc * 10 + (d - b'0')) s c

value-digits : (f n : ℕ) → n < f → value 0 (digits f n) ≡ n
unfolding digits
value-digits zero n h = elim h [ ]
value-digits (suc f) n h = elim (Bool-cases (ltb n 10)) [
  | inl small ↦ rw small (unfold value in (omega arith))
  | inr large ↦ rw large (
      omega (
        arith,
        value-append 0 (digits f (n / 10)) (b'0' + n % 10),
        value-digits f (n / 10) (ground arith),
      ))
]

value-format_nat : (n : ℕ) → value 0 (format_nat n) ≡ n
unfolding format_nat
value-format_nat n = value-digits (suc n) n (omega arith)

abbrev IsDigit : ℕ → Type 0
IsDigit c = (b'0' ≤ c) × (c ≤ b'9')

digits-IsDigit : (f n : ℕ) → All IsDigit (digits f n)
unfolding digits
digits-IsDigit zero n = tt
digits-IsDigit (suc f) n = elim (Bool-cases (ltb n 10)) [
  | inl small ↦ rw small ((omega arith, ground arith), tt)
  | inr large ↦ rw large (
      All-append IsDigit (digits f (n / 10)) _ (digits-IsDigit f (n / 10))
        ((omega arith, omega arith), tt))
]

format_nat-IsDigit : (n : ℕ) → All IsDigit (format_nat n)
unfolding format_nat
format_nat-IsDigit n = digits-IsDigit (suc n) n

format_nat-injective : (m n : ℕ) → format_nat m ≡ format_nat n → m ≡ n
format_nat-injective m n e = sym (value-format_nat m) ∙ ap (value 0) e ∙ value-format_nat n

not-digit_head : (s t : Text) → All IsDigit s → s ≢ b'-' ∷ t
not-digit_head [] t h e = cc
not-digit_head (c ∷ s) t h e = ground (arith, h.0)

tail_eq : (c d : ℕ) (s t : Text) → c ∷ s ≡ d ∷ t → s ≡ t
tail_eq c d s t e = cc

pub format_int-injective : (a b : ℤ) → format_int a ≡ format_int b → a ≡ b
unfolding format_int
format_int-injective (pos m) (pos n) e = ap pos (format_nat-injective m n e)
format_int-injective (negsuc m) (negsuc n) e =
    let inner = format_nat-injective (suc m) (suc n) (tail_eq b'-' b'-' _ _ e) in
    ground (arith, inner)
format_int-injective (pos m) (negsuc n) e =
    absurd (not-digit_head (format_nat m) (format_nat (suc n)) (format_nat-IsDigit m) e)
format_int-injective (negsuc m) (pos n) e =
    absurd (not-digit_head (format_nat n) (format_nat (suc m)) (format_nat-IsDigit n) (sym e))

-- No character of the text is `c`.
abbrev pub Without : ℕ → Text → Type 0
Without c = All (λ d. d ≢ c)

digits-Without_underscore : (s : Text) → All IsDigit s → Without b'_' s
digits-Without_underscore s h = All-map IsDigit (λ d. d ≢ b'_') (λ d k. omega arith) s h

pub format_int-Without_underscore : (a : ℤ) → Without b'_' (format_int a)
unfolding format_int
format_int-Without_underscore (pos n) =
    digits-Without_underscore (format_nat n) (format_nat-IsDigit n)
format_int-Without_underscore (negsuc n) =
    (omega arith, digits-Without_underscore (format_nat (suc n)) (format_nat-IsDigit (suc n)))

-- Texts joined by a character that neither first part holds come apart again.
pub join-injective :
    (c : ℕ) (s t u v : Text)
    → Without c s
    → Without c t
    → s ++ (c ∷ u) ≡ t ++ (c ∷ v)
    → (s ≡ t) × (u ≡ v)
join-injective c [] [] u v hs ht e = (refl, tail_eq c c u v e)
join-injective c [] (d ∷ t) u v hs ht e = absurd (ht.0 (ground arith))
join-injective c (d ∷ s) [] u v hs ht e = absurd (hs.0 (ground arith))
join-injective c (d ∷ s) (d' ∷ t) u v hs ht e =
    let rest = join-injective c s t u v hs.1 ht.1 (tail_eq d d' _ _ e) in
    (ground (arith, rest.0), rest.1)

-- A common prefix cancels.
pub prefix-cancel : (p s t : Text) → p ++ s ≡ p ++ t → s ≡ t
prefix-cancel [] s t e = e
prefix-cancel (c ∷ p) s t e = prefix-cancel p s t (tail_eq c c _ _ e)
