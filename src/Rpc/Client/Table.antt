-- ===== src/Rpc/Client/Table.antt =====
-- The table of the waiting calls, number and handle.
use go_im_system.Prelude.{
  none, ℕ, ◌≡◌, ◌≢◌, refl, Bool, true, false, ◌||◌, List, [], ◌∷◌, some, lookup, insert, delete,
  nat_eq, ◌==◌, arith, inl, inr, Bool-cases,
}

-- A call waits if its handle is in the table.
abbrev pub waits : ℕ → List (ℕ × ℕ) → Bool
waits h [] = false
waits h ((n, k) ∷ p) = (k == h) || waits h p

-- No call is in the table twice.
abbrev pub Apart : List (ℕ × ℕ) → Type 0
Apart [] = Unit
Apart ((n, k) ∷ p) = (waits k p ≡ false) × Apart p

-- A number is in use.
abbrev pub used : ℕ → List (ℕ × ℕ) → Bool
used n [] = false
used n ((m, k) ∷ p) = (m == n) || used n p

-- No number is in use twice.
abbrev pub Numbered : List (ℕ × ℕ) → Type 0
Numbered [] = Unit
Numbered ((m, k) ∷ p) = (used m p ≡ false) × Numbered p

pub lookup-waits : (n h : ℕ) (p : List (ℕ × ℕ)) → lookup n p ≡ some h → waits h p ≡ true
lookup-waits n h [] e = ground arith
lookup-waits n h ((m, k) ∷ p) e = ground (arith, lookup-waits n h p)

pub waits-delete : (n k : ℕ) (p : List (ℕ × ℕ)) → waits k p ≡ false → waits k (delete n p) ≡ false
waits-delete n k [] e = refl
waits-delete n k ((m, l) ∷ p) e = ground (arith, waits-delete n k p)

pub delete-Apart : (n : ℕ) (p : List (ℕ × ℕ)) → Apart p → Apart (delete n p)
delete-Apart n [] a = tt
delete-Apart n ((m, k) ∷ p) (fresh, a) = elim (Bool-cases (m == n)) [
  | inl same ↦ rw same (delete-Apart n p a)
  | inr other ↦ rw other (waits-delete n k p fresh, delete-Apart n p a)
]

-- What is taken out waits no more.
pub waits-removed :
    (n h : ℕ) (p : List (ℕ × ℕ)) → Apart p → lookup n p ≡ some h → waits h (delete n p) ≡ false
waits-removed n h [] a e = refl
waits-removed n h ((m, k) ∷ p) (fresh, a) e =
    ground (arith, waits-delete n h p, waits-removed n h p, lookup-waits n h p)

pub waits-insert :
    (n h k : ℕ) (p : List (ℕ × ℕ)) → k ≢ h → waits k p ≡ false → waits k (insert n h p) ≡ false
waits-insert n h k [] other e = ground arith
waits-insert n h k ((m, l) ∷ p) other e = ground (arith, waits-insert n h k p)

pub insert-Apart : (n h : ℕ) (p : List (ℕ × ℕ)) → waits h p ≡ false → Apart p → Apart (insert n h p)
insert-Apart n h [] fresh a = (refl, tt)
insert-Apart n h ((m, k) ∷ p) fresh (apart, a) = elim (Bool-cases (m == n)) [
  | inl same ↦ rw same (ground arith, a)
  | inr other ↦
      let there : waits h p ≡ false = ground arith in
      rw other (waits-insert n h k p (ground arith) apart, insert-Apart n h p there a)
]

pub waits-inserted_self : (n h : ℕ) (p : List (ℕ × ℕ)) → waits h (insert n h p) ≡ true
waits-inserted_self n h [] = ground arith
waits-inserted_self n h ((m, k) ∷ p) = ground (arith, waits-inserted_self n h p)

-- Under a number that is not in use nothing is lost.
pub waits-insert_kept :
    (n h k : ℕ) (p : List (ℕ × ℕ))
    → used n p ≡ false
    → waits k p ≡ true
    → waits k (insert n h p) ≡ true
waits-insert_kept n h k [] unused w = ground arith
waits-insert_kept n h k ((m, l) ∷ p) unused w = ground (arith, waits-insert_kept n h k p)

pub used-insert : (n h m : ℕ) (p : List (ℕ × ℕ)) → used m (insert n h p) ≡ ((n == m) || used m p)
used-insert n h m [] = ground arith
used-insert n h m ((l, k) ∷ p) = ground (arith, used-insert n h m p)

pub insert-Numbered :
    (n h : ℕ) (p : List (ℕ × ℕ)) → used n p ≡ false → Numbered p → Numbered (insert n h p)
insert-Numbered n h [] unused num = (refl, tt)
insert-Numbered n h ((m, k) ∷ p) unused (new, num) =
    let other : (m == n) ≡ false = ground arith in
    let there : used n p ≡ false = ground arith in
    rw other (ground (arith, used-insert n h m p), insert-Numbered n h p there num)

pub used-deleted : (n m : ℕ) (p : List (ℕ × ℕ)) → used m p ≡ false → used m (delete n p) ≡ false
used-deleted n m [] u = refl
used-deleted n m ((l, k) ∷ p) u = ground (arith, used-deleted n m p)

pub delete-Numbered : (n : ℕ) (p : List (ℕ × ℕ)) → Numbered p → Numbered (delete n p)
delete-Numbered n [] num = tt
delete-Numbered n ((m, k) ∷ p) (new, num) = elim (Bool-cases (m == n)) [
  | inl same ↦ rw same (delete-Numbered n p num)
  | inr other ↦ rw other (used-deleted n m p new, delete-Numbered n p num)
]

pub lookup-used : (n h : ℕ) (p : List (ℕ × ℕ)) → lookup n p ≡ some h → used n p ≡ true
lookup-used n h [] e = ground arith
lookup-used n h ((m, k) ∷ p) e = ground (arith, lookup-used n h p)

pub lookup-unused : (n : ℕ) (p : List (ℕ × ℕ)) → lookup n p ≡ none → used n p ≡ false
lookup-unused n [] e = refl
lookup-unused n ((m, k) ∷ p) e = ground (arith, lookup-unused n p)

pub delete-unused : (n : ℕ) (p : List (ℕ × ℕ)) → used n p ≡ false → delete n p ≡ p
delete-unused n [] u = refl
delete-unused n ((m, k) ∷ p) u = ground (arith, delete-unused n p)

-- Only the call under the number is taken out.
pub waits-kept :
    (n h k : ℕ) (p : List (ℕ × ℕ))
    → Numbered p
    → lookup n p ≡ some h
    → h ≢ k
    → waits k p ≡ true
    → waits k (delete n p) ≡ true
waits-kept n h k [] num e other w = ground arith
waits-kept n h k ((m, l) ∷ p) (new, num) e other w = elim (Bool-cases (m == n)) [
  | inl same ↦ let gone : delete n p ≡ p = delete-unused n p (ground arith) in ground (arith, gone)
  | inr apart ↦ ground (arith, waits-kept n h k p num)
]
