-- ===== src/Rpc/Ring/Successor.antt =====
-- The search on the ring finds the next point clockwise.
use native.Mathlib.Nat.{mod-eq_of_lt, mod_self}
use go_im_system.Prelude.{
  insert_by, All-map, subst, sym, Bool-cases, leb, leb→le, ℕ, suc, ◌%◌, ◌≤◌, ◌<◌, ◌≡◌, refl, ap,
  ◌∙◌, List, [], ◌∷◌, some, length, get_elem?, All, In, inl, inr, ◌⊎◌, arith, leb,
}
use go_im_system.Rpc.Ring.{sort_ints, search, clockwise}

abbrev pub Sorted : List ℕ → Type 0
Sorted [] = Unit
Sorted (k ∷ ks) = All (λ j. k ≤ j) ks × Sorted ks

-- The first point at or after `h`, or, past the last one, the first of the ring.
abbrev pub Successor : ℕ → List ℕ → ℕ → Type 0
Successor h ks k =
    In k ks
    × (((h ≤ k) × ((j : ℕ) → In j ks → h ≤ j → k ≤ j))
        ⊎ ((k < h) × ((j : ℕ) → In j ks → (j < h) × (k ≤ j))))

pub Successor-unique : (h : ℕ) (ks : List ℕ) (k j : ℕ) → Successor h ks k → Successor h ks j → k ≡ j
Successor-unique h ks k j (ik, inl (hk, least)) (ij, inl (hj, least')) =
    omega (arith, least j ij hj, least' k ik hk)
Successor-unique h ks k j (ik, inl (hk, least)) (ij, inr (hj, all)) = omega (arith, (all k ik).0)
Successor-unique h ks k j (ik, inr (hk, all)) (ij, inl (hj, least)) = omega (arith, (all j ij).0)
Successor-unique h ks k j (ik, inr (hk, all)) (ij, inr (hj, all')) =
    omega (arith, (all j ij).1, (all' k ik).1)

pub In-All : (P : ℕ → Type 0) (ks : List ℕ) (j : ℕ) → All P ks → In j ks → P j
In-All P [] j ps i = elim i [ ]
In-All P (k ∷ ks) j (p, ps) (inl e) = subst P (sym e) p
In-All P (k ∷ ks) j (p, ps) (inr i) = In-All P ks j ps i

insert-All : (P : ℕ → Type 0) (k : ℕ) (ks : List ℕ) → P k → All P ks → All P (insert_by leb k ks)
insert-All P k [] p ps = (p, tt)
insert-All P k (j ∷ ks) p (q, ps) = elim (Bool-cases (leb k j)) [
  | inl le ↦ rw le (p, (q, ps))
  | inr gt ↦ rw gt (q, insert-All P k ks p ps)
]

insert-Sorted : (k : ℕ) (ks : List ℕ) → Sorted ks → Sorted (insert_by leb k ks)
insert-Sorted k [] s = (tt, tt)
insert-Sorted k (j ∷ ks) (least, s) = elim (Bool-cases (leb k j)) [
  | inl le ↦
      let below = leb→le k j le in
      rw le ((below, All-map (λ i. j ≤ i) (λ i. k ≤ i) (λ i h. omega arith) ks least), (least, s))
  | inr gt ↦ rw gt (insert-All (λ i. j ≤ i) k ks (ground arith) least, insert-Sorted k ks s)
]

pub sort-Sorted : (ks : List ℕ) → Sorted (sort_ints ks)
sort-Sorted [] = tt
sort-Sorted (k ∷ ks) = insert-Sorted k (sort_ints ks) (sort-Sorted ks)

head-least : (k : ℕ) (ks : List ℕ) → All (λ j. k ≤ j) ks → (j : ℕ) → In j (k ∷ ks) → k ≤ j
head-least k ks least j (inl e) = omega arith
head-least k ks least j (inr i) = In-All (λ l. k ≤ l) ks j least i

-- Either a point at or after `h` is found, or all are before it.
search_lem :
    (h : ℕ) (ks : List ℕ)
    → Sorted ks
    → ((k : ℕ) × (get_elem? ks (search h ks) ≡ some k)
        × (search h ks < length ks)
        × In k ks
        × (h ≤ k)
        × ((j : ℕ) → In j ks → h ≤ j → k ≤ j))
      ⊎ ((search h ks ≡ length ks) × ((j : ℕ) → In j ks → j < h))
search_lem h [] s = inr (refl, λ j i. elim i [ ])
search_lem h (k ∷ ks) (least, s) = elim (Bool-cases (leb h k)) [
  | inl le ↦
      rw le
        (inl (k, refl, omega arith, inl refl, leb→le h k le, λ j i hj. head-least k ks least j i))
  | inr gt ↦
      let before : k < h = ground arith in
      elim (search_lem h ks s) [
        | inl (j, there, fits, i, hj, first) ↦ rw gt (
            inl (
              j,
              there,
              omega arith,
              inr i,
              hj,
              λ l i' hl. elim i' [ inl e ↦ omega arith | inr m ↦ first l m hl ],
            ))
        | inr (none_found, all) ↦
            rw gt
              (inr (ap suc none_found, λ l i'. elim i' [ inl e ↦ omega arith | inr m ↦ all l m ]))
      ]
]

-- Cl
pub clockwise-Successor :
    (h k : ℕ) (ks : List ℕ)
    → Sorted (k ∷ ks)
    → (j : ℕ) × (clockwise h (k ∷ ks) ≡ some j) × Successor h (k ∷ ks) j
clockwise-Successor h k ks (least, s) = elim (search_lem h (k ∷ ks) (least, s)) [
  | inl (j, there, fits, i, hj, first) ↦
      (j, ap (get_elem? (k ∷ ks)) (mod-eq_of_lt fits) ∙ there, (i, inl (hj, first)))
  | inr (none_found, all) ↦
      let start : search h (k ∷ ks) % length (k ∷ ks) ≡ 0 =
        ap (λ n. n % length (k ∷ ks)) none_found ∙ mod_self (length (k ∷ ks)) in
      (
        k,
        ap (get_elem? (k ∷ ks)) start,
        (inl refl, inr (all k (inl refl), λ j i. (all j i, head-least k ks least j i))),
      )
]
