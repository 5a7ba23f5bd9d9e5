-- ===== src/Prelude/Sort.antt =====
-- A sort by insertion, in place of the library's sorts.
use mathlib.Core.Path.{◌≡◌}
use mathlib.Core.Logic.{◌↔◌, ◌⊎◌, inl, inr}
use mathlib.Core.Bool.{Bool}
use mathlib.Core.List.{List, [], ◌∷◌, ◌++◌}
use native.Mathlib.Omega.{arith}
use go_im_system.Prelude.Tests.{if◌then◌else◌, Bool-cases}
use go_im_system.Prelude.Lists.{In}

module _ {A : Type 0} where
  abbrev pub insert_by : (A → A → Bool) → A → List A → List A
  insert_by le k [] = k ∷ []
  insert_by le k (j ∷ ks) = if le k j then k ∷ (j ∷ ks) else j ∷ insert_by le k ks

  abbrev pub sort_by : (A → A → Bool) → List A → List A
  sort_by le [] = []
  sort_by le (k ∷ ks) = insert_by le k (sort_by le ks)

  In-insert :
      (le : A → A → Bool) (j k : A) (ks : List A) → In j (insert_by le k ks) → (j ≡ k) ⊎ In j ks
  In-insert le j k [] i = i
  In-insert le j k (l ∷ ks) i = elim (Bool-cases (le k l)) [
    | inl first ↦ rw first at i
    | inr later ↦ elim (rw later at i) [
      | inl e ↦ inr (inl e)
      | inr m ↦ elim (In-insert le j k ks m) [ inl e ↦ inl e | inr there ↦ inr (inr there) ]
    ]
  ]

  In-inserted :
      (le : A → A → Bool) (j k : A) (ks : List A) → (j ≡ k) ⊎ In j ks → In j (insert_by le k ks)
  In-inserted le j k [] i = i
  In-inserted le j k (l ∷ ks) i = elim (Bool-cases (le k l)) [
    | inl first ↦ rw first i
    | inr later ↦ rw later (elim i [
      | inl e ↦ inr (In-inserted le j k ks (inl e))
      | inr (inl e) ↦ inl e
      | inr (inr m) ↦ inr (In-inserted le j k ks (inr m))
    ])
  ]

  pub In-sort : (le : A → A → Bool) (j : A) (ks : List A) → In j (sort_by le ks) ↔ In j ks
  In-sort le j [] = (λ i. i, λ i. i)
  In-sort le j (k ∷ ks) = (
    λ i. elim (In-insert le j k (sort_by le ks) i) [
      | inl e ↦ inl e
      | inr m ↦ inr ((In-sort le j ks).0 m)
    ],
    λ i.
        In-inserted le j k (sort_by le ks)
          (elim i [ inl e ↦ inl e | inr m ↦ inr ((In-sort le j ks).1 m) ]),
  )

  pub In-snoc : (j k : A) (ks : List A) → In j (ks ++ k ∷ []) ↔ (In j ks ⊎ (j ≡ k))
  In-snoc j k [] = ground arith
  In-snoc j k (l ∷ ks) = ground (arith, In-snoc j k ks)
