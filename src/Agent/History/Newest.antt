-- ===== src/Agent/History/Newest.antt =====
-- A search gives the newest messages.
use go_im_system.Prelude.{
  ℕ, zero, suc, ◌≤◌, ◌≡◌, refl, ap, ◌∙◌, sym, subst, ◌⊎◌, inl, inr, Bool, true, false, List, [],
  ◌∷◌, some, ℤ, pos, negsuc, take, keep, length, All, All-map, In, insert_by, sort_by, In-sort,
  arith, Bool-cases,
}
use go_im_system.Logic.Messages.{Messages}
use go_im_system.Agent.History.{limit_of, is_between, is_newer, get_history_between_users}

-- Newest first.
abbrev pub Descending : List Messages → Type 0
Descending [] = Unit
Descending (m ∷ ms) = All (λ n. n.create_time ≤ m.create_time) ms × Descending ms

All-insert :
    (k : ℕ) (m : Messages) (ms : List Messages)
    → m.create_time ≤ k
    → All (λ n. n.create_time ≤ k) ms
    → All (λ n. n.create_time ≤ k) (insert_by is_newer m ms)
All-insert k m [] le a = (le, tt)
All-insert k m (n ∷ ms) le (first, a) = elim (Bool-cases (is_newer m n)) [
  | inl before ↦ rw before (le, (first, a))
  | inr after ↦ rw after (first, All-insert k m ms le a)
]

insert-Descending :
    (m : Messages) (ms : List Messages) → Descending ms → Descending (insert_by is_newer m ms)
insert-Descending m [] d = (tt, tt)
insert-Descending m (n ∷ ms) (first, d) = elim (Bool-cases (is_newer m n)) [
  | inl before ↦
      let le : n.create_time ≤ m.create_time = ground (arith, before) in
      rw before ((le, All-map _ _ (λ l small. omega (arith, le, small)) ms first), (first, d))
  | inr after ↦
      let le : m.create_time ≤ n.create_time = ground (arith, after) in
      rw after (All-insert n.create_time m ms le first, insert-Descending m ms d)
]

sort-Descending : (ms : List Messages) → Descending (sort_by is_newer ms)
sort-Descending [] = tt
sort-Descending (m ∷ ms) = insert-Descending m (sort_by is_newer ms) (sort-Descending ms)

All-take {κ} : (P : Messages → Type κ) (k : ℕ) (ms : List Messages) → All P ms → All P (take k ms)
All-take P zero ms a = tt
All-take P (suc k) [] a = tt
All-take P (suc k) (m ∷ ms) (first, a) = (first, All-take P k ms a)

take-Descending : (k : ℕ) (ms : List Messages) → Descending ms → Descending (take k ms)
take-Descending zero ms d = tt
take-Descending (suc k) [] d = tt
take-Descending (suc k) (m ∷ ms) (first, d) = (All-take _ k ms first, take-Descending k ms d)

All-at {κ} : (P : Messages → Type κ) (m : Messages) (ms : List Messages) → All P ms → In m ms → P m
All-at P m [] a there = absurd there
All-at P m (n ∷ ms) (first, a) (inl same) = subst P (sym same) first
All-at P m (n ∷ ms) (first, a) (inr there) = All-at P m ms a there

-- What is cut off is not newer than what is given, and the limit is used up.
take_lem :
    (k : ℕ) (m : Messages) (ms : List Messages)
    → Descending ms
    → In m ms
    → In m (take k ms)
      ⊎ ((length (take k ms) ≡ k) × All (λ n. m.create_time ≤ n.create_time) (take k ms))
take_lem zero m ms d there = inr (refl, tt)
take_lem (suc k) m [] d there = absurd there
take_lem (suc k) m (n ∷ ms) d (inl same) = inl (inl same)
take_lem (suc k) m (n ∷ ms) (first, d) (inr there) = elim (take_lem k m ms d there) [
  | inl given ↦ inl (inr given)
  | inr (full, newer) ↦ inr (ap (λ i. suc i) full, (All-at _ m ms first there, newer))
]

kept-In :
    (p : Messages → Bool) (m : Messages) (ms : List Messages)
    → In m (keep p ms)
    → In m ms × (p m ≡ true)
kept-In p m [] there = absurd there
kept-In p m (n ∷ ms) there = elim (Bool-cases (p n)) [
  | inl fits ↦ elim (rw fits at there) [
    | inl same ↦ (inl same, ap p same ∙ fits)
    | inr later ↦ let (i, q) = kept-In p m ms later in (inr i, q)
  ]
  | inr misfit ↦ let (i, q) = kept-In p m ms (rw misfit at there) in (inr i, q)
]

In-kept :
    (p : Messages → Bool) (m : Messages) (ms : List Messages)
    → In m ms
    → p m ≡ true
    → In m (keep p ms)
In-kept p m [] there q = absurd there
In-kept p m (n ∷ ms) (inl same) q = rw (sym (ap p same) ∙ q) (inl same)
In-kept p m (n ∷ ms) (inr there) q = elim (Bool-cases (p n)) [
  | inl fits ↦ rw fits (inr (In-kept p m ms there q))
  | inr misfit ↦ rw misfit (In-kept p m ms there q)
]

taken-In : (k : ℕ) (m : Messages) (ms : List Messages) → In m (take k ms) → In m ms
taken-In zero m ms there = absurd there
taken-In (suc k) m [] there = absurd there
taken-In (suc k) m (n ∷ ms) (inl same) = inl same
taken-In (suc k) m (n ∷ ms) (inr there) = inr (taken-In k m ms there)

length-take : (k : ℕ) (ms : List Messages) → length (take k ms) ≤ k
length-take zero ms = omega arith
length-take (suc k) [] = omega arith
length-take (suc k) (m ∷ ms) = omega (arith, length-take k ms)

limit_small : (limit : ℤ) → limit_of limit ≤ 200
limit_small (negsuc n) = omega arith
limit_small (pos n) = ground arith

-- What a search gives, where the database answers: at most 200 messages, newest first; each is
-- a row sent by one of the two users to the other in the range of time; and each such row that
-- is not given is not newer than any that is, and then as many are given as the limit says.
pub history_lem :
    (a b : ℤ) (from until : ℕ) (limit : ℤ) (t ms : List Messages)
    → get_history_between_users false a b from until limit t ≡ some ms
    → (length ms ≤ 200)
      × Descending ms
      × ((m : Messages) → In m ms → In m t × (is_between a b from until m ≡ true))
      × ((m : Messages)
          → In m t
          → is_between a b from until m ≡ true
          → In m ms ⊎ ((length ms ≡ limit_of limit) × All (λ n. m.create_time ≤ n.create_time) ms))
unfolding get_history_between_users
history_lem a b from until limit t ms found =
    let between = is_between a b from until in
    let rows = sort_by is_newer (keep between t) in
    let is_taken : take (limit_of limit) rows ≡ ms = ground (arith, found) in
    rw (sym is_taken) (
      omega (arith, length-take (limit_of limit) rows, limit_small limit),
      take-Descending (limit_of limit) rows (sort-Descending (keep between t)),
      λ m there.
          kept-In between m t
            ((In-sort is_newer m (keep between t)).0 (taken-In (limit_of limit) m rows there)),
      λ m there q.
          take_lem (limit_of limit) m rows (sort-Descending (keep between t))
            ((In-sort is_newer m (keep between t)).1 (In-kept between m t there q)),
    )
