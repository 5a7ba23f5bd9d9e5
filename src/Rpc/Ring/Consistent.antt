-- ===== src/Rpc/Ring/Consistent.antt =====
-- What a new server takes over.
use go_im_system.Prelude.{
  In-sort, In-snoc, leb, ℕ, zero, suc, ◌≡◌, refl, sym, ap, subst, ◌∙◌, List, [], ◌∷◌, some,
  lookup-insert, In, inl, inr, ◌⊎◌, arith, leb, Bool-cases, ◌==◌, nat_eq, if◌then◌else◌,
}
use go_im_system.Text.{Text}
use go_im_system.Rpc.Ring.{
  Map, point, add_point, add_points, add_all, add, get, server_at, clockwise, sort_ints, sort_keys,
}
use go_im_system.Rpc.Ring.Successor.{
  Sorted, Successor, Successor-unique, sort-Sorted, clockwise-Successor,
}

pub server-add_point :
    (i : ℕ) (s : Text) (m : Map) (j : ℕ)
    → server_at j (add_point i s m) ≡ (if point m i s == j then s else server_at j m)
server-add_point i s m j = ground (arith, lookup-insert (point m i s) j s m.hash_map)

hash_add_points : (n : ℕ) (s : Text) (m : Map) → (add_points n s m).hash ≡ m.hash
unfolding add_points
hash_add_points zero s m = refl
hash_add_points (suc n) s m = hash_add_points n s m

-- The points that a server adds carry its name; the others carry what they carried.
pub points_of :
    (n : ℕ) (s : Text) (m : Map) (j : ℕ)
    → In j (add_points n s m).keys
    → (server_at j (add_points n s m) ≡ s)
      ⊎ (In j m.keys × (server_at j (add_points n s m) ≡ server_at j m))
unfolding add_points
points_of zero s m j i = inr (i, refl)
points_of (suc n) s m j i =
    let m' = add_points n s m in
    let k = point m' n s in
    let read = server-add_point n s m' j in
    elim (Bool-cases (k == j)) [
      | inl same ↦ inl (read ∙ ap (λ b. if b then s else server_at j m') same)
      | inr other ↦
          let unread = read ∙ ap (λ b. if b then s else server_at j m') other in
          elim ((In-snoc j k m'.keys).0 i) [
            | inr e ↦ ground arith
            | inl there ↦ elim (points_of n s m j there) [
              | inl new_one ↦ inl (unread ∙ new_one)
              | inr (before, old_one) ↦ inr (before, unread ∙ old_one)
            ]
          ]
    ]

pub points_kept : (n : ℕ) (s : Text) (m : Map) (j : ℕ) → In j m.keys → In j (add_points n s m).keys
unfolding add_points
points_kept zero s m j i = i
points_kept (suc n) s m j i =
    let m' = add_points n s m in (In-snoc j (point m' n s) m'.keys).1 (inl (points_kept n s m j i))

pub ring_cases :
    (h : ℕ) (ks : List ℕ)
    → Sorted ks
    → (ks ≡ []) ⊎ ((j : ℕ) × (clockwise h ks ≡ some j) × Successor h ks j)
ring_cases h [] s = inl refl
ring_cases h (k ∷ ks) s = inr (clockwise-Successor h k ks s)

pub get_at :
    (key : Text) (m : Map) (j : ℕ)
    → clockwise (m.hash key) m.keys ≡ some j
    → get key m ≡ server_at j m
unfolding get
get_at key m j found = rw (get, found) refl

pub get_none : (key : Text) (m : Map) → m.keys ≡ [] → get key m ≡ []
unfolding get
get_none key m empty = rw (get, empty) refl

none_inside : (ks ls : List ℕ) → ((i : ℕ) → In i ks → In i ls) → ls ≡ [] → ks ≡ []
none_inside [] ls sub e = refl
none_inside (k ∷ ks) ls sub e = elim (subst (In k) e (sub k (inl refl))) [ ]

narrow :
    (h j : ℕ) (ks ls : List ℕ)
    → ((i : ℕ) → In i ks → In i ls)
    → In j ks
    → Successor h ls j
    → Successor h ks j
narrow h j ks ls sub here (_, inl (after, least)) = (here, inl (after, λ i m. least i (sub i m)))
narrow h j ks ls sub here (_, inr (before, all)) = (here, inr (before, λ i m. all i (sub i m)))

-- The ring after a server is added, as its points say.
moves :
    (s key : Text) (m : Map) (j : ℕ)
    → Sorted m.keys
    → let q = add_points m.replicas s m in
      Successor (m.hash key) (sort_ints q.keys) j
      → (server_at j q ≡ get key m) ⊎ (server_at j q ≡ s)
moves s key m j sorted next =
    let n = m.replicas in
    let q = add_points n s m in
    elim (points_of n s m j ((In-sort leb j q.keys).0 next.0)) [
      | inl new_one ↦ inr new_one
      | inr (before, old_one) ↦
          let old =
            narrow (m.hash key) j m.keys (sort_ints q.keys)
              (λ i k. (In-sort leb i q.keys).1 (points_kept n s m i k)) before next in
          elim (ring_cases (m.hash key) m.keys sorted) [
            | inl empty ↦ elim (subst (In j) empty before) [ ]
            | inr (i, found, first) ↦
                let same = Successor-unique (m.hash key) m.keys i j first old in
                inl (old_one ∙ sym (get_at key m j (found ∙ ap some same)))
          ]
    ]

-- On a ring whose points are sorted, adding a server moves no key between the servers that were
-- there: each key keeps its server or goes to the new one, collisions of points included.
pub add-get :
    (s key : Text) (m : Map)
    → Sorted m.keys
    → (get key (add (s ∷ []) m) ≡ get key m) ⊎ (get key (add (s ∷ []) m) ≡ s)
unfolding add add_all
add-get s key m sorted =
    let n = m.replicas in
    let q = add_points n s m in
    let same_hash : q.hash key ≡ m.hash key = ap (λ f. f key) (hash_add_points n s m) in
    elim (ring_cases (m.hash key) (sort_ints q.keys) (sort-Sorted q.keys)) [
      | inl empty ↦
          let was =
            none_inside m.keys (sort_ints q.keys)
              (λ i k. (In-sort leb i q.keys).1 (points_kept n s m i k)) empty in
          inl (get_none key (sort_keys q) empty ∙ sym (get_none key m was))
      | inr (j, found, next) ↦
          let there =
            get_at key (sort_keys q) j
              (ap (λ h. clockwise h (sort_ints q.keys)) same_hash ∙ found) in
          elim (moves s key m j sorted next) [
            | inl stays ↦ inl (there ∙ stays)
            | inr goes ↦ inr (there ∙ goes)
          ]
    ]
