-- ===== src/Rpc/Ring/Members.antt =====
-- Every key is sent to one of the servers, the one whose point is next.
use go_im_system.Prelude.{
  ℕ, suc, ◌≡◌, ◌≢◌, refl, sym, subst, ◌∙◌, List, [], ◌∷◌, In, In-sort, In-snoc, leb, inl, inr, ◌⊎◌,
}
use go_im_system.Text.{Text}
use go_im_system.Rpc.Ring.{
  Map, new, add_points, add_all, add, get, server_at, sort_ints, sort_keys, point,
}
use go_im_system.Rpc.Ring.Successor.{Sorted, Successor, sort-Sorted}
use go_im_system.Rpc.Ring.Consistent.{points_of, points_kept, ring_cases, get_at}

-- On a ring with at least one point, the points sorted, the server of a key is the one at the
-- first point at or after the key's hash, or, if the hash is past all points, the one at the
-- smallest point.
pub get-Successor :
    (key : Text) (m : Map)
    → Sorted m.keys
    → m.keys ≢ []
    → (j : ℕ) × (get key m ≡ server_at j m) × Successor (m.hash key) m.keys j
get-Successor key m sorted some_key = elim (ring_cases (m.hash key) m.keys sorted) [
  | inl empty ↦ elim (some_key empty) [ ]
  | inr (j, found, next) ↦ (j, get_at key m j found, next)
]

servers_of :
    (servers : List Text) (m : Map) (j : ℕ)
    → In j (add_all servers m).keys
    → In (server_at j (add_all servers m)) servers
      ⊎ (In j m.keys × (server_at j (add_all servers m) ≡ server_at j m))
unfolding add_all
servers_of [] m j i = inr (i, refl)
servers_of (s ∷ rest) m j i =
    let m' = add_points m.replicas s m in
    elim (servers_of rest m' j i) [
      | inl later ↦ inl (inr later)
      | inr (now, same) ↦ elim (points_of m.replicas s m j now) [
        | inl own ↦ inl (inl (same ∙ own))
        | inr (before, old) ↦ inr (before, same ∙ old)
      ]
    ]

servers_kept : (servers : List Text) (m : Map) (j : ℕ) → In j m.keys → In j (add_all servers m).keys
unfolding add_all
servers_kept [] m j i = i
servers_kept (s ∷ rest) m j i =
    servers_kept rest (add_points m.replicas s m) j (points_kept m.replicas s m j i)

-- A server has a point if there are replicas.
first_point : (n : ℕ) (s : Text) (m : Map) → (j : ℕ) × In j (add_points (suc n) s m).keys
unfolding add_points
first_point n s m = let m' = add_points n s m in (point m' n s, (In-snoc _ _ m'.keys).1 (inr refl))

-- A ring built from at least one server, with at least one virtual node for each, sends every
-- key to one of these servers, whatever the hash function.
pub get-In :
    (fn : Text → ℕ) (r : ℕ) (s key : Text) (servers : List Text)
    → In (get key (add (s ∷ servers) (new (suc r) fn))) (s ∷ servers)
unfolding add add_all
get-In fn r s key servers =
    let q = add_all (s ∷ servers) (new (suc r) fn) in
    let (i, first) = first_point r s (new (suc r) fn) in
    let there =
      (In-sort leb i q.keys).1
        (servers_kept servers (add_points (suc r) s (new (suc r) fn)) i first) in
    let nonempty : sort_ints q.keys ≢ [] = λ e. elim (subst (In i) e there) [ ] in
    let (j, at, next) = get-Successor key (sort_keys q) (sort-Sorted q.keys) nonempty in
    elim (servers_of (s ∷ servers) (new (suc r) fn) j ((In-sort leb j q.keys).0 next.0)) [
      | inl one ↦ subst (λ t. In t (s ∷ servers)) (sym at) one
      | inr (none_before, same) ↦ elim none_before [ ]
    ]
