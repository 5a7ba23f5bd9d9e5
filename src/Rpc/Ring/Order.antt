-- ===== src/Rpc/Ring/Order.antt =====
-- The ring depends on which servers there are, not on their order.
use go_im_system.Prelude.{ℕ, ◌<◌, ◌≡◌, ap, sym, ◌∙◌, subst, List, In, nat_eq, inl, inr, ◌↔◌}
use go_im_system.Text.{Text}
use go_im_system.Rpc.Ring.{Map, new, add_all, add, server_at, get}
use go_im_system.Rpc.Ring.Successor.{Sorted, Successor, Successor-unique, sort-Sorted}
use go_im_system.Rpc.Ring.Consistent.{ring_cases, get_at, get_none}
use go_im_system.Rpc.Ring.Points.{place, Has-add}

module _ (f : Text → ℕ) where
  -- No point of one of the servers is a point of another.
  abbrev pub NoCollision : ℕ → List Text → Type 0
  NoCollision n ss =
      (s t : Text) (i k : ℕ) → In s ss → In t ss → i < n → k < n → place f i s ≡ place f k t → s ≡ t

  abbrev pub ring : ℕ → List Text → Map
  ring n ss = add ss (new n f)

  ring-Sorted : (n : ℕ) (ss : List Text) → Sorted (ring n ss).keys
  unfolding add
  ring-Sorted n ss = sort-Sorted (add_all ss (new n f)).keys

  -- Servers that are on one list only have no points on the other's ring.
  shared :
      (n : ℕ) (ss ts : List Text) (j : ℕ)
      → ((t : Text) → In t ss → In t ts)
      → In j (ring n ss).keys
      → In j (ring n ts).keys
  shared n ss ts j sub i =
      let (t, k, (here, less), at, own) = (Has-add f n ss).owner j i in
      subst (λ l. In l (ring n ts).keys) (sym at) ((Has-add f n ts).there t k (sub t here, less))

  next_moves :
      (h j : ℕ) (ks ls : List ℕ)
      → ((i : ℕ) → In i ks → In i ls)
      → ((i : ℕ) → In i ls → In i ks)
      → Successor h ks j
      → Successor h ls j
  next_moves h j ks ls to from (here, next) = (
    to j here,
    elim next [
      | inl (after, least) ↦ inl (after, λ i at. least i (from i at))
      | inr (past, all) ↦ inr (past, λ i at. all i (from i at))
    ],
  )

  one_owner :
      (n : ℕ) (ss ts : List Text) (j : ℕ)
      → NoCollision n ss
      → ((t : Text) → In t ts → In t ss)
      → In j (ring n ss).keys
      → In j (ring n ts).keys
      → server_at j (ring n ss) ≡ server_at j (ring n ts)
  one_owner n ss ts j apart sub i k =
      let (s, a, (here, small), at, own) = (Has-add f n ss).owner j i in
      let (t, b, (there, little), at', own') = (Has-add f n ts).owner j k in
      own ∙ apart s t a b here (sub t there) small little (sym at ∙ at') ∙ sym own'

  -- Two rings are built, with the same hash function and number of virtual nodes, from lists
  -- with the same servers, in any order and any of them more than once; no point of one of
  -- the servers is a point of another. Then the two rings send every key to the same server.
  pub same_ring :
      (n : ℕ) (ss ts : List Text) (key : Text)
      → ((t : Text) → In t ss ↔ In t ts)
      → NoCollision n ss
      → get key (ring n ss) ≡ get key (ring n ts)
  same_ring n ss ts key same apart =
      let m = ring n ss in
      let q = ring n ts in
      let to : (i : ℕ) → In i m.keys → In i q.keys = λ i. shared n ss ts i (λ t. (same t).0) in
      let from : (i : ℕ) → In i q.keys → In i m.keys = λ i. shared n ts ss i (λ t. (same t).1) in
      elim (ring_cases (m.hash key) m.keys (ring-Sorted n ss)) [
        | inl none_here ↦ elim (ring_cases (q.hash key) q.keys (ring-Sorted n ts)) [
          | inl none_there ↦ get_none key m none_here ∙ sym (get_none key q none_there)
          | inr (j, found, next) ↦ elim (subst (In j) none_here (from j next.0)) [ ]
        ]
        | inr (j, found, next) ↦ elim (ring_cases (q.hash key) q.keys (ring-Sorted n ts)) [
          | inl none_there ↦ elim (subst (In j) none_there (to j next.0)) [ ]
          | inr (k, found', next') ↦
              let hashes = (Has-add f n ss).same_hash ∙ sym (Has-add f n ts).same_hash in
              let moved : Successor (q.hash key) q.keys j =
                subst (λ g. Successor (g key) q.keys j) hashes
                  (next_moves (m.hash key) j m.keys q.keys to from next) in
              let one : j ≡ k = Successor-unique (q.hash key) q.keys j k moved next' in
              get_at key m j found
              ∙ one_owner n ss ts j apart (λ t. (same t).1) next.0 (to j next.0)
              ∙ ap (λ l. server_at l q) one
              ∙ sym (get_at key q k found')
        ]
      ]
