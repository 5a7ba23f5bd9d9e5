-- ===== src/Rpc/Ring/Points.antt =====
-- The points of a ring and their servers.
use go_im_system.Prelude.{
  ℕ, zero, suc, ◌<◌, ◌≡◌, refl, ap, sym, ◌∙◌, subst, List, [], ◌∷◌, ◌++◌, pos, In, In-snoc, In-sort,
  leb, nat_eq, ◌==◌, arith, inl, inr, ◌⊎◌, Bool-cases,
}
use go_im_system.Text.{Text, format_int}
use go_im_system.Rpc.Ring.{Map, new, point, add_point, add_points, add_all, add, server_at}
use go_im_system.Rpc.Ring.Consistent.{server-add_point}

module _ (f : Text → ℕ) where
  abbrev pub place : ℕ → Text → ℕ
  place i s = f (format_int (pos i) ++ s)

  -- The points are those of the servers and numbers in P, and each has a server that it is a point of.
  pub record Has (P : Text → ℕ → Type 0) (m : Map) : Type 0 where
    pub same_hash : m.hash ≡ f
    pub owner :
        (j : ℕ) → In j m.keys → (t : Text) × (i : ℕ) × P t i × (j ≡ place i t) × (server_at j m ≡ t)
    pub there : (t : Text) (i : ℕ) → P t i → In (place i t) m.keys

  Has-map :
      (P Q : Text → ℕ → Type 0) (m : Map)
      → ((t : Text) (i : ℕ) → P t i → Q t i)
      → ((t : Text) (i : ℕ) → Q t i → P t i)
      → Has P m
      → Has Q m
  Has-map P Q m to from h = record {
    same_hash = h.same_hash;
    owner = λ j i. let (t, k, p, at, own) = h.owner j i in (t, k, to t k p, at, own);
    there = λ t i q. h.there t i (from t i q);
  }

  abbrev Joined : (P : Text → ℕ → Type 0) (s : Text) (k : ℕ) → Text → ℕ → Type 0
  Joined P s k t i = P t i ⊎ ((t ≡ s) × (i ≡ k))

  point_at : (m : Map) (k : ℕ) (s : Text) → m.hash ≡ f → point m k s ≡ place k s
  point_at m k s same = ap (λ g. g (format_int (pos k) ++ s)) same

  -- One more point, which takes its place over.
  Has-add_point :
      (P : Text → ℕ → Type 0) (k : ℕ) (s : Text) (m : Map)
      → Has P m
      → Has (Joined P s k) (add_point k s m)
  Has-add_point P k s m h = record {
    same_hash = h.same_hash;
    owner = λ j i. elim (Bool-cases (point m k s == j)) [
      | inl own ↦ (
        s,
        k,
        inr (refl, refl),
        ground (arith, point_at m k s h.same_hash, own),
        server-add_point k s m j ∙ ground (arith, own),
      )
      | inr other ↦ elim ((In-snoc j (point m k s) m.keys).0 i) [
        | inl old ↦
            let (t, l, p, at, name) = h.owner j old in
            (t, l, inl p, at, server-add_point k s m j ∙ ground (arith, other, name))
        | inr new_one ↦ absurd (ground (arith, other, new_one))
      ]
    ];
    there = λ t i p. elim p [
      | inl old ↦ (In-snoc (place i t) (point m k s) m.keys).1 (inl (h.there t i old))
      | inr (same, number) ↦
          (In-snoc (place i t) (point m k s) m.keys).1 (
            inr (ap (place i) same ∙ ap (λ l. place l s) number ∙ sym (point_at m k s h.same_hash)))
    ];
  }

  abbrev Rounds : (P : Text → ℕ → Type 0) (s : Text) (n : ℕ) → Text → ℕ → Type 0
  Rounds P s n t i = P t i ⊎ ((t ≡ s) × (i < n))

  Has-add_points :
      (P : Text → ℕ → Type 0) (n : ℕ) (s : Text) (m : Map)
      → Has P m
      → Has (Rounds P s n) (add_points n s m)
  unfolding add_points
  Has-add_points P zero s m h =
      Has-map P (Rounds P s 0) m (λ t i p. inl p)
        (λ t i q. elim q [ inl p ↦ p | inr (same, none_left) ↦ absurd (omega (arith, none_left)) ])
        h
  Has-add_points P (suc n) s m h =
      Has-map (Joined (Rounds P s n) s n) (Rounds P s (suc n)) (add_point n s (add_points n s m))
        (λ t i q. elim q [
          | inl (inl p) ↦ inl p
          | inl (inr (same, less)) ↦ inr (same, omega (arith, less))
          | inr (same, last) ↦ inr (same, omega (arith, last))
        ])
        (λ t i q. elim q [
          | inl p ↦ inl (inl p)
          | inr (same, less) ↦ elim (Bool-cases (i == n)) [
            | inl last ↦ inr (same, ground (arith, last))
            | inr other ↦ inl (inr (same, ground (arith, less, other)))
          ]
        ])
        (Has-add_point (Rounds P s n) n s (add_points n s m) (Has-add_points P n s m h))

  abbrev Servers : (P : Text → ℕ → Type 0) (ss : List Text) (n : ℕ) → Text → ℕ → Type 0
  Servers P ss n t i = P t i ⊎ (In t ss × (i < n))

  replicas-add_points : (n : ℕ) (s : Text) (m : Map) → (add_points n s m).replicas ≡ m.replicas
  unfolding add_points
  replicas-add_points zero s m = refl
  replicas-add_points (suc n) s m = replicas-add_points n s m

  Has-add_all :
      (P : Text → ℕ → Type 0) (n : ℕ) (ss : List Text) (m : Map)
      → m.replicas ≡ n
      → Has P m
      → Has (Servers P ss n) (add_all ss m)
  unfolding add_all
  Has-add_all P n [] m size h =
      Has-map P (Servers P [] n) m (λ t i p. inl p)
        (λ t i q. elim q [ inl p ↦ p | inr (nobody, less) ↦ elim nobody [ ] ]) h
  Has-add_all P n (s ∷ ss) m size h =
      let m' = add_points m.replicas s m in
      let now : Has (Rounds P s n) m' =
        subst (λ r. Has (Rounds P s r) m') size (Has-add_points P m.replicas s m h) in
      Has-map (Servers (Rounds P s n) ss n) (Servers P (s ∷ ss) n) (add_all ss m')
        (λ t i q. elim q [
          | inl (inl p) ↦ inl p
          | inl (inr (same, less)) ↦ inr (inl same, less)
          | inr (later, less) ↦ inr (inr later, less)
        ])
        (λ t i q. elim q [
          | inl p ↦ inl (inl p)
          | inr (inl same, less) ↦ inl (inr (same, less))
          | inr (inr later, less) ↦ inr (later, less)
        ])
        (Has-add_all (Rounds P s n) n ss m' (replicas-add_points m.replicas s m ∙ size) now)

  -- A ring built from a list of servers.
  abbrev pub Of : ℕ → List Text → Text → ℕ → Type 0
  Of n ss t i = In t ss × (i < n)

  pub Has-add : (n : ℕ) (ss : List Text) → Has (Of n ss) (add ss (new n f))
  unfolding add
  Has-add n ss =
      let q = add_all ss (new n f) in
      let empty : Has (λ t i. ⊥) (new n f) = record {
        same_hash = refl;
        owner = λ j i. elim i [ ];
        there = λ t i p. absurd p;
      } in
      let h =
        Has-map (Servers (λ t i. ⊥) ss n) (Of n ss) q
          (λ t i p. elim p [ inl none_at_all ↦ absurd none_at_all | inr o ↦ o ]) (λ t i o. inr o)
          (Has-add_all (λ t i. ⊥) n ss (new n f) refl empty) in
      record {
        same_hash = h.same_hash;
        owner = λ j i. h.owner j ((In-sort leb j q.keys).0 i);
        there = λ t i o. (In-sort leb (place i t) q.keys).1 (h.there t i o);
      }
