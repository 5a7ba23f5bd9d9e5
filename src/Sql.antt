-- ===== src/Sql.antt =====
-- Tables as lists of rows in the order of insertion, and the SQL that the data layers send:
-- `SELECT … WHERE`, `UPDATE … WHERE` with its count of rows, and `INSERT` under a primary key.
use go_im_system.Prelude.{
  ℕ, suc, ◌≡◌, refl, Bool, true, false, List, [], ◌∷◌, ◌++◌, Option, none, some, if◌then◌else◌,
  keep, Eq, arith,
}

module _ {ℓ} {A : Type ℓ} where
  abbrev pub select_where : (A → Bool) → List A → List A
  select_where = keep

  abbrev pub update_where : (A → Bool) → (A → A) → List A → List A
  update_where p f [] = []
  update_where p f (r ∷ rs) = (if p r then f r else r) ∷ update_where p f rs

  abbrev pub affected : (A → Bool) → List A → ℕ
  affected p [] = 0
  affected p (r ∷ rs) = let rest = affected p rs in if p r then suc rest else rest

module _ {ℓ κ} {A : Type ℓ} {K : Type κ} ⦃e : Eq K⦄ (key : A → K) where
  abbrev pub has_key : K → List A → Bool
  has_key k [] = false
  has_key k (r ∷ rs) = if e.test (key r) k then true else has_key k rs

  abbrev pub find_row : K → List A → Option A
  find_row k [] = none
  find_row k (r ∷ rs) = if e.test (key r) k then some r else find_row k rs

  -- `none` is the error that the server sends: a duplicate key, or a fault of its own.
  abbrev pub insert_row : Bool → A → List A → Option (List A)
  insert_row fault r rs =
      if fault then none else if has_key (key r) rs then none else some (rs ++ r ∷ [])

  -- No two rows share a key.
  abbrev pub UniqueKeys : List A → Type 0
  UniqueKeys [] = Unit {0}
  UniqueKeys (r ∷ rs) = (has_key (key r) rs ≡ false) × UniqueKeys rs

  pub has_key-append :
      (k : K) (rs : List A) (r : A)
      → has_key k (rs ++ r ∷ []) ≡ (if has_key k rs then true else e.test (key r) k)
  has_key-append k [] r = ground arith
  has_key-append k (x ∷ rs) r = ground (arith, has_key-append k rs r)

  pub UniqueKeys-append :
      (rs : List A) (r : A) → UniqueKeys rs → has_key (key r) rs ≡ false → UniqueKeys (rs ++ r ∷ [])
  UniqueKeys-append [] r u h = (refl, tt)
  UniqueKeys-append (x ∷ rs) r u h = (
    ground (
      arith,
      has_key-append (key x) rs r,
      e.test_iff (key r) (key x),
      e.test_iff (key x) (key r),
    ),
    UniqueKeys-append rs r u.1 (ground arith),
  )

  pub insert_row-UniqueKeys :
      (fault : Bool) (r : A) (rs rs' : List A)
      → UniqueKeys rs
      → insert_row fault r rs ≡ some rs'
      → UniqueKeys rs'
  insert_row-UniqueKeys fault r rs rs' u h = ground (arith, UniqueKeys-append rs r u)

  pub has_key-update :
      (k : K) (p : A → Bool) (f : A → A) (rs : List A)
      → ((r : A) → key (f r) ≡ key r)
      → has_key k (update_where p f rs) ≡ has_key k rs
  has_key-update k p f [] h = refl
  has_key-update k p f (r ∷ rs) h = ground (arith, h r, has_key-update k p f rs h)

  pub UniqueKeys-update :
      (p : A → Bool) (f : A → A) (rs : List A)
      → ((r : A) → key (f r) ≡ key r)
      → UniqueKeys rs
      → UniqueKeys (update_where p f rs)
  UniqueKeys-update p f [] h u = tt
  UniqueKeys-update p f (r ∷ rs) h u =
      ground (arith, h r, has_key-update (key r) p f rs h, UniqueKeys-update p f rs h u.1)

  pub find_row-append :
      (rs : List A) (r : A) → has_key (key r) rs ≡ false → find_row (key r) (rs ++ r ∷ []) ≡ some r
  find_row-append [] r h = ground (arith, e.test_iff (key r) (key r))
  find_row-append (x ∷ rs) r h = ground (arith, find_row-append rs r)
