-- ===== src/Rpc/XClient/Cache.antt =====
-- The connection that a call goes over.
use go_im_system.Prelude.{
  ℕ, ◌≡◌, refl, Bool, true, Option, none, some, lookup, delete, lookup-insert, lookup-delete,
  nat_eq, list_Eq, list_eq, list_eq_iff, if◌then◌else◌, arith, Bool-cases, inl, inr, ◌⊎◌,
}
use go_im_system.Text.{Text}
use go_im_system.Rpc.XClient.{XClient, dial, use_entry, new_entry, drop_entry}

dial_anew :
    (available : ℕ → Bool) (addr : Text) (h : ℕ) (other : Text) (dialed : Option ℕ) (x : XClient)
    → let (c, x') = new_entry addr dialed (drop_entry addr h x) in
      (lookup other x'.clients ≡ (if list_eq addr other then c else lookup other x.clients))
      × ((c ≡ dialed) ⊎ ((k : ℕ) × (c ≡ some k) × (available k ≡ true) × (x' ≡ x)))
dial_anew available addr h other none x = (lookup-delete addr other x.clients, inl refl)
dial_anew available addr h other (some k) x = (
  ground (
    arith,
    lookup-insert addr other k (delete addr x.clients),
    lookup-delete addr other x.clients,
  ),
  inl refl,
)

dial_entry :
    (available : ℕ → Bool) (addr other : Text) (dialed : Option ℕ) (x : XClient) (o : Option ℕ)
    → lookup addr x.clients ≡ o
    → let (c, x') = use_entry available addr dialed x o in
      (lookup other x'.clients ≡ (if list_eq addr other then c else lookup other x.clients))
      × ((c ≡ dialed) ⊎ ((h : ℕ) × (c ≡ some h) × (available h ≡ true) × (x' ≡ x)))
dial_entry available addr other none x none e =
    (ground (arith, e, list_eq_iff addr other), inl refl)
dial_entry available addr other (some k) x none e = (lookup-insert addr other k x.clients, inl refl)
dial_entry available addr other dialed x (some h) e = elim (Bool-cases (available h)) [
  | inl usable ↦ rw usable (ground (arith, e, list_eq_iff addr other), inr (h, refl, usable, refl))
  | inr shut ↦ rw shut (dial_anew available addr h other dialed x)
]

-- A usable connection is used again; else there is a new one, under this address, or an error and no
-- entry. The other addresses keep their connections.
pub dial_lem :
    (available : ℕ → Bool) (addr other : Text) (dialed : Option ℕ) (x : XClient)
    → let (c, x') = dial available addr dialed x in
      (lookup other x'.clients ≡ (if list_eq addr other then c else lookup other x.clients))
      × ((c ≡ dialed) ⊎ ((h : ℕ) × (c ≡ some h) × (available h ≡ true) × (x' ≡ x)))
unfolding dial
dial_lem available addr other dialed x =
    dial_entry available addr other dialed x (lookup addr x.clients) refl
