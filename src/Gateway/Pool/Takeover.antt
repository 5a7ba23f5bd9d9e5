-- ===== src/Gateway/Pool/Takeover.antt =====
-- One user, two connections: the later one takes the place of the earlier, and the end of the
-- earlier one does not disturb it.
use go_im_system.Prelude.{
  ==_iff, subst, ◌↔◌, ◌↔◌, ℕ, ◌≡◌, refl, sym, ap, ◌∙◌, ◌≢◌, inl, inr, Bool, true, none, some, ℤ,
  lookup, insert, delete, if◌then◌else◌, list_Eq, nat_eq, list_eq, list_eq_iff, lookup-insert,
  lookup-delete, Option-cases, arith,
}
use go_im_system.Text.{Text, format_int}
use go_im_system.Gateway.Client.{Client, kick, close, send_message}
use go_im_system.Gateway.Pool.{Pool, get_route, route_of, register, remove, leave, get_client}

close-closed : (c : Client) → (close c).closed ≡ true
unfolding close
close-closed c = ground arith

close-uid : (c : Client) → (close c).uid ≡ c.uid
unfolding close
close-uid c = ground arith

send_message-uid : (k : Bool) (c : Client) → (send_message k kick c).uid ≡ c.uid
unfolding send_message
send_message-uid k c = ground arith

abbrev pub key_eq : Text → Text → Bool
key_eq = list_eq

abbrev key_eq_iff : (x y : Text) → (key_eq x y ≡ true) ↔ (x ≡ y)
key_eq_iff = list_eq_iff

register-clients :
    (uid : ℤ) (h : ℕ) (k : Bool) (p : Pool)
    → (register uid h k p).clients ≡ insert (format_int uid) h p.clients
unfolding register
register-clients uid h k p = elim (Option-cases (lookup (format_int uid) p.clients)) [
  | inl none_there ↦ rw (none_there, register)
  | inr (old, there) ↦ rw (there, register)
]

get-register :
    (uid : ℤ) (h : ℕ) (k : Bool) (p : Pool) (key : Text)
    → get_client key (register uid h k p)
      ≡ (if key_eq (format_int uid) key then some h else get_client key p)
unfolding get_client
get-register uid h k p key =
    rw (register-clients uid h k p) (lookup-insert (format_int uid) key h p.clients)

register-object :
    (uid : ℤ) (h old : ℕ) (k : Bool) (p : Pool)
    → get_client (format_int uid) p ≡ some old
    → ((register uid h k p).object old).closed ≡ true
unfolding register get_client
register-object uid h old k p there =
    rw (there, register) (ground (arith, close-closed (send_message k kick (p.object old))))

register-uid :
    (uid : ℤ) (h i : ℕ) (k : Bool) (p : Pool)
    → ((register uid h k p).object i).uid ≡ (p.object i).uid
unfolding register
register-uid uid h i k p = elim (Option-cases (lookup (format_int uid) p.clients)) [
  | inl none_there ↦ rw (none_there, register)
  | inr (old, there) ↦
      rw (there, register)
        (ground (
          arith,
          close-uid (send_message k kick (p.object old)),
          send_message-uid k (p.object old),
        ))
]

register-routes : (uid : ℤ) (h : ℕ) (k : Bool) (p : Pool) → (register uid h k p).routes ≡ p.routes
unfolding register
register-routes uid h k p = elim (Option-cases (lookup (format_int uid) p.clients)) [
  | inl none_there ↦ rw (none_there, register)
  | inr (old, there) ↦ rw (there, register)
]

get-clients :
    (p q : Pool) (key : Text) → p.clients ≡ q.clients → get_client key p ≡ get_client key q
unfolding get_client
get-clients p q key e = ap (lookup key) e

-- A connection that is not the one in the map leaves: the map, the routes and the other connections
-- stay as they are.
stale_leave :
    (h old : ℕ) (p : Pool)
    → get_client (format_int (p.object old).uid) p ≡ some h
    → h ≢ old
    → ((leave old p).clients ≡ p.clients)
      × ((leave old p).routes ≡ p.routes)
      × ((leave old p).object h ≡ p.object h)
unfolding leave remove get_client
stale_leave h old p there ne = (
  rw (there, leave, remove) (ground arith),
  rw (there, leave, remove) (ground arith),
  rw (there, leave, remove) (ground arith),
)

-- A user who is connected connects anew: the old connection is closed, and when it leaves
-- later, the map holds the new one for that user and everybody else as before, the routes are
-- those before the takeover, and the new connection is untouched.
pub takeover :
    (uid : ℤ) (h old : ℕ) (k : Bool) (p : Pool)
    → get_client (format_int uid) p ≡ some old
    → (p.object old).uid ≡ uid
    → h ≢ old
    → let q = register uid h k p in
      ((q.object old).closed ≡ true)
      × ((key : Text)
          → get_client key (leave old q)
            ≡ (if key_eq (format_int uid) key then some h else get_client key p))
      × ((leave old q).routes ≡ p.routes)
      × ((leave old q).object h ≡ q.object h)
takeover uid h old k p there own ne =
    let q = register uid h k p in
    let own' : (q.object old).uid ≡ uid = register-uid uid h old k p ∙ own in
    let mine =
      get-register uid h k p (format_int uid)
      ∙ ap (λ b. if b then some h else get_client (format_int uid) p)
          ((key_eq_iff (format_int uid) (format_int uid)).1 refl) in
    let there' : get_client (format_int (q.object old).uid) q ≡ some h =
      subst (λ u. get_client (format_int u) q ≡ some h) (sym own') mine in
    let stale = stale_leave h old q there' ne in
    (
      register-object uid h old k p there,
      λ key. get-clients (leave old q) q key stale.0 ∙ get-register uid h k p key,
      stale.1 ∙ register-routes uid h k p,
      stale.2,
    )

removed : Text → Pool → Pool
removed key p = record p { clients = delete key p.clients; routes = delete (route_of key) p.routes }

remove_own :
    (key : Text) (h : ℕ) (p : Pool) → get_client key p ≡ some h → remove key h p ≡ removed key p
unfolding remove get_client removed
remove_own key h p there = rw (there, remove, (==_iff h h).1 refl)

route_of-eq : (key other : Text) → key_eq (route_of key) (route_of other) ≡ key_eq key other
route_of-eq key other = refl

get_route-removed :
    (key other : Text) (now : ℕ) (p : Pool)
    → get_route other now (removed key p)
      ≡ (if key_eq key other then none else get_route other now p)
unfolding get_route removed
get_route-removed key other now p =
    rw (lookup-delete (route_of key) (route_of other) p.routes, get_route, route_of-eq key other)
      (ground arith)

-- The connection that the map holds for its user leaves: it is closed, the user has neither an
-- entry nor a route any more, and every other entry and route is as before.
pub owner_leave :
    (h now : ℕ) (p : Pool)
    → get_client (format_int (p.object h).uid) p ≡ some h
    → let key = format_int (p.object h).uid in
      (((leave h p).object h).closed ≡ true)
      × ((other : Text)
          → get_client other (leave h p) ≡ (if key_eq key other then none else get_client other p))
      × ((other : Text)
          → get_route other now (leave h p)
            ≡ (if key_eq key other then none else get_route other now p))
unfolding leave
owner_leave h now p there =
    let key = format_int (p.object h).uid in
    let gone = remove_own key h p there in
    (
      rw gone (unfold removed in (ground (arith, close-closed (p.object h)))),
      λ other. unfold get_client removed in (rw gone (lookup-delete key other p.clients)),
      λ other. rw gone (unfold get_route in (get_route-removed key other now p)),
    )
