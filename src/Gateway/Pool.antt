-- ===== src/Gateway/Pool.antt =====
-- apps/gateway/ws/manager.go: the map of the clients, which are shared objects: the map and the pumps
-- hold handles into a heap. Redis' routing table is a list of keys with a value and the time, in
-- seconds, at which it expires.
use go_im_system.Prelude.{
  ℕ, suc, ◌+◌, ◌≡◌, refl, Bool, true, false, List, [], ◌∷◌, ◌++◌, Option, none, some, ℤ, pos, ◌==◌,
  lookup, insert, delete, ltb, if◌then◌else◌, Eq, list_Eq, nat_eq,
}
use go_im_system.Text.{Text, codes, format_int}
use go_im_system.Gateway.Client.{Client, Frame, kick, pong, new_client, close, send_message}
pub mod Takeover

pub record Route : Type 0 where
  pub gateway : Text
  pub expires : ℕ

pub record Pool : Type 0 where
  pub clients : List (Text × ℕ)
  pub object : ℕ → Client
  pub next : ℕ
  pub routes : List (Text × Route)

abbrev pub update : ℕ → Client → (ℕ → Client) → ℕ → Client
update h c heap i = if h == i then c else heap i

-- Applies an operation to the object under a handle.
abbrev pub modify : ℕ → (Client → Client) → Pool → Pool
modify h f p = record p { object = update h (f (p.object h)) p.object }

abbrev pub route_of : Text → Text
route_of key = codes "route:user:" ++ key

-- `NewClient`: a new object, not yet in the map.
unfoldable pub allocate : ℤ → Pool → ℕ × Pool
allocate uid p =
    (p.next, record p { object = update p.next (new_client uid) p.object; next = suc p.next })

unfoldable pub get_client : Text → Pool → Option ℕ
get_client key p = lookup key p.clients

-- The old connection is told and closed, then the new one takes its place.
unfoldable pub register : ℤ → ℕ → Bool → Pool → Pool
register uid h take_closed p = elim (lookup (format_int uid) p.clients) [
  | none ↦ record p { clients = insert (format_int uid) h p.clients }
  | some old ↦ record (modify old (λ c. close (send_message take_closed kick c)) p) {
    clients = insert (format_int uid) h p.clients;
  }
]

-- Only the connection that is in the map may take the entry and the route away.
unfoldable pub remove : Text → ℕ → Pool → Pool
remove key h p = elim (lookup key p.clients) [
  | none ↦ p
  | some there ↦
      if there == h
      then record p { clients = delete key p.clients; routes = delete (route_of key) p.routes }
      else p
]

-- The end of `ReadPump`: its deferred calls.
unfoldable pub leave : ℕ → Pool → Pool
leave h p = modify h close (remove (format_int (p.object h).uid) h p)

-- `Set` with an expiry, and `Expire`, which has no effect on a key that is gone.
unfoldable pub set_route : Text → Text → ℕ → ℕ → Pool → Pool
set_route key gateway ttl now p = record p {
  routes = insert (route_of key) (record { gateway = gateway; expires = now + ttl }) p.routes;
}

unfoldable pub expire_route : Text → ℕ → ℕ → Pool → Pool
expire_route key ttl now p = elim (lookup (route_of key) p.routes) [
  | none ↦ p
  | some r ↦
      if ltb now r.expires
      then record p { routes = insert (route_of key) (record r { expires = now + ttl }) p.routes }
      else p
]

-- `Get`: nothing once the time has come.
unfoldable pub get_route : Text → ℕ → Pool → Option Text
get_route key now p = elim (lookup (route_of key) p.routes) [
  | none ↦ none
  | some r ↦ if ltb now r.expires then some r.gateway else none
]

-- The answer to a heartbeat.
unfoldable pub ping : Bool → ℕ → ℕ → Pool → Pool
ping take_closed h now p =
    modify h (send_message take_closed pong) (expire_route (format_int (p.object h).uid) 30 now p)
