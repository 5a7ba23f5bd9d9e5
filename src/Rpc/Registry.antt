-- ===== src/Rpc/Registry.antt =====
-- apps/pkg/geeRPC/registry/registry.go: the servers that have sent heartbeats. Times are in
-- nanoseconds. The server's clock is read once for each entry of a listing, so that a reading is a
-- function of the address.
use go_im_system.Prelude.{
  ℕ, ◌+◌, ◌≡◌, Bool, true, false, ◌||◌, leb, ltb, ◌==◌, List, [], ◌∷◌, ◌++◌, map, keep, insert,
  lookup, Option, none, some, sort_by, nat_eq, list_Eq, if◌then◌else◌,
}
use go_im_system.Text.{Text, codes}
pub mod Listing

pub record GeeRegistry : Type 0 where
  pub timeout : ℕ
  pub servers : List (Text × ℕ)  -- with the start

-- The byte order of `sort.Strings`.
abbrev pub text_le : Text → Text → Bool
text_le [] t = true
text_le (a ∷ s) [] = false
text_le (a ∷ s) (b ∷ t) = let rest = text_le s t in if a == b then rest else ltb a b

unfoldable pub put_server : Text → ℕ → GeeRegistry → GeeRegistry
put_server addr now r = record r { servers = insert addr now r.servers }

abbrev pub is_alive : ℕ → (Text → ℕ) → Text × ℕ → Bool
is_alive timeout now (addr, start) = (timeout == 0) || ltb (now addr) (start + timeout)

unfoldable pub alive_servers : (Text → ℕ) → GeeRegistry → List Text × GeeRegistry
alive_servers now r =
    let alive = keep (is_alive r.timeout now) r.servers in
    (sort_by text_le (map (λ s. s.0) alive), record r { servers = alive })

pub data Method : Type 0 where
  get_method post_method other_method : Method

pub data Response : Type 0 where
  servers_header : List Text → Response  -- joined by commas
  accepted server_error not_allowed : Response

abbrev pub servers_name : Text
servers_name = codes "X-Geerpc-Servers"

-- A header that is not set reads as the empty string.
abbrev pub header_value : Text → List (Text × Text) → Text
header_value name headers = elim (lookup name headers) [ none ↦ [] | some v ↦ v ]

abbrev register : Text → (Text → ℕ) → GeeRegistry → Response × GeeRegistry
register [] now r = (server_error, r)
register (c ∷ addr) now r = (accepted, put_server (c ∷ addr) (now (c ∷ addr)) r)

unfoldable pub serve_http :
    Method → List (Text × Text) → (Text → ℕ) → GeeRegistry → Response × GeeRegistry
unfolding alive_servers
serve_http get_method headers now r =
    (servers_header (alive_servers now r).0, (alive_servers now r).1)
serve_http post_method headers now r = register (header_value servers_name headers) now r
serve_http other_method headers now r = (not_allowed, r)

-- The headers of the request that a server sends to the registry.
unfoldable pub send_heartbeat : Text → List (Text × Text)
send_heartbeat addr = (codes "X-Geerpc-Server", addr) ∷ []
