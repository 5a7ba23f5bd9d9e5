-- ===== src/Tests/Servers.antt =====
-- Runs of the ring, the discoveries and the registry.
use go_im_system.Prelude.{
  ℕ, ◌+◌, ◌*◌, ◌%◌, ◌^◌, ◌≡◌, refl, List, [], ◌∷◌, none, some, In, ◌⊎◌, ◌↔◌, arith,
}
use go_im_system.Text.{Text, codes}
use go_im_system.Rpc.Ring.{Map, add, get, server_at}
use go_im_system.Rpc.Ring.Successor.{Sorted, Successor}
use go_im_system.Rpc.Ring.Consistent.{add-get}
use go_im_system.Rpc.Ring.Members.{get-Successor}
use go_im_system.Rpc.Registry.{GeeRegistry, post_method, servers_name, serve_http, alive_servers}
use go_im_system.Rpc.Registry.Listing.{heartbeat-listed}
use go_im_system.Rpc.Discovery.{consistent_hash, new_gee_registry_discovery, get_gee}
use go_im_system.Rpc.Discovery.Stale.{Use, updated, steps, stale_ring}

abbrev hash : Text → ℕ
hash [] = 7
hash (c ∷ t) = (c + 31 * hash t) % 2 ^ 32

abbrev first_server : Text
first_server = codes "tcp@a:1"

abbrev second_server : Text
second_server = codes "tcp@b:2"

abbrev third_server : Text
third_server = codes "tcp@c:3"

abbrev ring : Map
ring = record {
  hash = hash;
  replicas = 2;
  keys = 10 ∷ 500000 ∷ 3000000000 ∷ [];
  hash_map = (500000, second_server) ∷ (10, first_server) ∷ (3000000000, first_server) ∷ [];
}

ring_Sorted : Sorted ring.keys
ring_Sorted = ground arith

add-get_example :
    (get (codes "42") (add (third_server ∷ []) ring) ≡ get (codes "42") ring)
    ⊎ (get (codes "42") (add (third_server ∷ []) ring) ≡ third_server)
add-get_example = add-get third_server (codes "42") ring ring_Sorted

get-Successor_example :
    (j : ℕ) × (get (codes "42") ring ≡ server_at j ring) × Successor (hash (codes "42")) ring.keys j
get-Successor_example = get-Successor (codes "42") ring ring_Sorted (ground arith)

abbrev uses : List Use
uses = updated (first_server ∷ []) 20 ∷ []

stale_ring_example :
    let d = steps uses (new_gee_registry_discovery hash 5 0) in
    ((get_gee consistent_hash (λ n. 0) (codes "42") (some (codes "tcp@a:1")) 30 d).0 ≡ none)
    ⊎ ((get_gee consistent_hash (λ n. 0) (codes "42") (some (codes "tcp@a:1")) 30 d).0 ≡ some [])
stale_ring_example = stale_ring hash 5 0 uses b'4' (codes "2") (λ n. 0) (some (codes "tcp@a:1")) 30

abbrev registry : GeeRegistry
registry = record { timeout = 300; servers = (first_server, 10) ∷ (second_server, 250) ∷ [] }

heartbeat-listed_example :
    let r' = (serve_http post_method ((servers_name, third_server) ∷ []) (λ a. 350) registry).1 in
    In first_server (alive_servers (λ a. 400) r').0
    ↔ ((first_server ≡ third_server) ⊎ In first_server (alive_servers (λ a. 400) registry).0)
heartbeat-listed_example =
    heartbeat-listed b't' (codes "cp@c:3") first_server (λ a. 350) (λ a. 400) registry refl
