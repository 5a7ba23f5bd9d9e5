-- ===== src/Rpc/Ring.antt =====
-- apps/pkg/geeRPC/xclient/consistent_hash.go. The hash function is an argument, as in the code;
-- `sort.Ints` is a sort by insertion, and `sort.Search` is the smallest index that passes.
use go_im_system.Prelude.{
  sort_by, ℕ, zero, suc, ◌+◌, ◌%◌, ◌≡◌, List, [], ◌∷◌, ◌++◌, Option, none, some, pos, leb, lookup,
  insert, length, get_elem?, nat_eq, if◌then◌else◌,
}
use go_im_system.Text.{Text, format_int}
pub mod Successor
pub mod Consistent
pub mod Members
pub mod Points
pub mod Order

pub record Map : Type 0 where
  pub hash : Text → ℕ
  pub replicas : ℕ
  pub keys : List ℕ
  pub hash_map : List (ℕ × Text)

abbrev pub new : ℕ → (Text → ℕ) → Map
new replicas fn = record { hash = fn; replicas = replicas; keys = []; hash_map = [] }

abbrev pub sort_ints : List ℕ → List ℕ
sort_ints = sort_by leb

-- The virtual node number `i` of a server.
abbrev pub point : Map → ℕ → Text → ℕ
point m i key = m.hash (format_int (pos i) ++ key)

abbrev pub add_point : ℕ → Text → Map → Map
add_point i key m = record m {
  keys = m.keys ++ point m i key ∷ [];
  hash_map = insert (point m i key) key m.hash_map;
}

-- The first `n` rounds of the inner loop.
unfoldable pub add_points : ℕ → Text → Map → Map
add_points zero key m = m
add_points (suc n) key m = add_point n key (add_points n key m)

unfoldable pub add_all : List Text → Map → Map
add_all [] m = m
add_all (key ∷ rest) m = add_all rest (add_points m.replicas key m)

abbrev sort_keys : Map → Map
sort_keys m = record m { keys = sort_ints m.keys }

unfoldable pub add : List Text → Map → Map
unfolding add_all
add servers m = sort_keys (add_all servers m)

abbrev pub search : ℕ → List ℕ → ℕ
search h [] = 0
search h (k ∷ ks) = if leb h k then 0 else suc (search h ks)

-- A missing key of a Go map reads as the empty string.
abbrev pub server_at : ℕ → Map → Text
server_at k m = elim (lookup k m.hash_map) [ none ↦ [] | some s ↦ s ]

abbrev pub clockwise : ℕ → List ℕ → Option ℕ
clockwise h ks = get_elem? ks (search h ks % length ks)

-- The index is in range, so the `none` of an index does not occur.
unfoldable pub get : Text → Map → Text
get key m = elim (clockwise (m.hash key) m.keys) [ none ↦ [] | some k ↦ server_at k m ]
