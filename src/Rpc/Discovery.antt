-- ===== src/Rpc/Discovery.antt =====
-- apps/pkg/geeRPC/xclient/discovery.go and discovery_gee.go: the servers a client knows, given by
-- hand or by the registry. The hash function, the random draw `Intn` and the answer of the registry
-- are arguments.
use go_im_system.Prelude.{
  ◌^◌, ◌*◌, ℕ, zero, suc, ◌+◌, ◌%◌, ◌≡◌, Bool, true, false, ◌||◌, ◌&&◌, leb, ltb, ◌==◌, List, [],
  ◌∷◌, ◌++◌, Option, none, some, length, get_elem?, if◌then◌else◌,
}
use go_im_system.Text.Split.{split}
use go_im_system.Text.{Text, codes}
use go_im_system.Rpc.Ring.{Map}
use go_im_system.Rpc.Ring
pub mod Turns
pub mod Stale

pub data SelectMode : Type 0 where
  random_select round_robin_select consistent_hash unsupported : SelectMode

pub record MultiServersDiscovery : Type 0 where
  pub servers : List Text
  pub index : ℕ
  pub hash_map : Map

abbrev ring_of : (Text → ℕ) → List Text → Map
ring_of crc servers = Ring.add servers (Ring.new 50 crc)

-- `start` is the random index.
abbrev pub new_multi_server_discovery : (Text → ℕ) → ℕ → List Text → MultiServersDiscovery
new_multi_server_discovery crc start servers = record {
  servers = servers;
  index = start;
  hash_map = ring_of crc servers;
}

abbrev pub update : (Text → ℕ) → List Text → MultiServersDiscovery → MultiServersDiscovery
update crc servers d = record d { servers = servers; hash_map = ring_of crc servers }

-- An address, or an error. Where the server list is not empty the indices are in range.
abbrev select :
    SelectMode → (ℕ → ℕ) → Text → MultiServersDiscovery → Option Text × MultiServersDiscovery
select random_select intn key d = (get_elem? d.servers (intn (length d.servers)), d)
select round_robin_select intn key d = (
  get_elem? d.servers (d.index % length d.servers),
  record d { index = (d.index + 1) % length d.servers },
)
select consistent_hash intn [] d = (none, d)
select consistent_hash intn (c ∷ key) d = (some (Ring.get (c ∷ key) d.hash_map), d)
select unsupported intn key d = (none, d)

unfoldable pub get :
    SelectMode → (ℕ → ℕ) → Text → MultiServersDiscovery → Option Text × MultiServersDiscovery
get mode intn key d = if length d.servers == 0 then (none, d) else select mode intn key d

abbrev pub get_all : MultiServersDiscovery → List Text
get_all d = d.servers

pub record GeeRegistryDiscovery : Type 0 where
  pub multi : MultiServersDiscovery
  pub timeout : ℕ
  pub last_update : Option ℕ  -- `none` is Go's zero time

abbrev pub default_update_timeout : ℕ
default_update_timeout = 10 * 10 ^ 9

abbrev pub new_gee_registry_discovery : (Text → ℕ) → ℕ → ℕ → GeeRegistryDiscovery
new_gee_registry_discovery crc start timeout = record {
  multi = new_multi_server_discovery crc start [];
  timeout = if timeout == 0 then default_update_timeout else timeout;
  last_update = none;
}

abbrev with_servers : List Text → ℕ → GeeRegistryDiscovery → GeeRegistryDiscovery
with_servers servers now d = record d {
  multi = record d.multi { servers = servers };
  last_update = some now;
}

unfoldable pub update_gee : List Text → ℕ → GeeRegistryDiscovery → GeeRegistryDiscovery
update_gee servers now d = with_servers servers now d

-- The white space of `strings.TrimSpace`.
abbrev is_space : ℕ → Bool
is_space c =
    (leb 9 c && leb c 13)
    || ((c == 0x20)
        || ((c == 0x85)
            || ((c == 0xA0)
                || ((c == 0x1680)
                    || ((leb 0x2000 c && leb c 0x200A)
                        || ((c == 0x2028)
                            || ((c == 0x2029)
                                || ((c == 0x202F) || ((c == 0x205F) || (c == 0x3000))))))))))

trim_left : Text → Text
trim_left [] = []
trim_left (c ∷ t) = let rest = trim_left t in if is_space c then rest else c ∷ t

trim_right : Text → Text
trim_right [] = []
trim_right (c ∷ t) = elim (trim_right t) [
  | [] ↦ if is_space c then [] else c ∷ []
  | d ∷ rest ↦ c ∷ (d ∷ rest)
]

trim_space : Text → Text
unfolding trim_left trim_right
trim_space t = trim_right (trim_left t)

keep_addresses : List Text → List Text
unfolding trim_space
keep_addresses [] = []
keep_addresses (t ∷ ts) = elim (trim_space t) [
  | [] ↦ keep_addresses ts
  | c ∷ a ↦ (c ∷ a) ∷ keep_addresses ts
]

-- The header's parts at its commas.
pub addresses_of : Text → List Text
unfolding keep_addresses split
addresses_of header = keep_addresses (split b',' header)

abbrev is_fresh : ℕ → GeeRegistryDiscovery → Bool
is_fresh now d = elim d.last_update [ none ↦ false | some t ↦ ltb now (t + d.timeout) ]

-- `answer` is the header of the registry's answer, `none` if the request fails. The first result is
-- whether there is an error.
unfoldable pub refresh : Option Text → ℕ → GeeRegistryDiscovery → Bool × GeeRegistryDiscovery
refresh answer now d = if is_fresh now d then (false, d) else elim answer [
  | none ↦ (true, d)
  | some header ↦ (false, with_servers (addresses_of header) now d)
]

abbrev then_get :
    SelectMode → (ℕ → ℕ) → Text → Bool × GeeRegistryDiscovery → Option Text × GeeRegistryDiscovery
then_get mode intn key (true, d) = (none, d)
then_get mode intn key (false, d) =
    ((get mode intn key d.multi).0, record d { multi = (get mode intn key d.multi).1 })

unfoldable pub get_gee :
    SelectMode
    → (ℕ → ℕ)
    → Text
    → Option Text
    → ℕ
    → GeeRegistryDiscovery
    → Option Text × GeeRegistryDiscovery
get_gee mode intn key answer now d = then_get mode intn key (refresh answer now d)
