-- ===== src/Rpc/Dial.antt =====
-- apps/pkg/geeRPC/client.go, from `NewClient` to `XDial`, with the options of server.go: how a client
-- gets its connection. What the network and the peer do is an argument.
use go_im_system.Prelude.{
  refl, ℕ, ◌≡◌, ◌*◌, ◌^◌, Bool, true, false, ◌||◌, List, [], ◌∷◌, Option, none, some, ◌==◌, eq,
  nat_eq, list_Eq, if◌then◌else◌,
}
use go_im_system.Text.{Text, codes}
use go_im_system.Text.Split.{split}

-- `Option` of server.go. Times are in nanoseconds; an empty codec type is one that is not set.
pub record RpcOption : Type 0 where
  pub magic_number : ℕ
  pub codec_type : Text
  pub connect_timeout : ℕ
  pub handle_timeout : ℕ

abbrev pub magic : ℕ
magic = 0x3bef5c

abbrev pub gob_type : Text
gob_type = codes "application/gob"

abbrev pub default_option : RpcOption
default_option = record {
  magic_number = magic;
  codec_type = gob_type;
  connect_timeout = 10 * 10 ^ 9;
  handle_timeout = 0;
}

abbrev pub completed : RpcOption → RpcOption
completed o = record o {
  magic_number = magic;
  codec_type = elim o.codec_type [ [] ↦ gob_type | c ∷ t ↦ c ∷ t ];
}

-- `none` in the list is a nil pointer. More than one option is an error.
unfoldable pub parse_options : List (Option RpcOption) → Option RpcOption
parse_options [] = some default_option
parse_options (none ∷ rest) = some default_option
parse_options (some o ∷ []) = some (completed o)
parse_options (some o ∷ (p ∷ rest)) = none

-- What the peer does on a connection.
pub record Peer : Type 0 where
  pub refuses : Bool  -- `net.DialTimeout` fails
  pub late : Bool  -- the construction takes longer than the timeout
  pub encode_fails : Bool  -- the options cannot be sent
  pub connect_fails : Bool  -- the CONNECT line cannot be sent
  pub status : Option Text  -- of the answer to CONNECT, if there is one

-- The new client stands for its connection; `none` is an error.
abbrev pub known_codec : Text → Bool
known_codec t =
    eq t gob_type || (eq t (codes "application/json") || eq t (codes "application/protobuf"))

unfoldable pub new_client : Peer → RpcOption → Bool
new_client peer o =
    if known_codec o.codec_type then (if peer.encode_fails then false else true) else false

abbrev pub connected : Text
connected = codes "200 Connected to Gee RPC"

unfoldable pub new_http_client : Peer → RpcOption → Bool
new_http_client peer o = if peer.connect_fails then false else elim peer.status [
  | none ↦ false
  | some s ↦ if eq s connected then new_client peer o else false
]

-- An error before there is a connection, or a connection, which has a client or is closed.
pub data Dialed : Type 0 where
  refused : Dialed
  closed : Dialed
  client : Dialed

-- Without a timeout the construction is waited for.
abbrev construct : (Peer → RpcOption → Bool) → Peer → RpcOption → Dialed
construct f peer o =
    if o.connect_timeout == 0
    then (if f peer o then client else closed)
    else (if peer.late then closed else (if f peer o then client else closed))

unfoldable pub dial_timeout : (Peer → RpcOption → Bool) → Peer → List (Option RpcOption) → Dialed
dial_timeout f peer opts = elim (parse_options opts) [
  | none ↦ refused
  | some o ↦ if peer.refuses then refused else construct f peer o
]

unfoldable pub dial : Peer → List (Option RpcOption) → Dialed
dial peer opts = dial_timeout new_client peer opts

unfoldable pub dial_http : Peer → List (Option RpcOption) → Dialed
dial_http peer opts = dial_timeout new_http_client peer opts

-- The network, the address and how it went; `none` for an address that is not `protocol@address`.
abbrev by_protocol : Peer → List (Option RpcOption) → List Text → Option (Text × Text × Dialed)
by_protocol peer opts (protocol ∷ (addr ∷ [])) =
    if eq protocol (codes "http")
    then some (codes "tcp", addr, dial_http peer opts)
    else some (protocol, addr, dial peer opts)
by_protocol peer opts _ = none

unfoldable pub x_dial : Peer → Text → List (Option RpcOption) → Option (Text × Text × Dialed)
x_dial peer rpc_addr opts = by_protocol peer opts (split b'@' rpc_addr)

x_dial_test :
    x_dial
      (record {
        refuses = false;
        late = false;
        encode_fails = false;
        connect_fails = false;
        status = none;
      })
      (codes "tcp@localhost:8001")
      []
    ≡ some (codes "tcp", codes "localhost:8001", client)
unfolding x_dial split dial dial_timeout parse_options new_client
x_dial_test = refl
