-- ===== src/Rpc/XClient.antt =====
-- apps/pkg/geeRPC/xclient/xclient.go: one connection for each server, made when it is first needed and
-- made anew when it is shut. Connections are handles; whether one is available is asked of the
-- connection, and what a new dial and a call give is an argument.
use go_im_system.Prelude.{
  ℕ, ◌≡◌, Bool, true, false, not, List, [], ◌∷◌, ◌++◌, Option, none, some, lookup, insert, delete,
  eq, Eq, nat_eq, list_Eq, map, if◌then◌else◌,
}
use go_im_system.Text.{Text}
use go_im_system.Rpc.Discovery.{MultiServersDiscovery, SelectMode, get_all}
use go_im_system.Rpc.Discovery
pub mod Cache

pub record XClient : Type 0 where
  pub discovery : MultiServersDiscovery
  pub mode : SelectMode
  pub clients : List (Text × ℕ)
  pub closed : List ℕ  -- the connections that were closed, oldest first

abbrev close_all : List (Text × ℕ) → List ℕ
close_all [] = []
close_all ((addr, h) ∷ rest) = h ∷ close_all rest

unfoldable pub close : XClient → XClient
close x = record x { clients = []; closed = x.closed ++ close_all x.clients }

-- Where there is no usable connection: the new one, or an error that leaves the entry away.
abbrev pub new_entry : Text → Option ℕ → XClient → Option ℕ × XClient
new_entry addr none x = (none, x)
new_entry addr (some h) x = (some h, record x { clients = insert addr h x.clients })

abbrev pub drop_entry : Text → ℕ → XClient → XClient
drop_entry addr h x = record x { clients = delete addr x.clients; closed = x.closed ++ h ∷ [] }

abbrev pub use_entry : (ℕ → Bool) → Text → Option ℕ → XClient → Option ℕ → Option ℕ × XClient
use_entry available addr dialed x none = new_entry addr dialed x
use_entry available addr dialed x (some h) =
    if available h then (some h, x) else new_entry addr dialed (drop_entry addr h x)

-- `dialed` is what `XDial` gives, if it is called.
unfoldable pub dial : (ℕ → Bool) → Text → Option ℕ → XClient → Option ℕ × XClient
dial available addr dialed x = use_entry available addr dialed x (lookup addr x.clients)

-- `answer` is what the call over a connection gives, `none` for success.
abbrev over : (ℕ → Option Text) → Text → Option ℕ × XClient → Option Text × XClient
over answer dial_error (none, x) = (some dial_error, x)
over answer dial_error (some h, x) = (answer h, x)

unfoldable pub call_at :
    (ℕ → Bool) → (ℕ → Option Text) → Text → Text → Option ℕ → XClient → Option Text × XClient
unfolding dial
call_at available answer dial_error addr dialed x =
    over answer dial_error (dial available addr dialed x)

abbrev routed :
    (ℕ → Bool)
    → (ℕ → Option Text)
    → Text
    → (Text → Option ℕ)
    → XClient
    → Option Text × MultiServersDiscovery
    → Option Text × XClient
routed available answer error dials x (none, d) = (some error, record x { discovery = d })
routed available answer error dials x (some addr, d) =
    call_at available answer error addr (dials addr) (record x { discovery = d })

-- The routing key comes with the context, empty if there is none.
unfoldable pub call :
    (ℕ → Bool)
    → (ℕ → Option Text)
    → Text
    → (Text → Option ℕ)
    → (ℕ → ℕ)
    → Text
    → XClient
    → Option Text × XClient
call available answer error dials intn key x =
    routed available answer error dials x (Discovery.get x.mode intn key x.discovery)

-- What `Broadcast` gathers, in the order in which its calls end: the first error, and the first reply
-- if one is wanted. A call ends with an error or with a reply.
pub data Ending (R : Type 0) : Type 0 where
  failed : Text → Ending R
  replied : R → Ending R

abbrev first_of : {A : Type 0} → Option A → A → Option A
first_of none a = some a
first_of (some b) a = some b

module _ {R : Type 0} where
  unfoldable pub gather : Bool → List (Ending R) → Option Text → Option R → Option Text × Option R
  gather wanted [] e r = (e, r)
  gather wanted (failed x ∷ rest) e r = gather wanted rest (first_of e x) r
  gather wanted (replied y ∷ rest) e r = gather wanted rest e (if wanted then first_of r y else r)

  unfoldable pub broadcast : Bool → List (Ending R) → Option Text × Option R
  unfolding gather
  broadcast wanted endings = gather wanted endings none none
