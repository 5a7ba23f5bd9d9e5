-- ===== src/Tests/Requests.antt =====
-- A server with one service, its requests and their responses.
use go_im_system.Prelude.{
  ℕ, ◌+◌, ◌≤◌, ◌≡◌, refl, Bool, true, false, [], ◌∷◌, ◌++◌, Option, none, some, length, arith,
}
use go_im_system.Text.{Text, codes}
use go_im_system.Text.Split.{cut_last}
use go_im_system.Rpc.Codec.{protobuf_codec, Bytes, Header, Proto, empty_header}
use go_im_system.Rpc.Service.{
  Method, MethodType, Service, ServiceMap, register, find_service, found,
}
use go_im_system.Rpc.Server.{rejected, serve_codec}
use go_im_system.Rpc.Server.Loop.{
  Carried, Asked, write_all, taken, start, ill_formed, serve-written, replicate,
}
use go_im_system.Rpc.Handling.{handling_of, run, timer_fires}
use go_im_system.Rpc.Handling.Answer.{Over, finishing, answered_once}
use go_im_system.Rpc.Interceptors.{
  CallInfo, returned, panicked, HandlerFunc, chain, logger_interceptor, recovery_interceptor,
}
use go_im_system.Rpc.Interceptors.Recovery.{logging, recovering, interceptors}

-- Headers without an error, written as a number and a method's name.
abbrev header_bytes_of : Text → ℕ → Text → Option Bytes
header_bytes_of t n [] = some (n ∷ t)
header_bytes_of t n (c ∷ e) = none

abbrev header_from : Bytes → Option Header
header_from [] = none
header_from (n ∷ t) = some (record { service_method = t; seq = n; error = [] })

header-law :
    (t : Text) (n : ℕ) (e : Text) (d : Bytes)
    → header_bytes_of t n e ≡ some d
    → header_from d ≡ some (record { service_method = t; seq = n; error = e })
header-law t n [] [] made = ground arith
header-law t n [] (m ∷ d) made = ground arith
header-law t n (c ∷ e) d made = ground arith

abbrev pub body_from : Bytes → Option ℕ
body_from (n ∷ []) = some n
body_from _ = none

pub body-law : (n : ℕ) (d : Bytes) → some (n ∷ []) ≡ some d → body_from d ≡ some n
body-law n [] made = ground arith
body-law n (m ∷ []) made = ground arith
body-law n (m ∷ (k ∷ d)) made = ground arith

abbrev named : Proto
named = record {
  Body = ℕ;
  marshal_header = λ h. header_bytes_of h.service_method h.seq h.error;
  unmarshal_header = header_from;
  marshal_body = λ n. some (n ∷ []);
  unmarshal_body = body_from;
  header-law = λ h d. header-law h.service_method h.seq h.error d;
  body-law = body-law;
}

abbrev upper : Text → Bool
upper [] = false
upper (c ∷ t) = true

abbrev pub online_type : MethodType
online_type = record {
  method = codes "Online";
  arg_type = record { name = codes "OnlineReq"; pkg_path = codes "pb" };
  reply_type = record { name = codes "OnlineResp"; pkg_path = codes "pb" };
  num_calls = 0;
}

abbrev online_method : Method
online_method = record {
  name = codes "Online";
  ins =
      record { name = codes "LogicService"; pkg_path = codes "service" }
      ∷ (online_type.arg_type ∷ (online_type.reply_type ∷ []));
  outs = record { name = codes "error"; pkg_path = [] } ∷ [];
}

abbrev logic : Service
logic = record { name = codes "Logic"; method = (codes "Online", online_type) ∷ [] }

abbrev pub services : ServiceMap
services = (codes "Logic", logic) ∷ []

register_test : register logic [] ≡ (none, services)
unfolding register
register_test = refl

pub find_online : find_service (codes "Logic.Online") services ≡ found online_type
unfolding find_service cut_last
find_online = refl

abbrev asked : ℕ → Asked named (λ t. true) services
asked n = record {
  header = record { service_method = codes "Logic.Online"; seq = n; error = [] };
  body = 7;
  header_bytes = n ∷ codes "Logic.Online";
  body_bytes = 7 ∷ [];
  type = online_type;
}

asked-Carried : (n : ℕ) → Carried named (λ t. true) services (asked n)
asked-Carried n = record {
  header_made = refl;
  body_made = refl;
  header_small = omega arith;
  body_small = omega arith;
  offered = find_online;
  taken_in = refl;
}

serve-written_example :
    serve_codec
      (protobuf_codec named)
      (λ t. true)
      services
      (length (asked 1 ∷ (asked 2 ∷ [])) + 1)
      (write_all named (λ t. true) services (asked 1 ∷ (asked 2 ∷ [])) start).sent
    ≡ (
      taken named (λ t. true) services (asked 1 ∷ (asked 2 ∷ []))
          ++ replicate named (λ t. true) services 1 (rejected empty_header ill_formed),
      false,
    )
serve-written_example =
    serve-written named (λ t. true) services (asked 1 ∷ (asked 2 ∷ [])) 1
      (asked-Carried 1, (asked-Carried 2, tt))

answered_once_example :
    (length (run 10 (codes "10s") (timer_fires ∷ []) (handling_of [])).responses ≤ 1)
    × Over []
        (codes "10s")
        (run 10 (codes "10s") ((timer_fires ∷ []) ++ finishing none) (handling_of []))
answered_once_example = answered_once 10 (codes "10s") [] (timer_fires ∷ []) none

abbrev online_info : CallInfo
online_info = record { service_method = codes "Logic.Online"; header = (asked 1).header }

abbrev panics : HandlerFunc
panics i = (panicked (codes "nil map"), [])

panic_answered :
    (chain (interceptors (logging ∷ (recovering ∷ []))) panics online_info).0
    ≡ returned (some (codes "internal panic: nil map"))
unfolding chain logger_interceptor recovery_interceptor
panic_answered = refl
