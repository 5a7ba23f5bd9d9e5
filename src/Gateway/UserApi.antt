-- ===== src/Gateway/UserApi.antt =====
-- apps/gateway/api/user_api/user_handler.go and the gateway's RPC client in apps/gateway/rpcclient:
-- registration and login over HTTP. A request's body comes parsed; the call of Logic is an argument, which
-- gets the routing key, the method and the arguments.
use go_im_system.Prelude.{ℕ, ◌*◌, ◌^◌, Bool, List, [], ◌∷◌, Option, none, some, ℤ}
use go_im_system.Text.{Text, codes}
use go_im_system.Rpc.Dial.{RpcOption, magic}
use go_im_system.Rpc.Discovery.{SelectMode, consistent_hash}
use go_im_system.Logic.Users.{UserRegisterArgs}

pub record LoginRequest : Type 0 where
  pub user_id : ℤ
  pub user_name : Text
  pub password : Text

-- The error of a call, or its reply.
pub data Called (R : Type 0) : Type 0 where
  call_error : Text → Called R
  reply : R → Called R

-- An answer's status, with the error or the data.
pub data HttpAnswer (D : Type 0) : Type 0 where
  bad_request : HttpAnswer D
  unauthorized : Text → HttpAnswer D
  server_error : HttpAnswer D
  ok : D → HttpAnswer D

abbrev pub status_of : {D : Type 0} → HttpAnswer D → ℕ
status_of bad_request = 400
status_of (unauthorized e) = 401
status_of server_error = 500
status_of (ok d) = 200

module _ {Token : Type 0} where
  abbrev pub login_answer : Called (ℤ × Token) → HttpAnswer (ℤ × Token)
  login_answer (call_error e) = unauthorized e
  login_answer (reply d) = ok d

  unfoldable pub user_login_handler :
      (Text → Text → LoginRequest → Called (ℤ × Token))
      → Option LoginRequest
      → HttpAnswer (ℤ × Token)
  user_login_handler call none = bad_request
  user_login_handler call (some r) =
      login_answer (call r.user_name (codes "LogicService.UserLogin") r)

abbrev pub register_answer : Called Bool → HttpAnswer Bool
register_answer (call_error e) = server_error
register_answer (reply success) = ok success

unfoldable pub user_register_handler :
    (Text → Text → UserRegisterArgs → Called Bool) → Option UserRegisterArgs → HttpAnswer Bool
user_register_handler call none = bad_request
user_register_handler call (some r) =
    register_answer (call r.user_name (codes "LogicService.UserRegister") r)

-- `InitRPCClient`: one fixed server, which the consistent hash chooses, and the options of its
-- connection.
abbrev pub logic_servers : List Text
logic_servers = codes "tcp@localhost:8001" ∷ []

abbrev pub logic_mode : SelectMode
logic_mode = consistent_hash

abbrev pub logic_option : RpcOption
logic_option = record {
  magic_number = magic;
  codec_type = codes "application/protobuf";
  connect_timeout = 10 * 10 ^ 9;
  handle_timeout = 0;
}
