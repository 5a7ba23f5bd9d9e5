-- ===== src/Gateway/Router.antt =====
-- apps/gateway/router/router.go: the routes of the gateway's HTTP server, and the answer to a browser's
-- preflight. As gin documents, the middleware stands before every request, one without a route included,
-- and a request without a route is not found.
use go_im_system.Prelude.{
  ◌≡◌, refl, ◌&&◌, List, [], ◌∷◌, eq, nat_eq, list_Eq, if◌then◌else◌, Bool-cases, inl, inr,
}
use go_im_system.Text.{Text, codes}

pub data Endpoint : Type 0 where
  user_login_handler user_register_handler ws_handler : Endpoint

pub record Route : Type 0 where
  pub method : Text
  pub path : Text
  pub endpoint : Endpoint

abbrev pub cors_headers : List (Text × Text)
cors_headers =
    (codes "Access-Control-Allow-Origin", codes "*")
    ∷ ((codes "Access-Control-Allow-Methods", codes "GET, POST, PUT, DELETE, OPTIONS")
        ∷ ((
          codes "Access-Control-Allow-Headers",
          codes "Origin, Content-Type, Accept, Authorization, X-Requested-With",
        )
            ∷ ((codes "Access-Control-Expose-Headers", codes "Content-Length, Content-Type")
                ∷ ((codes "Access-Control-Allow-Credentials", codes "false") ∷ []))))

-- What becomes of a request: no content, an endpoint, or no route.
pub data Answer : Type 0 where
  no_content not_found : Answer
  handed_to : Endpoint → Answer

abbrev pub cors_middleware : Text → Answer → List (Text × Text) × Answer
cors_middleware method next =
    if eq method (codes "OPTIONS") then (cors_headers, no_content) else (cors_headers, next)

abbrev pub routes : List Route
routes =
    record { method = codes "POST"; path = codes "/api/login"; endpoint = user_login_handler }
    ∷ (record {
      method = codes "POST";
      path = codes "/api/register";
      endpoint = user_register_handler;
    }
        ∷ (record { method = codes "GET"; path = codes "/ws"; endpoint = ws_handler } ∷ []))

unfoldable pub dispatch : Text → Text → List Route → Answer
dispatch method path [] = not_found
dispatch method path (r ∷ rs) =
    let rest = dispatch method path rs in
    if eq r.method method && eq r.path path then handed_to r.endpoint else rest

unfoldable pub serve_request : Text → Text → List (Text × Text) × Answer
unfolding dispatch
serve_request method path = cors_middleware method (dispatch method path routes)

-- A preflight reaches no endpoint, whatever its path.
preflight : (path : Text) → serve_request (codes "OPTIONS") path ≡ (cors_headers, no_content)
unfolding serve_request
preflight path = refl

-- Every answer allows other origins.
allowed : (method path : Text) → (serve_request method path).0 ≡ cors_headers
unfolding serve_request
allowed method path = elim (Bool-cases (eq method (codes "OPTIONS"))) [
  | inl preflight ↦ rw preflight refl
  | inr other ↦ rw other refl
]

upgraded : serve_request (codes "GET") (codes "/ws") ≡ (cors_headers, handed_to ws_handler)
unfolding serve_request dispatch
upgraded = refl
