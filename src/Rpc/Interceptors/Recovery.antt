-- ===== src/Rpc/Interceptors/Recovery.antt =====
-- What a caller gets when a method panics.
use go_im_system.Prelude.{◌≡◌, refl, ap, ◌∙◌, Bool, true, false, List, [], ◌∷◌, some, if◌then◌else◌}
use go_im_system.Text.{Text}
use go_im_system.Rpc.Interceptors.{
  CallInfo, Outcome, returned, panicked, Line, HandlerFunc, Interceptor, logger_interceptor,
  recovery_interceptor, chain, internal_panic, logged, recovered,
}

-- The interceptors there are.
pub data Kind : Type 0 where
  logging recovering : Kind

abbrev pub interceptor : Kind → Interceptor
interceptor logging = logger_interceptor
interceptor recovering = recovery_interceptor

abbrev pub interceptors : List Kind → List Interceptor
interceptors [] = []
interceptors (k ∷ ks) = interceptor k ∷ interceptors ks

abbrev pub recovers : List Kind → Bool
recovers [] = false
recovers (logging ∷ ks) = recovers ks
recovers (recovering ∷ ks) = true

-- A panic as an error.
abbrev pub as_error : Outcome → Outcome
as_error (returned e) = returned e
as_error (panicked x) = returned (some (internal_panic x))

logged-outcome : (m : Text) (r : Outcome × List Line) → (logged m r).0 ≡ r.0
logged-outcome m (returned e, l) = refl
logged-outcome m (panicked x, l) = refl

recovered-outcome : (m : Text) (r : Outcome × List Line) → (recovered m r).0 ≡ as_error r.0
recovered-outcome m (returned e, l) = refl
recovered-outcome m (panicked x, l) = refl

as_error-as_error : (o : Outcome) → as_error (as_error o) ≡ as_error o
as_error-as_error (returned e) = refl
as_error-as_error (panicked x) = refl

recovered_twice : (b : Bool) (o : Outcome) → as_error (if b then as_error o else o) ≡ as_error o
recovered_twice true o = as_error-as_error o
recovered_twice false o = refl

-- A chain gives what the method returns; with the recovering interceptor at any place, a panic is an
-- error, and otherwise it goes on.
pub chain_lem :
    (ks : List Kind) (handler : HandlerFunc) (i : CallInfo)
    → (chain (interceptors ks) handler i).0
      ≡ (if recovers ks then as_error (handler i).0 else (handler i).0)
unfolding chain logger_interceptor recovery_interceptor
chain_lem [] handler i = refl
chain_lem (logging ∷ ks) handler i =
    logged-outcome i.service_method (chain (interceptors ks) handler i) ∙ chain_lem ks handler i
chain_lem (recovering ∷ ks) handler i =
    recovered-outcome i.service_method (chain (interceptors ks) handler i)
    ∙ ap as_error (chain_lem ks handler i)
    ∙ recovered_twice (recovers ks) (handler i).0
