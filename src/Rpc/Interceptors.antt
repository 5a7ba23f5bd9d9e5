-- ===== src/Rpc/Interceptors.antt =====
-- apps/pkg/geeRPC/midware/interceptor.go, and how handleRequest of server.go puts the interceptors
-- around a call. A handler returns an error or none, or panics; with the lines it logs.
use go_im_system.Prelude.{◌≡◌, refl, List, [], ◌∷◌, ◌++◌, Option, none, some}
use go_im_system.Text.{Text, codes}
use go_im_system.Rpc.Codec.{Header}
pub mod Recovery

-- The arguments, which are only printed, are left out.
pub record CallInfo : Type 0 where
  pub service_method : Text
  pub header : Header

pub data Outcome : Type 0 where
  returned : Option Text → Outcome
  panicked : Text → Outcome

pub data Line : Type 0 where
  call_start : Text → Line
  call_end : Text → Option Text → Line
  panic_recovered : Text → Text → Line

abbrev pub HandlerFunc : Type 0
HandlerFunc = CallInfo → Outcome × List Line

abbrev pub Interceptor : Type 0
Interceptor = HandlerFunc → HandlerFunc

abbrev pub logged : Text → Outcome × List Line → Outcome × List Line
logged m (returned e, l) = (returned e, call_start m ∷ (l ++ call_end m e ∷ []))
logged m (panicked x, l) = (panicked x, call_start m ∷ l)

unfoldable pub logger_interceptor : Interceptor
logger_interceptor next i = logged i.service_method (next i)

abbrev pub internal_panic : Text → Text
internal_panic x = codes "internal panic: " ++ x

abbrev pub recovered : Text → Outcome × List Line → Outcome × List Line
recovered m (returned e, l) = (returned e, l)
recovered m (panicked x, l) = (returned (some (internal_panic x)), l ++ panic_recovered m x ∷ [])

unfoldable pub recovery_interceptor : Interceptor
recovery_interceptor next i = recovered i.service_method (next i)

-- The first of the list is called first.
unfoldable pub chain : List Interceptor → HandlerFunc → HandlerFunc
chain [] handler = handler
chain (f ∷ fs) handler = f (chain fs handler)
