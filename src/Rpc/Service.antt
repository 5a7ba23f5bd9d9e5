-- ===== src/Rpc/Service.antt =====
-- apps/pkg/geeRPC/service.go, with `Register` and `findService` of server.go: the services that a server
-- offers. Of Go's reflection the model has a type's name and package and a method's types.
use go_im_system.Prelude.{
  ℕ, ◌+◌, ◌%◌, ◌^◌, Bool, ◌&&◌, ◌||◌, List, [], ◌∷◌, ◌++◌, Option, none, some, lookup, insert, eq,
  nat_eq, list_Eq, if◌then◌else◌,
}
use go_im_system.Text.{Text, codes}
use go_im_system.Text.Split.{cut_last}
pub mod Offered

pub record GoType : Type 0 where
  pub name : Text
  pub pkg_path : Text

-- A method with its receiver among the `ins`.
pub record Method : Type 0 where
  pub name : Text
  pub ins : List GoType
  pub outs : List GoType

pub record MethodType : Type 0 where
  pub method : Text
  pub arg_type : GoType
  pub reply_type : GoType
  pub num_calls : ℕ

pub record Service : Type 0 where
  pub name : Text
  pub method : List (Text × MethodType)

-- The predeclared type: no package has another of this name with an empty path.
unfoldable pub is_error_type : GoType → Bool
is_error_type t = eq t.name (codes "error") && eq t.pkg_path []

-- An error, or what the name stands for.
pub data Found (A : Type 0) : Type 0 where
  missing : Text → Found A
  found : A → Found A

-- `is_exported` is `ast.IsExported`.
module _ (is_exported : Text → Bool) where
  unfoldable pub is_exported_or_builtin_type : GoType → Bool
  is_exported_or_builtin_type t = is_exported t.name || eq t.pkg_path []

  abbrev pub checked : Text → GoType → GoType → GoType → Option MethodType
  checked name arg reply out =
      if is_error_type out && is_exported_or_builtin_type arg && is_exported_or_builtin_type reply
      then some (record { method = name; arg_type = arg; reply_type = reply; num_calls = 0 })
      else none

  -- Three parameters, the receiver among them, and one result.
  abbrev pub method_type : Text → List GoType → List GoType → Option MethodType
  method_type name (self ∷ (arg ∷ (reply ∷ []))) (out ∷ []) = checked name arg reply out
  method_type name _ _ = none

  abbrev pub enter : Text → Option MethodType → List (Text × MethodType) → List (Text × MethodType)
  enter name none t = t
  enter name (some m) t = insert name m t

  unfoldable pub register_methods :
      List Method → List (Text × MethodType) → List (Text × MethodType)
  register_methods [] t = t
  register_methods (m ∷ ms) t =
      register_methods ms (enter m.name (method_type m.name m.ins m.outs) t)

  -- `none` ends the program.
  unfoldable pub new_service : Text → List Method → Option Service
  unfolding register_methods
  new_service name ms =
      if is_exported name
      then some (record { name = name; method = register_methods ms [] })
      else none

-- The services by their names.
abbrev pub ServiceMap : Type 0
ServiceMap = List (Text × Service)

abbrev pub store : Service → Option Service → ServiceMap → Option Text × ServiceMap
store s (some t) m = (some (codes "rpc: service already defined: " ++ s.name), m)
store s none m = (none, insert s.name s m)

-- An error, if there is one.
unfoldable pub register : Service → ServiceMap → Option Text × ServiceMap
register s m = store s (lookup s.name m) m

abbrev pub of_method : Text → Option MethodType → Found MethodType
of_method name none = missing (codes "rpc server: can't find method " ++ name)
of_method name (some t) = found t

abbrev pub of_service : Text → Text → Option Service → Found MethodType
of_service service method none = missing (codes "rpc server: can't find service " ++ service)
of_service service method (some s) = of_method method (lookup method s.method)

abbrev pub of_parts : Text → ServiceMap → Option (Text × Text) → Found MethodType
of_parts full m none = missing (codes "rpc server: service/method request ill-formed: " ++ full)
of_parts full m (some (service, method)) = of_service service method (lookup service m)

unfoldable pub find_service : Text → ServiceMap → Found MethodType
find_service full m = of_parts full m (cut_last b'.' full)

-- `service.call` counts the calls.
unfoldable pub counted : MethodType → MethodType
counted t = record t { num_calls = (t.num_calls + 1) % 2 ^ 64 }
