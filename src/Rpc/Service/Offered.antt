-- ===== src/Rpc/Service/Offered.antt =====
-- Which methods a service offers.
use go_im_system.Prelude.{◌≡◌, Bool, true, List, [], ◌∷◌, In, Option, some, list_Eq, nat_eq}
use go_im_system.Text.{Text}
use go_im_system.Text.Split.{cut_last}
use go_im_system.Rpc.Service.{
  GoType, Method, MethodType, Service, is_error_type, is_exported_or_builtin_type,
}

module _ (is_exported : Text → Bool) where
  -- The method has a receiver, an argument and a reply, and gives an error; `t` says its types.
  abbrev pub Fits : Method → MethodType → Type 0
  Fits m t =
      (t.method ≡ m.name)
      × ((self : GoType) × (m.ins ≡ self ∷ (t.arg_type ∷ (t.reply_type ∷ []))))
      × ((out : GoType) × (m.outs ≡ out ∷ []) × (is_error_type out ≡ true))
      × (is_exported_or_builtin_type is_exported t.arg_type ≡ true)
      × (is_exported_or_builtin_type is_exported t.reply_type ≡ true)

  -- The text names a method of the list, with its types.
  abbrev pub Offers : Text → Text → List Method → MethodType → Type 0
  Offers full name ms t =
      (m : Method) × In m ms × (cut_last b'.' full ≡ some (name, m.name)) × Fits m t
