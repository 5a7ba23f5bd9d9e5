-- ===== src/Logic/FanOut.antt =====
-- What a group chat is to do: one row and one push for each member but the sender.
use mathlib.Core.List.{append_assoc, append-nil}
use go_im_system.Prelude.{
  ℕ, ◌≡◌, refl, ap, sym, ◌∙◌, false, List, [], ◌∷◌, ◌++◌, Option, none, some, ℤ, pos, int_eq,
  int_Eq, int_eq_iff, nat_eq, list_Eq, lookup, if◌then◌else◌, arith, inl, inr, Bool-cases,
  Option-cases,
}
use go_im_system.Text.{Text}
use go_im_system.Sql.{has_key, UniqueKeys}
use go_im_system.Wire.{UploadPayload, Json}
use go_im_system.Logic.Messages.{row_id, message_row, Messages, message_key, insert_message}
use go_im_system.Logic.Upload.{
  Faults, DeliveryFaults, LogicState, done, draw, route_key, user_ids, get_group_members,
  publish_down, member_down, member_row, deliver_member, member_round, member_loop,
  handle_group_chat,
}
pub mod Stored

abbrev pub recipients : ℤ → List ℤ → List ℤ
recipients sender [] = []
recipients sender (m ∷ ms) =
    let rest = recipients sender ms in if int_eq m sender then rest else m ∷ rest

-- Nothing fails; what the database gives to rows without an id is left open.
abbrev pub no_fault : ℤ → Faults
no_fault a = record {
  insert_fails = false;
  assigned = a;
  redis_fails = false;
  publish_fails = false;
}

abbrev pub no_faults : (ℤ → ℤ) → DeliveryFaults
no_faults a = record {
  members_fails = false;
  direct = no_fault (a (pos 0));
  for_member = λ m. no_fault (a m);
}

module _ {B : Type 0} where
  -- Two ids for each recipient, of which the second is used.
  abbrev pub second_of : Option (ℕ × LogicState B) → Option (ℕ × LogicState B)
  second_of none = none
  second_of (some (fresh, s)) = draw s

  abbrev pub more_ids : ℕ → Option (List ℕ × LogicState B) → Option (List ℕ × LogicState B)
  more_ids id none = none
  more_ids id (some (ids, s)) = some (id ∷ ids, s)

  abbrev pub ids_from :
      (LogicState B → Option (List ℕ × LogicState B))
      → Option (ℕ × LogicState B)
      → Option (List ℕ × LogicState B)
  ids_from k none = none
  ids_from k (some (id, s)) = more_ids id (k s)

  unfoldable pub draw_ids : List ℤ → LogicState B → Option (List ℕ × LogicState B)
  draw_ids [] s = some ([], s)
  draw_ids (m ∷ ms) s = ids_from (draw_ids ms) (second_of (draw s))

-- The rows, in the members' order.
abbrev pub rows_of : (ℤ → ℤ) → ℕ → UploadPayload → List ℤ → List ℕ → List Messages
rows_of a now p (m ∷ ms) (id ∷ ids) =
    message_row (a m) now (member_row p m id id) ∷ rows_of a now p ms ids
rows_of a now p _ _ = []

module _ (j : Json) where
  open j use {Body, encode_down}

  abbrev pub push_to : Option Text → Body → List (Text × Body) → List (Text × Body)
  push_to none b rest = rest
  push_to (some gateway) b rest = (gateway, b) ∷ rest

  -- The pushes, to the gateways of the members that have a route.
  abbrev pub pushes_of :
      (ℤ → ℤ) → List (Text × Text) → UploadPayload → List ℤ → List ℕ → List (Text × Body)
  pushes_of a routes p (m ∷ ms) (id ∷ ids) =
      push_to (lookup (route_key m) routes) (encode_down (member_down p m (row_id (a m) (pos id))))
        (pushes_of a routes p ms ids)
  pushes_of a routes p _ _ = []
