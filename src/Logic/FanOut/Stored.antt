-- ===== src/Logic/FanOut/Stored.antt =====
-- A group chat is written and pushed once for each member.
use mathlib.Core.List.{append_assoc, append-nil}
use go_im_system.Prelude.{
  ℕ, ◌≡◌, refl, ap, sym, ◌∙◌, false, List, [], ◌∷◌, ◌++◌, Option, none, some, ℤ, pos, int_eq,
  int_Eq, int_eq_iff, nat_eq, list_Eq, lookup, arith, inl, inr, Bool-cases, Option-cases,
}
use go_im_system.Text.{Text}
use go_im_system.Sql.{has_key, UniqueKeys}
use go_im_system.Wire.{UploadPayload, Json}
use go_im_system.Logic.Messages.{row_id, message_row, Messages, message_key, insert_message}
use go_im_system.Logic.Upload.{
  LogicState, done, draw, route_key, user_ids, get_group_members, publish_down, member_down,
  member_row, deliver_member, member_round, member_loop, handle_group_chat,
}
use go_im_system.Logic.FanOut.{
  recipients, no_fault, no_faults, draw_ids, rows_of, push_to, pushes_of,
}

module _ (j : Json) where
  open j use {Body, encode_down}

  abbrev filled : List Messages → List (Text × Body) → LogicState Body → LogicState Body
  filled t q s = record s { messages = t; published = q }

  -- Drawing reads and changes the generator and the clock only.
  draw-filled :
      (id : ℕ) (t : List Messages) (q : List (Text × Body)) (s s' : LogicState Body)
      → draw s ≡ some (id, s')
      → (draw (filled t q s) ≡ some (id, filled t q s')) × (s'.now ≡ s.now) × (s'.routes ≡ s.routes)
  unfolding draw
  draw-filled id t q s s' drawn = ground (arith, drawn)

  deliver_lem :
      (a : ℤ → ℤ) (p : UploadPayload) (m : ℤ) (fresh id : ℕ) (t : List Messages)
      (q : List (Text × Body)) (s : LogicState Body)
      → has_key message_key (row_id (a m) (pos id)) t ≡ false
      → deliver_member j (no_fault (a m)) p m fresh id (filled t q s)
        ≡ filled
            (t ++ message_row (a m) s.now (member_row p m id id) ∷ [])
            (q
              ++ push_to j
                  (lookup (route_key m) s.routes)
                  (encode_down (member_down p m (row_id (a m) (pos id))))
                  [])
            s
  unfolding deliver_member insert_message publish_down
  deliver_lem a p m fresh id t q s new = elim (Option-cases (lookup (route_key m) s.routes)) [
    | inl offline ↦ rw (new, offline, append-nil q) refl
    | inr (gateway, online) ↦ rw (new, online) refl
  ]

  key_apart :
      (t rest : List Messages) (r x : Messages)
      → has_key message_key (message_key x) (t ++ r ∷ rest) ≡ false
      → int_eq (message_key x) (message_key r) ≡ false
  key_apart [] rest r x new = ground (
    arith,
    int_eq_iff (message_key r) (message_key x),
    int_eq_iff (message_key x) (message_key r),
  )
  key_apart (y ∷ t) rest r x new = ground (arith, key_apart t rest r x)

  unique_head :
      (t rest : List Messages) (r : Messages)
      → UniqueKeys message_key (t ++ r ∷ rest)
      → has_key message_key (message_key r) t ≡ false
  unique_head [] rest r u = refl
  unique_head (x ∷ t) rest r (new, u) =
      ground (arith, unique_head t rest r u, key_apart t rest r x new)

  push_split :
      (o : Option Text) (b : Body) (rest : List (Text × Body))
      → push_to j o b [] ++ rest ≡ push_to j o b rest
  push_split none b rest = refl
  push_split (some gateway) b rest = refl

  drawn_cons :
      (m : ℤ) (ms : List ℤ) (s s1 : LogicState Body) (ids : List ℕ)
      → draw_ids (m ∷ ms) s ≡ some (ids, s1)
      → (fresh : ℕ) × (id : ℕ) × (rest : List ℕ) × (s2 : LogicState Body) × (s3 : LogicState Body)
        × (draw s ≡ some (fresh, s2))
        × (draw s2 ≡ some (id, s3))
        × (draw_ids ms s3 ≡ some (rest, s1))
        × (ids ≡ id ∷ rest)
  unfolding draw_ids
  drawn_cons m ms s s1 ids drawn = elim (Option-cases (draw s)) [
    | inl stuck ↦ absurd (ground (arith, drawn, stuck))
    | inr ((fresh, s2), first) ↦ elim (Option-cases (draw s2)) [
      | inl stuck ↦ absurd (ground (arith, drawn, first, stuck))
      | inr ((id, s3), second) ↦ elim (Option-cases (draw_ids ms s3)) [
        | inl stuck ↦ absurd (ground (arith, drawn, first, second, stuck))
        | inr ((rest, s4), more) ↦
            let all : (id ∷ rest ≡ ids) × (s4 ≡ s1) = ground (arith, drawn, first, second, more) in
            (
              fresh,
              id,
              rest,
              s2,
              s3,
              first,
              second,
              more ∙ ap (λ x. some (rest, x)) all.1,
              sym all.0,
            )
      ]
    ]
  ]

  -- One member's round, after the draws.
  round_lem :
      (a : ℤ → ℤ) (p : UploadPayload) (m : ℤ) (fresh id now : ℕ) (routes : List (Text × Text))
      (t : List Messages) (q : List (Text × Body)) (s s2 s3 : LogicState Body)
      → s.now ≡ now
      → s.routes ≡ routes
      → draw s ≡ some (fresh, s2)
      → draw s2 ≡ some (id, s3)
      → has_key message_key (row_id (a m) (pos id)) t ≡ false
      → (member_round j (no_fault (a m)) p m (filled t q s)
          ≡ some (
              filled
                (t ++ message_row (a m) now (member_row p m id id) ∷ [])
                (q
                  ++ push_to j
                      (lookup (route_key m) routes)
                      (encode_down (member_down p m (row_id (a m) (pos id))))
                      [])
                s3))
        × (s3.now ≡ now)
        × (s3.routes ≡ routes)
  unfolding member_round
  round_lem a p m fresh id now routes t q s s2 s3 at_now at_routes first second new =
      let (d2, now2, routes2) = draw-filled fresh t q s s2 first in
      let (d3, now3, routes3) = draw-filled id t q s2 s3 second in
      let same_now : s3.now ≡ now = now3 ∙ now2 ∙ at_now in
      let same_routes : s3.routes ≡ routes = routes3 ∙ routes2 ∙ at_routes in
      (
        rw (member_round, d2, d3, sym same_now, sym same_routes)
            (ap some (deliver_lem a p m fresh id t q s3 new)),
        same_now,
        same_routes,
      )

  loop_lem :
      (a : ℤ → ℤ) (p : UploadPayload) (ms : List ℤ) (now : ℕ) (routes : List (Text × Text))
      (t : List Messages) (q : List (Text × Body)) (s s1 : LogicState Body) (ids : List ℕ)
      → s.now ≡ now
      → s.routes ≡ routes
      → draw_ids (recipients p.sender_id ms) s ≡ some (ids, s1)
      → UniqueKeys message_key (t ++ rows_of a now p (recipients p.sender_id ms) ids)
      → member_loop j (λ m. no_fault (a m)) p ms (filled t q s)
        ≡ some (
            filled
              (t ++ rows_of a now p (recipients p.sender_id ms) ids)
              (q ++ pushes_of j a routes p (recipients p.sender_id ms) ids)
              s1)
  unfolding member_loop draw_ids
  loop_lem a p [] now routes t q s s1 ids at_now at_routes drawn new =
      let same : (ids ≡ []) × (s ≡ s1) = ground (arith, drawn) in
      rw (sym same.1, append-nil t, append-nil q) refl
  loop_lem a p (m ∷ ms) now routes t q s s1 ids at_now at_routes drawn new =
      elim (Bool-cases (int_eq m p.sender_id)) [
        | inl sender ↦ rw sender (
            loop_lem a p ms now routes t q s s1 ids at_now at_routes (rw sender at drawn)
              (rw sender at new))
        | inr other ↦
            let rs = recipients p.sender_id ms in
            let (fresh, id, rest, s2, s3, first, second, more, split) =
              drawn_cons m rs s s1 ids (rw other at drawn) in
            let row = message_row (a m) now (member_row p m id id) in
            let unique : UniqueKeys message_key (t ++ row ∷ rows_of a now p rs rest) =
              rw (other, split) at new in
            let (round, now3, routes3) =
              round_lem a p m fresh id now routes t q s s2 s3 at_now at_routes first second
                (unique_head t (rows_of a now p rs rest) row unique) in
            let to = lookup (route_key m) routes in
            let b = encode_down (member_down p m (row_id (a m) (pos id))) in
            let later =
              loop_lem a p ms now routes (t ++ row ∷ []) (q ++ push_to j to b []) s3 s1 rest now3
                routes3 more (rw (append_assoc t (row ∷ []) (rows_of a now p rs rest)) unique) in
            rw (other, split, round)
              (later
                ∙ rw
                    (
                      append_assoc t (row ∷ []) (rows_of a now p rs rest),
                      append_assoc q (push_to j to b []) (pushes_of j a routes p rs rest),
                      push_split to b (pushes_of j a routes p rs rest),
                    )
                    refl)
      ]

  -- A group chat, where the generator gives the two ids that each member but the sender
  -- needs, the ids used, or for a zero id the one that the database gives, are new to the
  -- table, and nothing fails: the handling is done, and the state is that of the drawings
  -- with one unread row behind the others for each member but the sender, in the members'
  -- order, under its id, and with one push for each of these members that has a route, to the
  -- gateway that the route names.
  pub group_delivery-Stored :
      (a : ℤ → ℤ) (p : UploadPayload) (s s1 : LogicState Body) (ids : List ℕ)
      → let rs = recipients p.sender_id (user_ids p.group_id s.members) in
        draw_ids rs s ≡ some (ids, s1)
        → UniqueKeys message_key (s.messages ++ rows_of a s.now p rs ids)
        → handle_group_chat j (no_faults a) p s
          ≡ some (
            done,
            record s1 {
              messages = s.messages ++ rows_of a s.now p rs ids;
              published = s.published ++ pushes_of j a s.routes p rs ids;
            },
          )
  unfolding handle_group_chat get_group_members
  group_delivery-Stored a p s s1 ids drawn new =
      rw
        (
          handle_group_chat,
          loop_lem a p (user_ids p.group_id s.members) s.now s.routes s.messages s.published s s1
              ids refl refl drawn new,
        )
        refl
