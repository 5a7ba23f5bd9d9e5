-- ===== src/Logic/Run.antt =====
-- Logic over time: any order of deliveries and RPCs, each with the faults it meets.
use go_im_system.Prelude.{
  ℕ, ◌≡◌, refl, subst, Bool, true, false, List, [], ◌∷◌, Option, none, some, ℤ, int_eq, eq, list_Eq,
  nat_eq, int_Eq, All, Option-cases, Bool-cases, inl, inr, arith,
}
use go_im_system.Sql.{UniqueKeys}
use go_im_system.Wire.{
  UploadPayload, Json, Settle, ack, chat_type_single, chat_type_group, chat_type_ai,
}
use go_im_system.Logic.Messages.{Messages, message_key, insert_message}
use go_im_system.Logic.Service.{Rpc, serve}
use go_im_system.Logic.Delivery.{draw_frame}
use go_im_system.Logic.Status.{
  Inserts, none_yet, one_more, Inserts-Grows, Inserts-UniqueKeys, Grows, Grows-trans, Grows-refl,
  HasStatus, serve-Grows, serve-UniqueKeys,
}
use go_im_system.Logic.Upload.{
  Faults, DeliveryFaults, LogicState, Outcome, done, failed, draw, publish_down, upload_row,
  member_row, route_single, store_single, settle, handle_single_chat, handle_ai_chat,
  handle_group_chat, deliver_member, member_round, member_loop, get_group_members, dispatch_upload,
  handle_upload_delivery,
}

Inserts-trans : {t u v : List Messages} → Inserts t u → Inserts u v → Inserts t v
Inserts-trans i none_yet = i
Inserts-trans i (one_more fault a now m k z e) = one_more fault a now m (Inserts-trans i k) z e

module _ (j : Json) where
  open j use {Body, decode_upload}

  route_single-messages :
      (f : Faults) (p : UploadPayload) (s : LogicState Body)
      → (route_single j f p s).1.messages ≡ s.messages
  unfolding route_single publish_down
  route_single-messages f p s = ground arith

  store_single-Inserts :
      (f : Faults) (p : UploadPayload) (fresh : ℕ) (s : LogicState Body)
      → Inserts s.messages (store_single j f p fresh s).1.messages
  unfolding store_single
  store_single-Inserts f p fresh s =
      elim (Option-cases
        (insert_message f.insert_fails f.assigned s.now (upload_row false p fresh) s.messages)) [
          | inl bad ↦ rw (bad, store_single) none_yet
          | inr (t, e) ↦
              rw (e, store_single)
                (rw (route_single-messages f p (record s { messages = t })) (
                  one_more f.insert_fails f.assigned s.now (upload_row false p fresh) none_yet refl
                    e))
        ]

  handle_single_chat-Inserts :
      (f : Faults) (p : UploadPayload) (s s' : LogicState Body) (o : Outcome)
      → handle_single_chat j f p s ≡ some (o, s')
      → Inserts s.messages s'.messages
  unfolding handle_single_chat
  handle_single_chat-Inserts f p s s' o e = elim (Option-cases (draw s)) [
    | inl stuck ↦ absurd (ground (arith, stuck))
    | inr ((fresh, drawn), drew) ↦
        let same = draw_frame s fresh drawn drew in
        let now : (store_single j f p fresh drawn) ≡ (o, s') = ground (arith, drew) in
        rw (← same.0) (
          subst (λ (x : Outcome × LogicState Body). Inserts drawn.messages x.1.messages) now
            (store_single-Inserts f p fresh drawn))
  ]

  handle_ai_chat-Inserts :
      (f : Faults) (p : UploadPayload) (s s' : LogicState Body) (o : Outcome)
      → handle_ai_chat j f p s ≡ some (o, s')
      → Inserts s.messages s'.messages
  unfolding handle_ai_chat
  handle_ai_chat-Inserts f p s s' o e = elim (Option-cases (draw s)) [
    | inl stuck ↦ absurd (ground (arith, stuck))
    | inr ((fresh, drawn), drew) ↦
        let same = draw_frame s fresh drawn drew in
        rw (← same.0)
          (elim (Option-cases (
            insert_message f.insert_fails f.assigned drawn.now (upload_row true p fresh)
              drawn.messages)) [
                | inl bad ↦
                    let kept : s'.messages ≡ drawn.messages = ground (arith, drew, bad) in
                    rw kept none_yet
                | inr (t, ins) ↦
                    let kept : s'.messages ≡ t = ground (arith, drew, ins) in
                    rw kept (
                      one_more f.insert_fails f.assigned drawn.now (upload_row true p fresh)
                        none_yet refl ins)
              ])
  ]

  deliver_member-Inserts :
      (f : Faults) (p : UploadPayload) (m : ℤ) (fresh id : ℕ) (s : LogicState Body)
      → Inserts s.messages (deliver_member j f p m fresh id s).messages
  unfolding deliver_member publish_down
  deliver_member-Inserts f p m fresh id s =
      elim (Option-cases
        (insert_message f.insert_fails f.assigned s.now (member_row p m fresh id) s.messages)) [
          | inl bad ↦ rw (bad, deliver_member) none_yet
          | inr (t, e) ↦
              let kept : (deliver_member j f p m fresh id s).messages ≡ t = ground (arith, e) in
              rw kept
                (one_more f.insert_fails f.assigned s.now (member_row p m fresh id) none_yet refl e)
        ]

  member_round-Inserts :
      (f : Faults) (p : UploadPayload) (m : ℤ) (s s' : LogicState Body)
      → member_round j f p m s ≡ some s'
      → Inserts s.messages s'.messages
  unfolding member_round
  member_round-Inserts f p m s s' e = elim (Option-cases (draw s)) [
    | inl stuck ↦ absurd (ground (arith, stuck))
    | inr ((fresh, one), drew) ↦ elim (Option-cases (draw one)) [
      | inl stuck ↦ absurd (ground (arith, drew, stuck))
      | inr ((id, two), drew') ↦
          let first = draw_frame s fresh one drew in
          let second = draw_frame one id two drew' in
          let now : deliver_member j f p m fresh id two ≡ s' = ground (arith, drew, drew') in
          rw (← first.0, ← second.0)
            (subst (λ (x : LogicState Body). Inserts two.messages x.messages) now
              (deliver_member-Inserts f p m fresh id two))
    ]
  ]

  member_loop-Inserts :
      (f : ℤ → Faults) (p : UploadPayload) (ms : List ℤ) (s s' : LogicState Body)
      → member_loop j f p ms s ≡ some s'
      → Inserts s.messages s'.messages
  unfolding member_loop
  member_loop-Inserts f p [] s s' e =
      let now : s ≡ s' = ground arith in
      subst (λ (x : LogicState Body). Inserts s.messages x.messages) now none_yet
  member_loop-Inserts f p (m ∷ ms) s s' e = elim (Bool-cases (int_eq m p.sender_id)) [
    | inl own ↦ member_loop-Inserts f p ms s s' (rw (own, member_loop) at e)
    | inr other ↦ elim (Option-cases (member_round j (f m) p m s)) [
      | inl stuck ↦ absurd (ground (arith, other, stuck))
      | inr (t, one) ↦
          Inserts-trans (member_round-Inserts (f m) p m s t one)
            (member_loop-Inserts f p ms t s' (ground (arith, other, one)))
    ]
  ]

  handle_group_chat-Inserts :
      (f : DeliveryFaults) (p : UploadPayload) (s s' : LogicState Body) (o : Outcome)
      → handle_group_chat j f p s ≡ some (o, s')
      → Inserts s.messages s'.messages
  unfolding handle_group_chat
  handle_group_chat-Inserts f p s s' o e =
      elim (Option-cases (get_group_members f.members_fails p.group_id s.members)) [
        | inl bad ↦ let kept : s'.messages ≡ s.messages = ground (arith, bad) in rw kept none_yet
        | inr (ms, found) ↦ elim (Option-cases (member_loop j f.for_member p ms s)) [
          | inl stuck ↦ absurd (ground (arith, found, stuck))
          | inr (t, looped) ↦
              let now : t ≡ s' = ground (arith, found, looped) in
              subst (λ (x : LogicState Body). Inserts s.messages x.messages) now
                (member_loop-Inserts f.for_member p ms s t looped)
        ]
      ]

  settle-inv :
      (h : Option (Outcome × LogicState Body)) (r : Settle) (s' : LogicState Body)
      → settle j h ≡ some (r, s')
      → (o : Outcome) × (h ≡ some (o, s'))
  settle-inv none r s' e = absurd (ground arith)
  settle-inv (some (done, t)) r s' e = (done, ground arith)
  settle-inv (some (failed, t)) r s' e = (failed, ground arith)

  -- A delivery of any kind, on any branch, changes the message table by insertions alone.
  pub delivery-Inserts :
      (f : DeliveryFaults) (b : Body) (s s' : LogicState Body) (r : Settle)
      → handle_upload_delivery j f b s ≡ some (r, s')
      → Inserts s.messages s'.messages
  unfolding handle_upload_delivery dispatch_upload
  delivery-Inserts f b s s' r e = elim (Option-cases (decode_upload b)) [
    | inl bad ↦ let kept : s'.messages ≡ s.messages = ground (arith, bad) in rw kept none_yet
    | inr (p, dec) ↦ by_type p (ground (arith, dec))
  ]
    where
      by_type :
          (p : UploadPayload)
          → dispatch_upload j f p s ≡ some (r, s')
          → Inserts s.messages s'.messages
      by_type p e = elim (Bool-cases (eq p.chat_type chat_type_single)) [
        | inl single ↦
            let (o, h) =
              settle-inv (handle_single_chat j f.direct p s) r s'
                (rw (single, dispatch_upload) at e) in
            handle_single_chat-Inserts f.direct p s s' o h
        | inr no_single ↦ elim (Bool-cases (eq p.chat_type chat_type_group)) [
          | inl group ↦
              let (o, h) =
                settle-inv (handle_group_chat j f p s) r s'
                  (rw (no_single, group, dispatch_upload) at e) in
              handle_group_chat-Inserts f p s s' o h
          | inr no_group ↦ elim (Bool-cases (eq p.chat_type chat_type_ai)) [
            | inl ai ↦
                let (o, h) =
                  settle-inv (handle_ai_chat j f.direct p s) r s'
                    (rw (no_single, no_group, ai, dispatch_upload) at e) in
                handle_ai_chat-Inserts f.direct p s s' o h
            | inr unknown ↦
                let now : ◌≡◌ {A = Option (Settle × LogicState Body)} (some (ack, s))
                    (some (r, s')) =
                  rw (no_single, no_group, unknown, dispatch_upload) at e in
                let kept : s'.messages ≡ s.messages = ground arith in rw kept none_yet
          ]
        ]
      ]

-- One event in the life of the Logic service.
pub data Event (B : Type 0) : Type 0 where
  delivered : DeliveryFaults → B → Event B
  called : Bool → Rpc → Event B

module _ (j : Json) where
  open j use {Body}

  -- `none`: the call has not returned, since the clock gave no later time.
  abbrev pub step : Event Body → LogicState Body → Option (LogicState Body)
  step (delivered f b) s = elim (handle_upload_delivery j f b s) [
    | none ↦ none
    | some (r, s') ↦ some s'
  ]
  step (called fault c) s = some (record s { messages = (serve fault c s.messages).0 })

  unfoldable pub run : List (Event Body) → LogicState Body → Option (LogicState Body)
  run [] s = some s
  run (e ∷ es) s = elim (step e s) [ none ↦ none | some s' ↦ run es s' ]

  step-keeps :
      (e : Event Body) (s s' : LogicState Body)
      → step e s ≡ some s'
      → All HasStatus s.messages
      → UniqueKeys message_key s.messages
      → Grows s.messages s'.messages
        × All HasStatus s'.messages
        × UniqueKeys message_key s'.messages
  step-keeps (delivered f b) s s' e v u = elim (Option-cases (handle_upload_delivery j f b s)) [
    | inl stuck ↦ absurd (ground (arith, stuck))
    | inr ((r, t), one) ↦
        let now : t ≡ s' = ground (arith, one) in
        let i : Inserts s.messages s'.messages =
          subst (λ (x : LogicState Body). Inserts s.messages x.messages) now
            (delivery-Inserts j f b s t r one) in
        let (g, w) = Inserts-Grows i v in (g, w, Inserts-UniqueKeys i u)
  ]
  step-keeps (called fault c) s s' e v u =
      let kept : s'.messages ≡ (serve fault c s.messages).0 = ground arith in
      let (g, w) = serve-Grows fault c s.messages v in
      rw kept (g, w, serve-UniqueKeys fault c s.messages u)

  -- Whatever deliveries and RPCs the Logic service handles, in any order and with any faults:
  -- no message is lost, reordered or changed in its ids, sender, receiver, group, content or
  -- time; a read message stays read; the send status only rises; and, as before the run,
  -- statuses are at most 2 and message ids are unique.
  pub run-Grows :
      (es : List (Event Body)) (s s' : LogicState Body)
      → run es s ≡ some s'
      → All HasStatus s.messages
      → UniqueKeys message_key s.messages
      → Grows s.messages s'.messages
        × All HasStatus s'.messages
        × UniqueKeys message_key s'.messages
  unfolding run
  run-Grows [] s s' e v u =
      let now : s ≡ s' = ground arith in
      subst
        (λ (x : LogicState Body).
          Grows s.messages x.messages
          × All HasStatus x.messages
          × UniqueKeys message_key x.messages)
        now (Grows-refl s.messages, v, u)
  run-Grows (e ∷ es) s s' h v u = elim (Option-cases (step e s)) [
    | inl stuck ↦ absurd (ground (arith, stuck))
    | inr (t, one) ↦
        let (g, w, k) = step-keeps e s t one v u in
        let (g', w', k') = run-Grows es t s' (ground (arith, one)) w k in
        (Grows-trans s.messages t.messages s'.messages g g', w', k')
  ]
