-- ===== src/Gateway/Receipt/Confirmed.antt =====
-- What a confirmation changes.
use go_im_system.Prelude.{
  ap, ℕ, ◌≡◌, ◌<◌, refl, false, ◌&&◌, List, [], ◌∷◌, ◌++◌, some, ℤ, int_eq, keep, not, length,
  arith,
}
use go_im_system.Text.{format_int}
use go_im_system.Sql.{update_where}
use go_im_system.Logic.Messages.{
  Messages, is_unread_of, is_unread_id, read_row, get_unread_messages, mark_message_as_read,
}
use go_im_system.Logic.Service.{serve}
use go_im_system.Gateway.Client.{read_receipt, capacity, send_message}
use go_im_system.Gateway.Pool.{Pool, get_client}
use go_im_system.Gateway.Receipt.{send_receipt, Bool, AckRequest, handle_ack}

keep-confirmed :
    (id q : ℤ) (t : List Messages)
    → keep (is_unread_of q) (update_where (is_unread_id id) read_row t)
      ≡ keep (λ m. is_unread_of q m && not (int_eq m.msg_id id)) t
keep-confirmed id q [] = refl
keep-confirmed id q (m ∷ t) = ground (arith, keep-confirmed id q t)

receipt_sent :
    (k : Bool) (user : ℤ) (r : AckRequest) (p : Pool) (h : ℕ)
    → get_client (format_int r.sender_id) p ≡ some h
    → (p.object h).closed ≡ false
    → length (p.object h).send_chan < capacity
    → ((send_receipt k user r p).object h).send_chan
      ≡ (p.object h).send_chan ++ read_receipt user r.msg_id ∷ []
unfolding send_message
receipt_sent k user r p h there live room = rw (there, send_receipt) (ground arith)

-- A reader confirms a message, with no fault, while the named sender's connection on this
-- gateway is open and has room: for every receiver the unread messages are those of before
-- without the ones of that id, and the sender's connection gets one read receipt, last.
pub ack-unread :
    (k : Bool) (user q : ℤ) (r : AckRequest) (t : List Messages) (p : Pool) (h : ℕ)
    → get_client (format_int r.sender_id) p ≡ some h
    → (p.object h).closed ≡ false
    → length (p.object h).send_chan < capacity
    → let (t', p') = handle_ack false k user (some r) t p in
      (get_unread_messages false q t'
        ≡ some (keep (λ m. is_unread_of q m && not (int_eq m.msg_id r.msg_id)) t))
      × ((p'.object h).send_chan ≡ (p.object h).send_chan ++ read_receipt user r.msg_id ∷ [])
unfolding handle_ack serve mark_message_as_read get_unread_messages send_message
ack-unread k user q r t p h there live room =
    (ap some (keep-confirmed r.msg_id q t), receipt_sent k user r p h there live room)
