-- ===== src/Gateway/Downstream/Push.antt =====
-- What a delivery does to the receiver's connection.
use go_im_system.Prelude.{
  ℕ, ◌≤◌, ◌<◌, ◌≡◌, ◌≢◌, Bool, true, false, [], ◌∷◌, ◌++◌, some, length, arith,
}
use go_im_system.Text.{format_int}
use go_im_system.Wire.{DownPayload, Json, ack}
use go_im_system.Gateway.Client.{capacity, send_message}
use go_im_system.Gateway.Pool.{get_client}
use go_im_system.Gateway.Downstream.{Consumer, push_of, deliver_down, handle_mq_delivery}

module _ (j : Json) where
  open j use {Body, decode_down}

  -- A delivery for a user whose connection is open and has room is acknowledged, puts exactly
  -- its frame at the end of that connection, changes no other, and is confirmed to Logic
  -- once, where the callback is set.
  pub push_taken :
      (k : Bool) (b : Body) (p : DownPayload) (c : Consumer) (h : ℕ)
      → decode_down b ≡ some p
      → get_client (format_int p.receiver_id) c.pool ≡ some h
      → (c.pool.object h).closed ≡ false
      → length (c.pool.object h).send_chan < capacity
      → c.callback ≡ true
      → let (r, c') = handle_mq_delivery j k b c in
        (r ≡ ack)
        × ((c'.pool.object h).send_chan ≡ (c.pool.object h).send_chan ++ push_of p ∷ [])
        × ((i : ℕ) → i ≢ h → c'.pool.object i ≡ c.pool.object i)
        × (c'.notified ≡ c.notified ++ (p.sender_id, p.msg_id) ∷ [])
  unfolding handle_mq_delivery deliver_down send_message
  push_taken k b p c h dec there live room set =
      rw (dec, handle_mq_delivery, there, deliver_down)
        (ground arith, ground arith, λ i ne. ground arith, ground arith)

  -- A delivery for a user whose channel is full is acknowledged and confirmed to Logic as
  -- delivered, where the callback is set, though its frame is neither queued nor written and
  -- the connection is closed.
  pub push_dropped :
      (k : Bool) (b : Body) (p : DownPayload) (c : Consumer) (h : ℕ)
      → decode_down b ≡ some p
      → get_client (format_int p.receiver_id) c.pool ≡ some h
      → capacity ≤ length (c.pool.object h).send_chan
      → c.callback ≡ true
      → let (r, c') = handle_mq_delivery j k b c in
        (r ≡ ack)
        × ((c'.pool.object h).send_chan ≡ (c.pool.object h).send_chan)
        × ((c'.pool.object h).written ≡ (c.pool.object h).written)
        × ((c'.pool.object h).closed ≡ true)
        × (c'.notified ≡ c.notified ++ (p.sender_id, p.msg_id) ∷ [])
  unfolding handle_mq_delivery deliver_down send_message
  push_dropped k b p c h dec there full set =
      rw (dec, handle_mq_delivery, there, deliver_down)
        (ground arith, ground arith, ground arith, ground arith, ground arith)
