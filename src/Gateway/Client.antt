-- ===== src/Gateway/Client.antt =====
-- apps/gateway/ws/client.go: one websocket connection with its send channel. A `select` with several
-- ready cases takes any of them: the choice is an argument. What the network does is an argument.
use go_im_system.Prelude.{
  ℕ, ◌+◌, ◌≡◌, refl, Bool, true, false, List, [], ◌∷◌, ◌++◌, ℤ, length, ltb, if◌then◌else◌,
}
use go_im_system.Text.{Text}
pub mod Queue

-- What the server writes to a client, one constructor for each JSON text.
pub data Frame : Type 0 where
  kick pong ai_end : Frame
  server_ack : ℤ → ℤ → Frame
  chat_push : ℤ → ℤ → ℤ → ℤ → Text → Frame
  read_receipt : ℤ → ℤ → Frame
  unread : ℤ → Text → ℤ → ℤ → ℤ → ℕ → Frame
  ai_chunk : Text → Frame

pub record Client : Type 0 where
  pub uid : ℤ
  pub send_chan : List Frame  -- oldest first
  pub closed : Bool
  pub writing : Bool  -- the write pump runs
  pub written : List Frame  -- handed to the connection, oldest first

abbrev pub capacity : ℕ
capacity = 1024

abbrev pub new_client : ℤ → Client
new_client uid = record { uid = uid; send_chan = []; closed = false; writing = true; written = [] }

-- `closeOnce` runs its body once; the channel itself is not closed.
unfoldable pub close : Client → Client
close c = if c.closed then c else record c { closed = true }

abbrev enqueue : Frame → Client → Client
enqueue m c = record c { send_chan = c.send_chan ++ m ∷ [] }

-- `take_closed` is the choice of the `select` where the channel has room and the client is closed.
-- The `default` case is taken where neither is ready: the frame is dropped and the client closed.
unfoldable pub send_message : Bool → Frame → Client → Client
unfolding close
send_message take_closed m c =
    if ltb (length c.send_chan) capacity
    then (if c.closed then (if take_closed then c else enqueue m c) else enqueue m c)
    else (if c.closed then c else close c)

abbrev write_front : Bool → List Frame → Client → Client
write_front ok [] c = c
write_front ok (m ∷ rest) c =
    if ok
    then record c { send_chan = rest; written = c.written ++ m ∷ [] }
    else record (close c) { send_chan = rest; writing = false }

abbrev stop : Client → Client
stop c = record (close c) { writing = false }

-- One round of `WritePump`. `ok` says whether the connection takes the frame; after an error, and at
-- the signal, the pump returns and its deferred `Close` runs. With nothing to read it waits.
abbrev pump_select : Bool → Bool → List Frame → Client → Client
pump_select take_closed ok [] c = if c.closed then stop c else c
pump_select take_closed ok (m ∷ rest) c =
    if c.closed
    then (if take_closed then stop c else write_front ok (m ∷ rest) c)
    else write_front ok (m ∷ rest) c

unfoldable pub pump_round : Bool → Bool → Client → Client
unfolding close
pump_round take_closed ok c = if c.writing then pump_select take_closed ok c.send_chan c else c

-- What other goroutines do to a client, in any order.
pub data Action : Type 0 where
  send : Bool → Frame → Action
  pump : Bool → Bool → Action
  shut : Action

unfoldable pub act : Action → Client → Client
unfolding send_message pump_round close
act (send take_closed m) c = send_message take_closed m c
act (pump take_closed ok) c = pump_round take_closed ok c
act shut c = close c

unfoldable pub acts : List Action → Client → Client
acts [] c = c
acts (a ∷ as') c = acts as' (act a c)
