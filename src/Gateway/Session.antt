-- ===== src/Gateway/Session.antt =====
-- apps/gateway/ws/handler.go: the opening of a connection, with the messages that wait for its user,
-- and the dispatch of `ReadPump` in client.go. The RPCs of the Logic service run on its table; a
-- fault of a call, or of its database, is an argument.
use go_im_system.Prelude.{
  ℕ, ◌≡◌, Bool, true, false, List, [], ◌∷◌, ◌++◌, Option, none, some, ℤ, map, eq, Eq, list_Eq,
  nat_eq, if◌then◌else◌,
}
use go_im_system.Text.{Text, codes, format_int}
use go_im_system.Logic.Messages.{Messages}
use go_im_system.Logic.Service.{
  MessageItem, Reply, synced, success, rpc_error, serve, sync_unread, read_messages,
}
use go_im_system.Gateway.Client.{Client, Frame, unread, send_message}
use go_im_system.Gateway.Pool.{Pool, allocate, register, set_route, modify}
pub mod Sync

abbrev pub unread_frame : MessageItem → Frame
unread_frame i = unread i.sender_id i.content i.group_id i.msg_id i.seq_id i.send_status

unfoldable pub send_all : Bool → List Frame → Client → Client
send_all take_closed [] c = c
send_all take_closed (m ∷ ms) c = send_all take_closed ms (send_message take_closed m c)

-- What a connection's opening meets.
pub record OpenFaults : Type 0 where
  pub sync_fails : Bool
  pub read_fails : Bool
  pub redis_fails : Bool
  pub take_closed : Bool

-- The state, and whether an error is returned.
pub record Synced : Type 0 where
  pub client : Client
  pub table : List Messages
  pub is_error : Bool

abbrev after_read : Client → List Messages × Reply → Synced
after_read c (t, rpc_error) = record { client = c; table = t; is_error = true }
after_read c (t, success) = record { client = c; table = t; is_error = false }
after_read c (t, synced _) = record { client = c; table = t; is_error = false }

abbrev send_items : OpenFaults → ℤ → Client → List Messages → List MessageItem → Synced
send_items f uid c t [] = record { client = c; table = t; is_error = false }
send_items f uid c t (i ∷ items) =
    after_read (send_all f.take_closed (map unread_frame (i ∷ items)) c)
      (serve f.read_fails (read_messages uid) t)

abbrev after_sync : OpenFaults → ℤ → Client → List Messages × Reply → Synced
after_sync f uid c (t, synced items) = send_items f uid c t items
after_sync f uid c (t, success) = record { client = c; table = t; is_error = false }
after_sync f uid c (t, rpc_error) = record { client = c; table = t; is_error = true }

-- The write pump may run meanwhile; `send_all` is the case where it has not yet read.
unfoldable pub sync_message : OpenFaults → ℤ → Client → List Messages → Synced
sync_message f uid c t = after_sync f uid c (serve f.sync_fails (sync_unread uid) t)

pub data Opened : Type 0 where
  unauthorized : Opened
  -- the state, the new connection, and whether its read pump runs
  opened : Pool → List Messages → ℕ → Bool → Opened

abbrev finish : Pool → ℕ → Synced → Opened
finish p h s = opened (modify h (λ c. s.client) p) s.table h (if s.is_error then false else true)

abbrev connect : OpenFaults → Text → ℕ → ℤ → Pool → List Messages → ℕ → Opened
connect f gateway now uid p t h =
    let q = register uid h f.take_closed p in
    let r = if f.redis_fails then q else set_route (format_int uid) gateway 86400 now q in
    finish r h (sync_message f uid (r.object h) t)

-- `token` is what `ParseToken` finds; a query without one is `none` too. An upgrade that fails ends
-- the process.
unfoldable pub handler : OpenFaults → Text → ℕ → Option ℤ → Pool → List Messages → Opened
handler f gateway now none p t = unauthorized
handler f gateway now (some uid) p t =
    let (h, q) = allocate uid p in connect f gateway now uid q t h

-- Where `ReadPump` sends a message, by its `chat_type`; a message that is no JSON ends the session.
pub data Routing : Type 0 where
  end_session heartbeat single_chat ai_chat group_chat acknowledgement unknown : Routing

unfoldable pub route_message : Option Text → Routing
route_message none = end_session
route_message (some t) =
    if eq t (codes "ping")
    then heartbeat
    else if eq t (codes "single_chat")
    then single_chat
    else if eq t (codes "ai_chat")
    then ai_chat
    else if eq t (codes "group_chat")
    then group_chat
    else if eq t (codes "ack")
    then acknowledgement
    else unknown
