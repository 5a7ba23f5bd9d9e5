-- ===== src/Gateway/Session/Sync.antt =====
-- What a user is sent when a connection opens.
use mathlib.Core.List.{append-nil, append_assoc}
use go_im_system.Prelude.{
  ℕ, zero, suc, ◌+◌, ◌<◌, ◌≡◌, refl, sym, ap, ◌∙◌, Bool, true, false, List, [], ◌∷◌, ◌++◌, ℤ,
  int_eq_iff, keep, map, length, length-append, take, ltb, arith,
}
use go_im_system.Logic.Messages.{Messages, is_unread_of, get_unread_messages, mark_messages_as_read}
use go_im_system.Logic.Service.{synced, serve, sync_unread, read_messages, item_of}
use go_im_system.Logic.Unread.{sync-read}
use go_im_system.Gateway.Client.{Client, Frame, capacity, send_message}
use go_im_system.Gateway.Session.{OpenFaults, unread_frame, send_all, sync_message}

-- A closed connection with a full channel takes no more.
send_all_shut :
    (k : Bool) (ms : List Frame) (c : Client)
    → c.closed ≡ true
    → length c.send_chan ≡ capacity
    → send_all k ms c ≡ c
unfolding send_all
send_all_shut k [] c shut full = refl
send_all_shut k (m ∷ ms) c shut full =
    let same : send_message k m c ≡ c = unfold send_message in (ground arith) in
    rw same (send_all_shut k ms c shut full)

send_full :
    (k : Bool) (m : Frame) (c : Client)
    → c.closed ≡ false
    → length c.send_chan ≡ capacity
    → send_message k m c ≡ record c { closed = true }
unfolding send_message
send_full k m c live full = ground arith

send_open :
    (k : Bool) (m : Frame) (c : Client)
    → c.closed ≡ false
    → length c.send_chan < capacity
    → send_message k m c ≡ record c { send_chan = c.send_chan ++ m ∷ [] }
unfolding send_message
send_open k m c live fits = ground arith

-- Frames sent to an open connection with room for `r`, one after another, while nothing is written.
send_all_open :
    (k : Bool) (ms : List Frame) (r : ℕ) (c : Client)
    → c.closed ≡ false
    → length c.send_chan + r ≡ capacity
    → ((send_all k ms c).send_chan ≡ c.send_chan ++ take r ms)
      × ((send_all k ms c).closed ≡ ltb r (length ms))
unfolding send_all
send_all_open k [] zero c live fits = (sym (append-nil c.send_chan), live)
send_all_open k [] (suc r) c live fits = (sym (append-nil c.send_chan), ground arith)
send_all_open k (m ∷ ms) zero c live fits =
    let shut = send_all_shut k ms (record c { closed = true }) refl (omega arith) in
    rw (send_all, send_full k m c live (omega arith), shut)
      (sym (append-nil c.send_chan), ground arith)
send_all_open k (m ∷ ms) (suc r) c live fits =
    let longer = length-append c.send_chan (m ∷ []) in
    let (queued, shut) =
      send_all_open k ms r (record c { send_chan = c.send_chan ++ m ∷ [] }) live
        (omega (arith, longer)) in
    rw (send_all, send_open k m c live (omega arith))
      (queued ∙ append_assoc c.send_chan (m ∷ []) (take r ms), shut ∙ ground arith)

abbrev pub working : Bool → OpenFaults
working k = record { sync_fails = false; read_fails = false; redis_fails = false; take_closed = k }

take-nothing : (r : ℕ) → take {A = Frame} r [] ≡ []
take-nothing zero = refl
take-nothing (suc r) = refl

ltb-zero : (r : ℕ) → ltb r 0 ≡ false
ltb-zero r = ground arith

read_all :
    (uid : ℤ) (t : List Messages)
    → (serve false (sync_unread uid) (serve false (read_messages uid) t).0).1 ≡ synced []
read_all uid t = ground (arith, sync-read uid uid t, int_eq_iff uid uid)

sync_cases :
    (k : Bool) (uid : ℤ) (r : ℕ) (c : Client) (t : List Messages)
    → c.closed ≡ false
    → length c.send_chan + r ≡ capacity
    → (ms : List Messages) → keep (is_unread_of uid) t ≡ ms
    → let waiting = map unread_frame (map item_of (keep (is_unread_of uid) t)) in
      let s = sync_message (working k) uid c t in
      (s.client.send_chan ≡ c.send_chan ++ take r waiting)
      × (s.client.closed ≡ ltb r (length waiting))
      × (s.is_error ≡ false)
      × ((serve false (sync_unread uid) s.table).1 ≡ synced [])
unfolding sync_message serve get_unread_messages mark_messages_as_read
sync_cases k uid r c t live fits [] e = rw e (
  sym (ap (◌++◌ c.send_chan) (take-nothing r) ∙ append-nil c.send_chan),
  live ∙ sym (ltb-zero r),
  refl,
  rw e refl,
)
sync_cases k uid r c t live fits (m ∷ ms) e =
    let (queued, shut) = send_all_open k (map unread_frame (map item_of (m ∷ ms))) r c live fits in
    rw e (queued, shut, refl, read_all uid t)

-- An open client whose channel has room for r more frames, with no fault of the service and
-- before the write pump reads, is sent the first r unread messages of its user; it is closed if
-- there are more; no error is returned; and afterwards none of the user's messages is unread,
-- those that did not fit included.
pub sync_message_lem :
    (k : Bool) (uid : ℤ) (r : ℕ) (c : Client) (t : List Messages)
    → c.closed ≡ false
    → length c.send_chan + r ≡ capacity
    → let f = working k in
      let waiting = map unread_frame (map item_of (keep (is_unread_of uid) t)) in
      let s = sync_message f uid c t in
      (s.client.send_chan ≡ c.send_chan ++ take r waiting)
      × (s.client.closed ≡ ltb r (length waiting))
      × (s.is_error ≡ false)
      × ((serve false (sync_unread uid) s.table).1 ≡ synced [])
unfolding sync_message
sync_message_lem k uid r c t live fits =
    sync_cases k uid r c t live fits (keep (is_unread_of uid) t) refl
