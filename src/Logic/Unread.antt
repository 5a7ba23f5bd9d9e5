-- ===== src/Logic/Unread.antt =====
-- Which messages a reader is sent, and what reading takes away.
use go_im_system.Prelude.{
  ◌≡◌, false, List, [], ◌∷◌, ℤ, int_eq, int_eq_iff, keep, if◌then◌else◌, arith,
}
use go_im_system.Sql.{update_where}
use go_im_system.Logic.Messages.{
  Messages, is_unread_of, read_row, get_unread_messages, mark_messages_as_read,
}
use go_im_system.Logic.Service.{synced, serve, sync_unread, read_messages}

-- A reading by `receiver` leaves nothing unread for them, and for any other reader what was there.
keep-read_all :
    (q r : ℤ) (t : List Messages)
    → keep (is_unread_of q) (update_where (is_unread_of r) read_row t)
      ≡ (if int_eq r q then [] else keep (is_unread_of q) t)
keep-read_all q r [] = ground arith
keep-read_all q r (m ∷ t) = ground (
  arith,
  keep-read_all q r t,
  int_eq_iff r q,
  int_eq_iff m.receiver_id q,
  int_eq_iff m.receiver_id r,
)

-- After ReadMessages for one user, SyncUnread sends that user nothing, and any other user
-- exactly what it would have sent before, when the database works.
pub sync-read :
    (q r : ℤ) (t : List Messages)
    → (serve false (sync_unread q) (serve false (read_messages r) t).0).1
      ≡ (if int_eq r q then synced [] else (serve false (sync_unread q) t).1)
unfolding serve get_unread_messages mark_messages_as_read
sync-read q r t = ground (arith, keep-read_all q r t)
