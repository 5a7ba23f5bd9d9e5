-- ===== src/Logic/Status.antt =====
-- How the rows of the message table change over time: `send_status` only rises, a read message stays
-- read, and all else of a row is fixed.
use go_im_system.Prelude.{
  ℤ, ℕ, ◌≤◌, ◌≡◌, refl, inl, inr, Bool, true, false, List, [], ◌∷◌, ◌++◌, some, int_Eq, All,
  All-append, Bool-cases, arith,
}
use go_im_system.Sql.{update_where, UniqueKeys, insert_row-UniqueKeys, UniqueKeys-update}
use go_im_system.Logic.Messages.{
  message_row, Messages, message_key, insert_message, is_unread_of, is_unread_id, is_unsent_id,
  deliver_row, read_row, get_unread_messages, mark_messages_as_read, mark_message_as_read,
  mark_send_transport_delivered,
}
use go_im_system.Logic.Service.{
  Rpc, serve, sync_unread, read_messages, ack_message, notify_delivered,
}

abbrev read_rank : Bool → ℕ
read_rank false = 0
read_rank true = 1

-- What a row may become.
pub record Progress (a b : Messages) : Type 0 where
  pub same_id : b.msg_id ≡ a.msg_id
  pub same_seq : b.seq_id ≡ a.seq_id
  pub same_sender : b.sender_id ≡ a.sender_id
  pub same_receiver : b.receiver_id ≡ a.receiver_id
  pub same_group : b.group_id ≡ a.group_id
  pub same_content : b.content ≡ a.content
  pub same_time : b.create_time ≡ a.create_time
  pub read_rises : read_rank a.is_read ≤ read_rank b.is_read
  pub status_rises : a.send_status ≤ b.send_status

-- The old rows are still there, in order, each advanced; new ones stand behind them.
abbrev pub Grows : List Messages → List Messages → Type 0
Grows [] ys = Unit {0}
Grows (x ∷ xs) [] = ⊥
Grows (x ∷ xs) (y ∷ ys) = Progress x y × Grows xs ys

abbrev pub HasStatus : Messages → Type 0
HasStatus m = m.send_status ≤ 2

Progress-trans : (a b c : Messages) → Progress a b → Progress b c → Progress a c
Progress-trans a b c p q = ground arith

pub Grows-trans : (xs ys zs : List Messages) → Grows xs ys → Grows ys zs → Grows xs zs
Grows-trans [] ys zs g h = tt
Grows-trans (x ∷ xs) [] zs g h = absurd g
Grows-trans (x ∷ xs) (y ∷ ys) [] g h = absurd h
Grows-trans (x ∷ xs) (y ∷ ys) (z ∷ zs) g h =
    (Progress-trans x y z g.0 h.0, Grows-trans xs ys zs g.1 h.1)

pub Grows-append : (xs ys : List Messages) → Grows xs (xs ++ ys)
Grows-append [] ys = tt
Grows-append (x ∷ xs) ys = (ground arith, Grows-append xs ys)

pub Grows-refl : (xs : List Messages) → Grows xs xs
Grows-refl [] = tt
Grows-refl (x ∷ xs) = (ground arith, Grows-refl xs)

Grows-update :
    (p : Messages → Bool) (f : Messages → Messages) (xs : List Messages)
    → ((m : Messages) → HasStatus m → p m ≡ true → Progress m (f m) × HasStatus (f m))
    → All HasStatus xs
    → Grows xs (update_where p f xs) × All HasStatus (update_where p f xs)
Grows-update p f [] h v = (tt, tt)
Grows-update p f (x ∷ xs) h v =
    let (g, w) = Grows-update p f xs h v.1 in
    elim (Bool-cases (p x)) [
      | inl hit ↦ rw hit (((h x v.0 hit).0, g), ((h x v.0 hit).1, w))
      | inr miss ↦ rw miss ((ground arith, g), (v.0, w))
    ]

-- Every RPC, also one that fails.
pub serve-Grows :
    (fault : Bool) (c : Rpc) (t : List Messages)
    → All HasStatus t
    → Grows t (serve fault c t).0 × All HasStatus (serve fault c t).0
unfolding serve get_unread_messages mark_messages_as_read mark_message_as_read
    mark_send_transport_delivered
serve-Grows true (sync_unread r) t v = (Grows-refl t, v)
serve-Grows true (notify_delivered r) t v = (Grows-refl t, v)
serve-Grows true (ack_message r) t v = (Grows-refl t, v)
serve-Grows true (read_messages r) t v = (Grows-refl t, v)
serve-Grows false (sync_unread r) t v = (Grows-refl t, v)
serve-Grows false (notify_delivered id) t v =
    Grows-update (is_unsent_id id) deliver_row t (λ m w hit. (ground arith, omega arith)) v
serve-Grows false (ack_message id) t v =
    Grows-update (is_unread_id id) read_row t (λ m w hit. (ground arith, omega arith)) v
serve-Grows false (read_messages r) t v =
    Grows-update (is_unread_of r) read_row t (λ m w hit. (ground arith, omega arith)) v

pub serve-UniqueKeys :
    (fault : Bool) (c : Rpc) (t : List Messages)
    → UniqueKeys message_key t
    → UniqueKeys message_key (serve fault c t).0
unfolding serve get_unread_messages mark_messages_as_read mark_message_as_read
    mark_send_transport_delivered
serve-UniqueKeys true (sync_unread r) t v = v
serve-UniqueKeys true (notify_delivered r) t v = v
serve-UniqueKeys true (ack_message r) t v = v
serve-UniqueKeys true (read_messages r) t v = v
serve-UniqueKeys false (sync_unread r) t v = v
serve-UniqueKeys false (notify_delivered id) t v =
    UniqueKeys-update message_key (is_unsent_id id) deliver_row t (λ m. refl) v
serve-UniqueKeys false (ack_message id) t v =
    UniqueKeys-update message_key (is_unread_id id) read_row t (λ m. refl) v
serve-UniqueKeys false (read_messages r) t v =
    UniqueKeys-update message_key (is_unread_of r) read_row t (λ m. refl) v

-- A table that insertions of unsent messages have led to.
pub data Inserts (t : List Messages) : List Messages → Type 0 where
  none_yet : Inserts t t
  one_more :
      {u v : List Messages} (fault : Bool) (a : ℤ) (now : ℕ) (m : Messages)
      → Inserts t u
      → m.send_status ≡ 0
      → insert_message fault a now m u ≡ some v
      → Inserts t v

pub insert_message-append :
    (fault : Bool) (a : ℤ) (now : ℕ) (m : Messages) (u v : List Messages)
    → insert_message fault a now m u ≡ some v
    → v ≡ u ++ message_row a now m ∷ []
unfolding insert_message
insert_message-append fault a now m u v e = ground arith

pub Inserts-Grows :
    {t u : List Messages} → Inserts t u → All HasStatus t → Grows t u × All HasStatus u
Inserts-Grows {t} none_yet v = (Grows-refl t, v)
Inserts-Grows {t} {u} (one_more {u = w} fault a now m i z e) v =
    let (g, h) = Inserts-Grows i v in
    let grown = insert_message-append fault a now m w u e in
    rw grown (Grows-trans t w _ g (Grows-append w _), All-append HasStatus w _ h (omega arith, tt))

pub Inserts-UniqueKeys :
    {t u : List Messages} → Inserts t u → UniqueKeys message_key t → UniqueKeys message_key u
unfolding insert_message
Inserts-UniqueKeys none_yet v = v
Inserts-UniqueKeys {t} {u} (one_more {u = w} fault a now m i z e) v =
    insert_row-UniqueKeys message_key fault (message_row a now m) w u (Inserts-UniqueKeys i v) e
