-- ===== src/Gateway/Chat/Conversation.antt =====
-- Conversation ids and the keys of their counters.
use go_im_system.Prelude.{
  ◌↔◌, ◌↔◌, ◌≡◌, ◌⊎◌, inl, inr, ◌++◌, ℤ, int_lt, int_lt_total, int_lt_asymm, Bool-cases,
}
use go_im_system.Text.{codes, format_int}
use go_im_system.Text.Decimal.{format_int-injective, format_int-Without_underscore, join-injective}
use go_im_system.Gateway.Chat.{single_chat_conv_id}

-- Both users of a chat find the same conversation.
conv_id_comm : (a b : ℤ) → single_chat_conv_id a b ≡ single_chat_conv_id b a
unfolding single_chat_conv_id
conv_id_comm a b = elim (Bool-cases (int_lt b a)) [
  | inl gt ↦ rw (gt, int_lt_asymm b a gt)
  | inr le ↦ elim (Bool-cases (int_lt a b)) [
    | inl lt ↦ rw (le, lt)
    | inr ge ↦ rw (le, ge, int_lt_total a b ge le)
  ]
]

join_pair :
    (a b c d : ℤ)
    → format_int a ++ (codes "_" ++ format_int b) ≡ format_int c ++ (codes "_" ++ format_int d)
    → (a ≡ c) × (b ≡ d)
join_pair a b c d e =
    let parts =
      join-injective b'_' (format_int a) (format_int c) (format_int b) (format_int d)
        (format_int-Without_underscore a) (format_int-Without_underscore c) e in
    (format_int-injective a c parts.0, format_int-injective b d parts.1)

pair_of_conv :
    (a b c d : ℤ)
    → single_chat_conv_id a b ≡ single_chat_conv_id c d
    → ((a ≡ c) × (b ≡ d)) ⊎ ((a ≡ d) × (b ≡ c))
unfolding single_chat_conv_id
pair_of_conv a b c d e = elim (Bool-cases (int_lt b a)) [
  | inl g ↦ elim (Bool-cases (int_lt d c)) [
    | inl h ↦ let p = join_pair b a d c (rw (g, h) at e) in inl (p.1, p.0)
    | inr h ↦ let p = join_pair b a c d (rw (g, h) at e) in inr (p.1, p.0)
  ]
  | inr g ↦ elim (Bool-cases (int_lt d c)) [
    | inl h ↦ inr (join_pair a b d c (rw (g, h) at e))
    | inr h ↦ inl (join_pair a b c d (rw (g, h) at e))
  ]
]

conv_of_pair :
    (a b c d : ℤ)
    → ((a ≡ c) × (b ≡ d)) ⊎ ((a ≡ d) × (b ≡ c))
    → single_chat_conv_id a b ≡ single_chat_conv_id c d
conv_of_pair a b c d (inl (p, q)) = cc
conv_of_pair a b c d (inr (p, q)) = rw (p, q) (conv_id_comm d c)

-- Two single chats have the same conversation id exactly when they have the same two users, in
-- either order.
pub single_chat_conv_id-pair :
    (a b c d : ℤ)
    → (single_chat_conv_id a b ≡ single_chat_conv_id c d)
      ↔ (((a ≡ c) × (b ≡ d)) ⊎ ((a ≡ d) × (b ≡ c)))
single_chat_conv_id-pair a b c d = (pair_of_conv a b c d, conv_of_pair a b c d)
