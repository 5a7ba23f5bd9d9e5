-- ===== src/Gateway/Chat/Sequence.antt =====
-- The sequence numbers of messages.
use go_im_system.Prelude.{
  ◌+◌, ◌≡◌, sym, ap, ◌∙◌, inl, inr, ℤ, int_eq, int_eq_iff, list_eq, list_eq_iff, list_Eq, nat_eq,
  lookup-insert, if◌then◌else◌, Bool-cases, arith,
}
use go_im_system.Text.{Text, codes}
use go_im_system.Text.Decimal.{format_int-injective, prefix-cancel}
use go_im_system.Gateway.Chat.{Gateway, seq_key, counter, get_next_seq_id}

seq_key-injective : (conv : Text) (a b : ℤ) → seq_key conv a ≡ seq_key conv b → a ≡ b
unfolding seq_key
seq_key-injective conv a b e =
    format_int-injective a b
      (prefix-cancel (codes ":") _ _ (prefix-cancel conv _ _ (prefix-cancel (codes "seq:") _ _ e)))

seq_key-eq : (conv : Text) (a b : ℤ) → list_eq (seq_key conv a) (seq_key conv b) ≡ int_eq a b
seq_key-eq conv a b = elim (Bool-cases (int_eq a b)) [
  | inl e ↦
      let same : a ≡ b = (int_eq_iff a b).0 e in rw e ((list_eq_iff _ _).1 (ap (seq_key conv) same))
  | inr ne ↦ elim (Bool-cases (list_eq (seq_key conv a) (seq_key conv b))) [
    | inl same ↦
        let e = (int_eq_iff a b).1 (seq_key-injective conv a b ((list_eq_iff _ _).0 same)) in cc
    | inr other ↦ other ∙ sym ne
  ]
]

-- The sequence number after another of the same conversation: one more if the same participant
-- sends, and unaffected by it if another one does.
pub next_seq-next_seq :
    {B : Type 0} (conv : Text) (a b : ℤ) (g : Gateway B)
    → (get_next_seq_id conv b (get_next_seq_id conv a g).1).0
      ≡ (if int_eq a b then (get_next_seq_id conv a g).0 + 1 else (get_next_seq_id conv b g).0)
unfolding get_next_seq_id
next_seq-next_seq conv a b g = ground (
  arith,
  seq_key-eq conv a b,
  lookup-insert (seq_key conv a) (seq_key conv b) (counter (seq_key conv a) g.counters + 1)
      g.counters,
)
