-- ===== src/Tests/Rings.antt =====
-- Two servers, listed in two orders.
use go_im_system.Prelude.{
  ℕ, zero, suc, ◌+◌, ◌*◌, ◌%◌, ◌^◌, ◌≡◌, ◌≢◌, sym, ap, ◌∙◌, [], ◌∷◌, In, inl, inr, ◌↔◌, arith,
}
use go_im_system.Text.{Text, codes, format_int}
use go_im_system.Rpc.Ring.{get}
use go_im_system.Rpc.Ring.Points.{place}
use go_im_system.Rpc.Ring.Order.{NoCollision, ring, same_ring}

abbrev hash : Text → ℕ
hash [] = 7
hash (c ∷ t) = (c + 31 * hash t) % 2 ^ 32

abbrev first_server : Text
first_server = codes "tcp@a:1"

abbrev second_server : Text
second_server = codes "tcp@b:2"

distinct : place hash 0 first_server ≢ place hash 0 second_server
unfolding format_int
distinct e = ground (arith, e)

apart : NoCollision hash 1 (first_server ∷ (second_server ∷ []))
apart s t zero zero (inl here) (inl there) small little same = ground (arith, here, there)
apart s t zero zero (inr (inl here)) (inr (inl there)) small little same =
    ground (arith, here, there)
apart s t zero zero (inl here) (inr (inl there)) small little same =
    absurd (distinct (ap (place hash 0) (sym here) ∙ same ∙ ap (place hash 0) there))
apart s t zero zero (inr (inl here)) (inl there) small little same =
    absurd (distinct (ap (place hash 0) (sym there) ∙ sym same ∙ ap (place hash 0) here))
apart s t zero zero (inr (inr none_left)) there small little same = elim none_left [ ]
apart s t zero zero (inl here) (inr (inr none_left)) small little same = elim none_left [ ]
apart s t zero zero (inr (inl here)) (inr (inr none_left)) small little same = elim none_left [ ]
apart s t (suc i) k here there small little same = absurd (omega (arith, small))
apart s t zero (suc k) here there small little same = absurd (omega (arith, little))

swapped :
    (t : Text)
    → In t (first_server ∷ (second_server ∷ [])) ↔ In t (second_server ∷ (first_server ∷ []))
swapped t = ground arith

same_ring_example :
    get (codes "42") (ring hash 1 (first_server ∷ (second_server ∷ [])))
    ≡ get (codes "42") (ring hash 1 (second_server ∷ (first_server ∷ [])))
same_ring_example =
    same_ring hash 1 (first_server ∷ (second_server ∷ [])) (second_server ∷ (first_server ∷ []))
      (codes "42") swapped apart
