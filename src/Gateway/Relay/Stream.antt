-- ===== src/Gateway/Relay/Stream.antt =====
-- The agent's chunks and the frames they become.
use mathlib.Core.List.{append_assoc, append-nil}
use go_im_system.Prelude.{
  ℕ, suc, ◌+◌, ◌≡◌, ◌<◌, refl, ap, ◌∙◌, Bool, true, false, ◌==◌, List, [], ◌∷◌, ◌++◌, map, length,
  All, list_eq, list_Eq, nat_eq, arith, some,
}
use go_im_system.Text.{Text, codes}
use go_im_system.Gateway.Client.{ai_end, ai_chunk}
use go_im_system.Gateway.Relay.{
  newline, event, done_event, stream, chat_sse, drop_cr, max_token, scan_from, relay_lines,
  relay_frames,
}

abbrev pub OneLine : Text → Type 0
OneLine t = All (λ c. (c == newline) ≡ false) t

scan_line :
    (seen line t : Text)
    → OneLine line
    → length (seen ++ line) < max_token
    → scan_from seen (line ++ newline ∷ t) ≡ drop_cr (seen ++ line) ∷ scan_from [] t
unfolding scan_from
scan_line seen [] t plain short = let same = append-nil seen in rw same (ground arith)
scan_line seen (c ∷ line) t (h, plain) short =
    let shift = append_assoc seen (c ∷ []) line in
    rw h (
      scan_line (seen ++ c ∷ []) line t plain (rw shift short)
      ∙ ap (λ l. drop_cr l ∷ scan_from [] t) shift)

cr_event :
    (chunk : Text)
    → drop_cr chunk ≡ chunk
    → drop_cr (codes "data: " ++ chunk) ≡ codes "data: " ++ chunk
cr_event [] h = refl
cr_event (c ∷ t) h = ap (λ u. codes "data: " ++ u) h

scan_event :
    (chunk t : Text)
    → OneLine chunk
    → length chunk + 6 < max_token
    → drop_cr chunk ≡ chunk
    → scan_from [] (event chunk ++ t) ≡ (codes "data: " ++ chunk) ∷ ([] ∷ scan_from [] t)
unfolding scan_from
scan_event chunk t plain short no_cr =
    ap (λ u. scan_from [] (codes "data: " ++ u)) (append_assoc chunk (newline ∷ newline ∷ []) t)
    ∙ scan_line [] (codes "data: " ++ chunk) (newline ∷ t)
        (refl, (refl, (refl, (refl, (refl, (refl, plain)))))) (omega arith)
    ∙ ap (λ l. l ∷ ([] ∷ scan_from [] t)) (cr_event chunk no_cr)

-- Chunks that an event carries unchanged, and that are not taken for the end mark.
abbrev pub Carried : Text → Type 0
Carried c =
    OneLine c × (length c + 6 < max_token) × (drop_cr c ≡ c) × (list_eq c (codes "[DONE]") ≡ false)

relay_event : (c t : Text) → Carried c → relay_frames (event c ++ t) ≡ ai_chunk c ∷ relay_frames t
unfolding relay_frames relay_lines
relay_event c t (plain, short, no_cr, no_end) =
    ap relay_lines (scan_event c t plain short no_cr) ∙ rw no_end refl

stream_runs :
    (ok : ℕ → Bool) (i : ℕ) (chunks : List Text)
    → ((i : ℕ) → ok i ≡ true)
    → (stream ok i chunks).1 ≡ true
unfolding stream
stream_runs ok i [] works = refl
stream_runs ok i (c ∷ chunks) works = rw (works i) (stream_runs ok (suc i) chunks works)

stream_frames :
    (ok : ℕ → Bool) (i : ℕ) (chunks : List Text) (t : Text)
    → ((i : ℕ) → ok i ≡ true)
    → All Carried chunks
    → relay_frames ((stream ok i chunks).0 ++ t) ≡ map ai_chunk chunks ++ relay_frames t
unfolding stream
stream_frames ok i [] t works carried = refl
stream_frames ok i (c ∷ chunks) t works (one, carried) =
    let rest = (stream ok (suc i) chunks).0 in
    rw (works i) (
      ap relay_frames (append_assoc (event c) rest t)
      ∙ relay_event c (rest ++ t) one
      ∙ ap (λ fs. ai_chunk c ∷ fs) (stream_frames ok (suc i) chunks t works carried))

frames_done : relay_frames done_event ≡ ai_end ∷ []
unfolding relay_frames scan_from relay_lines
frames_done = refl

-- The agent's chunks, where all writes succeed and no chunk holds a newline, ends in a carriage
-- return, is too long for a scanner's line or is the text of the end mark, come out of the
-- gateway's relay as one frame each, in order, and then the end frame.
pub relay_stream :
    (ok : ℕ → Bool) (chunks : List Text)
    → ((i : ℕ) → ok i ≡ true)
    → All Carried chunks
    → relay_frames (chat_sse ok (some chunks)).0 ≡ map ai_chunk chunks ++ ai_end ∷ []
unfolding chat_sse
relay_stream ok chunks works carried = rw (stream_runs ok 0 chunks works) (
    stream_frames ok 0 chunks done_event works carried
    ∙ ap (λ fs. map ai_chunk chunks ++ fs) frames_done)
