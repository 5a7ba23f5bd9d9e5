-- ===== src/Rpc/Codec/Values/Ends.antt =====
-- A server's loop over gob or JSON ends with the stream.
use mathlib.Core.List.{append_assoc, append-nil}
use go_im_system.Prelude.{
  ℕ, zero, suc, ◌+◌, ◌≡◌, refl, ap, sym, ◌∙◌, Bool, true, false, List, [], ◌∷◌, ◌++◌, some, length,
  All, arith,
}
use go_im_system.Rpc.Codec.{Header, message}
use go_im_system.Rpc.Codec.Values.{Coder, Written, write, values_codec, read_header, read_body}
use go_im_system.Rpc.Service.{GoType, MethodType, ServiceMap, found, find_service}
use go_im_system.Rpc.Server.{Reading, request, read_request, serve_codec}

-- An open connection with an empty buffer.
abbrev pub sending : {D : Type 0} → List D → Written D
sending s = record { buf = []; sent = s; closed = false; failed = false }

module _ (v : Coder) (is_message : GoType → Bool) (m : ServiceMap) where
  open v use {Body, Chunk, encode_header, encode_body, header-law, body-law}

  -- A request, with its encodings and the type of its method.
  pub record Asked : Type 0 where
    pub header : Header
    pub body : Body
    pub header_chunk : Chunk
    pub body_chunk : Chunk
    pub type : MethodType

  pub record Carried (a : Asked) : Type 0 where
    pub header_made : encode_header a.header ≡ some a.header_chunk
    pub body_made : encode_body (message a.body) ≡ some a.body_chunk
    pub offered : find_service a.header.service_method m ≡ found a.type
    pub taken_in : is_message a.type.arg_type ≡ true

  abbrev pub write_all : List Asked → Written Chunk → Written Chunk
  write_all [] o = o
  write_all (a ∷ qs) o = write_all qs (write v a.header (message a.body) o).1

  abbrev pub taken : List Asked → List (Reading Body)
  taken [] = []
  taken (a ∷ qs) = request a.header a.type (some a.body) ∷ taken qs

  abbrev chunks : List Asked → List Chunk
  chunks [] = []
  chunks (a ∷ qs) = a.header_chunk ∷ (a.body_chunk ∷ chunks qs)

  write_asked :
      (a : Asked) (s : List Chunk)
      → Carried a
      → (write v a.header (message a.body) (sending s)).1
        ≡ sending (s ++ a.header_chunk ∷ (a.body_chunk ∷ []))
  unfolding write
  write_asked a s ok = rw (ok.header_made, ok.body_made) refl

  written_by :
      (qs : List Asked) (s : List Chunk)
      → All Carried qs
      → write_all qs (sending s) ≡ sending (s ++ chunks qs)
  written_by [] s ok = ap sending (sym (append-nil s))
  written_by (a ∷ qs) s (ok, oks) =
      ap (write_all qs) (write_asked a s ok)
      ∙ written_by qs (s ++ a.header_chunk ∷ (a.body_chunk ∷ [])) oks
      ∙ ap sending (append_assoc s (a.header_chunk ∷ (a.body_chunk ∷ [])) (chunks qs))

  read_asked :
      (a : Asked) (s : List Chunk)
      → Carried a
      → read_request (values_codec v) is_message m (a.header_chunk ∷ (a.body_chunk ∷ s))
        ≡ (request a.header a.type (some a.body), s)
  unfolding read_request read_header read_body
  read_asked a s ok =
      rw
        (
          header-law a.header a.header_chunk ok.header_made,
          ok.offered,
          ok.taken_in,
          body-law a.body a.body_chunk ok.body_made,
        )
        refl

  serve_end : (n : ℕ) → serve_codec (values_codec v) is_message m (suc n) [] ≡ ([], true)
  unfolding serve_codec read_request read_header
  serve_end n = refl

  serve_chunks :
      (qs : List Asked) (n k : ℕ)
      → k ≡ length qs + suc n
      → All Carried qs
      → serve_codec (values_codec v) is_message m k (chunks qs) ≡ (taken qs, true)
  unfolding serve_codec
  serve_chunks [] n zero fuel ok = absurd (omega (arith, fuel))
  serve_chunks [] n (suc k) fuel ok = serve_end k
  serve_chunks (a ∷ qs) n zero fuel ok = absurd (omega (arith, fuel))
  serve_chunks (a ∷ qs) n (suc k) fuel (ok, oks) =
      rw (read_asked a (chunks qs) ok, serve_chunks qs n k (omega (arith, fuel)) oks) refl

  -- A client writes any list of requests over the gob or the JSON codec, each with a header
  -- and a body that can be encoded, for a method that the server has and whose argument can
  -- be read: with fuel for one round more than there are requests, and with any more, the
  -- server's loop reads just these, in their order, each with its header, its method's type
  -- and its body, and ends when the stream does.
  pub serve-ends :
      (qs : List Asked) (n : ℕ)
      → All Carried qs
      → serve_codec
          (values_codec v)
          is_message
          m
          (length qs + suc n)
          (write_all qs (sending [])).sent
        ≡ (taken qs, true)
  serve-ends qs n ok =
      ap (λ o. serve_codec (values_codec v) is_message m (length qs + suc n) o.sent)
        (written_by qs [] ok)
      ∙ serve_chunks qs n (length qs + suc n) refl ok
