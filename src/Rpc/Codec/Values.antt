-- ===== src/Rpc/Codec/Values.antt =====
-- apps/pkg/geeRPC/codec/gob.go and json.go, which differ in the package that encodes the values. What
-- `encoding/gob` and `encoding/json` make of a value is an interface: a chunk that a decoder takes from
-- the stream as a whole. The buffer is flushed by `Write` alone, and the connection takes
-- all chunks until it is closed.
use go_im_system.Prelude.{
  ◌≡◌, Bool, true, false, ◌||◌, List, [], ◌∷◌, ◌++◌, Option, none, some, if◌then◌else◌,
}
use go_im_system.Rpc.Codec.{Header, Codec, Target, discard, other, into, Reply, message}
pub mod Ends

-- Reading gives back what was written. `nil_fails`: whether decoding into `nil` is an error, as it is
-- for `encoding/json`, or drops the value, as for `encoding/gob`.
pub record Coder : Type 1 where
  pub Body : Type 0
  pub Chunk : Type 0
  pub encode_header : Header → Option Chunk
  pub encode_body : Reply Body → Option Chunk
  pub decode_header : Chunk → Option Header
  pub decode_body : Chunk → Option Body
  pub nil_fails : Bool
  pub header-law : (h : Header) (d : Chunk) → encode_header h ≡ some d → decode_header d ≡ some h
  pub body-law : (b : Body) (d : Chunk) → encode_body (message b) ≡ some d → decode_body d ≡ some b

-- The buffer, what is sent, whether the connection is closed, and whether the buffer has met an error,
-- after which it takes nothing.
pub record Written (D : Type 0) : Type 0 where
  pub buf : List D
  pub sent : List D
  pub closed : Bool
  pub failed : Bool

module _ {D : Type 0} where
  abbrev holds : List D → Bool
  holds [] = false
  holds (d ∷ ds) = true

  abbrev pub flush : Written D → Written D
  flush o =
      if o.closed || o.failed
      then record o { failed = o.failed || holds o.buf }
      else record o { buf = []; sent = o.sent ++ o.buf }

  abbrev pub put : D → Written D → Written D
  put d o = record o { buf = o.buf ++ d ∷ [] }

  abbrev pub close : Written D → Written D
  close o = record o { closed = true }

  -- `Encode`: nothing is taken after an error.
  abbrev pub encode : Bool → Option D → Option D
  encode true d = none
  encode false d = d

  -- The error of a body is only logged, and the header is sent alone.
  abbrev write_body : Option D → Written D → Bool × Written D
  write_body none o = (false, flush o)
  write_body (some d) o = (false, flush (put d o))

  -- An error of the header closes the connection.
  abbrev write_header : Option D → Option D → Written D → Bool × Written D
  write_header none e o = (true, close (flush o))
  write_header (some d) e o = write_body e (put d o)

module _ (v : Coder) where
  open v use {Body, Chunk, encode_header, encode_body, decode_header, decode_body, nil_fails}

  unfoldable pub write : Header → Reply Body → Written Chunk → Bool × Written Chunk
  write h body o =
      write_header (encode o.failed (encode_header h)) (encode o.failed (encode_body body)) o

  abbrev filled_in : {A : Type 0} → Option A → List Chunk → Option A × Bool × List Chunk
  filled_in none s = (none, true, s)
  filled_in (some a) s = (some a, false, s)

  -- At the end of the stream the error is `io.EOF`.
  unfoldable pub read_header : List Chunk → Option Header × Bool × List Chunk
  read_header [] = (none, true, [])
  read_header (d ∷ s) = filled_in (decode_header d) s

  unfoldable pub read_body : Target → List Chunk → Option Body × Bool × List Chunk
  read_body t [] = (none, true, [])
  read_body discard (d ∷ s) = (none, nil_fails, s)
  read_body other (d ∷ s) = (none, true, s)
  read_body into (d ∷ s) = filled_in (decode_body d) s

  abbrev pub values_codec : Codec
  values_codec = record {
    Body = Body;
    Input = List Chunk;
    Output = Written Chunk;
    read_header = read_header;
    read_body = read_body;
    write = write;
  }
