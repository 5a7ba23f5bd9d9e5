-- ===== src/Rpc/Codec/Frames.antt =====
-- What is written can be read.
use native.Mathlib.Nat.{mod-eq_of_lt}
use mathlib.Core.List.{append_assoc}
use go_im_system.Prelude.{
  ℕ, ◌+◌, ◌*◌, ◌/◌, ◌%◌, ◌^◌, ◌≡◌, ◌<◌, refl, ap, ◌∙◌, false, [], ◌++◌, some, length, length-append,
  take-length_append, drop-length_append, arith,
}
use go_im_system.Rpc.Codec.{
  into, is_error, Bytes, Header, Proto, Out, complete, frame, take_data, read_frame, write, message,
  read_header, read_body,
}

be32_value :
    (n : ℕ)
    → n < 2 ^ 32
    → (n / 2 ^ 24 % 256) * 2 ^ 24
        + (n / 2 ^ 16 % 256) * 2 ^ 16
        + (n / 2 ^ 8 % 256) * 2 ^ 8
        + n % 256
      ≡ n
be32_value n small = omega arith

take_whole : (d s : Bytes) → take_data (length d) (d ++ s) ≡ (complete d, s)
take_whole d s = ground (arith, length-append d s, take-length_append d s, drop-length_append d s)

pub read-frame : (d s : Bytes) → length d < 2 ^ 32 → read_frame (frame d ++ s) ≡ (complete d, s)
unfolding read_frame
read-frame d s small =
    let cut : length d % 2 ^ 32 ≡ length d = mod-eq_of_lt small in
    rw (cut, be32_value (length d) small) (take_whole d s)

module _ (p : Proto) where
  open p use {
    Body, marshal_header, unmarshal_header, marshal_body, unmarshal_body, header-law, body-law,
  }

  pub read-header :
      (h : Header) (d s : Bytes)
      → marshal_header h ≡ some d
      → length d < 2 ^ 32
      → read_header p (frame d ++ s) ≡ (some h, false, s)
  unfolding read_header
  read-header h d s made small = rw (read-frame d s small, header-law h d made) refl

  read-body :
      (b : Body) (d s : Bytes)
      → marshal_body b ≡ some d
      → length d < 2 ^ 32
      → read_body p into (frame d ++ s) ≡ (some b, false, s)
  unfolding read_body is_error
  read-body b d s made small = rw (read-frame d s small, body-law b d made) refl

  write_lem :
      (h : Header) (b : Body) (d e : Bytes) (o : Out)
      → marshal_header h ≡ some d
      → marshal_body b ≡ some e
      → o.buf ≡ []
      → let (fails, o') = write p h (message b) o in
        (fails ≡ false) × (o'.buf ≡ []) × (o'.sent ≡ o.sent ++ (frame d ++ frame e))
  unfolding write
  write_lem h b d e o made_header made_body empty = ground (arith, made_header, made_body, empty)

  -- With an empty buffer, a header and a body that can be marshalled, each in less than 2 ^
  -- 32 bytes, are written without an error, are sent whole as two frames, and come back
  -- unchanged from the two frames, read one after the other, whatever follows them on the
  -- stream.
  pub write-read :
      (h : Header) (b : Body) (d e : Bytes) (o : Out) (s : Bytes)
      → marshal_header h ≡ some d
      → marshal_body b ≡ some e
      → length d < 2 ^ 32
      → length e < 2 ^ 32
      → o.buf ≡ []
      → let (fails, o') = write p h (message b) o in
        (fails ≡ false)
        × (o'.buf ≡ [])
        × (o'.sent ≡ o.sent ++ (frame d ++ frame e))
        × (read_header p ((frame d ++ frame e) ++ s) ≡ (some h, false, frame e ++ s))
        × (read_body p into (frame e ++ s) ≡ (some b, false, s))
  write-read h b d e o s made_header made_body small_header small_body empty =
      let (fails, emptied, sent) = write_lem h b d e o made_header made_body empty in
      (
        fails,
        emptied,
        sent,
        ap (read_header p) (append_assoc (frame d) (frame e) s)
            ∙ read-header h d (frame e ++ s) made_header small_header,
        read-body b e s made_body small_body,
      )
