-- ===== src/Firecracker/RoundTrip.antt =====
-- The frames of internal/runtime/firecracker/protocol: what is written is what is read.
use selfcloud.Base.{
  ℕ, ◌/◌, ◌%◌, ◌<◌, ◌≤◌, ◌≡◌, refl, ap, ◌∙◌, [], ◌∷◌, ◌++◌, length, arith, Error, ok,
}
use mathlib.Core.List.{append_assoc}
use selfcloud.Store.Types.{Bytes}
use selfcloud.Firecracker.Protocol.{
  max_message_size, put_uint32, uint32, read_full, framed, Wire, write_frame, decoded, read_body,
  read_header, read_frame,
}

read_full-append :
    (eof : Error) (content rest : Bytes)
    → read_full eof (length content) (content ++ rest) ≡ ok (content, rest)
unfolding read_full
read_full-append eof [] rest = refl
read_full-append eof (b ∷ content) rest = rw (read_full-append eof content rest) refl

uint32-put_uint32 :
    (n : ℕ)
    → n < 4_294_967_296
    → uint32 ((n / 16_777_216) % 256) ((n / 65_536) % 256) ((n / 256) % 256) (n % 256) ≡ n
unfolding uint32
uint32-put_uint32 n h = omega arith

module _ {A : Type 0} (w : Wire A) (v : A) where
  read_header_of_length :
      (n : ℕ) (stream : Bytes)
      → n < 4_294_967_296
      → read_header w (put_uint32 n, stream) ≡ read_body w n stream
  unfolding read_header put_uint32
  read_header_of_length n stream h = ap (λ k. read_body w k stream) (uint32-put_uint32 n h)

  read_frame_of_length :
      (n : ℕ) (stream : Bytes)
      → n < 4_294_967_296
      → read_frame w (put_uint32 n ++ stream) ≡ read_body w n stream
  unfolding read_frame read_full put_uint32
  read_frame_of_length n stream h = read_header_of_length n stream h

  written_ok :
      (bytes : Bytes)
      → write_frame w v ≡ ok bytes
      → (content : Bytes) × (w.marshal v ≡ ok content)
        × (length content ≤ max_message_size)
        × (bytes ≡ put_uint32 (length content) ++ content)
  unfolding write_frame framed
  written_ok bytes h = ground arith

  read_body_written :
      (content rest : Bytes)
      → w.marshal v ≡ ok content
      → length content ≤ max_message_size
      → read_body w (length content) (content ++ rest) ≡ ok (v, rest)
  unfolding read_body decoded
  read_body_written [] rest m small = absurd (w.marshal_nonempty v m)
  read_body_written (b ∷ content) rest m small =
      rw (read_full-append w.eof (b ∷ content) rest, w.unmarshal-marshal v (b ∷ content) m)
        (ground arith)

  -- A message that `WriteFrame` has written is what `ReadFrame` returns from the stream, whatever
  -- follows, and what follows is left in the stream.
  pub read_frame-write_frame :
      (bytes rest : Bytes)
      → write_frame w v ≡ ok bytes
      → read_frame w (bytes ++ rest) ≡ ok (v, rest)
  read_frame-write_frame bytes rest h =
      let (content, m, small, e) = written_ok bytes h in
      rw (e, append_assoc (put_uint32 (length content)) content rest)
        (read_frame_of_length (length content) (content ++ rest) (omega arith)
          ∙ read_body_written content rest m small)
