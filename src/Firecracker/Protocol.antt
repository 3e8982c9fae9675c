-- ===== src/Firecracker/Protocol.antt =====
-- internal/runtime/firecracker/protocol/protocol.go: the frames of the wire. A stream is its bytes;
-- `io.ReadFull` of n bytes takes them, or fails with one error for every short stream. A message is its JSON, by a codec.
use selfcloud.Base.{
  ℕ, zero, suc, ◌+◌, ◌*◌, ◌/◌, ◌%◌, ◌≡◌, [], ◌∷◌, ◌++◌, length, ltb, ◌==◌, Error, message, Result,
  ok, err, ◌>>=◌, map_ok, if◌then◌else◌,
}
use selfcloud.Store.Types.{Bytes}

-- 32 << 20
abbrev pub max_message_size : ℕ
max_message_size = 33_554_432

-- `binary.BigEndian.PutUint32` of `uint32(n)`
unfoldable pub put_uint32 : ℕ → Bytes
put_uint32 n = (n / 16_777_216) % 256 ∷ (n / 65_536) % 256 ∷ (n / 256) % 256 ∷ n % 256 ∷ []

-- `binary.BigEndian.Uint32`
unfoldable pub uint32 : ℕ → ℕ → ℕ → ℕ → ℕ
uint32 a b c e = ((a * 256 + b) * 256 + c) * 256 + e

-- `io.ReadFull`: the bytes and the rest of the stream
unfoldable pub read_full : Error → ℕ → Bytes → Result (Bytes × Bytes)
read_full eof zero stream = ok ([], stream)
read_full eof (suc n) [] = err eof
read_full eof (suc n) (b ∷ stream) = read_full eof n stream >>= λ r. ok (b ∷ r.0, r.1)

abbrev pub empty_frame : Error
empty_frame = message "empty frame"

-- the number of bytes is left out of the text
abbrev pub too_large : Error
too_large = message "frame too large"

-- The messages, as `json.Marshal` and `json.Unmarshal` treat them.
pub record Wire (A : Type 0) : Type 0 where
  pub marshal : A → Result Bytes
  pub unmarshal : Bytes → Result A
  -- a JSON text is not empty, and is read as what was written
  pub marshal_nonempty : (v : A) → marshal v ≡ ok [] → ⊥
  pub unmarshal-marshal : (v : A) (bytes : Bytes) → marshal v ≡ ok bytes → unmarshal bytes ≡ ok v
  -- the end of the stream, as `io.ReadFull` reports it
  pub eof : Error

unfoldable pub framed : Bytes → Result Bytes
unfolding put_uint32
framed content =
    if ltb max_message_size (length content)
    then err too_large
    else ok (put_uint32 (length content) ++ content)

module _ {A : Type 0} (w : Wire A) where
  -- `WriteFrame`: the bytes that it writes
  unfoldable pub write_frame : A → Result Bytes
  unfolding framed
  write_frame v = w.marshal v >>= framed

  unfoldable pub decoded : Bytes × Bytes → Result (A × Bytes)
  decoded (content, rest) = map_ok (λ v. (v, rest)) (w.unmarshal content)

  -- the body of a frame whose header says `n`
  unfoldable pub read_body : ℕ → Bytes → Result (A × Bytes)
  unfolding read_full decoded
  read_body n stream =
      if n == 0
      then err empty_frame
      else if ltb max_message_size n
      then err too_large
      else read_full w.eof n stream >>= decoded

  unfoldable pub read_header : Bytes × Bytes → Result (A × Bytes)
  unfolding read_body uint32
  read_header (a ∷ b ∷ c ∷ e ∷ [], stream) = read_body (uint32 a b c e) stream
  read_header (_, stream) = err w.eof

  -- `ReadFrame`: the message, and the rest of the stream
  unfoldable pub read_frame : Bytes → Result (A × Bytes)
  unfolding read_header read_full
  read_frame stream = read_full w.eof 4 stream >>= read_header
