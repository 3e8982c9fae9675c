-- ===== src/Secrets/Cipher.antt =====
-- internal/secrets/cipher.go. AES-GCM and the random reader are parameters; a plaintext is a text,
-- which the source converts to its bytes and back.
use selfcloud.Base.{
  ℕ, String, ◌≡◌, Option, some, length, ◌==◌, Error, message, Result, ok, err, ◌>>=◌, unless_error,
  if◌then◌else◌,
}
use selfcloud.Store.Types.{Bytes}

-- What the source uses of crypto/aes and crypto/cipher: the errors of the constructors, the size
-- of a nonce, and an authenticated encryption whose decryption undoes it.
pub record Gcm : Type 0 where
  pub new_error : Bytes → Option Error
  pub nonce_size : ℕ
  pub encrypt : Bytes → Bytes → String → Bytes
  pub decrypt : Bytes → Bytes → Bytes → Result String
  pub decrypt-encrypt :
      (key nonce : Bytes) (plain : String) → decrypt key nonce (encrypt key nonce plain) ≡ ok plain

-- `ErrTampered`
abbrev pub tampered : Error
tampered = message "secret authentication failed (wrong key or tampered ciphertext)"

unfoldable pub check_key : Gcm → Bytes → Option Error
check_key g key =
    if length key == 32
    then g.new_error key
    else some (message "master key must be 32 bytes (AES-256)")

-- `Seal`; `nonce` is what the random reader fills in, or its error
unfoldable pub seal_plain : Gcm → Bytes → Result Bytes → String → Result (Bytes × Bytes)
unfolding check_key
seal_plain g key nonce plain =
    unless_error (check_key g key) (nonce >>= λ n. ok (n, g.encrypt key n plain))

-- the error of an authentication that fails
unfoldable pub opened_or_tampered : Result String → Result String
opened_or_tampered (ok plain) = ok plain
opened_or_tampered (err e) = err tampered

-- `Open`
unfoldable pub open_sealed : Gcm → Bytes → Bytes → Bytes → Result String
unfolding check_key opened_or_tampered
open_sealed g key nonce ciphertext = unless_error (check_key g key) (
    if length nonce == g.nonce_size
    then opened_or_tampered (g.decrypt key nonce ciphertext)
    else err (message "bad nonce length"))
