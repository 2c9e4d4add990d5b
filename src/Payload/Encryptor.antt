-- ===== src/Payload/Encryptor.antt =====
-- src/payload.rs: `impl Encryptor for EncryptionMode`.
pub mod Wire
pub mod RoundTrip
pub mod Bounds
use discord_ext_audiorec.Prelude.{
  ℕ, ◌+◌, ◌-◌, ◌*◌, ◌/◌, ◌%◌, ◌^◌, List, [], ◌∷◌, ◌++◌, length, take, drop, replicate, ◌==◌,
}
use discord_ext_audiorec.Prelude.Results.{
  Result, ok, err, panic, ◌>>=◌, ◌>>◌, require, Build, sub_usize,
}
use discord_ext_audiorec.Buffer.{
  AudioBuffer, AeadError, as_ref, slice_to, slice_from, extend_from_slice, truncate, rotate_left,
}
use discord_ext_audiorec.Payload.Mode.{
  EncryptionMode, xsalsa20_poly1305, xsalsa20_poly1305_suffix, xsalsa20_poly1305_lite,
}
use discord_ext_audiorec.Payload.Cipher.{Cipher}

-- `u16::to_be_bytes` and `u32::to_be_bytes`.
abbrev pub be16 : ℕ → List ℕ
be16 n = (n / 2 ^ 8 % 256) ∷ (n % 256) ∷ []

abbrev pub be32 : ℕ → List ℕ
be32 n = (n / 2 ^ 24 % 256) ∷ (n / 2 ^ 16 % 256) ∷ (n / 2 ^ 8 % 256) ∷ (n % 256) ∷ []

-- `dst[..].copy_from_slice(src)` on an array of `n` bytes, which is replaced whole.
abbrev pub copy_exact : ℕ → List ℕ → Result AeadError (List ℕ)
copy_exact n src = do require (length src == n); ok src

-- `random` is what `thread_rng().fill_bytes` writes into the 24 bytes of a nonce.
unfoldable pub encrypt :
    EncryptionMode
    → Cipher
    → (random : List ℕ) → (lite : ℕ) → (header : List ℕ) → AudioBuffer
    → Result AeadError AudioBuffer
encrypt xsalsa20_poly1305 cipher random lite header buffer = do
  head ← copy_exact 12 header
  let nonce = head ++ replicate 12 0
  sealed ← cipher.encrypt_in_place nonce buffer
  extend_from_slice sealed nonce
encrypt xsalsa20_poly1305_suffix cipher random lite header buffer = do
  sealed ← cipher.encrypt_in_place random buffer
  extend_from_slice sealed random
encrypt xsalsa20_poly1305_lite cipher random lite header buffer = do
  let nonce = be32 lite ++ replicate 20 0
  sealed ← cipher.encrypt_in_place nonce buffer
  trailer ← slice_to 4 nonce
  extend_from_slice sealed trailer

-- The header, and the buffer with the message.
unfoldable pub decrypt :
    Build → EncryptionMode → Cipher → AudioBuffer → Result AeadError (List ℕ × AudioBuffer)
decrypt cfg xsalsa20_poly1305 cipher buffer = do
  view ← as_ref buffer
  header ← slice_to 12 view
  let nonce = header ++ replicate 12 0
  rotated ← rotate_left buffer 12
  n ← sub_usize cfg rotated.len 12
  cut ← truncate rotated n
  opened ← cipher.decrypt_in_place nonce cut
  ok (header, opened)
decrypt cfg xsalsa20_poly1305_suffix cipher buffer = do
  view ← as_ref buffer
  header ← slice_to 12 view
  start ← sub_usize cfg buffer.len 24
  tail ← slice_from start view
  nonce ← copy_exact 24 tail
  rotated ← rotate_left buffer 12
  n ← sub_usize cfg rotated.len 36
  cut ← truncate rotated n
  opened ← cipher.decrypt_in_place nonce cut
  ok (header, opened)
decrypt cfg xsalsa20_poly1305_lite cipher buffer = do
  view ← as_ref buffer
  header ← slice_to 12 view
  start ← sub_usize cfg buffer.len 4
  tail ← slice_from start view
  head ← copy_exact 4 tail
  let nonce = head ++ replicate 20 0
  rotated ← rotate_left buffer 12
  n ← sub_usize cfg rotated.len 16
  cut ← truncate rotated n
  opened ← cipher.decrypt_in_place nonce cut
  ok (header, opened)
