-- ===== src/Payload/Cipher.antt =====
-- src/payload.rs calls `AeadInPlace` of the crate xsalsa20poly1305. This is the interface: the two
-- operations on buffers, under one key and with empty associated data, and what their
-- documentation promises. A sealed message is the tag and the ciphertext, 16 bytes longer than the
-- plaintext.
use discord_ext_audiorec.Prelude.{ℕ, ◌+◌, ◌≤◌, ◌<◌, ◌≡◌, ◌≢◌, List, length}
use discord_ext_audiorec.Prelude.Results.{Result, ok, err, panic}
use discord_ext_audiorec.Buffer.{AudioBuffer, AeadError, aead_error, IsSane, contents}

-- The arguments are the nonce, of 24 bytes, and the buffer.
pub record Cipher : Type 0 where
  pub encrypt_in_place : List ℕ → AudioBuffer → Result AeadError AudioBuffer
  pub decrypt_in_place : List ℕ → AudioBuffer → Result AeadError AudioBuffer

-- The outcome of an operation that leaves `bytes` in a buffer of the same capacity.
pub record Holds (b : AudioBuffer) (bytes : List ℕ) (r : Result AeadError AudioBuffer)
    : Type 0 where
  pub buffer : AudioBuffer
  pub returns : r ≡ ok buffer
  pub sane : IsSane buffer
  pub same_capacity : buffer.capacity ≡ b.capacity
  pub holds : contents buffer ≡ bytes

pub record IsAead (c : Cipher) : Type 0 where
  pub seal : List ℕ → List ℕ → List ℕ
  pub length-seal : (nonce bytes : List ℕ) → length (seal nonce bytes) ≡ length bytes + 16
  pub encrypt_fits :
      (nonce : List ℕ) (b : AudioBuffer)
      → IsSane b
      → b.len + 16 ≤ b.capacity
      → Holds b (seal nonce (contents b)) (c.encrypt_in_place nonce b)
  pub encrypt_full :
      (nonce : List ℕ) (b : AudioBuffer)
      → IsSane b
      → b.capacity < b.len + 16
      → c.encrypt_in_place nonce b ≡ err aead_error
  -- What was sealed under a nonce opens under it.
  pub decrypt_opens :
      (nonce bytes : List ℕ) (b : AudioBuffer)
      → IsSane b
      → contents b ≡ seal nonce bytes
      → Holds b bytes (c.decrypt_in_place nonce b)
  -- What is no sealed message is refused.
  pub decrypt_refuses :
      (nonce : List ℕ) (b : AudioBuffer)
      → IsSane b
      → ((bytes : List ℕ) → contents b ≢ seal nonce bytes)
      → c.decrypt_in_place nonce b ≡ err aead_error
  pub decrypt_answers :
      (nonce : List ℕ) (b : AudioBuffer) → IsSane b → c.decrypt_in_place nonce b ≢ panic
