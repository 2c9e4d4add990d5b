-- ===== src/Payload/Tests.antt =====
-- src/payload.rs: the theorems on modes and packets, at concrete inputs.
use discord_ext_audiorec.Prelude.{
  ℕ, ◌%◌, ◌≤◌, ◌<◌, List, [], ◌∷◌, ◌++◌, length, replicate, ◌≡◌, ◌≢◌, ◌↔◌, refl, arith, ap, ◌∙◌,
  take_all, true, get_elem?, some, sym,
}
use discord_ext_audiorec.Prelude.Results.{ok, err, panic, Build}
use discord_ext_audiorec.Buffer.{AudioBuffer, new, IsSane, contents, aead_error}
use discord_ext_audiorec.Buffer.Laws.{new-IsSane}
use discord_ext_audiorec.Payload.Mode.{
  EncryptionMode, xsalsa20_poly1305, xsalsa20_poly1305_suffix, xsalsa20_poly1305_lite, from_str,
}
use discord_ext_audiorec.Payload.Cipher.{Holds}
use discord_ext_audiorec.Payload.SampleCipher.{sample_cipher, sample-IsAead, seal-sample-IsAead}
use discord_ext_audiorec.Payload.Encryptor.{encrypt, decrypt, be32}
use discord_ext_audiorec.Payload.Encryptor.Wire.{trailer_out, nonce_out, encrypt_wire}
use discord_ext_audiorec.Payload.Encryptor.RoundTrip.{
  Delivers, decrypt-encrypt, decrypt-encrypt_default,
}
use discord_ext_audiorec.Payload.Encryptor.Bounds.{decrypt-panic_iff}

suffix_read : from_str "xsalsa20_poly1305_suffix" ≡ ok xsalsa20_poly1305_suffix
unfolding from_str
suffix_read = refl

abbrev checked : Build
checked = record { overflow_checks = true; debug_log = true }

abbrev random : List ℕ
random = replicate 24 7

abbrev header : List ℕ
header = 0x80 ∷ 0x78 ∷ 0 ∷ 1 ∷ replicate 8 9

-- A message of two bytes in an array of sixty.
abbrev message : AudioBuffer
message = new (1 ∷ 2 ∷ replicate 58 0) 2

message-IsSane : IsSane message
message-IsSane = new-IsSane (1 ∷ 2 ∷ replicate 58 0) 2 (omega arith)

-- The outcome of `encrypt` on it, in any mode.
wire :
    (m : EncryptionMode)
    → length (trailer_out m random 5 header) ≤ 24
    → Holds message
        (sample-IsAead.seal (nonce_out m random 5 header) (contents message)
          ++ trailer_out m random 5 header)
        (encrypt m sample_cipher random 5 header message)
unfolding new
wire m h =
    encrypt_wire sample_cipher sample-IsAead m random 5 header message refl message-IsSane
      (omega arith)

-- A datagram in a receiver's buffer.
abbrev received : List ℕ → AudioBuffer
received d = new d (length d)

received-IsSane : (d : List ℕ) → IsSane (received d)
received-IsSane d = new-IsSane d (length d) (omega arith)

contents-received : (d : List ℕ) → contents (received d) ≡ d
unfolding new
contents-received d = take_all (length d) d (omega arith)

sent_lite :
    Holds message
      (sample-IsAead.seal (be32 5 ++ replicate 20 0) (contents message) ++ be32 5)
      (encrypt xsalsa20_poly1305_lite sample_cipher random 5 header message)
sent_lite = wire xsalsa20_poly1305_lite (omega arith)

decrypt-encrypt_example : Delivers header (contents message) (
    decrypt checked xsalsa20_poly1305_lite sample_cipher
      (received (header ++ contents sent_lite.buffer)))
unfolding new
decrypt-encrypt_example =
    decrypt-encrypt checked sample_cipher sample-IsAead xsalsa20_poly1305_lite random 5 header
      message sent_lite.buffer (received (header ++ contents sent_lite.buffer)) (λ e. cc) refl refl
      message-IsSane (omega arith) sent_lite.returns
      (received-IsSane (header ++ contents sent_lite.buffer))
      (contents-received (header ++ contents sent_lite.buffer))

sent_default :
    Holds message
      (sample-IsAead.seal (header ++ replicate 12 0) (contents message)
        ++ (header ++ replicate 12 0))
      (encrypt xsalsa20_poly1305 sample_cipher random 5 header message)
sent_default = wire xsalsa20_poly1305 (omega arith)

not_sealed :
    (bytes : List ℕ)
    → sample-IsAead.seal (header ++ replicate 12 0) (contents message) ++ (header ++ replicate 12 0)
      ≢ sample-IsAead.seal (header ++ replicate 12 0) bytes
unfolding new
not_sealed bytes e =
    let both =
      sym (
        ap (λ t. t ++ (header ++ replicate 12 0))
          (seal-sample-IsAead (header ++ replicate 12 0) (contents message)))
      ∙ e
      ∙ seal-sample-IsAead (header ++ replicate 12 0) bytes in
    let n = ap length both in
    let h : some 2 ≡ some (length bytes % 256) = ap (λ t. get_elem? t 0) both in
    let h' : 2 ≡ length bytes % 256 = cc in omega arith

decrypt-encrypt_default_example :
    decrypt checked xsalsa20_poly1305 sample_cipher
      (received (header ++ contents sent_default.buffer))
    ≡ err aead_error
unfolding new
decrypt-encrypt_default_example =
    decrypt-encrypt_default checked sample_cipher sample-IsAead random 5 header message
      sent_default.buffer (received (header ++ contents sent_default.buffer)) refl message-IsSane
      (omega arith) sent_default.returns (received-IsSane (header ++ contents sent_default.buffer))
      (contents-received (header ++ contents sent_default.buffer)) not_sealed

abbrev suffix_packet : List ℕ
suffix_packet = header ++ (sample-IsAead.seal random (1 ∷ 2 ∷ []) ++ random)

decrypt-panic_iff_example :
    (decrypt checked xsalsa20_poly1305_lite sample_cipher message ≡ panic) ↔ (2 < 16)
unfolding new
decrypt-panic_iff_example =
    decrypt-panic_iff checked sample_cipher sample-IsAead xsalsa20_poly1305_lite message refl
      message-IsSane
