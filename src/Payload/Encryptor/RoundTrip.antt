-- ===== src/Payload/Encryptor/RoundTrip.antt =====
-- src/payload.rs: what `decrypt` makes of the packets that `encrypt` writes, and of those in the
-- form that it expects.
use discord_ext_audiorec.Prelude.{
  ℕ, ◌+◌, ◌≤◌, List, [], ◌++◌, length, ◌≡◌, ◌≢◌, refl, arith, ◌∙◌, sym, ap, append-nil,
  length-append, replicate,
}
use discord_ext_audiorec.Prelude.Results.{Result, ok, err, ◌>>=◌, Build}
use discord_ext_audiorec.Buffer.{AudioBuffer, AeadError, aead_error, IsSane, contents}
use discord_ext_audiorec.Payload.Mode.{
  EncryptionMode, xsalsa20_poly1305, xsalsa20_poly1305_suffix, xsalsa20_poly1305_lite,
}
use discord_ext_audiorec.Payload.Cipher.{Cipher, IsAead, Holds}
use discord_ext_audiorec.Payload.Encryptor.{encrypt, decrypt, be32}
use discord_ext_audiorec.Payload.Encryptor.Wire.{
  IsPacket, nonce_in, nonce_out, trailer_out, encrypt_wire, decrypt_packet, packet_cut,
  packet_cut-IsSane, contents-packet_cut,
}

-- The outcome of a `decrypt` that returns a header and a buffer with a message.
pub record Delivers (header bytes : List ℕ) (r : Result AeadError (List ℕ × AudioBuffer))
    : Type 0 where
  pub buffer : AudioBuffer
  pub returns : r ≡ ok (header, buffer)
  pub sane : IsSane buffer
  pub delivers : contents buffer ≡ bytes

ok-injective : {x y : AudioBuffer} → ◌≡◌ {A = Result AeadError AudioBuffer} (ok x) (ok y) → x ≡ y
ok-injective h = cc

module _ (cfg : Build) (c : Cipher) (aead : IsAead c) where
  -- A packet in a sane buffer, of a header of twelve bytes, a message sealed under the mode's
  -- nonce, and a trailer of the mode's length, opens to that header and message.
  pub decrypt-seal :
      (m : EncryptionMode) {b : AudioBuffer} {header trailer : List ℕ} (bytes : List ℕ)
      → IsPacket m b header (aead.seal (nonce_in m header trailer) bytes) trailer
      → Delivers header bytes (decrypt cfg m c b)
  decrypt-seal m {b} {header} {trailer} bytes p = record {
    buffer = opened.buffer;
    returns = decrypt_packet cfg c m p ∙ ap (λ r. r >>= λ o. ok (header, o)) opened.returns;
    sane = opened.sane;
    delivers = opened.holds;
  }
    where
      opened :
          Holds
            (packet_cut cfg c p)
            bytes
            (c.decrypt_in_place (nonce_in m header trailer) (packet_cut cfg c p))
      opened =
          aead.decrypt_opens (nonce_in m header trailer) bytes (packet_cut cfg c p)
            (packet_cut-IsSane cfg c p) (contents-packet_cut cfg c p)

  contents-sent :
      (m : EncryptionMode) (random : List ℕ) (lite : ℕ) (header : List ℕ) (b sent : AudioBuffer)
      → length header ≡ 12
      → IsSane b
      → b.len + 16 + length (trailer_out m random lite header) ≤ b.capacity
      → encrypt m c random lite header b ≡ ok sent
      → contents sent
        ≡ aead.seal (nonce_out m random lite header) (contents b)
          ++ trailer_out m random lite header
  contents-sent m random lite header b sent hl s room e =
      let w = encrypt_wire c aead m random lite header b hl s room in
      ap contents (ok-injective (sym e ∙ w.returns)) ∙ w.holds

  -- In the suffix and lite modes, with a cipher that keeps its interface, a receiver gets back the
  -- message that `encrypt` was given: if the sender's buffer is sane and has room for tag and
  -- trailer, there are 24 random bytes, and the receiver's buffer is sane and holds a header of
  -- twelve bytes and what `encrypt` left in the sender's buffer, then `decrypt` returns that
  -- header and leaves the message.
  pub decrypt-encrypt :
      (m : EncryptionMode) (random : List ℕ) (lite : ℕ) (header : List ℕ) (b sent r : AudioBuffer)
      → m ≢ xsalsa20_poly1305
      → length random ≡ 24
      → length header ≡ 12
      → IsSane b
      → b.len + 16 + length (trailer_out m random lite header) ≤ b.capacity
      → encrypt m c random lite header b ≡ ok sent
      → IsSane r
      → contents r ≡ header ++ contents sent
      → Delivers header (contents b) (decrypt cfg m c r)
  decrypt-encrypt xsalsa20_poly1305 random lite header b sent r ne hr hl s room e sr parts =
      absurd (ne refl)
  decrypt-encrypt xsalsa20_poly1305_suffix random lite header b sent r ne hr hl s room e sr parts =
      decrypt-seal xsalsa20_poly1305_suffix (contents b) (record {
        sane = sr;
        length_header = hl;
        length_trailer = hr;
        parts =
            parts
            ∙ ap (◌++◌ header)
                (contents-sent xsalsa20_poly1305_suffix random lite header b sent hl s room e);
      })
  decrypt-encrypt xsalsa20_poly1305_lite random lite header b sent r ne hr hl s room e sr parts =
      decrypt-seal xsalsa20_poly1305_lite {trailer = be32 lite} (contents b) (record {
        sane = sr;
        length_header = hl;
        length_trailer = refl;
        parts =
            parts
            ∙ ap (◌++◌ header)
                (contents-sent xsalsa20_poly1305_lite random lite header b sent hl s room e);
      })

  -- In the default mode `encrypt` appends the nonce and `decrypt` does not take it off. With a
  -- cipher that keeps its interface, if the sender's buffer is sane and has room for tag and
  -- nonce, and the receiver's buffer is sane and holds a header of twelve bytes and what `encrypt`
  -- left, the packet is refused, unless the sealed message with the nonce behind it is a sealed
  -- message too.
  pub decrypt-encrypt_default :
      (random : List ℕ) (lite : ℕ) (header : List ℕ) (b sent r : AudioBuffer)
      → length header ≡ 12
      → IsSane b
      → b.len + 40 ≤ b.capacity
      → encrypt xsalsa20_poly1305 c random lite header b ≡ ok sent
      → IsSane r
      → contents r ≡ header ++ contents sent
      → ((bytes : List ℕ)
          → aead.seal (header ++ replicate 12 0) (contents b) ++ (header ++ replicate 12 0)
            ≢ aead.seal (header ++ replicate 12 0) bytes)
      → decrypt cfg xsalsa20_poly1305 c r ≡ err aead_error
  decrypt-encrypt_default random lite header b sent r hl s room e sr parts no_seal =
      decrypt_packet cfg c xsalsa20_poly1305 p
      ∙ ap (λ r. r >>= λ o. ok (header, o))
          (aead.decrypt_refuses (header ++ replicate 12 0) (packet_cut cfg c p)
            (packet_cut-IsSane cfg c p)
            λ bytes h. no_seal bytes (sym (contents-packet_cut cfg c p) ∙ h))
    where
      room' : b.len + 16 + length (header ++ replicate 12 0) ≤ b.capacity
      room' = omega (arith, length-append header (replicate 12 0))

      p :
          IsPacket xsalsa20_poly1305 r header
            (aead.seal (header ++ replicate 12 0) (contents b) ++ (header ++ replicate 12 0))
            []
      p = record {
        sane = sr;
        length_header = hl;
        length_trailer = refl;
        parts =
            parts
            ∙ ap (◌++◌ header) (
                contents-sent xsalsa20_poly1305 random lite header b sent hl s room' e
                ∙ sym (append-nil _));
      }
