-- ===== src/Player/Encoder/Stream.antt =====
-- src/player.rs: the datagrams of `AudioEncoder`, one after the other.
use discord_ext_audiorec.Prelude.{ℕ, ◌+◌, ◌%◌, ◌^◌, List, [], ◌∷◌, ◌++◌, ◌≡◌, refl, ap}
use discord_ext_audiorec.Payload.Cipher.{IsAead}
use discord_ext_audiorec.Payload.Encryptor.Wire.{nonce_out, trailer_out}
use discord_ext_audiorec.Player.{samples_per_frame}
use discord_ext_audiorec.Player.Encoder.{AudioEncoder, rtp_header}

module _ {Opus : Type 0} where
  -- The encoder after a frame that the socket took.
  abbrev pub after_frame : AudioEncoder Opus → Opus → (pcm buff : List ℕ) → AudioEncoder Opus
  after_frame e opus pcm buff = record e {
    opus = opus;
    pcm_buff = pcm;
    sequence = (e.sequence + 1) % 2 ^ 16;
    timestamp = (e.timestamp + samples_per_frame) % 2 ^ 32;
    lite_nonce = (e.lite_nonce + 1) % 2 ^ 32;
    buff = buff;
  }

  -- The header and the nonce of the next packet.
  abbrev pub next_header : AudioEncoder Opus → List ℕ
  next_header e = rtp_header ((e.sequence + 1) % 2 ^ 16) e.timestamp e.ssrc

  abbrev pub next_nonce : AudioEncoder Opus → (random : List ℕ) → List ℕ
  next_nonce e random = nonce_out e.encryption random e.lite_nonce (next_header e)

  -- The datagram with this message.
  abbrev pub wire_of :
      (e : AudioEncoder Opus) → IsAead e.cipher → (random message : List ℕ) → List ℕ
  wire_of e aead random message =
      next_header e
      ++ (aead.seal (next_nonce e random) message
          ++ trailer_out e.encryption random e.lite_nonce (next_header e))

  -- An encoder one packet further.
  abbrev pub counted : AudioEncoder Opus → AudioEncoder Opus
  counted e = after_frame e e.opus e.pcm_buff e.buff

  -- The datagrams of these pairs of random bytes and a message, sent by this encoder in turn.
  abbrev pub wires :
      (e : AudioEncoder Opus) → IsAead e.cipher → List (List ℕ × List ℕ) → List (List ℕ)
  wires e aead [] = []
  wires e aead ((random, message) ∷ ms) = wire_of e aead random message ∷ wires (counted e) aead ms

  pub wires_rest :
      (e : AudioEncoder Opus) (aead : IsAead e.cipher) (opus : Opus) (pcm buff : List ℕ)
      (ms : List (List ℕ × List ℕ))
      → wires (record e { opus = opus; pcm_buff = pcm; buff = buff }) aead ms ≡ wires e aead ms
  wires_rest e aead opus pcm buff [] = refl
  wires_rest e aead opus pcm buff ((random, message) ∷ ms) =
      ap (◌∷◌ (wire_of e aead random message)) (wires_rest (counted e) aead opus pcm buff ms)
