-- ===== src/Player/Encoder.antt =====
-- src/player.rs: `AudioEncoder`. The Opus encoder and the UDP socket are parameters: `Opus` is the
-- state of the former, `opus_encode` its one call here. Samples are 16-bit patterns.
pub mod Packets
pub mod Stream
pub mod Nonces
pub mod Counters
use Prim.Native.String.{String}
use discord_ext_audiorec.Prelude.{
  ℕ, ◌+◌, ◌%◌, ◌^◌, List, [], ◌∷◌, ◌++◌, length, take, drop, replicate, leb,
}
use discord_ext_audiorec.Prelude.Results.{Result, ok, err, panic, ◌>>=◌, ◌>>◌, require, map_err}
use discord_ext_audiorec.Buffer.{AudioBuffer, AeadError, new, slice_to}
use discord_ext_audiorec.Errors.{
  DiscordError, encryption_error, io_error, IoError, ErrorKind, would_block, timed_out, other,
  another,
}
use discord_ext_audiorec.Payload.Mode.{EncryptionMode}
use discord_ext_audiorec.Payload.Cipher.{Cipher}
use discord_ext_audiorec.Payload.Encryptor.{encrypt, be16, be32}
use discord_ext_audiorec.Player.{samples_per_frame, bufsize}

pub record AudioEncoder (Opus : Type 0) : Type 0 where
  pub opus : Opus
  pub cipher : Cipher
  pub sequence : ℕ
  pub timestamp : ℕ
  pub lite_nonce : ℕ
  pub ssrc : ℕ
  pub pcm_buff : List ℕ
  pub buff : List ℕ
  pub encryption : EncryptionMode

-- The twelve bytes of an RTP header.
abbrev pub rtp_header : ℕ → ℕ → ℕ → List ℕ
rtp_header sequence timestamp ssrc = 0x80 ∷ 0x78 ∷ (be16 sequence ++ (be32 timestamp ++ be32 ssrc))

module _ {Opus : Type 0} where
  -- `from_gateway`: `opus` is the encoder that it configures, `cipher` the one for the gateway's
  -- key.
  unfoldable pub from_gateway : Opus → Cipher → (ssrc : ℕ) → EncryptionMode → AudioEncoder Opus
  from_gateway opus cipher ssrc encryption = record {
    opus = opus;
    cipher = cipher;
    sequence = 0;
    timestamp = 0;
    lite_nonce = 0;
    ssrc = ssrc;
    pcm_buff = replicate 1920 0;
    buff = replicate bufsize 0;
    encryption = encryption;
  }

  -- The number of bytes behind the header, and the encoder. `random` is as in `encrypt`.
  unfoldable pub prepare_packet :
      (random : List ℕ) → AudioEncoder Opus → (size : ℕ) → Result AeadError (ℕ × AudioEncoder Opus)
  prepare_packet random self size = do
    let header = rtp_header self.sequence self.timestamp self.ssrc
    let buffer = new (drop 12 self.buff) size
    sealed ← encrypt self.encryption self.cipher random self.lite_nonce header buffer
    ok (
      sealed.len,
      record self { buff = header ++ sealed.slice; lite_nonce = (self.lite_nonce + 1) % 2 ^ 32 },
    )

  -- `opus_encode` returns the encoder's next state and the bytes that it wrote, of which there are
  -- at most as many as its last argument says.
  unfoldable pub encode_pcm_buffer :
      (opus_encode : Opus → List ℕ → ℕ → Result String (Opus × List ℕ))
      → AudioEncoder Opus
      → Result String (ℕ × AudioEncoder Opus)
  encode_pcm_buffer opus_encode self = do
    (opus, bytes) ← opus_encode self.opus self.pcm_buff (length (drop 12 self.buff))
    ok (
      length bytes,
      record self {
        opus = opus;
        buff = take 12 self.buff ++ (bytes ++ drop (12 + length bytes) self.buff);
      },
    )

  -- What follows `socket.send_to`: a send that would block or timed out counts as a lost packet.
  unfoldable pub after_send :
      AudioEncoder Opus → Result IoError ℕ → Result DiscordError (AudioEncoder Opus)
  after_send self (ok n) =
      ok (record self { timestamp = (self.timestamp + samples_per_frame) % 2 ^ 32 })
  after_send self (err e) = elim e.kind [
    | would_block ↦ ok self
    | timed_out ↦ ok self
    | other ↦ err (io_error e)
    | another k ↦ err (io_error e)
  ]
  after_send self panic = panic

  -- The datagram that is handed to the socket, and the encoder.
  unfoldable pub send_opus_packet :
      (random : List ℕ)
      → (send_to : List ℕ → Result IoError ℕ) → AudioEncoder Opus
      → (size : ℕ) → Result DiscordError (List ℕ × AudioEncoder Opus)
  unfolding prepare_packet after_send
  send_opus_packet random send_to self size = do
    let next = record self { sequence = (self.sequence + 1) % 2 ^ 16 }
    (n, prepared) ← map_err encryption_error (prepare_packet random next size)
    datagram ← slice_to (n + 12) prepared.buff
    sent ← after_send prepared (send_to datagram)
    ok (datagram, sent)
