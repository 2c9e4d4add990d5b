-- ===== src/Player/Encoder/Packets.antt =====
-- src/player.rs: the datagrams that `AudioEncoder` hands to the socket.
use discord_ext_audiorec.Prelude.{
  ℕ, ◌+◌, ◌%◌, ◌^◌, ◌≤◌, List, [], ◌∷◌, ◌++◌, length, take, drop, ◌≡◌, ◌≢◌, refl, arith, ◌∙◌, ap,
  take-append_add, length-append, length-take, length-drop, le→leb,
}
use discord_ext_audiorec.Prelude.Results.{Result, ok, ◌>>=◌}
use discord_ext_audiorec.Buffer.{AudioBuffer, AeadError, new, IsSane, contents}
use discord_ext_audiorec.Buffer.Laws.{new-IsSane}
use discord_ext_audiorec.Errors.{DiscordError, IoError}
use discord_ext_audiorec.Payload.Mode.{
  EncryptionMode, xsalsa20_poly1305, xsalsa20_poly1305_suffix, xsalsa20_poly1305_lite,
}
use discord_ext_audiorec.Payload.Cipher.{IsAead, Holds}
use discord_ext_audiorec.Payload.Encryptor.{encrypt}
use discord_ext_audiorec.Payload.Encryptor.Wire.{
  nonce_out, trailer_out, trailer_len, nonce_in, encrypt_wire,
}
use discord_ext_audiorec.Player.{bufsize}
use discord_ext_audiorec.Player.Encoder.{
  AudioEncoder, rtp_header, prepare_packet, after_send, send_opus_packet,
}

module _ {Opus : Type 0} where
  -- The encoder that `send_opus_packet` prepares the packet with.
  abbrev pub advanced : AudioEncoder Opus → AudioEncoder Opus
  advanced self = record self { sequence = (self.sequence + 1) % 2 ^ 16 }

  abbrev pub header_of : AudioEncoder Opus → List ℕ
  header_of self = rtp_header self.sequence self.timestamp self.ssrc

  -- The first `size` bytes behind the header: what the Opus encoder wrote.
  abbrev pub payload : AudioEncoder Opus → ℕ → List ℕ
  payload self size = take size (drop 12 self.buff)

  abbrev pub trailer_of : AudioEncoder Opus → List ℕ → List ℕ
  trailer_of self random = trailer_out self.encryption random self.lite_nonce (header_of self)

  abbrev pub nonce_of : AudioEncoder Opus → List ℕ → List ℕ
  nonce_of self random = nonce_out self.encryption random self.lite_nonce (header_of self)

pub length-trailer_out :
    (m : EncryptionMode) (random : List ℕ) (lite : ℕ) (header : List ℕ)
    → length random ≡ 24
    → length header ≡ 12
    → length (trailer_out m random lite header) ≤ 24
length-trailer_out xsalsa20_poly1305 random lite header hr hl =
    omega (arith, length-append header (0 ∷ 0 ∷ 0 ∷ 0 ∷ 0 ∷ 0 ∷ 0 ∷ 0 ∷ 0 ∷ 0 ∷ 0 ∷ 0 ∷ []))
length-trailer_out xsalsa20_poly1305_suffix random lite header hr hl = omega arith
length-trailer_out xsalsa20_poly1305_lite random lite header hr hl = omega arith

-- A send that reaches the socket: what the socket answers decides the rest.
pub record Sends {Opus : Type 0} (self : AudioEncoder Opus) (datagram : List ℕ)
    (send_to : List ℕ → Result IoError ℕ) (r : Result DiscordError (List ℕ × AudioEncoder Opus))
    : Type 0 where
  pub prepared : AudioEncoder Opus
  pub returns : r ≡ (after_send prepared (send_to datagram) >>= λ s. ok (datagram, s))
  pub sequence : prepared.sequence ≡ (self.sequence + 1) % 2 ^ 16
  pub timestamp : prepared.timestamp ≡ self.timestamp
  pub lite_nonce : prepared.lite_nonce ≡ (self.lite_nonce + 1) % 2 ^ 32
  pub ssrc : prepared.ssrc ≡ self.ssrc
  pub array : length prepared.buff ≡ bufsize
  pub prepared_eq : prepared ≡ record self {
    sequence = (self.sequence + 1) % 2 ^ 16;
    lite_nonce = (self.lite_nonce + 1) % 2 ^ 32;
    buff = prepared.buff;
  }

-- What `prepare_packet` makes of an encoder and a payload of `size` bytes.
pub record Prepares {Opus : Type 0} (self : AudioEncoder Opus) (bytes : List ℕ)
    (r : Result AeadError (ℕ × AudioEncoder Opus)) : Type 0 where
  pub sealed : AudioBuffer
  pub returns :
      r
      ≡ ok (
        sealed.len,
        record self {
          buff = header_of self ++ sealed.slice;
          lite_nonce = (self.lite_nonce + 1) % 2 ^ 32;
        },
      )
  pub sane : IsSane sealed
  pub same_size : length sealed.slice + 12 ≡ length self.buff
  pub holds : contents sealed ≡ bytes

module _ {Opus : Type 0} (random : List ℕ) (self : AudioEncoder Opus) (size : ℕ)
    (aead : IsAead self.cipher) (array : length self.buff ≡ bufsize) (hr : length random ≡ 24)
    (fits : size + 52 ≤ bufsize) where
  borrowed : AudioBuffer
  borrowed = new (drop 12 self.buff) size

  borrowed-IsSane : IsSane borrowed
  unfolding borrowed
  borrowed-IsSane = new-IsSane (drop 12 self.buff) size (omega (arith, length-drop 12 self.buff))

  sealed_lem :
      Holds borrowed
        (aead.seal (nonce_of self random) (payload self size) ++ trailer_of self random)
        (encrypt self.encryption self.cipher random self.lite_nonce (header_of self) borrowed)
  unfolding borrowed new
  sealed_lem =
      encrypt_wire self.cipher aead self.encryption random self.lite_nonce (header_of self) borrowed
        refl borrowed-IsSane
        (omega (
          arith,
          length-drop 12 self.buff,
          length-trailer_out self.encryption random self.lite_nonce (header_of self) hr refl,
        ))

  pub prepare_packet-Prepares :
      Prepares self
        (aead.seal (nonce_of self random) (payload self size) ++ trailer_of self random)
        (prepare_packet random self size)
  unfolding prepare_packet borrowed new
  prepare_packet-Prepares = record {
    sealed = sealed_lem.buffer;
    returns = rw sealed_lem.returns refl;
    sane = sealed_lem.sane;
    same_size =
        omega
          (arith, sealed_lem.sane.capacity_eq, sealed_lem.same_capacity, length-drop 12 self.buff);
    holds = sealed_lem.holds;
  }

module _ {Opus : Type 0} (random : List ℕ) (self : AudioEncoder Opus) (size : ℕ)
    (aead : IsAead self.cipher) (array : length self.buff ≡ bufsize) (hr : length random ≡ 24)
    (fits : size + 52 ≤ bufsize) where
  -- The header with the next sequence number, the sealed payload, and the mode's trailer.
  abbrev pub datagram_of : List ℕ
  datagram_of =
      header_of (advanced self)
      ++ (aead.seal (nonce_of (advanced self) random) (payload self size)
          ++ trailer_of (advanced self) random)

  pub length-datagram_of : length datagram_of ≤ bufsize
  length-datagram_of =
      let nonce : List ℕ = nonce_of (advanced self) random in
      let trailer : List ℕ = trailer_of (advanced self) random in
      omega (
        arith,
        fits,
        length-append (aead.seal nonce (payload self size)) trailer,
        aead.length-seal nonce (payload self size),
        length-take size (drop 12 self.buff),
        length-trailer_out self.encryption random self.lite_nonce (header_of (advanced self)) hr
            refl,
      )

  -- With an array of the right size, 24 random bytes, and a payload that leaves room for header,
  -- tag and trailer, sending cannot fail before the socket does: the datagram is the header with
  -- the next sequence number, the sealed payload and the trailer, and what the socket answers
  -- decides the rest.
  pub send_opus_packet-Sends :
      (send_to : List ℕ → Result IoError ℕ)
      → Sends self datagram_of send_to (send_opus_packet random send_to self size)
  unfolding send_opus_packet
  send_opus_packet-Sends send_to = record {
    prepared = ready;
    returns =
        rw
          (
            prepared.returns,
            le→leb (prepared.sealed.len + 12) (length ready.buff) (omega (arith, prepared.sane)),
            cut_at,
          )
          refl;
    sequence = refl;
    timestamp = refl;
    lite_nonce = refl;
    ssrc = refl;
    array = omega (arith, prepared.same_size);
    prepared_eq = refl;
  }
    where
      prepared :
          Prepares
            (advanced self)
            (aead.seal (nonce_of (advanced self) random) (payload self size)
              ++ trailer_of (advanced self) random)
            (prepare_packet random (advanced self) size)
      prepared = prepare_packet-Prepares random (advanced self) size aead array hr fits

      ready : AudioEncoder Opus
      ready = record self {
        sequence = (self.sequence + 1) % 2 ^ 16;
        lite_nonce = (self.lite_nonce + 1) % 2 ^ 32;
        buff = header_of (advanced self) ++ prepared.sealed.slice;
      }

      cut_at : take (prepared.sealed.len + 12) ready.buff ≡ datagram_of
      cut_at =
          take-append_add prepared.sealed.len (header_of (advanced self)) prepared.sealed.slice
          ∙ ap (◌++◌ (header_of (advanced self))) prepared.holds

-- Outside the default mode the receiver's nonce is the sender's.
pub nonce_in-trailer_out :
    (m : EncryptionMode) (random : List ℕ) (lite : ℕ) (header : List ℕ)
    → m ≢ xsalsa20_poly1305
    → nonce_in m header (trailer_out m random lite header) ≡ nonce_out m random lite header
nonce_in-trailer_out xsalsa20_poly1305 random lite header h = absurd (h refl)
nonce_in-trailer_out xsalsa20_poly1305_suffix random lite header h = refl
nonce_in-trailer_out xsalsa20_poly1305_lite random lite header h = refl

pub trailer_len-trailer_out :
    (m : EncryptionMode) (random : List ℕ) (lite : ℕ) (header : List ℕ)
    → m ≢ xsalsa20_poly1305
    → length random ≡ 24
    → length (trailer_out m random lite header) ≡ trailer_len m
trailer_len-trailer_out xsalsa20_poly1305 random lite header h hr = absurd (h refl)
trailer_len-trailer_out xsalsa20_poly1305_suffix random lite header h hr = hr
trailer_len-trailer_out xsalsa20_poly1305_lite random lite header h hr = refl
