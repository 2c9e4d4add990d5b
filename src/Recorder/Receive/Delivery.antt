-- ===== src/Recorder/Receive/Delivery.antt =====
-- src/recorder.rs: what `recv_loop` files for a packet that a sender with the same key made.
use discord_ext_audiorec.Prelude.{
  ℕ, zero, suc, ◌+◌, ◌^◌, ◌≤◌, ◌<◌, List, [], ◌∷◌, ◌++◌, length, take, get_elem?, some, ◌≡◌, ◌≢◌,
  refl, arith, ◌∙◌, sym, ap, append-nil, length-append, take_all, ne→==_false,
}
use discord_ext_audiorec.Prelude.Results.{Result, ok, Build}
use discord_ext_audiorec.Buffer.{contents}
use discord_ext_audiorec.Buffer.Laws.{as_ref_lem, length-contents}
use discord_ext_audiorec.Errors.{DiscordError}
use discord_ext_audiorec.Payload.Cipher.{IsAead}
use discord_ext_audiorec.Payload.Encryptor.{decrypt}
use discord_ext_audiorec.Payload.Encryptor.Wire.{nonce_in, trailer_len}
use discord_ext_audiorec.Payload.Encryptor.RoundTrip.{Delivers, decrypt-seal}
use discord_ext_audiorec.Player.{bufsize}
use discord_ext_audiorec.Player.Encoder.{rtp_header}
use discord_ext_audiorec.Recorder.Queue.{Packet}
use discord_ext_audiorec.Recorder.Offset.{calc_offset}
use discord_ext_audiorec.Recorder.Receive.{
  Decryption, decrypt_from_buffer, SsrcPacketQueue, received_size, on_datagram, push_entry,
}
use discord_ext_audiorec.Recorder.Receive.Fields.{filed, packet_of_header-rtp_header}
use discord_ext_audiorec.Recorder.Receive.Faults.{
  datagram_buffer, datagram_buffer-IsSane, contents-datagram_buffer, log_fits,
}

-- A message that starts with another byte than the mark of an extension needs no offset.
calc_offset_plain :
    (bytes : List ℕ) (b : ℕ) → get_elem? bytes 0 ≡ some b → b ≢ 0xBE → calc_offset bytes ≡ ok 0
unfolding calc_offset
calc_offset_plain bytes b e ne = rw (e, ne→==_false b 0xBE ne) refl

-- A datagram: an RTP header, a message sealed under the receiver's key, and the mode's trailer.
pub record IsDatagram (decoder : Decryption) (aead : IsAead decoder.cipher) (d : List ℕ)
    (seq timestamp ssrc : ℕ) (message trailer : List ℕ) : Type 0 where
  pub fits : length d ≤ bufsize
  pub seq_lt : seq < 2 ^ 16
  pub timestamp_lt : timestamp < 2 ^ 32
  pub ssrc_lt : ssrc < 2 ^ 32
  pub length_trailer : length trailer ≡ trailer_len decoder.encryption
  pub parts :
      d
      ≡ rtp_header seq timestamp ssrc
        ++ (aead.seal (nonce_in decoder.encryption (rtp_header seq timestamp ssrc) trailer) message
            ++ trailer)

module _ (cfg : Build) (decoder : Decryption) (aead : IsAead decoder.cipher) {d : List ℕ}
    {seq timestamp ssrc : ℕ} {message trailer : List ℕ}
    (x : IsDatagram decoder aead d seq timestamp ssrc message trailer) where
  abbrev header : List ℕ
  header = rtp_header seq timestamp ssrc

  whole : contents (datagram_buffer d) ≡ d
  whole = contents-datagram_buffer d ∙ take_all bufsize d x.fits

  pub opened :
      Delivers header message (decrypt cfg decoder.encryption decoder.cipher (datagram_buffer d))
  opened =
      decrypt-seal cfg decoder.cipher aead decoder.encryption {trailer = trailer} message (record {
        sane = datagram_buffer-IsSane d;
        length_header = refl;
        length_trailer = x.length_trailer;
        parts = whole ∙ x.parts;
      })

  length_d : length d ≡ 28 + length message + trailer_len decoder.encryption
  length_d =
      let nonce : List ℕ = nonce_in decoder.encryption header trailer in
      omega (
        arith,
        ap length x.parts,
        length-append (aead.seal nonce message) trailer,
        aead.length-seal nonce message,
        x.length_trailer,
      )

  decrypted : decrypt_from_buffer cfg decoder (datagram_buffer d) ≡ ok (some header, opened.buffer)
  unfolding decrypt_from_buffer
  decrypted =
      rw
        (
          as_ref_lem (datagram_buffer d) (datagram_buffer-IsSane d),
          whole,
          ap (λ t. get_elem? t 1) x.parts,
          log_fits cfg.debug_log (length d) (omega (arith, length_d)),
          opened.returns,
        )
        refl

  first_byte : (b : ℕ) → get_elem? message 0 ≡ some b → get_elem? opened.buffer.slice 0 ≡ some b
  first_byte b e =
      prefix opened.buffer.len opened.buffer.slice (ap (λ t. get_elem? t 0) opened.delivers ∙ e)
    where
      prefix : (n : ℕ) (xs : List ℕ) → get_elem? (take n xs) 0 ≡ some b → get_elem? xs 0 ≡ some b
      prefix zero xs h = cc
      prefix (suc n) [] h = h
      prefix (suc n) (y ∷ xs) h = h

  front_eq : take (length message) (opened.buffer.slice ++ []) ≡ message
  front_eq =
      let same : length message ≡ opened.buffer.len =
        ap length (sym opened.delivers) ∙ length-contents opened.buffer opened.sane in
      rw append-nil (ap (λ (n : ℕ). take n opened.buffer.slice) same ∙ opened.delivers)

  abbrev pub packet_at : {Time : Type 0} → (now : Time) → Packet Time
  packet_at now = filed (received_size d) 0 now seq timestamp opened.buffer.slice

  pub on_datagram_lem :
      {Time : Type 0} (now : Time) (queues : SsrcPacketQueue Time) (b : ℕ)
      → get_elem? message 0 ≡ some b
      → b ≢ 0xBE
      → on_datagram cfg decoder now d queues ≡ ok (push_entry ssrc (packet_at now) queues)
  unfolding on_datagram
  on_datagram_lem now queues b e ne =
      rw
        (
          decrypted,
          packet_of_header-rtp_header cfg (received_size d) 0 now seq timestamp ssrc
              opened.buffer.slice x.seq_lt x.timestamp_lt x.ssrc_lt
              (calc_offset_plain opened.buffer.slice b (first_byte b e) ne)
              (omega (arith, length_d, x.fits)),
        )
        refl

  -- A packet in the queue of its SSRC, with the sender's fields.
  pub record Files {Time : Type 0} (queues : SsrcPacketQueue Time)
      (r : Result DiscordError (SsrcPacketQueue Time)) : Type 0 where
    pub packet : Packet Time
    pub returns : r ≡ ok (push_entry ssrc packet queues)
    pub seq_eq : packet.seq ≡ seq
    pub timestamp_eq : packet.timestamp ≡ timestamp
    pub front_message : take (length message) packet.bytes ≡ message
    pub size_eq : packet.size ≡ length message + 16 + trailer_len decoder.encryption

  -- A datagram in the receiver's format, which fits the array and whose message starts with no
  -- mark of an extension, is filed under its SSRC with its sequence number and timestamp, and with
  -- the message in front. The size that is filed is too large: it counts the tag and the trailer,
  -- which are no longer there.
  pub on_datagram-Files :
      {Time : Type 0} (now : Time) (queues : SsrcPacketQueue Time) (b : ℕ)
      → get_elem? message 0 ≡ some b
      → b ≢ 0xBE
      → Files queues (on_datagram cfg decoder now d queues)
  on_datagram-Files now queues b e ne = record {
    packet = packet_at now;
    returns = on_datagram_lem now queues b e ne;
    seq_eq = refl;
    timestamp_eq = refl;
    front_message = front_eq;
    size_eq = omega (arith, length_d, x.fits);
  }
