-- ===== src/Relay.antt =====
-- src/player.rs with src/recorder.rs: what the recorder makes of the datagrams that an encoder with
-- the same key and mode sends.
pub mod Played
mod Tests
use discord_ext_audiorec.Prelude.{
  ℕ, zero, suc, ◌+◌, ◌%◌, ◌^◌, ◌≤◌, ◌<◌, List, [], ◌∷◌, ◌++◌, length, take, get_elem?, map, none,
  some, true, ◌≡◌, ◌≢◌, refl, arith, ◌∙◌, sym, ap, append_assoc, append-nil, length-append, ==_refl,
  All,
}
use discord_ext_audiorec.Prelude.Results.{ok, ◌>>=◌, Build}
use discord_ext_audiorec.Payload.Mode.{EncryptionMode, xsalsa20_poly1305}
use discord_ext_audiorec.Payload.Cipher.{IsAead}
use discord_ext_audiorec.Payload.Encryptor.Wire.{nonce_out, trailer_out}
use discord_ext_audiorec.Player.Encoder.{AudioEncoder}
use discord_ext_audiorec.Player.Encoder.Packets.{
  nonce_in-trailer_out, length-trailer_out, trailer_len-trailer_out,
}
use discord_ext_audiorec.Player.Encoder.Stream.{next_header, wire_of, counted, wires}
use discord_ext_audiorec.Recorder.Queue.{Packet, PacketQueue, push_back}
use discord_ext_audiorec.Recorder.Queue
use discord_ext_audiorec.Recorder.Queue.InOrder.{RunsFrom}
use discord_ext_audiorec.Recorder.Receive.{
  Decryption, SsrcPacketQueue, push_entry, Round, Ending, waiting, recv_round, recv_loop,
  on_datagram,
}
use discord_ext_audiorec.Recorder.Receive.Delivery.{IsDatagram, Files, on_datagram-Files}

-- Random bytes for a nonce, and a message that Opus can have made and that starts with no mark of
-- an extension.
pub record IsSpeech (m : List ℕ × List ℕ) : Type 0 where
  pub random_24 : length m.0 ≡ 24
  pub message_le : length m.1 ≤ 1275
  pub first : ℕ
  pub first_eq : get_elem? m.1 0 ≡ some first
  pub no_mark : first ≢ 0xBE

module _ {Time : Type 0} where
  -- Rounds of `recv_loop` in which these datagrams come, at the times of the clock.
  abbrev pub arrivals : (clock : ℕ → Time) → List (List ℕ) → List (Round Time)
  arrivals clock [] = []
  arrivals clock (d ∷ ds) =
      record { recording = true; recv = ok d; now = clock 0 } ∷ arrivals (λ n. clock (suc n)) ds

  -- The queues when one speaker was heard.
  abbrev pub one_queue : ℕ → List (Packet Time) → SsrcPacketQueue Time
  one_queue ssrc [] = []
  one_queue ssrc (p ∷ ps) = (ssrc, record { queue = p ∷ ps; last = none }) ∷ []

  push_entry-one_queue :
      (ssrc : ℕ) (p : Packet Time) (qs : List (Packet Time))
      → push_entry ssrc p (one_queue ssrc qs) ≡ one_queue ssrc (qs ++ (p ∷ []))
  unfolding push_entry push_back Queue.new
  push_entry-one_queue ssrc p [] = refl
  push_entry-one_queue ssrc p (q ∷ qs) = rw (==_refl ssrc) refl

  round_filed :
      (cfg : Build) (decoder : Decryption) (now : Time) (d : List ℕ) (rounds : List (Round Time))
      (queues after : SsrcPacketQueue Time)
      → on_datagram cfg decoder now d queues ≡ ok after
      → recv_loop cfg decoder (record { recording = true; recv = ok d; now = now } ∷ rounds) queues
        ≡ recv_loop cfg decoder rounds after
  unfolding recv_loop recv_round
  round_filed cfg decoder now d rounds queues after e = rw (recv_loop, e) refl

module _ {Opus : Type 0} where
  -- An encoder in a mode other than the default, whose numbers have their widths.
  pub record IsHeard (e : AudioEncoder Opus) : Type 0 where
    pub mode : e.encryption ≢ xsalsa20_poly1305
    pub sequence_lt : e.sequence < 2 ^ 16
    pub timestamp_lt : e.timestamp < 2 ^ 32
    pub ssrc_lt : e.ssrc < 2 ^ 32

  counted-IsHeard : (e : AudioEncoder Opus) → IsHeard e → IsHeard (counted e)
  counted-IsHeard e h = record {
    mode = h.mode;
    sequence_lt = omega arith;
    timestamp_lt = omega arith;
    ssrc_lt = h.ssrc_lt;
  }

  -- The receiver with the encoder's key and mode.
  abbrev pub receiver : AudioEncoder Opus → Decryption
  receiver e = record { cipher = e.cipher; encryption = e.encryption }

  trailer_next : AudioEncoder Opus → List ℕ → List ℕ
  trailer_next e random = trailer_out e.encryption random e.lite_nonce (next_header e)

  wire-IsDatagram :
      (e : AudioEncoder Opus) (aead : IsAead e.cipher) (m : List ℕ × List ℕ)
      → IsHeard e
      → IsSpeech m
      → IsDatagram
          (receiver e)
          aead
          (wire_of e aead m.0 m.1)
          ((e.sequence + 1) % 2 ^ 16)
          e.timestamp
          e.ssrc
          m.1
          (trailer_next e m.0)
  unfolding trailer_next
  wire-IsDatagram e aead m h s =
      let header : List ℕ = next_header e in
      let trailer : List ℕ = trailer_next e m.0 in
      let nonce : List ℕ = nonce_out e.encryption m.0 e.lite_nonce header in
      record {
        fits = omega (
          arith,
          s.message_le,
          length-append (aead.seal nonce m.1) trailer,
          aead.length-seal nonce m.1,
          length-trailer_out e.encryption m.0 e.lite_nonce header s.random_24 refl,
        );
        seq_lt = omega arith;
        timestamp_lt = h.timestamp_lt;
        ssrc_lt = h.ssrc_lt;
        length_trailer =
            trailer_len-trailer_out e.encryption m.0 e.lite_nonce header h.mode s.random_24;
        parts =
            ap (λ n. header ++ (aead.seal n m.1 ++ trailer))
              (sym (nonce_in-trailer_out e.encryption m.0 e.lite_nonce header h.mode));
      }

  module _ {Time : Type 0} where
    -- A packet with this message in front for each message, numbered as the encoder numbers them.
    abbrev pub Received : AudioEncoder Opus → List (List ℕ × List ℕ) → List (Packet Time) → Type 0
    Received e [] [] = Unit {0}
    Received e [] (p ∷ ps) = ⊥
    Received e (m ∷ ms) [] = ⊥
    Received e (m ∷ ms) (p ∷ ps) =
        (p.seq ≡ (e.sequence + 1) % 2 ^ 16)
        × (p.timestamp ≡ e.timestamp)
        × (take (length m.1) p.bytes ≡ m.1)
        × Received (counted e) ms ps

    pub Received-RunsFrom :
        (n : ℕ) (e : AudioEncoder Opus) (ms : List (List ℕ × List ℕ)) (ps : List (Packet Time))
        → e.sequence ≡ n % 2 ^ 16
        → Received e ms ps
        → RunsFrom (suc n) ps
    Received-RunsFrom n e [] [] k h = tt
    Received-RunsFrom n e [] (p ∷ ps) k h = elim h [ ]
    Received-RunsFrom n e (m ∷ ms) [] k h = elim h [ ]
    Received-RunsFrom n e (m ∷ ms) (p ∷ ps) k (a, b, d, h) =
        (omega arith, Received-RunsFrom (suc n) (counted e) ms ps (omega arith) h)

    -- What `recv_loop` files of a stream, behind what it has filed.
    pub recv_loop-wires :
        (cfg : Build) (clock : ℕ → Time) (e : AudioEncoder Opus) (aead : IsAead e.cipher)
        (ms : List (List ℕ × List ℕ)) (qs : List (Packet Time))
        → IsHeard e
        → All IsSpeech ms
        → (ps : List (Packet Time)) × Received e ms ps
          × (recv_loop cfg (receiver e) (arrivals clock (wires e aead ms)) (one_queue e.ssrc qs)
              ≡ (one_queue e.ssrc (qs ++ ps), waiting))
    unfolding recv_loop
    recv_loop-wires cfg clock e aead [] qs h s =
        ([], tt, ap (λ q. (one_queue e.ssrc q, waiting)) (sym (append-nil qs)))
    recv_loop-wires cfg clock e aead (m ∷ ms) qs h s =
        let files =
          on_datagram-Files cfg (receiver e) aead (wire-IsDatagram e aead m h s.0) (clock 0)
            (one_queue e.ssrc qs) s.0.first s.0.first_eq s.0.no_mark in
        let p : Packet Time = files.packet in
        let (ps, received, way) =
          recv_loop-wires cfg (λ n. clock (suc n)) (counted e) aead ms (qs ++ (p ∷ []))
            (counted-IsHeard e h) s.1 in
        (
          p ∷ ps,
          (files.seq_eq, files.timestamp_eq, files.front_message, received),
          round_filed cfg (receiver e) (clock 0) (wire_of e aead m.0 m.1)
                (arrivals (λ n. clock (suc n)) (wires (counted e) aead ms)) (one_queue e.ssrc qs)
                (one_queue e.ssrc (qs ++ (p ∷ [])))
                (files.returns ∙ ap ok (push_entry-one_queue e.ssrc p qs))
              ∙ way
              ∙ ap (λ q. (one_queue e.ssrc q, waiting)) (append_assoc qs (p ∷ []) ps),
        )
