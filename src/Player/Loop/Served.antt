-- ===== src/Player/Loop/Served.antt =====
-- src/player.rs: a frame of `play_loop` when the codec makes a packet and the socket takes it.
use discord_ext_audiorec.Prelude.{
  ℕ, ◌+◌, ◌≤◌, ◌<◌, List, [], ◌∷◌, ◌++◌, length, take, drop, true, false, ◌==◌, ◌≡◌, refl, arith,
  length-append, length-take, length-drop, ◌-◌, ◌%◌, ◌^◌, ap, ◌∙◌, sym, take-append_eq,
  drop-append_eq,
}
use Prim.Native.String.{String}
use discord_ext_audiorec.Prelude.Results.{Result, ok, err, panic}
use discord_ext_audiorec.Payload.Cipher.{IsAead}
use discord_ext_audiorec.Gateway.Session.{World}
use discord_ext_audiorec.Player.{bufsize, samples_per_frame}
use discord_ext_audiorec.Player.Encoder.{AudioEncoder, encode_pcm_buffer, after_send}
use discord_ext_audiorec.Player.Encoder.Stream.{after_frame, wire_of}
use discord_ext_audiorec.Player.Encoder.Packets.{
  datagram_of, length-datagram_of, send_opus_packet-Sends,
}
use discord_ext_audiorec.Player.Loop.{Codec, Turn, Thread, at_finished, send, frame}

-- The samples in a frame of both channels, the length of `pcm_buff`.
abbrev pub frame_samples : ℕ
frame_samples = 1920

-- A codec that makes a packet of every whole frame, in the room behind the header, of at most 1275
-- bytes as Opus promises.
abbrev pub Encodes : {Opus : Type 0} → Codec Opus → Type 0
Encodes {Opus} codec =
    (opus : Opus) (pcm : List ℕ)
    → length pcm ≡ frame_samples
    → (next : Opus) × (bytes : List ℕ) × (codec.opus_encode opus pcm (bufsize - 12)
        ≡ ok (next, bytes))
      × (0 < length bytes)
      × (length bytes ≤ 1275)

-- What the call comes to, with nothing in place of an error.
abbrev pub encoded_or : {Opus : Type 0} → Opus → Result String (Opus × List ℕ) → Opus × List ℕ
encoded_or opus (ok x) = x
encoded_or opus (err e) = (opus, [])
encoded_or opus panic = (opus, [])

abbrev pub encoded : {Opus : Type 0} (codec : Codec Opus) → Opus → List ℕ → Opus × List ℕ
encoded codec opus pcm = encoded_or opus (codec.opus_encode opus pcm (bufsize - 12))

-- The codec's answer for a whole frame.
pub record IsCoded {Opus : Type 0} (codec : Codec Opus) (opus : Opus) (pcm : List ℕ) : Type 0 where
  pub answer : codec.opus_encode opus pcm (bufsize - 12) ≡ ok (encoded codec opus pcm)
  pub some_bytes : 0 < length (encoded codec opus pcm).1
  pub few_bytes : length (encoded codec opus pcm).1 ≤ 1275

pub coded :
    {Opus : Type 0} (codec : Codec Opus) (encodes : Encodes codec) (opus : Opus) (pcm : List ℕ)
    → length pcm ≡ frame_samples
    → IsCoded codec opus pcm
coded codec encodes opus pcm h =
    let (next, bytes, r, pos, le) = encodes opus pcm h in
    let same : encoded codec opus pcm ≡ (next, bytes) = ap (encoded_or opus) r in
    record { answer = r ∙ ap ok (sym same); some_bytes = rw same pos; few_bytes = rw same le }

-- A turn in which the input fills the frame and the socket takes the packet.
pub record IsServed {w : World} (t : Turn w) : Type 0 where
  pub reads : (pcm : List ℕ) → length pcm ≡ frame_samples → (t.read pcm).0 ≡ true
  pub fills : (pcm : List ℕ) → length pcm ≡ frame_samples → length (t.read pcm).1 ≡ frame_samples
  pub random_24 : length t.random ≡ 24
  pub accepts :
      (addr : w.Address) (d : List ℕ) → length d ≤ bufsize → (n : ℕ) × (t.send_to addr d ≡ ok n)

-- An encoder that can send.
pub record IsFit {Opus : Type 0} (e : AudioEncoder Opus) : Type 0 where
  pub array : length e.buff ≡ bufsize
  pub pcm_array : length e.pcm_buff ≡ frame_samples
  pub aead : IsAead e.cipher

module _ (w : World) {Opus : Type 0} (codec : Codec Opus) where
  -- What the codec makes of the frame that this turn reads.
  abbrev pub next_opus : Turn w → AudioEncoder Opus → Opus
  next_opus t e = (encoded codec e.opus (t.read e.pcm_buff).1).0

  abbrev pub message_of : Turn w → AudioEncoder Opus → List ℕ
  message_of t e = (encoded codec e.opus (t.read e.pcm_buff).1).1

  -- A frame that was sent by a thread with this encoder.
  pub record IsSent (t : Turn w) (e : AudioEncoder Opus) (aead : IsAead e.cipher)
      (before after : Thread w Opus) : Type 0 where
    pub buff : List ℕ
    pub array : length buff ≡ bufsize
    pub encoder_eq : after.encoder ≡ after_frame e (next_opus t e) (t.read e.pcm_buff).1 buff
    pub appended : after.sent ≡ before.sent ++ (wire_of e aead t.random (message_of t e) ∷ [])
    pub returned : after.place ≡ at_finished

  module _ (encodes : Encodes codec) (t : Turn w) (g : IsServed t) (self : Thread w Opus)
      (aead : IsAead self.encoder.cipher) (array : length self.encoder.buff ≡ bufsize)
      (pcm_array : length self.encoder.pcm_buff ≡ frame_samples) where
    pub frame-IsSent : IsSent t self.encoder aead self (frame w codec t self)
    unfolding frame send encode_pcm_buffer after_send
    frame-IsSent =
        let e : AudioEncoder Opus = self.encoder in
        let pcm : List ℕ = (t.read e.pcm_buff).1 in
        let room : length (drop 12 e.buff) ≡ bufsize - 12 =
          length-drop 12 e.buff ∙ ap (λ (n : ℕ). n - 12) array in
        let opus : Opus = next_opus t e in
        let message : List ℕ = message_of t e in
        let made : IsCoded codec e.opus pcm =
          coded codec encodes e.opus pcm (g.fills e.pcm_buff pcm_array) in
        let pos : 0 < length message = made.some_bytes in
        let le : length message ≤ 1275 = made.few_bytes in
        let rest : List ℕ = drop (12 + length message) e.buff in
        let start : List ℕ = take 12 e.buff in
        let start_12 : length start ≡ 12 = omega (arith, length-take 12 e.buff, array) in
        let loaded : AudioEncoder Opus = record e {
          opus = opus;
          pcm_buff = pcm;
          buff = start ++ (message ++ rest);
        } in
        let whole : length loaded.buff ≡ bufsize = omega (
          arith,
          array,
          le,
          start_12,
          length-append start (message ++ rest),
          length-append message rest,
          length-drop (12 + length message) e.buff,
        ) in
        let fits : length message + 52 ≤ bufsize = omega (arith, le) in
        let sends =
          send_opus_packet-Sends t.random loaded (length message) aead whole g.random_24 fits
            (t.send_to self.addr) in
        let d : List ℕ = datagram_of t.random loaded (length message) aead whole g.random_24 fits in
        let short : length d ≤ bufsize =
          length-datagram_of t.random loaded (length message) aead whole g.random_24 fits in
        let (n, taken) = g.accepts self.addr d short in
        let loud : (length message == 0) ≡ false = ground (arith, pos) in
        let payload_eq : take (length message) (drop 12 loaded.buff) ≡ message =
          ap (take (length message)) (drop-append_eq 12 start (message ++ rest) (sym start_12))
          ∙ take-append_eq (length message) message rest refl in
        rw (g.reads e.pcm_buff pcm_array, room, made.answer, loud, sends.returns, taken)
          (record {
            buff = sends.prepared.buff;
            array = sends.array;
            encoder_eq =
                ap {A = AudioEncoder Opus}
                  (λ p. record p { timestamp = (p.timestamp + samples_per_frame) % 2 ^ 32 })
                  sends.prepared_eq;
            appended = ap (λ m. self.sent ++ (wire_of e aead t.random m ∷ [])) payload_eq;
            returned = refl;
          })
