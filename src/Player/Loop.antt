-- ===== src/Player/Loop.antt =====
-- src/player.rs: `play_loop` and the thread of `AudioPlayer`, as a thread with a program counter: one step for
-- each time that it looks at the shared `State`, since the other threads may set it in between, and
-- one for a frame. What the gateway, the input, the codec, the socket and the clock answer in a
-- step is the record `Turn`. Instants are in nanoseconds. `addr` is the address that the source
-- takes from the first socket, and keeps when it makes a new socket after an outage.
pub mod System
pub mod Start
pub mod Datagrams
pub mod Numbering
pub mod Outcomes
pub mod Endings
pub mod Outages
pub mod Pace
pub mod Served
pub mod Playback
pub mod Reuse
pub mod Sample
mod Tests
use Prim.Native.String.{String}
use discord_ext_audiorec.Prelude.{
  ℕ, ◌+◌, ◌-◌, ◌*◌, ◌^◌, max, Option, none, some, List, [], ◌∷◌, ◌++◌, Bool, true, false,
  if◌then◌else◌, ◌==◌,
}
use discord_ext_audiorec.Prelude.Results.{Result, ok, err, panic, ◌>>=◌, ◌>>◌, map_err}
use discord_ext_audiorec.Errors.{DiscordError, io_error, opus_error, IoError}
use discord_ext_audiorec.State.{
  ConnectionState, disconnected, connected, playing, paused, finished, is_state, set_state,
  wait_until, wait_not_until,
}
use discord_ext_audiorec.Payload.Cipher.{Cipher}
use discord_ext_audiorec.Player.{frame_length}
use discord_ext_audiorec.Player.Encoder.{
  AudioEncoder, from_gateway, encode_pcm_buffer, send_opus_packet,
}
use discord_ext_audiorec.Gateway.Session.{World, VoiceGateway, Round}
use discord_ext_audiorec.Gateway.Session.Flow.{clone_socket}
use discord_ext_audiorec.Gateway.Session.Flow

-- `opus_new` is a codec with the settings of `from_gateway`, `cipher_new` the cipher for a key.
pub record Codec (Opus : Type 0) : Type 0 where
  pub opus_new : Result String Opus
  pub opus_encode : Opus → List ℕ → ℕ → Result String (Opus × List ℕ)
  pub cipher_new : List ℕ → Cipher

-- `gateway` is what the lock gives, `read` whether a whole frame came and what the array holds then,
-- `now` the clock when it is read, and `random` the bytes for a nonce.
pub record Turn (w : World) : Type 0 where
  pub gateway : VoiceGateway w
  pub try_clone : w.Socket → Result IoError w.Socket
  pub read : List ℕ → Bool × List ℕ
  pub random : List ℕ
  pub send_to : w.Address → List ℕ → Result IoError ℕ
  pub now : ℕ

-- Where the thread stands: at the test for `Finished`, at the one for `Paused`, in
-- `wait_not_until(Paused)`, at the test for `Disconnected`, in `wait_until(Connected)`, behind it,
-- at the frame, at `set_state(Finished)`, or behind the loop with its result.
pub data Place : Type 0 where
  at_finished at_paused in_pause at_disconnected in_outage behind_outage at_frame at_end : Place
  ended : Result DiscordError (Unit {0}) → Place

-- `sent` are the datagrams since the encoder was made, lost ones too but not one that the socket
-- refused, and `slept` is the time that the last frame
-- slept.
pub record Thread (w : World) (Opus : Type 0) : Type 0 where
  pub place : Place
  pub encoder : AudioEncoder Opus
  pub socket : w.Socket
  pub addr : w.Address
  pub next_iteration : ℕ
  pub sent : List (List ℕ)
  pub slept : ℕ

module _ (w : World) {Opus : Type 0} (codec : Codec Opus) where
  -- `AudioEncoder::from_gateway` of this gateway.
  unfoldable pub encoder_for : VoiceGateway w → Result DiscordError (AudioEncoder Opus)
  unfolding from_gateway
  encoder_for g = do
    opus ← map_err opus_error codec.opus_new
    ok (from_gateway opus (codec.cipher_new g.secret_key) g.ssrc g.encryption)

  -- What the thread does before the loop, `flag` being the bits of `SpeakingType::MICROPHONE`, and
  -- `peer_addr` what the socket answers.
  unfoldable pub start :
      (peer_addr : Result IoError w.Address)
      → Round w
      → (began : ℕ) → Turn w
      → Result DiscordError (Thread w Opus)
  unfolding encoder_for clone_socket
  start peer_addr r began t = do
    (Flow.speaking w r 1 t.gateway).0
    let gateway = (Flow.speaking w r 1 t.gateway).1
    encoder ← encoder_for gateway
    socket ← clone_socket w t.try_clone gateway
    addr ← map_err io_error peer_addr
    ok (record {
      place = at_finished;
      encoder = encoder;
      socket = socket;
      addr = addr;
      next_iteration = began;
      sent = [];
      slept = 0;
    })

  -- The result of a fallible part of the loop: an error or a panic ends the loop.
  abbrev pub or_end :
      {A : Type 0} → Thread w Opus → Result DiscordError A → (A → Thread w Opus) → Thread w Opus
  or_end self (ok a) f = f a
  or_end self (err e) f = record self { place = ended (err e) }
  or_end self panic f = record self { place = ended panic }

  -- The body of `if state.is_state(Disconnected)`, behind the wait.
  unfoldable pub rebuild : Turn w → Thread w Opus → Thread w Opus
  unfolding encoder_for clone_socket
  rebuild t self =
      or_end self
        (do
          encoder ← encoder_for t.gateway
          socket ← clone_socket w t.try_clone t.gateway
          ok (encoder, socket))
        (λ (encoder, socket). record self {
          place = at_frame;
          encoder = encoder;
          socket = socket;
          next_iteration = t.now;
          sent = [];
        })

  -- Twenty milliseconds.
  abbrev pub period : ℕ
  period = frame_length * 10 ^ 6

  -- From `encoder.send_opus_packet` to `thread::sleep`.
  unfoldable pub send : Turn w → (size : ℕ) → Thread w Opus → Thread w Opus
  send t size self =
      or_end self (send_opus_packet t.random (t.send_to self.addr) self.encoder size)
        (λ (datagram, encoder). record self {
          place = at_finished;
          encoder = encoder;
          sent = self.sent ++ (datagram ∷ []);
          next_iteration = max self.next_iteration t.now;
          slept = max self.next_iteration t.now - t.now;
        })

  -- From `next_iteration +=` on.
  unfoldable pub frame : Turn w → Thread w Opus → Thread w Opus
  unfolding send
  frame t self =
      let (came, pcm) = t.read self.encoder.pcm_buff in
      let begun : Thread w Opus = record self {
        next_iteration = self.next_iteration + period;
        encoder = record self.encoder { pcm_buff = pcm };
      } in
      if came
      then or_end begun (map_err opus_error (encode_pcm_buffer codec.opus_encode begun.encoder))
          (λ (size, encoder).
            let encoded : Thread w Opus = record begun { encoder = encoder } in
            if size == 0 then record encoded { place = at_finished } else send t size encoded)
      else record begun { place = at_end }

  -- A step of the thread, and the shared state after it. A wait whose condition does not hold
  -- waits on.
  unfoldable pub step : Turn w → ConnectionState → Thread w Opus → ConnectionState × Thread w Opus
  unfolding is_state wait_until wait_not_until set_state rebuild frame
  step t s self = elim self.place [
    | at_finished ↦
        (s, record self { place = if is_state s finished then ended (ok tt) else at_paused })
    | at_paused ↦
        (s, record self { place = if is_state s paused then in_pause else at_disconnected })
    | in_pause ↦
        (s, record self { place = if wait_not_until s paused then at_finished else in_pause })
    | at_disconnected ↦
        (s, record self { place = if is_state s disconnected then in_outage else at_frame })
    | in_outage ↦
        (s, record self { place = if wait_until s connected then behind_outage else in_outage })
    | behind_outage ↦ (s, rebuild t self)
    | at_frame ↦ (s, frame t self)
    | at_end ↦ (set_state s finished, record self { place = at_finished })
    | ended r ↦ (s, self)
  ]

  -- The thread behind `play_loop`: what the callback is given, if it is called, and the gateway.
  -- What `speaking` returns is ignored.
  unfoldable finish :
      Round w
      → Result DiscordError (Unit {0})
      → VoiceGateway w
      → Option (Option DiscordError) × VoiceGateway w
  finish r (ok u) g = (some none, (Flow.speaking w r 0 g).1)
  finish r (err e) g = (some (some e), (Flow.speaking w r 0 g).1)
  finish r panic g = (none, g)
