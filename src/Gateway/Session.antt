-- ===== src/Gateway/Session.antt =====
-- src/ws.rs: `VoiceGateway` and its `poll`. What the websocket, the UDP socket and the clocks answer in the course
-- of one `poll` is the record `Round`; writing to the websocket appends to `sent`. `World` is what
-- the crates and the standard library provide. Instants are in nanoseconds.
pub mod Flow
pub mod Sample
pub mod Invariants
mod Tests
pub mod Closing
pub mod Handshake
pub mod Growth
pub mod Sending
pub mod Beats
use Prim.Native.String.{String}
use discord_ext_audiorec.Prelude.{
  ℕ, ◌-◌, ◌/◌, ◌%◌, ◌^◌, List, [], ◌∷◌, ◌++◌, length, drop, Bool, true, false, ◌&&◌, ◌==◌, leb,
  if◌then◌else◌, Option, none, some, not,
}
use discord_ext_audiorec.Prelude.Results.{Result, ok, err, panic, map_err}
use discord_ext_audiorec.Errors.{
  DiscordError, io_error, tungstenite_error, addr_parse_failed, connection_closed, IoError,
  ErrorKind, would_block, timed_out, other, another,
}
use discord_ext_audiorec.State.{ConnectionState, connected, disconnected, set_state}
use discord_ext_audiorec.Payload.Mode.{EncryptionMode, default, from_str}
use discord_ext_audiorec.Payload.OpCode.{
  OpCode, ready, heartbeat_code, session_description, heartbeat_ack, hello, Serde, Identify, Resume,
  Ready, SessionDescription, get_encryption_mode, from_message,
}
use discord_ext_audiorec.Payload.OpCode
use discord_ext_audiorec.Gateway.{Exchange, discover, no_socket}
use discord_ext_audiorec.Gateway.Action.{Action, pure, lift, modify, gets, ◌>>=◌, ◌>>◌, when}

pub record World : Type 1 where
  pub serde : Serde
  pub Socket : Type 0
  -- The address of a peer.
  pub Address : Type 0
  -- `as_secs_f64` of a duration in nanoseconds, and the cast `as u64`.
  pub secs : ℕ → serde.F64
  pub as_u64 : serde.F64 → ℕ
  pub utf8 : List ℕ → Option String
  pub nan : serde.F64
  -- `sum::<f64>()`, and a sum divided by a number of summands.
  pub sum : List serde.F64 → serde.F64
  pub divided : serde.F64 → ℕ → serde.F64
  -- `parse` of an IPv4 address.
  pub parse_ip : String → Result String (Unit {0})

-- `ws` is the list of the texts written to it.
pub record VoiceGateway (w : World) : Type 0 where
  pub endpoint : String
  pub user_id : String
  pub server_id : String
  pub session_id : String
  pub token : String
  pub sent : List String
  pub heartbeat_interval : ℕ
  pub last_heartbeat : ℕ
  pub ssrc : ℕ
  pub port : ℕ
  pub encryption : EncryptionMode
  pub endpoint_ip : String
  pub socket : Option w.Socket
  pub recent_acks : List w.serde.F64
  pub secret_key : List ℕ
  pub state : ConnectionState
  pub close_code : ℕ

-- `tungstenite::Message`: a text, a close frame with its code or without one, and any other.
pub data Message : Type 0 where
  text : String → Message
  close_message : Option ℕ → Message
  unknown : Message

pub data ReadError : Type 0 where
  io : IoError → ReadError
  protocol : String → ReadError

-- `checked` is the instant of the test for the heartbeat, `beaten` the one after it was written, and
-- `handled` the one when a message is handled. Answers to writes, and the readings of the system
-- clock (nothing if it is before the epoch), go by the number of texts that were written before.
pub record Round (w : World) : Type 0 where
  pub checked : ℕ
  pub beaten : ℕ
  pub handled : ℕ
  pub unix_ms : ℕ → Option ℕ
  pub write : ℕ → Option String
  pub read : Result ReadError Message
  pub set_read_timeout : Result IoError (Unit {0})
  pub bind : Result IoError w.Socket
  pub connect : Result IoError (Unit {0})
  pub exchanges : ℕ → Exchange

module _ (w : World) where
  open w use {serde, Socket, secs, as_u64, utf8, parse_ip}

  -- A method of the gateway.
  abbrev pub Method : Type 0 → Type 0
  Method A = Action (VoiceGateway w) A

  -- `self.ws.write_message(Message::text(packet))?`.
  unfoldable pub write_message : Round w → String → Method (Unit {0})
  write_message r packet g = elim (r.write (length g.sent)) [
    | none ↦ (ok tt, record g { sent = g.sent ++ (packet ∷ []) })
    | some e ↦ (err (tungstenite_error e), g)
  ]

  -- `Heartbeat::now()`.
  abbrev pub heartbeat_now : Option ℕ → Result DiscordError ℕ
  heartbeat_now none = panic
  heartbeat_now (some ms) = ok (ms % 2 ^ 64)

  unfoldable pub handle_heartbeat : Round w → (now : ℕ) → Method (Unit {0})
  unfolding write_message
  handle_heartbeat r now = do
    before ← gets (λ (g : VoiceGateway w). length g.sent)
    ms ← lift (heartbeat_now (r.unix_ms before))
    packet ← lift (OpCode.heartbeat serde ms)
    write_message r packet
    modify (λ g. record g { last_heartbeat = now })

  unfoldable pub handle_heartbeat_ack : Round w → Method (Unit {0})
  handle_heartbeat_ack r = modify (λ g. record g {
    recent_acks =
        (if length g.recent_acks == 20 then drop 1 g.recent_acks else g.recent_acks)
        ++ (secs (r.handled - g.last_heartbeat) ∷ []);
  })

  unfoldable pub handle_session_description : SessionDescription → Method (Unit {0})
  unfolding set_state
  handle_session_description d = do
    mode ← lift (map_err io_error (from_str d.mode))
    modify (λ g. record g {
      encryption = mode;
      secret_key = d.secret_key;
      state = set_state g.state connected;
    })

  -- `first().copied().unwrap_or_default()`.
  abbrev pub first_mode : List EncryptionMode → EncryptionMode
  first_mode [] = default
  first_mode (m ∷ ms) = m

  unfoldable pub handle_ready : Round w → Ready → Method (Unit {0})
  unfolding write_message
  handle_ready r d = do
    modify (λ g. record g {
      ssrc = d.ssrc;
      port = d.port;
      encryption = first_mode (get_encryption_mode d.modes);
      endpoint_ip = d.ip;
    })
    lift (map_err addr_parse_failed (parse_ip d.ip))
    socket ← lift (map_err io_error r.bind)
    lift (map_err io_error r.connect)
    modify (λ g. record g { socket = some socket })
    (ip, port) ← lift (discover utf8 d.ssrc 4 (λ n. some (r.exchanges n)))
    mode ← gets (λ (g : VoiceGateway w). g.encryption)
    packet ← lift (OpCode.select_protocol serde (OpCode.select_protocol_new serde ip port mode))
    write_message r packet

  unfoldable pub handle_hello : Round w → serde.F64 → Method (Unit {0})
  handle_hello r interval = do
    modify (λ g. record g { heartbeat_interval = as_u64 interval })
    lift (map_err io_error r.set_read_timeout)
    modify (λ g. record g { last_heartbeat = r.handled })

  -- The `match` on the payload.
  unfoldable pub handle : Round w → OpCode serde.F64 serde.Value → Method (Unit {0})
  unfolding handle_hello handle_ready handle_heartbeat handle_heartbeat_ack
      handle_session_description
  handle r (hello interval) = handle_hello r interval
  handle r (ready d) = handle_ready r d
  handle r (heartbeat_code n) = handle_heartbeat r r.handled
  handle r (heartbeat_ack n) = handle_heartbeat_ack r
  handle r (session_description d) = handle_session_description d
  handle r _ = pure tt

  -- `if let Some(frame) = msg { self.close_code = ... }`.
  abbrev pub code_after : ℕ → Option ℕ → ℕ
  code_after before none = before
  code_after before (some code) = code

  -- The `match` on the message.
  unfoldable pub on_message : Round w → Message → Method (Unit {0})
  unfolding handle set_state
  on_message r (text s) g = (do payload ← lift (from_message serde s); handle r payload) g
  on_message r (close_message frame) g = (
    err (connection_closed (code_after g.close_code frame)),
    record g { close_code = code_after g.close_code frame; state = set_state g.state disconnected },
  )
  on_message r unknown g = pure tt g

  -- The `match` on what `read_message` returns.
  unfoldable pub on_read : Round w → Result ReadError Message → Method (Unit {0})
  unfolding on_message
  on_read r (ok m) = on_message r m
  on_read r (err (io e)) = elim e.kind [
    | would_block ↦ pure tt
    | timed_out ↦ pure tt
    | other ↦ lift (err (io_error e))
    | another k ↦ lift (err (io_error e))
  ]
  on_read r (err (protocol e)) = lift (err (tungstenite_error e))
  on_read r panic = lift panic

  -- `self.last_heartbeat.elapsed().as_millis() as u64 >= self.heartbeat_interval`.
  abbrev pub due : ℕ → VoiceGateway w → Bool
  due now g = leb g.heartbeat_interval ((now - g.last_heartbeat) / 10 ^ 6 % 2 ^ 64)

  -- The `if` in front of `poll`.
  unfoldable pub beat : Round w → Method (Unit {0})
  unfolding handle_heartbeat
  beat r g = when (due r.checked g) (handle_heartbeat r r.beaten) g

  unfoldable pub poll : Round w → Method (Unit {0})
  unfolding beat on_read
  poll r = do beat r; on_read r r.read

  -- `iter().all(|&b| b == 0)`.
  unfoldable pub all_zero : List ℕ → Bool
  all_zero [] = true
  all_zero (b ∷ bs) = b == 0 && all_zero bs
