-- ===== src/Gateway/Session/Flow.antt =====
-- src/ws.rs: the methods of `VoiceGateway` beside `poll`: the handshake, `speaking`, `close`, the
-- latencies, and `connection_flow`.
use Prim.Native.String.{String}
use discord_ext_audiorec.Prelude.{ℕ, List, [], ◌∷◌, length, Bool, if◌then◌else◌, none, some}
use discord_ext_audiorec.Prelude.Results.{Result, ok, err, map_err}
use discord_ext_audiorec.Errors.{DiscordError, io_error, tungstenite_error, IoError}
use discord_ext_audiorec.State.{disconnected, set_state}
use discord_ext_audiorec.Payload.OpCode.{
  OpCode, ready, heartbeat_code, session_description, heartbeat_ack, hello, Serde, Identify, Resume,
  Ready, SessionDescription, get_encryption_mode, from_message,
}
use discord_ext_audiorec.Payload.OpCode
use discord_ext_audiorec.Gateway.{no_socket}
use discord_ext_audiorec.Gateway.Action.{◌>>=◌, ◌>>◌}
use discord_ext_audiorec.Gateway.Session.{
  World, VoiceGateway, Round, Method, write_message, poll, all_zero,
}

-- Whether the loop of `connection_flow` ended, or the given rounds did.
pub data Progress : Type 0 where
  finished waiting : Progress

module _ (w : World) where
  open w use {serde, Socket, nan, sum, divided}

  unfoldable pub identify : Round w → Method w (Unit {0})
  unfolding write_message
  identify r = do
    packet ← (λ g. (
      OpCode.identify serde (record {
        server_id = g.server_id;
        user_id = g.user_id;
        session_id = g.session_id;
        token = g.token;
      }),
      g,
    ))
    write_message w r packet

  unfoldable pub resume : Round w → Method w (Unit {0})
  unfolding write_message
  resume r = do
    packet ← (λ g. (
      OpCode.resume serde
          (record { token = g.token; server_id = g.server_id; session_id = g.session_id }),
      g,
    ))
    write_message w r packet

  -- `flag` is the bits of the `SpeakingType`.
  unfoldable pub speaking : Round w → (flag : ℕ) → Method w (Unit {0})
  unfolding write_message
  speaking r flag = do
    packet ← (λ g. (OpCode.speaking_text serde flag g.ssrc, g))
    write_message w r packet

  -- `answer` is what `self.ws.close` returns.
  unfoldable pub close : (answer : Result String (Unit {0})) → (code : ℕ) → Method w (Unit {0})
  unfolding set_state
  close answer code g = (
    map_err tungstenite_error answer,
    record g { state = set_state g.state disconnected; close_code = code },
  )

  -- `try_clone` answers for a socket.
  unfoldable pub clone_socket :
      (try_clone : Socket → Result IoError Socket) → VoiceGateway w → Result DiscordError Socket
  clone_socket try_clone g = elim g.socket [
    | some s ↦ map_err io_error (try_clone s)
    | none ↦ err no_socket
  ]

  -- The latest latency.
  unfoldable pub latency : VoiceGateway w → serde.F64
  latency g = last_or nan g.recent_acks
    where
      last_or : serde.F64 → List serde.F64 → serde.F64
      last_or x [] = x
      last_or x (y ∷ ys) = last_or y ys

  unfoldable pub average_latency : VoiceGateway w → serde.F64
  average_latency g = elim g.recent_acks [
    | [] ↦ nan
    | x ∷ xs ↦ divided (sum (x ∷ xs)) (length (x ∷ xs))
  ]

  -- The `while` of `connection_flow`.
  unfoldable pub await_key : List (Round w) → Method w Progress
  unfolding poll all_zero
  await_key [] g = (ok (if all_zero w g.secret_key then waiting else finished), g)
  await_key (r ∷ rs) g =
      let rest : Method w Progress = (do poll w r; await_key rs) in
      if all_zero w g.secret_key then rest g else (ok finished, g)

  -- The first round is that of the first `poll` and of what is written after it.
  unfoldable pub connection_flow : (resumes : Bool) → Round w → List (Round w) → Method w Progress
  unfolding poll identify resume await_key
  connection_flow resumes r rs = do poll w r; if resumes then resume r else identify r; await_key rs
