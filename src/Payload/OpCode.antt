-- ===== src/Payload/OpCode.antt =====
-- src/payload.rs: the messages of the gateway, `OpCode`, with what the program sends and how it
-- reads what arrives. `serde_json` and the code that serde derives are the parameter `Serde`.
pub mod Codes
use Prim.Native.String.{String}
use discord_ext_audiorec.Prelude.{ℕ, List, [], ◌∷◌, ◌==◌, if◌then◌else◌, Option, none, some}
use discord_ext_audiorec.Prelude.Results.{Result, ok, err, panic, ◌>>=◌, map_err}
use discord_ext_audiorec.Errors.{DiscordError, serde_error, invalid_op_code}
use discord_ext_audiorec.Payload.Mode.{EncryptionMode, from_str, into_string}

pub record Identify : Type 0 where
  pub server_id : String
  pub user_id : String
  pub session_id : String
  pub token : String

-- The field `heartbeat_interval`, which serde skips, is left out.
pub record Ready : Type 0 where
  pub ssrc : ℕ
  pub ip : String
  pub port : ℕ
  pub modes : List String

-- The first mode that `get_encryption_mode` returns is looked for in the order of the list.
unfoldable pub get_encryption_mode : List String → List EncryptionMode
get_encryption_mode [] = []
get_encryption_mode (m ∷ ms) = elim (from_str m) [
  | ok mode ↦ mode ∷ get_encryption_mode ms
  | err e ↦ get_encryption_mode ms
  | panic ↦ get_encryption_mode ms
]

pub record SessionDescription : Type 0 where
  pub mode : String
  pub secret_key : List ℕ

pub record Resume : Type 0 where
  pub token : String
  pub server_id : String
  pub session_id : String

-- `F64` is `f64`. `Heartbeat`, `HeartbeatAck` and `Speaking` are the numbers in them, `Hello` is its
-- `heartbeat_interval`, and `SelectProtocol` is the JSON in it.
pub data OpCode (F64 Value : Type 0) : Type 0 where
  identify_code : Identify → OpCode F64 Value
  select_protocol_code : Value → OpCode F64 Value
  ready : Ready → OpCode F64 Value
  heartbeat_code : ℕ → OpCode F64 Value
  session_description : SessionDescription → OpCode F64 Value
  speaking : ℕ → OpCode F64 Value
  heartbeat_ack : ℕ → OpCode F64 Value
  resume_code : Resume → OpCode F64 Value
  hello : F64 → OpCode F64 Value
  resumed client_connect client_disconnect : OpCode F64 Value

-- `RawPayload`.
pub record RawPayload (Value : Type 0) : Type 0 where
  pub op : ℕ
  pub d : Value

-- `serde_json`: values, their texts, and the derived instances. An error is its text.
pub record Serde : Type 1 where
  pub F64 : Type 0
  pub Value : Type 0
  pub number : ℕ → Value
  pub string : String → Value
  pub object : List (String × Value) → Value
  pub to_string : Value → Result String String
  pub from_text : String → Result String (RawPayload Value)
  pub as_ready : Value → Result String Ready
  pub as_session_description : Value → Result String SessionDescription
  pub as_speaking : Value → Result String ℕ
  pub as_heartbeat_ack : Value → Result String ℕ
  pub as_hello : Value → Result String F64
  pub as_resumed : Value → Result String (Unit {0})
  pub as_client_connect : Value → Result String (Unit {0})
  pub as_client_disconnect : Value → Result String (Unit {0})

-- `serde_json::from_value(payload.d)?` under a constructor.
abbrev pub read {ℓ} : {A : Type ℓ} {B : Type 0} → (A → B) → Result String A → Result DiscordError B
read make (ok a) = ok (make a)
read make (err e) = err (serde_error e)
read make panic = panic

module _ (s : Serde) where
  open s use {
    F64, Value, number, string, object, to_string, from_text, as_ready, as_session_description,
    as_speaking, as_heartbeat_ack, as_hello, as_resumed, as_client_connect, as_client_disconnect,
  }

  -- The `match` on the code.
  unfoldable pub of_raw : RawPayload Value → Result DiscordError (OpCode F64 Value)
  of_raw payload =
      if payload.op == 2
      then read ready (as_ready payload.d)
      else if payload.op == 4
      then read session_description (as_session_description payload.d)
      else if payload.op == 5
      then read speaking (as_speaking payload.d)
      else if payload.op == 6
      then read heartbeat_ack (as_heartbeat_ack payload.d)
      else if payload.op == 8
      then read hello (as_hello payload.d)
      else if payload.op == 9
      then read (λ _. resumed) (as_resumed payload.d)
      else if payload.op == 12
      then read (λ _. client_connect) (as_client_connect payload.d)
      else if payload.op == 13
      then read (λ _. client_disconnect) (as_client_disconnect payload.d)
      else err (invalid_op_code payload.op)

  unfoldable pub from_message : String → Result DiscordError (OpCode F64 Value)
  unfolding of_raw
  from_message msg = do payload ← map_err serde_error (from_text msg); of_raw payload

  -- `json!({ "op": op, "d": d })`.
  abbrev pub payload_of : ℕ → Value → Value
  payload_of op d = object (("op", number op) ∷ ("d", d) ∷ [])

  abbrev identify_value : Identify → Value
  identify_value i = object (
      ("server_id", string i.server_id)
      ∷ ("user_id", string i.user_id)
      ∷ ("session_id", string i.session_id)
      ∷ ("token", string i.token)
      ∷ [])

  abbrev resume_value : Resume → Value
  resume_value r = object (
      ("token", string r.token)
      ∷ ("server_id", string r.server_id)
      ∷ ("session_id", string r.session_id)
      ∷ [])

  unfoldable pub identify : Identify → Result DiscordError String
  identify i = map_err serde_error (to_string (payload_of 0 (identify_value i)))

  -- `SelectProtocol::new`.
  unfoldable pub select_protocol_new : (address : String) → (port : ℕ) → EncryptionMode → Value
  unfolding into_string
  select_protocol_new address port mode = payload_of 1 (
      object (
        ("protocol", string "udp")
        ∷ (
          "data",
          object (
              ("address", string address)
              ∷ ("port", number port)
              ∷ ("mode", string (into_string mode))
              ∷ []),
        )
        ∷ []))

  unfoldable pub select_protocol : Value → Result DiscordError String
  select_protocol protocol = map_err serde_error (to_string protocol)

  unfoldable pub heartbeat : (now : ℕ) → Result DiscordError String
  heartbeat now = map_err serde_error (to_string (payload_of 3 (number now)))

  unfoldable pub resume : Resume → Result DiscordError String
  resume r = map_err serde_error (to_string (payload_of 7 (resume_value r)))

  -- The text that `VoiceGateway::speaking` sends.
  unfoldable pub speaking_text : (flag ssrc : ℕ) → Result DiscordError String
  speaking_text flag ssrc = map_err serde_error (
      to_string (
        payload_of 5
          (object (("speaking", number flag) ∷ ("delay", number 0) ∷ ("ssrc", number ssrc) ∷ []))))
