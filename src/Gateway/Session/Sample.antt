-- ===== src/Gateway/Session/Sample.antt =====
-- A world to run the gateway in: JSON that is a fixed text, every message of one code. It models no
-- code of its own.
use discord_ext_audiorec.Prelude.{ℕ, ◌*◌, ◌^◌, [], replicate, length, none, some}
use discord_ext_audiorec.Prelude.Results.{Result, ok, err}
use discord_ext_audiorec.Errors.{IoError, would_block}
use discord_ext_audiorec.State.{disconnected}
use discord_ext_audiorec.Payload.Mode.{default}
use discord_ext_audiorec.Payload.OpCode.{Serde, SessionDescription}
use discord_ext_audiorec.Gateway.Session.{World, VoiceGateway, Message, text, ReadError, io, Round}

abbrev pub described : SessionDescription
described = record { mode = "xsalsa20_poly1305_lite"; secret_key = replicate 32 5 }

-- All messages have this code.
abbrev pub sample_serde : ℕ → Serde
sample_serde op = record {
  F64 = ℕ;
  Value = ℕ;
  number = λ n. n;
  string = λ s. 0;
  object = λ fields. length fields;
  to_string = λ v. ok "{}";
  from_text = λ s. ok (record { op = op; d = 7 });
  as_ready = λ v. err "no";
  as_session_description = λ v. ok described;
  as_speaking = λ v. ok v;
  as_heartbeat_ack = λ v. ok v;
  as_hello = λ v. ok v;
  as_resumed = λ v. ok tt;
  as_client_connect = λ v. ok tt;
  as_client_disconnect = λ v. ok tt;
}

abbrev pub sample_world : ℕ → World
sample_world op = record {
  serde = sample_serde op;
  Socket = ℕ;
  Address = ℕ;
  secs = λ n. n;
  as_u64 = λ x. x;
  utf8 = λ bytes. none;
  nan = 0;
  sum = λ xs. 0;
  divided = λ x n. x;
  parse_ip = λ s. ok tt;
}

abbrev pub sample_gateway : (op : ℕ) → VoiceGateway (sample_world op)
sample_gateway op = record {
  endpoint = "e";
  user_id = "u";
  server_id = "s";
  session_id = "i";
  token = "t";
  sent = [];
  heartbeat_interval = 5000;
  last_heartbeat = 0;
  ssrc = 9;
  port = 0;
  encryption = default;
  endpoint_ip = "";
  socket = some 3;
  recent_acks = [];
  secret_key = replicate 32 0;
  state = disconnected;
  close_code = 0;
}

abbrev pub quiet_error : IoError
quiet_error = record { kind = would_block; message = "" }

-- Six seconds in; the socket answers so.
abbrev pub sample_round : (op : ℕ) → Result ReadError Message → Round (sample_world op)
sample_round op read = record {
  checked = 6 * 10 ^ 9;
  beaten = 6 * 10 ^ 9;
  handled = 6 * 10 ^ 9;
  unix_ms = λ n. some 17;
  write = λ n. none;
  read = read;
  set_read_timeout = ok tt;
  bind = ok 3;
  connect = ok tt;
  exchanges = λ n. record { send = λ bytes. ok 0; recv = ok [] };
}

abbrev pub describing : Round (sample_world 4)
describing = sample_round 4 (ok (text "m"))

abbrev pub timing_out : Round (sample_world 4)
timing_out = sample_round 4 (err (io quiet_error))
