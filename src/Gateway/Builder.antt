-- ===== src/Gateway/Builder.antt =====
-- src/ws.rs: `VoiceGatewayBuilder`; src/connection.rs: `VoiceConnector`, which fills it. The TLS
-- session and the websocket's handshake are a parameter, `Dial`.
use Prim.Native.String.{String}
use discord_ext_audiorec.Prelude.{
  ℕ, ◌-◌, ◌^◌, List, [], ◌∷◌, replicate, false, Option, none, some, ◌≡◌, inl, inr, refl, arith,
}
use discord_ext_audiorec.Prelude.Results.{Result, ok, err, ◌>>=◌, ◌>>◌, Result-cases}
use discord_ext_audiorec.Errors.{DiscordError, builder_missing_required_field}
use discord_ext_audiorec.State
use discord_ext_audiorec.Payload.Mode
use discord_ext_audiorec.Gateway.Session.{World, VoiceGateway, Round, all_zero}
use discord_ext_audiorec.Gateway.Session.Flow.{Progress, finished, connection_flow}
use discord_ext_audiorec.Gateway.Session.Handshake.{connection_flow-connected}

pub record VoiceGatewayBuilder : Type 0 where
  pub endpoint : Option String
  pub user_id : Option String
  pub server_id : Option String
  pub session_id : Option String
  pub token : Option String

-- `#[derive(Default)]`.
unfoldable pub new_builder : VoiceGatewayBuilder
new_builder = record {
  endpoint = none;
  user_id = none;
  server_id = none;
  session_id = none;
  token = none;
}

unfoldable pub endpoint : String → VoiceGatewayBuilder → VoiceGatewayBuilder
endpoint s b = record b { endpoint = some s }

unfoldable pub user_id : String → VoiceGatewayBuilder → VoiceGatewayBuilder
user_id s b = record b { user_id = some s }

unfoldable pub server_id : String → VoiceGatewayBuilder → VoiceGatewayBuilder
server_id s b = record b { server_id = some s }

unfoldable pub session_id : String → VoiceGatewayBuilder → VoiceGatewayBuilder
session_id s b = record b { session_id = some s }

unfoldable pub token : String → VoiceGatewayBuilder → VoiceGatewayBuilder
token s b = record b { token = some s }

-- `ok_or_else(|| BuilderMissingRequiredField(name))?`.
abbrev pub required : Option String → String → Result DiscordError String
required none name = err (builder_missing_required_field name)
required (some s) name = ok s

-- What the block `let ws = { ... }` comes to for an endpoint.
abbrev pub Dial : Type 0
Dial = String → Result DiscordError (Unit {0})

module _ (w : World) where
  -- `now` is `Instant::now()`.
  unfoldable pub connect :
      Dial → (now : ℕ) → VoiceGatewayBuilder → Result DiscordError (VoiceGateway w)
  connect dial now b = do
    endpoint ← required b.endpoint "endpoint"
    user_id ← required b.user_id "user_id"
    server_id ← required b.server_id "server_id"
    session_id ← required b.session_id "session_id"
    token ← required b.token "token"
    dial endpoint
    ok (record {
      endpoint = endpoint;
      user_id = user_id;
      server_id = server_id;
      session_id = session_id;
      token = token;
      sent = [];
      heartbeat_interval = 2 ^ 64 - 1;
      last_heartbeat = now;
      ssrc = 0;
      port = 0;
      encryption = Mode.default;
      endpoint_ip = "";
      socket = none;
      recent_acks = [];
      secret_key = replicate 32 0;
      state = State.default;
      close_code = 0;
    })

pub record VoiceConnector : Type 0 where
  pub session_id : String
  pub user_id : String
  pub server_id : String
  pub endpoint : String
  pub token : String

unfoldable pub new_connector : VoiceConnector
new_connector = record { session_id = ""; user_id = ""; server_id = ""; endpoint = ""; token = "" }

unfoldable pub update_connection_config :
    (token server_id endpoint : String) → VoiceConnector → VoiceConnector
update_connection_config token server_id endpoint c = record c {
  token = token;
  server_id = server_id;
  endpoint = endpoint;
}

-- The builder of `VoiceConnector::connect`.
unfoldable pub builder_of : VoiceConnector → VoiceGatewayBuilder
unfolding endpoint session_id user_id token server_id new_builder
builder_of c =
    server_id c.server_id (
      token c.token (user_id c.user_id (session_id c.session_id (endpoint c.endpoint new_builder))))

-- What the thread of `VoiceConnector::connect` computes: the gateway, once the rounds suffice.
unfoldable pub connector_connect :
    (w : World)
    → Dial
    → (now : ℕ) → (r : Round w) → List (Round w)
    → VoiceConnector
    → Result DiscordError (Progress × VoiceGateway w)
unfolding connect builder_of
connector_connect w dial now r rs c = do
  gateway ← connect w dial now (builder_of c)
  let (answer, after) = connection_flow w false r rs gateway
  progress ← answer
  ok (progress, after)

-- The names of the fields in the order in which `connect` asks for them, with those that are set.
abbrev pub fields : VoiceGatewayBuilder → List (String × Option String)
fields b =
    ("endpoint", b.endpoint)
    ∷ ("user_id", b.user_id)
    ∷ ("server_id", b.server_id)
    ∷ ("session_id", b.session_id)
    ∷ ("token", b.token)
    ∷ []

abbrev pub first_missing : List (String × Option String) → Option String
first_missing [] = none
first_missing ((name, none) ∷ rest) = some name
first_missing ((name, some s) ∷ rest) = first_missing rest

-- When a field is missing, `connect` fails by naming the first one that is, whatever the network
-- would answer.
pub connect-missing :
    (w : World) (dial : Dial) (now : ℕ) (b : VoiceGatewayBuilder) (name : String)
    → first_missing (fields b) ≡ some name
    → connect w dial now b ≡ err (builder_missing_required_field name)
unfolding connect
connect-missing w dial now b name h = ground arith

-- The gateway before its first `poll`.
abbrev pub opened : (w : World) → ℕ → VoiceConnector → VoiceGateway w
opened w now c = record {
  endpoint = c.endpoint;
  user_id = c.user_id;
  server_id = c.server_id;
  session_id = c.session_id;
  token = c.token;
  sent = [];
  heartbeat_interval = 2 ^ 64 - 1;
  last_heartbeat = now;
  ssrc = 0;
  port = 0;
  encryption = Mode.default;
  endpoint_ip = "";
  socket = none;
  recent_acks = [];
  secret_key = replicate 32 0;
  state = State.default;
  close_code = 0;
}

connect_opened :
    (w : World) (dial : Dial) (now : ℕ) (c : VoiceConnector) {u : Unit {0}}
    → dial c.endpoint ≡ ok u
    → connect w dial now (builder_of c) ≡ ok (opened w now c)
unfolding connect builder_of
connect_opened w dial now c e = rw e refl

-- If `VoiceConnector::connect` comes to a gateway, that gateway has a key and is `Connected`,
-- whatever the server sent.
pub connector_connect-connected :
    (w : World) (dial : Dial) (now : ℕ) (r : Round w) (rs : List (Round w)) (c : VoiceConnector)
    (g : VoiceGateway w)
    → connector_connect w dial now r rs c ≡ ok (finished, g)
    → (all_zero w g.secret_key ≡ false) × (g.state ≡ State.connected)
unfolding connector_connect all_zero
connector_connect-connected w dial now r rs c g h = elim (Result-cases (dial c.endpoint)) [
  | inl (u, e) ↦
      let start : VoiceGateway w = opened w now c in
      let h' = rw (connect_opened w dial now c e) at h in
      elim (Result-cases (connection_flow w false r rs start).0) [
        | inl (p, e') ↦
            let h'' = rw (e', ◌>>=◌) at h' in
            let done : (connection_flow w false r rs start).0 ≡ ok finished = cc in
            let same : (connection_flow w false r rs start).1 ≡ g = cc in
            let (k, st) = connection_flow-connected w false r rs start refl refl done in
            (rw same at k, rw same at st)
        | inr (inl (x, e')) ↦ absurd (cc (rw (e', ◌>>=◌) at h'))
        | inr (inr e') ↦ absurd (cc (rw (e', ◌>>=◌) at h'))
      ]
  | inr (inl (x, e)) ↦ absurd (cc (rw e at h))
  | inr (inr e) ↦ absurd (cc (rw e at h))
]
