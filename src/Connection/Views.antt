-- ===== src/Connection/Views.antt =====
-- src/connection.rs: what `VoiceConnection` tells Python about its gateway, and `send_playing`.
use Prim.Native.String.{String}
use discord_ext_audiorec.Prelude.{ℕ, ◌-◌, List, [], ◌∷◌, Bool}
use discord_ext_audiorec.Payload.Mode.{into_string}
use discord_ext_audiorec.Gateway.Session.{World, VoiceGateway, Round, Method}
use discord_ext_audiorec.Gateway.Session.Flow.{speaking}
use discord_ext_audiorec.Connection.{VoiceConnection}

-- The Python values in the dictionary.
pub data Item (F32 : Type 0) : Type 0 where
  byte_list : List ℕ → Item F32
  text : String → Item F32
  number : ℕ → Item F32
  seconds : F32 → Item F32
  flag : Bool → Item F32

module _ (w : World) where
  -- `as_secs_f32` is that of a duration in nanoseconds; every `set_item` succeeds.
  unfoldable get_state :
      {F32 : Type 0} (as_secs_f32 : ℕ → F32) (now : ℕ)
      → VoiceGateway w
      → VoiceConnection
      → List (String × Item F32)
  unfolding into_string
  get_state as_secs_f32 now g c =
      ("secret_key", byte_list g.secret_key)
      ∷ ("encryption_mode", text (into_string g.encryption))
      ∷ ("endpoint", text g.endpoint)
      ∷ ("endpoint_ip", text g.endpoint_ip)
      ∷ ("port", number g.port)
      ∷ ("token", text g.token)
      ∷ ("ssrc", number g.ssrc)
      ∷ ("last_heartbeat", seconds (as_secs_f32 (now - g.last_heartbeat)))
      ∷ ("player_connected", flag c.player)
      ∷ []

  -- `SpeakingType::MICROPHONE` is the bit 1.
  unfoldable send_playing : Round w → Method w (Unit {0})
  unfolding speaking
  send_playing r = speaking w r 1
