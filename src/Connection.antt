-- ===== src/Connection.antt =====
-- src/connection.rs, and the parts of src/player.rs and src/recorder.rs that it calls: what the
-- methods of `VoiceConnection` do to the shared state. The player and the recorder hold the
-- gateway's own `State`, so there is one; of the two objects only their presence matters here.
-- The queue of packets, the callbacks, and what the methods return to Python are left out.
pub mod Flags
pub mod Run
pub mod StopRecord
pub mod Recordings
pub mod Polling
pub mod Views
mod Tests
use discord_ext_audiorec.Prelude.{Bool, true, false, if◌then◌else◌}
use discord_ext_audiorec.State.{
  ConnectionState, disconnected, connected, playing, recording, record_finished, paused, finished,
  is_state, set_state,
}

pub record VoiceConnection : Type 0 where
  pub state : ConnectionState
  pub player : Bool
  pub recorder : Bool

-- `VoiceConnector::connect` on success: the gateway's state is what `connection_flow` left.
unfoldable pub new : ConnectionState → VoiceConnection
new state = record { state = state; player = false; recorder = false }

-- `AudioPlayer::{stop, pause, resume}` and `AudioRecorder::stop`, on the shared state.
unfoldable pub player_stop : ConnectionState → ConnectionState
unfolding set_state
player_stop s = set_state s finished

unfoldable pub player_pause : ConnectionState → ConnectionState
unfolding set_state
player_pause s = set_state s paused

unfoldable pub player_resume : ConnectionState → ConnectionState
unfolding set_state
player_resume s = set_state s playing

unfoldable pub recorder_stop : ConnectionState → ConnectionState
unfolding set_state
recorder_stop s = set_state s record_finished

-- `AudioPlayer::{is_paused, is_playing}` and `AudioRecorder::is_recording`.
unfoldable pub player_is_paused : ConnectionState → Bool
unfolding is_state
player_is_paused s = is_state s paused

unfoldable pub player_is_playing : ConnectionState → Bool
unfolding is_state
player_is_playing s = is_state s playing

unfoldable pub recorder_is_recording : ConnectionState → Bool
unfolding is_state
recorder_is_recording s = is_state s recording

-- What `AudioPlayer::new` and `AudioRecorder::new` set before their threads start.
unfoldable pub player_new : ConnectionState → ConnectionState
unfolding set_state
player_new s = set_state s connected

unfoldable pub recorder_new : ConnectionState → ConnectionState
unfolding set_state
recorder_new s = set_state s recording

unfoldable pub stop : VoiceConnection → VoiceConnection
unfolding player_stop
stop c = if c.player then record c { state = player_stop c.state } else c

unfoldable pub pause : VoiceConnection → VoiceConnection
unfolding player_pause
pause c = if c.player then record c { state = player_pause c.state } else c

unfoldable pub resume : VoiceConnection → VoiceConnection
unfolding player_resume
resume c = if c.player then record c { state = player_resume c.state } else c

unfoldable pub is_playing : VoiceConnection → Bool
unfolding player_is_playing
is_playing c = if c.player then player_is_playing c.state else false

unfoldable pub is_recording : VoiceConnection → Bool
unfolding recorder_is_recording
is_recording c = if c.recorder then recorder_is_recording c.state else false

-- `spawned` says whether ffmpeg could be started.
unfoldable pub play : (spawned : Bool) → VoiceConnection → VoiceConnection
unfolding player_stop player_new
play spawned c =
    let halted = if c.player then record c { state = player_stop c.state } else c in
    if spawned then record halted { state = player_new halted.state; player = true } else halted

unfoldable pub record_voice : VoiceConnection → VoiceConnection
unfolding recorder_stop recorder_new
record_voice c =
    let halted = if c.recorder then record c { state = recorder_stop c.state } else c in
    record halted { state = recorder_new halted.state; recorder = true }

-- The state part of `stop_record`; its thread stops the recorder again before it decodes.
unfoldable pub stop_record : VoiceConnection → VoiceConnection
unfolding set_state
stop_record c = record c { state = set_state c.state record_finished }

unfoldable pub stop_record_thread : VoiceConnection → VoiceConnection
unfolding recorder_stop
stop_record_thread c = if c.recorder then record c { state = recorder_stop c.state } else c

-- `VoiceGateway::close`.
unfoldable pub disconnect : VoiceConnection → VoiceConnection
unfolding set_state
disconnect c = record c { state = set_state c.state disconnected }

-- What happens to a connection: calls of its methods, and what the other threads do to the state.
pub data Action : Type 0 where
  stops pauses resumes records stops_record decodes disconnects : Action
  plays : Bool → Action
  -- `handle_session_description`, a close frame in `poll`, and the end of the input in `play_loop`.
  described closed exhausted : Action

-- Which of the definitions above it is; the source has no such function.
unfoldable pub step : VoiceConnection → Action → VoiceConnection
unfolding stop pause resume record_voice stop_record stop_record_thread disconnect play set_state
step c stops = stop c
step c pauses = pause c
step c resumes = resume c
step c records = record_voice c
step c stops_record = stop_record c
step c decodes = stop_record_thread c
step c disconnects = disconnect c
step c (plays spawned) = play spawned c
step c described = record c { state = set_state c.state connected }
step c closed = record c { state = set_state c.state disconnected }
step c exhausted = record c { state = set_state c.state finished }
