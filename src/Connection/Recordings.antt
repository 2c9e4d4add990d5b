-- ===== src/Connection/Recordings.antt =====
-- src/recorder.rs with src/connection.rs: the threads of `AudioRecorder` beside the calls that set
-- the shared state. Each call of `record` starts one, with queues of its own; the socket is shared,
-- so a datagram comes to one of them.
pub mod Rounds
pub mod Quiet
pub mod Again
mod Tests
use Prim.Native.String.{String}
use discord_ext_audiorec.Prelude.{
  ℕ, zero, suc, Bool, true, false, Option, none, some, List, [], ◌∷◌,
}
use discord_ext_audiorec.Prelude.Results.{Result, ok, err, panic, ◌>>=◌, ◌>>◌, map_err, Build}
use discord_ext_audiorec.Errors.{DiscordError, io_error, IoError}
use discord_ext_audiorec.State.{ConnectionState, recording, is_state}
use discord_ext_audiorec.Payload.Cipher.{Cipher}
use discord_ext_audiorec.Gateway.Session.{World, VoiceGateway}
use discord_ext_audiorec.Gateway.Session.Flow.{clone_socket}
use discord_ext_audiorec.Recorder.Receive.{
  Decryption, SsrcPacketQueue, Ending, finished, waiting, panicked, failed, recv_loop,
}
use discord_ext_audiorec.Recorder.Receive
use discord_ext_audiorec.Connection.{VoiceConnection, Action, records}
use discord_ext_audiorec.Connection
use discord_ext_audiorec.Connection.StopRecord.{decoder_for}

-- What `recv_loop` does before the loop; `peer_addr` is what the socket answers.
unfoldable pub recv_head :
    {Coder : Type 0} (w : World) (opus_new : Result String Coder) (cipher_new : List ℕ → Cipher)
    (try_clone : w.Socket → Result IoError w.Socket) (peer_addr : Result IoError (Unit {0}))
    → VoiceGateway w
    → Result DiscordError (Decryption × w.Socket)
unfolding decoder_for clone_socket
recv_head w opus_new cipher_new try_clone peer_addr g = do
  (opus, decoder) ← decoder_for w opus_new cipher_new g
  socket ← clone_socket w try_clone g
  map_err io_error peer_addr
  ok (decoder, socket)

-- What the thread calls `after` with, if it calls it.
unfoldable pub told : Ending → Option (Option DiscordError)
told finished = some none
told (failed e) = some (some e)
told waiting = none
told panicked = none

-- Where a thread stands: at the test of the state, in `recv` with what the test said, or behind the
-- loop.
pub data Stage : Type 0 where
  at_test : Decryption → Stage
  in_recv : (on : Bool) → Decryption → Stage
  over : Ending → Stage

pub record Recording (Time : Type 0) : Type 0 where
  pub stage : Stage
  pub queues : SsrcPacketQueue Time

-- The threads, the newest first: its queues are those that `stop_record` decodes.
pub record Recordings (Time : Type 0) : Type 0 where
  pub connection : VoiceConnection
  pub threads : List (Recording Time)

-- A step of the thread at this index, in which `recv` returns this if the thread is there, or a
-- call of a method. A call of `record` starts a thread whose `recv_head` gives this.
pub data Event (Time : Type 0) : Type 0 where
  own : ℕ → Result IoError (List ℕ) → Time → Event Time
  acts : Action → Result DiscordError Decryption → Event Time

module _ {Time : Type 0} where
  -- Where a round of `recv_loop` leaves the thread.
  abbrev pub left : Decryption → SsrcPacketQueue Time × Ending → Recording Time
  left decoder (queues, waiting) = record { stage = at_test decoder; queues = queues }
  left decoder (queues, finished) = record { stage = over finished; queues = queues }
  left decoder (queues, panicked) = record { stage = over panicked; queues = queues }
  left decoder (queues, failed e) = record { stage = over (failed e); queues = queues }

  -- What a round observes.
  abbrev pub round : Bool → Result IoError (List ℕ) → Time → Receive.Round Time
  round on recv now = record { recording = on; recv = recv; now = now }

  unfoldable pub step_at :
      Build
      → ConnectionState
      → Result IoError (List ℕ)
      → Time
      → Stage
      → SsrcPacketQueue Time
      → Recording Time
  unfolding recv_loop is_state
  step_at cfg s recv now (at_test decoder) queues = record {
    stage = in_recv (is_state s recording) decoder;
    queues = queues;
  }
  step_at cfg s recv now (in_recv on decoder) queues =
      left decoder (recv_loop cfg decoder (round on recv now ∷ []) queues)
  step_at cfg s recv now (over e) queues = record { stage = over e; queues = queues }

  abbrev pub begun : Result DiscordError Decryption → Recording Time
  begun (ok decoder) = record { stage = at_test decoder; queues = [] }
  begun (err e) = record { stage = over (failed e); queues = [] }
  begun panic = record { stage = over panicked; queues = [] }

  abbrev pub spawned :
      Action → Result DiscordError Decryption → List (Recording Time) → List (Recording Time)
  spawned records head threads = begun head ∷ threads
  spawned a head threads = threads

  -- The thread at this index, if there is one, is replaced.
  abbrev pub modify_nth :
      ℕ → (Recording Time → Recording Time) → List (Recording Time) → List (Recording Time)
  modify_nth i f [] = []
  modify_nth zero f (x ∷ xs) = f x ∷ xs
  modify_nth (suc i) f (x ∷ xs) = x ∷ modify_nth i f xs

  unfoldable pub advance : Build → Recordings Time → Event Time → Recordings Time
  unfolding step_at Connection.step
  advance cfg c (own i recv now) = record c {
    threads =
        modify_nth i (λ self. step_at cfg c.connection.state recv now self.stage self.queues)
          c.threads;
  }
  advance cfg c (acts a head) = record {
    connection = Connection.step c.connection a;
    threads = spawned a head c.threads;
  }

  -- The first event comes first.
  unfoldable pub run : Build → List (Event Time) → Recordings Time → Recordings Time
  unfolding advance
  run cfg [] c = c
  run cfg (e ∷ es) c = run cfg es (advance cfg c e)
