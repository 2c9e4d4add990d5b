-- ===== src/Player/Loop/System.antt =====
-- src/player.rs with src/connection.rs: a thread of `play_loop` beside the threads that set the
-- shared state, as an explicit sequence of steps.
use discord_ext_audiorec.Prelude.{List, [], ◌∷◌, All}
use discord_ext_audiorec.Connection.{VoiceConnection, Action}
use discord_ext_audiorec.Connection
use discord_ext_audiorec.State.{ConnectionState}
use discord_ext_audiorec.Gateway.Session.{World}
use discord_ext_audiorec.Player.Loop.{Codec, Turn, Thread}
use discord_ext_audiorec.Player.Loop

-- A step of the thread, or of any other thread.
pub data Event (w : World) : Type 0 where
  own : Turn w → Event w
  other : Action → Event w

pub record System (w : World) (Opus : Type 0) : Type 0 where
  pub connection : VoiceConnection
  pub thread : Thread w Opus

-- What holds of the answers to the thread, or of what the others do.
abbrev pub OnOwn : {w : World} → (Turn w → Type 0) → Event w → Type 0
OnOwn Q (own t) = Q t
OnOwn Q (other a) = Unit {0}

abbrev pub OnOther : {w : World} → (Action → Type 0) → Event w → Type 0
OnOther Q (own t) = Unit {0}
OnOther Q (other a) = Q a

module _ (w : World) {Opus : Type 0} (codec : Codec Opus) where
  unfoldable pub advance : System w Opus → Event w → System w Opus
  unfolding Loop.step Connection.step
  advance c (own t) =
      let (s, thread) = Loop.step w codec t c.connection.state c.thread in
      record { connection = record c.connection { state = s }; thread = thread }
  advance c (other a) = record c { connection = Connection.step c.connection a }

  -- The first event comes first.
  unfoldable pub run : List (Event w) → System w Opus → System w Opus
  unfolding advance
  run [] c = c
  run (e ∷ es) c = run es (advance c e)

  -- What holds of the thread and is kept by its own steps holds after every run.
  pub run-thread :
      (P : Thread w Opus → Type 0) (Q : Turn w → Type 0)
      → ((t : Turn w) (s : ConnectionState) (self : Thread w Opus)
          → Q t
          → P self
          → P (Loop.step w codec t s self).1)
      → (es : List (Event w)) (c : System w Opus) → All (OnOwn Q) es
      → P c.thread
      → P (run es c).thread
  unfolding run advance
  run-thread P Q keeps [] c q h = h
  run-thread P Q keeps (own t ∷ es) c q h =
      run-thread P Q keeps es (advance c (own t)) q.1 (keeps t c.connection.state c.thread q.0 h)
  run-thread P Q keeps (other a ∷ es) c q h = run-thread P Q keeps es (advance c (other a)) q.1 h
