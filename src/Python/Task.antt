-- ===== src/Python/Task.antt =====
-- src/connection.rs: the thread of `VoiceConnector::connect`, which settles the future that `connect`
-- returned; and what the thread of `stop_record` does with its answer.
use Prim.Native.String.{String}
use discord_ext_audiorec.Prelude.{ℕ, List, Option, none, some}
use discord_ext_audiorec.Prelude.Results.{Result, ok, err, panic}
use discord_ext_audiorec.Errors.{DiscordError, PyErr, from_owned}
use discord_ext_audiorec.Gateway.Session.{World, VoiceGateway, Round}
use discord_ext_audiorec.Gateway.Session.Flow.{Progress, finished, waiting}
use discord_ext_audiorec.Gateway.Builder.{VoiceConnector, Dial, connector_connect}
use discord_ext_audiorec.Connection.{VoiceConnection}
use discord_ext_audiorec.Connection
use discord_ext_audiorec.Connection.StopRecord.{Answer, resolved_by, raised, never}
use discord_ext_audiorec.Python.{Interpreter, set_result, set_exception}

module _ (py : Interpreter) (loop' future : py.Object) where
  open py use {Object, Heap, getattr, call_method1, to_object}

  -- The last call of the thread of `stop_record`; `py_bytes` makes a `bytes` object.
  unfoldable pub settle_stop : (py_bytes : List ℕ → Object) → Answer → Heap → Heap
  unfolding set_result set_exception
  settle_stop py_bytes (resolved_by data') heap =
      (set_result py loop' future (py_bytes data') heap).1
  settle_stop py_bytes (raised e) heap = (set_exception py loop' future e heap).1
  settle_stop py_bytes never heap = heap

  module _ (w : World) (to_string : DiscordError → String)
      (into_py : VoiceConnection × VoiceGateway w → Object) where
    -- What becomes of the future when the gateway's connection gave this; a thread that panicked or
    -- still waits for the server does nothing.
    unfoldable pub settle_connect :
        (signal : Option PyErr) → Result DiscordError (Progress × VoiceGateway w) → Heap → Heap
    unfolding set_result set_exception from_owned Connection.new
    settle_connect signal panic heap = heap
    settle_connect signal (ok (waiting, g)) heap = heap
    settle_connect (some e) (ok (finished, g)) heap = (set_exception py loop' future e heap).1
    settle_connect (some e) (err x) heap = (set_exception py loop' future e heap).1
    settle_connect none (ok (finished, g)) heap =
        (set_result py loop' future (into_py (Connection.new g.state, g)) heap).1
    settle_connect none (err x) heap =
        (set_exception py loop' future (from_owned to_string x) heap).1

    -- The thread of `connect`.
    unfoldable pub connect_task :
        Dial
        → (now : ℕ) → (r : Round w) → List (Round w)
        → VoiceConnector
        → (signal : Option PyErr) → Heap
        → Heap
    unfolding settle_connect connector_connect
    connect_task dial now r rs c signal heap =
        settle_connect signal (connector_connect w dial now r rs c) heap
