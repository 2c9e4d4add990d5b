-- ===== src/Connection/Polling.antt =====
-- src/connection.rs with src/ws.rs: the thread of `VoiceConnection::run` on the gateway that it
-- polls.
use Prim.Native.String.{String}
use discord_ext_audiorec.Prelude.{
  ℕ, List, [], ◌∷◌, ◌++◌, All, Option, none, some, ◌≡◌, refl, ap, ◌∙◌,
}
use discord_ext_audiorec.Prelude.Results.{ok}
use discord_ext_audiorec.Errors.{DiscordError, connection_closed}
use discord_ext_audiorec.Gateway.Session.{
  World, VoiceGateway, close_message, Round, code_after, poll,
}
use discord_ext_audiorec.Gateway.Session.Closing.{poll-close_message}
use discord_ext_audiorec.Gateway.Session.Handshake.{IsIdle, Prints, beat_ok, idle-ok}
use discord_ext_audiorec.Connection.Run.{PollRound, settle, run}

-- What the rounds of `run` observe on this gateway, if the interpreter raises nothing.
unfoldable pub poll_results : (w : World) → List (Round w) → VoiceGateway w → List PollRound
poll_results w [] g = []
poll_results w (r ∷ rs) g =
    record { poll = (poll w r g).0; signal = none } ∷ poll_results w rs (poll w r g).1

-- However long the gateway only times out, as long as heartbeats can be made and written, and while
-- no signal is pending: a close frame decides the future of `run`, by its code, or without one by
-- the code that the gateway had.
pub run-closed :
    (to_string : DiscordError → String) (w : World) (idle rest : List (Round w)) (r : Round w)
    (g : VoiceGateway w) (frame : Option ℕ)
    → Prints w
    → All (IsIdle w) idle
    → (answers : (n : ℕ) → ((ms : ℕ) × (r.unix_ms n ≡ some ms)) × (r.write n ≡ none))
    → r.read ≡ ok (close_message frame)
    → run to_string (poll_results w (idle ++ (r ∷ rest)) g)
      ≡ settle to_string (connection_closed (code_after w g.close_code frame))
unfolding run poll_results
run-closed to_string w [] rest r g frame prints h answers e =
    let beats = beat_ok w r g prints (λ n. (answers n).0) (λ n. (answers n).1) in
    let (failed, _, _) = poll-close_message w r g frame beats e in rw failed refl
run-closed to_string w (i ∷ idle) rest r g frame prints h answers e =
    let (polled, kept) = idle-ok w i g prints h.0 in
    rw polled (
      run-closed to_string w idle rest r (poll w i g).1 frame prints h.1 answers e
      ∙ ap (λ (c : ℕ). settle to_string (connection_closed (code_after w c frame))) (kept.code))
