-- ===== src/Gateway/Session/Closing.antt =====
-- src/ws.rs with src/connection.rs: what a close frame does, and how `disconnect` ends the future
-- of `run`.
use Prim.Native.String.{String}
use discord_ext_audiorec.Prelude.{ℕ, List, ◌∷◌, Option, none, ◌≡◌, refl, ap}
use discord_ext_audiorec.Prelude.Results.{Result, ok, err}
use discord_ext_audiorec.Errors.{DiscordError, connection_closed, PyErr, gateway_error, from_owned}
use discord_ext_audiorec.State.{disconnected}
use discord_ext_audiorec.Gateway.Action.{bind_ok}
use discord_ext_audiorec.Gateway.Session.{
  World, VoiceGateway, close_message, Round, code_after, on_read, beat, poll,
}
use discord_ext_audiorec.Gateway.Session.Flow.{close}
use discord_ext_audiorec.Gateway.Session.Invariants.{beat-Keeps}
use discord_ext_audiorec.Connection.Run.{PollRound, raised, run}

module _ (w : World) (r : Round w) where
  -- A `poll` that gets past its heartbeat and reads a close frame fails by `ConnectionClosed` with
  -- the frame's code, or without one with the code that was there, which it keeps; the state is
  -- `Disconnected`.
  pub poll-close_message :
      (g : VoiceGateway w) (frame : Option ℕ)
      → (beat w r g).0 ≡ ok tt
      → r.read ≡ ok (close_message frame)
      → ((poll w r g).0 ≡ err (connection_closed (code_after w g.close_code frame)))
        × ((poll w r g).1.close_code ≡ code_after w g.close_code frame)
        × ((poll w r g).1.state ≡ disconnected)
  unfolding poll on_read
  poll-close_message g frame b e = rw (bind_ok (beat w r) (λ _. on_read w r r.read) g b, e) closed
    where
      closed :
          ((on_read w r (ok (close_message frame)) (beat w r g).1).0
            ≡ err (connection_closed (code_after w g.close_code frame)))
          × ((on_read w r (ok (close_message frame)) (beat w r g).1).1.close_code
              ≡ code_after w g.close_code frame)
          × ((on_read w r (ok (close_message frame)) (beat w r g).1).1.state ≡ disconnected)
      closed =
          let same : (beat w r g).1.close_code ≡ g.close_code = (beat-Keeps w r g).code in
          (
            ap (λ (c : ℕ). err (connection_closed (code_after w c frame))) same,
            ap (λ (c : ℕ). code_after w c frame) same,
            refl,
          )

-- After `close` with the code 1000, which is what `disconnect` does, a `poll` that gets past its
-- heartbeat and reads a close frame without a code makes `run` raise a `GatewayError`: the future
-- of an orderly end is not resolved.
pub close-run :
    (to_string : DiscordError → String) (w : World) (r : Round w) (g : VoiceGateway w)
    (answer : Result String (Unit {0})) (rest : List PollRound)
    → (beat w r (close w answer 1000 g).1).0 ≡ ok tt
    → r.read ≡ ok (close_message none)
    → (x : PyErr) × (x.class ≡ gateway_error)
      × (run to_string
            (record { poll = (poll w r (close w answer 1000 g).1).0; signal = none } ∷ rest)
          ≡ raised x)
unfolding run close from_owned
close-run to_string w r g answer rest b e =
    let after : VoiceGateway w = (close w answer 1000 g).1 in
    let (failed, _, _) = poll-close_message w r after none b e in
    (from_owned to_string (connection_closed 1000), refl, rw failed refl)
