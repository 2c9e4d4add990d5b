-- ===== src/Gateway/Session/Tests.antt =====
-- src/ws.rs and src/payload.rs: the theorems on the gateway and its payloads, at concrete inputs.
use Prim.Native.String.{String}
use discord_ext_audiorec.Prelude.{
  [], ◌∷◌, replicate, none, true, false, ◌≡◌, ◌≤◌, ◌⊎◌, inl, refl, arith,
}
use discord_ext_audiorec.Prelude.Results.{Result, ok}
use discord_ext_audiorec.Errors.{connection_closed, DiscordError, PyErr, gateway_error}
use discord_ext_audiorec.State.{connected}
use discord_ext_audiorec.Payload.Mode.{xsalsa20_poly1305_lite, from_str}
use discord_ext_audiorec.Payload.OpCode.{RawPayload, session_description, from_message}
use discord_ext_audiorec.Payload.OpCode
use discord_ext_audiorec.Gateway.Session.{
  World, VoiceGateway, close_message, Round, due, poll, all_zero, beat,
}
use discord_ext_audiorec.Gateway.Session.Flow.{finished, await_key, connection_flow, close}
use discord_ext_audiorec.Gateway.Session.Invariants.{IsSound, poll-IsSound}
use discord_ext_audiorec.Gateway.Session.Beats.{poll-ne-due}
use discord_ext_audiorec.Gateway.Session.Sending.{Beats}
use discord_ext_audiorec.Gateway.Session.Closing.{close-run}
use discord_ext_audiorec.Gateway.Session.Handshake.{
  connection_flow-connected, await_key-finishes, IsIdle, Prints,
}
use discord_ext_audiorec.Gateway.Session.Sample.{
  described, sample_serde, sample_world, sample_gateway, quiet_error, sample_round, describing,
  timing_out,
}
use discord_ext_audiorec.Gateway.Builder.{
  VoiceConnector, connector_connect, opened, connector_connect-connected,
}
use discord_ext_audiorec.Connection.Run.{raised, run, settle}
use discord_ext_audiorec.Connection.Polling.{poll_results, run-closed}

read_description : from_message (sample_serde 4) "m" ≡ ok (session_description described)
unfolding from_message
read_description = refl

abbrev world : World
world = sample_world 4

abbrev entry : VoiceGateway world
entry = sample_gateway 4

entry-IsSound : IsSound world entry
unfolding all_zero
entry-IsSound = record { acks_le = omega arith; keyed = λ k. cc }

polls : (poll world describing entry).0 ≡ ok tt
unfolding poll OpCode.heartbeat from_message from_str
polls = refl

poll-IsSound_example : IsSound world (poll world describing entry).1
poll-IsSound_example = poll-IsSound world describing entry entry-IsSound polls

has_interval : 1 ≤ (poll world describing entry).1.heartbeat_interval
unfolding poll OpCode.heartbeat from_message from_str
has_interval = omega arith

poll-ne-due_example :
    ((due world describing.checked entry ≡ false)
      ⊎ Beats world describing entry (poll world describing entry).1)
    × (due world describing.checked (poll world describing entry).1 ≡ false)
poll-ne-due_example =
    poll-ne-due world describing entry (omega arith) (omega arith) polls has_interval

abbrev closing : Round world
closing = sample_round 4 (ok (close_message none))

beats : (beat world closing entry).0 ≡ ok tt
unfolding beat OpCode.heartbeat
beats = refl

beats_closed : (beat world closing (close world (ok tt) 1000 entry).1).0 ≡ ok tt
unfolding beat close OpCode.heartbeat
beats_closed = refl

close-run_example :
    (x : PyErr) × (x.class ≡ gateway_error)
    × (run
          (λ e. "closed")
          (record {
            poll = (poll world closing (close world (ok tt) 1000 entry).1).0;
            signal = none;
          }
            ∷ [])
        ≡ raised x)
close-run_example = close-run (λ e. "closed") world closing entry (ok tt) [] beats_closed refl

flows : (connection_flow world false timing_out (describing ∷ []) entry).0 ≡ ok finished
unfolding connection_flow OpCode.heartbeat OpCode.identify from_message from_str
flows = refl

no_key : all_zero world entry.secret_key ≡ true
unfolding all_zero
no_key = refl

connection_flow-connected_example :
    (all_zero world (connection_flow world false timing_out (describing ∷ []) entry).1.secret_key
      ≡ false)
    × ((connection_flow world false timing_out (describing ∷ []) entry).1.state ≡ connected)
connection_flow-connected_example =
    connection_flow-connected world false timing_out (describing ∷ []) entry no_key refl flows

prints : Prints world
unfolding OpCode.heartbeat
prints = λ ms. ("{}", refl)

timing_out-IsIdle : IsIdle world timing_out
timing_out-IsIdle = record {
  error = quiet_error;
  timed = inl refl;
  reads = refl;
  clock = λ n. (17, refl);
  writes = λ n. refl;
}

read_mode : from_str described.mode ≡ ok xsalsa20_poly1305_lite
unfolding from_str
read_mode = refl

has_key : all_zero world described.secret_key ≡ false
unfolding all_zero
has_key = refl

await_key-finishes_example :
    (g' : VoiceGateway world) × (await_key world
        (timing_out ∷ timing_out ∷ describing ∷ closing ∷ [])
        entry
      ≡ (ok finished, g'))
    × (g'.secret_key ≡ replicate 32 5)
    × (g'.encryption ≡ xsalsa20_poly1305_lite)
    × (g'.state ≡ connected)
await_key-finishes_example =
    await_key-finishes world (timing_out ∷ timing_out ∷ []) (closing ∷ []) describing entry "m"
      described xsalsa20_poly1305_lite prints no_key (timing_out-IsIdle, (timing_out-IsIdle, tt))
      (λ n. ((17, refl), refl)) refl read_description read_mode has_key

abbrev dials : String → Result DiscordError (Unit {0})
dials e = ok tt

abbrev connector : VoiceConnector
connector = record { session_id = "i"; user_id = "u"; server_id = "s"; endpoint = "e"; token = "t" }

abbrev reached : VoiceGateway world
reached = (connection_flow world false timing_out (describing ∷ []) (opened world 5 connector)).1

connects :
    connector_connect world dials 5 timing_out (describing ∷ []) connector ≡ ok (finished, reached)
unfolding connector_connect connection_flow OpCode.heartbeat OpCode.identify from_message from_str
connects = refl

connector_connect-connected_example :
    (all_zero world reached.secret_key ≡ false) × (reached.state ≡ connected)
connector_connect-connected_example =
    connector_connect-connected world dials 5 timing_out (describing ∷ []) connector reached
      connects

run-closed_example :
    run (λ e. "closed") (poll_results world (timing_out ∷ timing_out ∷ closing ∷ []) entry)
    ≡ settle (λ e. "closed") (connection_closed 0)
run-closed_example =
    run-closed (λ e. "closed") world (timing_out ∷ timing_out ∷ []) [] closing entry none prints
      (timing_out-IsIdle, (timing_out-IsIdle, tt)) (λ n. ((17, refl), refl)) refl
