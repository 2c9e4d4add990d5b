-- ===== src/Connection/Tests.antt =====
-- src/connection.rs: the theorems on the connection, at concrete inputs.
use Prim.Native.String.{String}
use discord_ext_audiorec.Prelude.{ℕ, true, false, [], ◌∷◌, none, ◌≡◌, ◌↔◌, refl}
use discord_ext_audiorec.Prelude.Results.{ok, err}
use discord_ext_audiorec.Errors.{DiscordError, connection_closed}
use discord_ext_audiorec.Errors.Laws.{IsRetryable}
use discord_ext_audiorec.State.{connected, recording}
use discord_ext_audiorec.Connection.{VoiceConnection, is_playing, plays, step}
use discord_ext_audiorec.Connection.Flags.{Reach, start, next, is_playing-needs-resume}
use discord_ext_audiorec.Connection.Run.{PollRound, resolved, run, run-resolved_iff}

abbrev both : VoiceConnection
both = record { state = recording; player = true; recorder = true }

abbrev fresh : VoiceConnection
fresh = record { state = connected; player = false; recorder = false }

-- `play` alone.
play_only :
    Reach fresh (plays true ∷ []) (record { state = connected; player = true; recorder = false })
unfolding step
play_only = next (plays true) start refl

is_playing-needs-resume_example :
    is_playing (record { state = connected; player = true; recorder = false }) ≡ false
is_playing-needs-resume_example =
    is_playing-needs-resume {acts = plays true ∷ []} (λ e. cc) ((λ e. cc), tt) play_only

abbrev no_text : DiscordError → String
no_text e = ""

abbrev quiet : PollRound
quiet = record { poll = ok tt; signal = none }

abbrev closing : ℕ → PollRound
closing code = record { poll = err (connection_closed code); signal = none }

run-resolved_iff_example :
    (run no_text (quiet ∷ closing 1006 ∷ []) ≡ resolved) ↔ IsRetryable (connection_closed 1006)
run-resolved_iff_example =
    run-resolved_iff no_text (quiet ∷ []) [] (closing 1006) (connection_closed 1006)
      ((refl, refl), tt) refl refl
