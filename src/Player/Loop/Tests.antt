-- ===== src/Player/Loop/Tests.antt =====
-- src/player.rs: the theorems on the thread of `play_loop`, at concrete inputs.
use discord_ext_audiorec.Prelude.{
  ℕ, get_elem?, replicate, ◌≤◌, List, [], ◌∷◌, length, map, true, ◌≡◌, ◌≢◌, refl, arith, ap,
}
use discord_ext_audiorec.Prelude.Results.{Result, ok}
use discord_ext_audiorec.Errors.{DiscordError}
use discord_ext_audiorec.State.{finished, disconnected}
use discord_ext_audiorec.Connection.{stops, pauses, resumes, plays}
use discord_ext_audiorec.Payload.OpCode
use discord_ext_audiorec.Gateway.Session.Sample.{timing_out}
use discord_ext_audiorec.Player.Encoder.{from_gateway}
use discord_ext_audiorec.Player.Loop.{Turn, Thread, at_frame, in_outage, ended, start}
use discord_ext_audiorec.Gateway.Session.Flow
use discord_ext_audiorec.Payload.SampleCipher.{sample_cipher, sample-IsAead}
use discord_ext_audiorec.Player.Loop.Sample.{
  world, codec, at_time, thread, connection, encodes, fit, served, live, lap, over, lite_encoder,
  lite_system, lite_fit,
}
use discord_ext_audiorec.Player.Loop.System.{Event, own, other, System, run}
use discord_ext_audiorec.Player.Loop.Numbering.{IsNumbered, run-IsNumbered}
use discord_ext_audiorec.Player.Loop.Pace.{IsPaced, run-IsPaced}
use discord_ext_audiorec.Player.Loop.Endings.{stop-ends}
use discord_ext_audiorec.Player.Loop.Playback.{Lap, packets, played, played-ends}
use discord_ext_audiorec.Player.Encoder.Stream.{wires, wire_of, counted}
use discord_ext_audiorec.Player.Encoder.Nonces.{last_4, PairedAlike}
use discord_ext_audiorec.Player.Loop.Reuse.{
  IsPlayable, played-wires, played-ne-last_4, restarted, played-PairedAlike,
}
use discord_ext_audiorec.Payload.Mode.{xsalsa20_poly1305_lite}
use discord_ext_audiorec.Player.Loop.Outages.{WaitsWith, run-WaitsWith, GoesOn, play-GoesOn}

starts : start world codec (ok 7) timing_out 100 (at_time 100) ≡ ok thread
unfolding start Flow.speaking OpCode.speaking_text
starts = refl

abbrev system : System world ℕ
system = record { connection = connection; thread = thread }

-- Two frames, and somebody who pauses and resumes.
abbrev history : List (Event world)
history =
    own (at_time 101)
    ∷ own (at_time 102)
    ∷ own (at_time 103)
    ∷ own (at_time 104)
    ∷ other pauses
    ∷ own (at_time 200)
    ∷ other resumes
    ∷ own (at_time 300)
    ∷ own (at_time 301)
    ∷ []

run-IsNumbered_example : IsNumbered world codec (run world codec history system).thread
run-IsNumbered_example =
    run-IsNumbered world codec (ok 7) timing_out 100 (at_time 100) thread connection history starts

run-IsPaced_example : IsPaced world codec 100 (run world codec history system).thread
run-IsPaced_example =
    run-IsPaced world codec (ok 7) timing_out 100 (at_time 100) thread connection history starts (
      omega arith,
      (
        omega arith,
        (omega arith, (omega arith, (tt, (omega arith, (tt, (omega arith, (omega arith, tt))))))),
      ),
    )

abbrev framing : Thread world ℕ
framing = record thread { place = at_frame }

abbrev turns : List (Turn world)
turns = at_time 1 ∷ at_time 2 ∷ at_time 3 ∷ at_time 4 ∷ at_time 5 ∷ []

abbrev in_frame : System world ℕ
in_frame = record { connection = connection; thread = framing }

abbrev stopped : System world ℕ
stopped = run world codec (other stops ∷ map own turns) in_frame

stop-ends_example :
    ((r : Result DiscordError (Unit {0})) × (stopped.thread.place ≡ ended r))
    × (length stopped.thread.sent ≤ 1)
stop-ends_example = stop-ends world codec in_frame turns refl (λ e. cc) (omega arith)

abbrev cut_off : System world ℕ
cut_off = record {
  connection = record connection { state = disconnected };
  thread = record thread { place = in_outage };
}

run-WaitsWith_example :
    WaitsWith world codec [] (
      run world codec
        (own (at_time 1) ∷ other stops ∷ own (at_time 2) ∷ other resumes ∷ [])
        cut_off)
run-WaitsWith_example =
    run-WaitsWith world codec (own (at_time 1) ∷ other stops ∷ own (at_time 2) ∷ other resumes ∷ [])
      cut_off [] (tt, ((λ e. cc, λ e. cc), (tt, ((λ e. cc, λ e. cc), tt)))) (λ e. cc, refl, refl)

play-GoesOn_example :
    GoesOn world codec (run world codec (other (plays true) ∷ map own turns) in_frame)
play-GoesOn_example =
    play-GoesOn world codec turns in_frame refl (λ e. cc) (λ e. cc)
      (λ pcm. refl, (λ pcm. refl, (λ pcm. refl, (λ pcm. refl, (λ pcm. refl, tt)))))

abbrev two_frames : System world ℕ
two_frames = played world codec (lap 1 ∷ lap 2 ∷ []) over (at_time 91) (at_time 92) system

played-ends_example :
    (two_frames.thread.place ≡ ended (ok tt))
    × (two_frames.connection.state ≡ finished)
    × (two_frames.thread.sent
        ≡ wires thread.encoder fit.aead (packets world codec thread.encoder (lap 1 ∷ lap 2 ∷ [])))
played-ends_example =
    played-ends world codec encodes (lap 1 ∷ lap 2 ∷ []) over (at_time 91) (at_time 92) system refl
      live fit (served 1, (served 2, tt)) (λ pcm h. refl)

abbrev laps : List (Lap world)
laps = lap 1 ∷ lap 2 ∷ []

playable : IsPlayable world codec encodes laps over lite_system
playable = record {
  place = refl;
  live = live;
  served = (served 1, (served 2, tt));
  over = λ pcm h. refl;
  silent = refl;
}

abbrev two_sent : List (List ℕ)
two_sent = (played world codec laps over (at_time 91) (at_time 92) lite_system).thread.sent

abbrev first : List ℕ
first = wire_of lite_encoder lite_fit.aead (replicate 24 7) (1 ∷ 2 ∷ 3 ∷ [])

abbrev second : List ℕ
second = wire_of (counted lite_encoder) lite_fit.aead (replicate 24 7) (1 ∷ 2 ∷ 3 ∷ [])

both : two_sent ≡ first ∷ second ∷ []
both =
    played-wires world codec encodes laps over (at_time 91) (at_time 92) lite_system lite_fit
      playable

played-ne-last_4_example : last_4 first ≢ last_4 second
unfolding from_gateway
played-ne-last_4_example =
    played-ne-last_4 world codec encodes laps over (at_time 91) (at_time 92) lite_system 0 1 first
      second lite_fit playable refl (omega arith) (omega arith) (omega arith)
      (ap (λ ds. get_elem? ds 0) both) (ap (λ ds. get_elem? ds 1) both)
      (λ e. absurd (omega (arith, e)))

played-PairedAlike_example :
    PairedAlike sample-IsAead.seal
      (played world codec laps over
        (at_time 91)
        (at_time 92)
        (restarted lite_system lite_encoder)).thread.sent
      (played world codec laps over
        (at_time 95)
        (at_time 96)
        (restarted lite_system lite_encoder)).thread.sent
played-PairedAlike_example =
    played-PairedAlike world codec encodes sample_cipher sample-IsAead 9 xsalsa20_poly1305_lite 0 0
      laps laps over over (at_time 91) (at_time 92) (at_time 95) (at_time 96) lite_system
      lite_system (λ e. cc) playable playable
