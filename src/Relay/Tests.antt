-- ===== src/Relay/Tests.antt =====
-- src/player.rs with src/recorder.rs: the theorem on a whole input, at a concrete input.
use discord_ext_audiorec.Prelude.{[], ◌∷◌, false, refl, arith}
use discord_ext_audiorec.Prelude.Results.{Build}
use discord_ext_audiorec.Player.Encoder.{from_gateway}
use discord_ext_audiorec.Player.Loop.Playback.{packets, played}
use discord_ext_audiorec.Player.Loop.Sample.{
  world, codec, at_time, encodes, served, live, lap, over, lite_encoder, lite_system, lite_fit,
}
use discord_ext_audiorec.Recorder.Decode.Sample.{next_seq, whole, clock, counting}
use discord_ext_audiorec.Relay.{IsHeard}
use discord_ext_audiorec.Relay.Played.{Unmarked, IsRelayed, played-IsRelayed}

heard : IsHeard lite_encoder
unfolding from_gateway
heard = record {
  mode = λ e. cc;
  sequence_lt = omega arith;
  timestamp_lt = omega arith;
  ssrc_lt = omega arith;
}

unmarked : Unmarked codec
unmarked opus pcm h = (1, refl, λ e. absurd (omega (arith, e)))

abbrev release : Build
release = record { overflow_checks = false; debug_log = false }

played-IsRelayed_example :
    IsRelayed world codec encodes unmarked whole counting clock next_seq
      (λ n h. refl)
      release
      (λ n. n)
      lite_encoder
      (packets world codec lite_encoder (lap 1 ∷ lap 2 ∷ []))
      (played world codec
        (lap 1 ∷ lap 2 ∷ [])
        over
        (at_time 91)
        (at_time 92)
        lite_system).thread.sent
      5
played-IsRelayed_example =
    played-IsRelayed world codec encodes unmarked whole counting clock next_seq (λ n h. refl)
      (lap 1 ∷ lap 2 ∷ []) over (at_time 91) (at_time 92) lite_system refl live lite_fit
      (served 1, (served 2, tt)) (λ pcm h. refl) refl heard release (λ n. n) 5
