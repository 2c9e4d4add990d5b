-- ===== src/Connection/Flags.antt =====
-- src/connection.rs: what `is_playing` and `is_recording` tell.
use discord_ext_audiorec.Prelude.{
  Bool, true, false, List, [], ◌∷◌, All, ◌≡◌, ◌≢◌, ◌⊎◌, refl, arith, sym,
}
use discord_ext_audiorec.State.{playing}
use discord_ext_audiorec.Connection.{
  VoiceConnection, is_playing, is_recording, stop, pause, resume, play, Action, stops, pauses,
  resumes, records, stops_record, decodes, disconnects, plays, described, closed, exhausted, step,
}

-- A connection is never playing and recording at once.
pub playing_or_recording : (c : VoiceConnection) → (is_playing c ≡ false) ⊎ (is_recording c ≡ false)
unfolding is_playing is_recording
playing_or_recording c = ground arith

-- The connections that a history of actions leads to.
pub data Reach (c : VoiceConnection) : List Action → VoiceConnection → Type 0 where
  start : Reach c [] c
  next :
      {acts : List Action} {d e : VoiceConnection} (a : Action)
      → Reach c acts d
      → step d a ≡ e
      → Reach c (a ∷ acts) e

step-ne-playing :
    (c : VoiceConnection) (a : Action)
    → a ≢ resumes
    → c.state ≢ playing
    → (step c a).state ≢ playing
unfolding step
step-ne-playing c stops ne h = ground arith
step-ne-playing c pauses ne h = ground arith
step-ne-playing c resumes ne h = absurd (ne refl)
step-ne-playing c records ne h = ground arith
step-ne-playing c stops_record ne h = ground arith
step-ne-playing c decodes ne h = ground arith
step-ne-playing c disconnects ne h = ground arith
step-ne-playing c (plays b) ne h = ground arith
step-ne-playing c described ne h = ground arith
step-ne-playing c closed ne h = ground arith
step-ne-playing c exhausted ne h = ground arith

Reach-ne-playing :
    {c d : VoiceConnection} {acts : List Action}
    → c.state ≢ playing
    → All (λ a. a ≢ resumes) acts
    → Reach c acts d
    → d.state ≢ playing
Reach-ne-playing h x start = h
Reach-ne-playing h x (next {d = d} a r e) =
    let before = Reach-ne-playing h x.1 r in rw (sym e) (step-ne-playing d a x.0 before)

is_playing-state : (c : VoiceConnection) → c.state ≢ playing → is_playing c ≡ false
unfolding is_playing
is_playing-state c h = ground arith

-- From a connection whose state is not `Playing`, no history without a call of `resume` makes
-- `is_playing` true: not `play` either, whether ffmpeg runs or not.
pub is_playing-needs-resume :
    {c d : VoiceConnection} {acts : List Action}
    → c.state ≢ playing
    → All (λ a. a ≢ resumes) acts
    → Reach c acts d
    → is_playing d ≡ false
is_playing-needs-resume h x r = is_playing-state _ (Reach-ne-playing h x r)

-- While a player is there, each of its four calls ends a recording: the flag is shared.
pub is_recording-player_calls :
    (c : VoiceConnection) (spawned : Bool)
    → c.player ≡ true
    → (is_recording (stop c) ≡ false)
      × (is_recording (pause c) ≡ false)
      × (is_recording (resume c) ≡ false)
      × (is_recording (play spawned c) ≡ false)
unfolding is_recording stop pause resume play
is_recording-player_calls c spawned h = (ground arith, ground arith, ground arith, ground arith)
