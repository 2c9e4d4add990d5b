-- ===== src/Connection/Recordings/Quiet.antt =====
-- src/recorder.rs with src/connection.rs: how the threads of `AudioRecorder` end when the state is
-- no longer `Recording`.
use discord_ext_audiorec.Prelude.{
  ℕ, zero, suc, ◌+◌, ◌≤◌, ◌==◌, if◌then◌else◌, false, List, [], ◌∷◌, get_elem?, some, All, ◌≡◌, ◌≢◌,
  refl, arith, ◌∙◌, ap, inl, inr, Bool-cases, ne→==_false,
}
use discord_ext_audiorec.Prelude.Results.{Result, Build}
use discord_ext_audiorec.Errors.{DiscordError}
use discord_ext_audiorec.State.{recording, is_state}
use discord_ext_audiorec.Recorder.Receive.{Decryption, Ending}
use discord_ext_audiorec.Connection.{
  VoiceConnection, Action, stops, pauses, resumes, records, stops_record, decodes, disconnects,
  plays, described, closed, exhausted,
}
use discord_ext_audiorec.Connection
use discord_ext_audiorec.Connection.Recordings.{
  over, Recording, Recordings, Event, own, acts, step_at, spawned, modify_nth, advance, run,
}
use discord_ext_audiorec.Connection.Recordings.Rounds.{
  count, IsNearer, step_at-IsNearer, todo-over, todo_le,
}

step-not_recording :
    (c : VoiceConnection) (a : Action)
    → a ≢ records
    → is_state c.state recording ≡ false
    → is_state (Connection.step c a).state recording ≡ false
unfolding Connection.step is_state
step-not_recording c stops ne h = ground arith
step-not_recording c pauses ne h = ground arith
step-not_recording c resumes ne h = ground arith
step-not_recording c records ne h = absurd (ne refl)
step-not_recording c stops_record ne h = ground arith
step-not_recording c decodes ne h = ground arith
step-not_recording c disconnects ne h = ground arith
step-not_recording c (plays b) ne h = ground arith
step-not_recording c described ne h = ground arith
step-not_recording c closed ne h = ground arith
step-not_recording c exhausted ne h = ground arith

module _ {Time : Type 0} where
  pub get_elem?-modify_nth :
      (i j : ℕ) (f : Recording Time → Recording Time) (xs : List (Recording Time))
      (x : Recording Time)
      → get_elem? xs j ≡ some x
      → get_elem? (modify_nth i f xs) j ≡ some (if j == i then f x else x)
  get_elem?-modify_nth i j f [] x h = cc
  get_elem?-modify_nth zero zero f (y ∷ xs) x h = let same : y ≡ x = cc in ap (λ k. some (f k)) same
  get_elem?-modify_nth zero (suc j) f (y ∷ xs) x h =
      rw (ne→==_false (suc j) 0 (λ e. absurd (omega (arith, e)))) h
  get_elem?-modify_nth (suc i) zero f (y ∷ xs) x h =
      rw (ne→==_false 0 (suc i) (λ e. absurd (omega (arith, e)))) h
  get_elem?-modify_nth (suc i) (suc j) f (y ∷ xs) x h =
      ground (arith, get_elem?-modify_nth i j f xs x h)

  -- The steps of this thread.
  abbrev pub turns_of : ℕ → List (Event Time) → ℕ
  turns_of i [] = 0
  turns_of i (own j recv now ∷ es) = (if i == j then 1 else 0) + turns_of i es
  turns_of i (acts a head ∷ es) = turns_of i es

  abbrev pub IsNoRecord : Event Time → Type 0
  IsNoRecord (own i recv now) = Unit {0}
  IsNoRecord (acts a head) = a ≢ records

  not_spawned :
      (a : Action) (head : Result DiscordError Decryption) (xs : List (Recording Time))
      → a ≢ records
      → spawned a head xs ≡ xs
  not_spawned stops head xs ne = refl
  not_spawned pauses head xs ne = refl
  not_spawned resumes head xs ne = refl
  not_spawned records head xs ne = absurd (ne refl)
  not_spawned stops_record head xs ne = refl
  not_spawned decodes head xs ne = refl
  not_spawned disconnects head xs ne = refl
  not_spawned (plays b) head xs ne = refl
  not_spawned described head xs ne = refl
  not_spawned closed head xs ne = refl
  not_spawned exhausted head xs ne = refl

  run-IsNearer :
      (cfg : Build) (es : List (Event Time)) (c : Recordings Time) (i : ℕ) (r : Recording Time)
      → get_elem? c.threads i ≡ some r
      → is_state c.connection.state recording ≡ false
      → All IsNoRecord es
      → (r' : Recording Time) × (get_elem? (run cfg es c).threads i ≡ some r')
        × IsNearer (turns_of i es) r r'
  unfolding run advance
  run-IsNearer cfg [] c i r at_i off h =
      (r, at_i, record { steps = omega arith; packets = omega arith })
  run-IsNearer cfg (acts a head ∷ es) c i r at_i off h =
      let kept = ap (λ xs. get_elem? xs i) (not_spawned a head c.threads h.0) ∙ at_i in
      run-IsNearer cfg es (advance cfg c (acts a head)) i r kept
        (step-not_recording c.connection a h.0 off) h.1
  run-IsNearer cfg (own j recv now ∷ es) c i r at_i off h =
      let f : Recording Time → Recording Time =
        λ self. step_at cfg c.connection.state recv now self.stage self.queues in
      let found = get_elem?-modify_nth j i f c.threads r at_i in
      elim (Bool-cases (i == j)) [
        | inl same ↦
            let near = step_at-IsNearer cfg c.connection.state recv now r off in
            let (r', k, more) =
              run-IsNearer cfg es (advance cfg c (own j recv now)) i (f r) (rw same at found) off
                h.1 in
            (
              r',
              k,
              rw same (record {
                steps = omega (arith, near.steps, more.steps);
                packets = omega (arith, near.packets, more.packets);
              }),
            )
        | inr other ↦
            let (r', k, more) =
              run-IsNearer cfg es (advance cfg c (own j recv now)) i r (rw other at found) off
                h.1 in
            (r', k, rw other (record { steps = omega (arith, more.steps); packets = more.packets }))
      ]

  -- After `stop_record`, if `record` is not called again: whatever the socket answers and however
  -- the threads take turns with each other and with the other calls, a recording thread that has
  -- three steps of its own ends, and it files at most one packet more.
  pub stop_record-ends :
      (cfg : Build) (head : Result DiscordError Decryption) (es : List (Event Time))
      (c : Recordings Time) (i : ℕ) (r : Recording Time)
      → get_elem? c.threads i ≡ some r
      → All IsNoRecord es
      → 3 ≤ turns_of i es
      → (r' : Recording Time) × (get_elem? (run cfg (acts stops_record head ∷ es) c).threads i
          ≡ some r')
        × ((e : Ending) × (r'.stage ≡ over e))
        × (count r'.queues ≤ count r.queues + 1)
  unfolding run advance Connection.step is_state
  stop_record-ends cfg head es c i r at_i h enough =
      let (r', k, near) =
        run-IsNearer cfg es (advance cfg c (acts stops_record head)) i r at_i refl h in
      let (most, one) = todo_le r.stage in
      (
        r',
        k,
        todo-over r'.stage (omega (arith, near.steps, most, enough)),
        omega (arith, near.packets, one),
      )
