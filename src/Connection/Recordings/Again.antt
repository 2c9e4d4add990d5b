-- ===== src/Connection/Recordings/Again.antt =====
-- src/connection.rs with src/recorder.rs: what becomes of a recording thread when `record` is
-- called a second time.
use discord_ext_audiorec.Prelude.{
  ℕ, true, List, [], ◌∷◌, ◌==◌, if◌then◌else◌, get_elem?, All, Option, none, some, ◌≡◌, refl, ◌∙◌,
  ap, sym, inl, inr, Bool-cases,
}
use discord_ext_audiorec.Prelude.Results.{Result, ok, err, panic, Build}
use discord_ext_audiorec.Errors.{DiscordError, IoError}
use discord_ext_audiorec.State.{ConnectionState, recording, is_state, set_state}
use discord_ext_audiorec.Recorder.Receive.{
  Decryption, SsrcPacketQueue, Round, Ending, waiting, finished, panicked, failed, recv_round,
  recv_loop,
}
use discord_ext_audiorec.Connection.{VoiceConnection, records, record_voice}
use discord_ext_audiorec.Connection
use discord_ext_audiorec.Connection.Recordings.{
  at_test, in_recv, over, Recording, Recordings, Event, own, acts, left, round, step_at, advance,
  run,
}
use discord_ext_audiorec.Connection.Recordings.Quiet.{get_elem?-modify_nth}

-- What `recv` would return to a thread in each of its steps.
abbrev pub Inputs : Type 0 → Type 0
Inputs Time = List (Result IoError (List ℕ) × Time)

module _ {Time : Type 0} where
  abbrev pub inputs : ℕ → List (Event Time) → Inputs Time
  inputs i [] = []
  inputs i (own j recv now ∷ es) =
      let rest = inputs i es in if i == j then (recv, now) ∷ rest else rest
  inputs i (acts a head ∷ es) = inputs i es

  -- The rounds of a thread that stands at its test, which every second step begins, or in `recv`.
  -- Its steps at the test receive nothing.
  abbrev pub from_test : Inputs Time → List (Round Time)
  from_test [] = []
  from_test (x ∷ []) = []
  from_test (x ∷ (recv, now) ∷ xs) = round true recv now ∷ from_test xs

  abbrev pub from_recv : Inputs Time → List (Round Time)
  from_recv [] = []
  from_recv ((recv, now) ∷ xs) = round true recv now ∷ from_test xs

  -- Every step is one of a thread.
  abbrev pub IsOwn : Event Time → Type 0
  IsOwn (own i recv now) = Unit {0}
  IsOwn (acts a head) = ⊥

  module _ (cfg : Build) where
    -- A thread alone, in its steps.
    abbrev drive : ConnectionState → Inputs Time → Recording Time → Recording Time
    drive s [] r = r
    drive s ((recv, now) ∷ xs) r = drive s xs (step_at cfg s recv now r.stage r.queues)

    run-drive :
        (es : List (Event Time)) (c : Recordings Time) (i : ℕ) (r : Recording Time)
        → get_elem? c.threads i ≡ some r
        → All IsOwn es
        → get_elem? (run cfg es c).threads i ≡ some (drive c.connection.state (inputs i es) r)
    unfolding run advance
    run-drive [] c i r at_i h = at_i
    run-drive (acts a head ∷ es) c i r at_i h = absurd h.0
    run-drive (own j recv now ∷ es) c i r at_i h =
        let f : Recording Time → Recording Time =
          λ self. step_at cfg c.connection.state recv now self.stage self.queues in
        let found = get_elem?-modify_nth j i f c.threads r at_i in
        let after : Recordings Time = advance cfg c (own j recv now) in
        elim (Bool-cases (i == j)) [
          | inl same ↦ rw same (run-drive es after i (f r) (rw same at found) h.1)
          | inr other ↦ rw other (run-drive es after i r (rw other at found) h.1)
        ]

    drive-over :
        (s : ConnectionState) (xs : Inputs Time) (e : Ending) (queues : SsrcPacketQueue Time)
        → (drive s xs (record { stage = over e; queues = queues })).queues ≡ queues
    unfolding step_at
    drive-over s [] e queues = refl
    drive-over s (x ∷ xs) e queues = drive-over s xs e queues

    recv_loop-one :
        (decoder : Decryption) (r : Round Time) (rs : List (Round Time))
        (queues : SsrcPacketQueue Time) (x : Result DiscordError (Option (SsrcPacketQueue Time)))
        → recv_round cfg decoder r queues ≡ x
        → recv_loop cfg decoder (r ∷ rs) queues ≡ elim x [
          | ok (some after) ↦ recv_loop cfg decoder rs after
          | ok none ↦ (queues, finished)
          | err e ↦ (queues, failed e)
          | panic ↦ (queues, panicked)
        ]
    unfolding recv_loop
    recv_loop-one decoder r rs queues (ok (some after)) h = rw (recv_loop, h) refl
    recv_loop-one decoder r rs queues (ok none) h = rw (recv_loop, h) refl
    recv_loop-one decoder r rs queues (err e) h = rw (recv_loop, h) refl
    recv_loop-one decoder r rs queues panic h = rw (recv_loop, h) refl

    module _ (decoder : Decryption) where
      onward : Inputs Time → SsrcPacketQueue Time × Ending → SsrcPacketQueue Time
      onward xs y = (drive recording xs (left decoder y)).queues

      -- A round, and what comes behind it.
      round-onward :
          (xs : Inputs Time) (r : Round Time) (queues : SsrcPacketQueue Time)
          → ((after : SsrcPacketQueue Time)
              → onward xs (after, waiting) ≡ (recv_loop cfg decoder (from_test xs) after).0)
          → onward xs (recv_loop cfg decoder (r ∷ []) queues)
            ≡ (recv_loop cfg decoder (r ∷ from_test xs) queues).0
      unfolding onward recv_loop
      round-onward xs r queues ih = go (recv_round cfg decoder r queues) refl
        where
          rest_of :
              (x : Result DiscordError (Option (SsrcPacketQueue Time)))
              → onward xs (elim x [
                | ok (some after) ↦ recv_loop cfg decoder [] after
                | ok none ↦ (queues, finished)
                | err e ↦ (queues, failed e)
                | panic ↦ (queues, panicked)
              ])
                ≡ (elim x as (λ _. SsrcPacketQueue Time × Ending) [
                  | ok (some after) ↦ recv_loop cfg decoder (from_test xs) after
                  | ok none ↦ (queues, finished)
                  | err e ↦ (queues, failed e)
                  | panic ↦ (queues, panicked)
                ]).0
          rest_of (ok (some after)) = ih after
          rest_of (ok none) = drive-over recording xs finished queues
          rest_of (err e) = drive-over recording xs (failed e) queues
          rest_of panic = drive-over recording xs panicked queues

          go :
              (x : Result DiscordError (Option (SsrcPacketQueue Time)))
              → recv_round cfg decoder r queues ≡ x
              → onward xs (recv_loop cfg decoder (r ∷ []) queues)
                ≡ (recv_loop cfg decoder (r ∷ from_test xs) queues).0
          go x h =
              ap (onward xs) (recv_loop-one decoder r [] queues x h)
              ∙ rest_of x
              ∙ ap (λ y. y.0) (sym (recv_loop-one decoder r (from_test xs) queues x h))

      drive-from_test :
          (xs : Inputs Time) (queues : SsrcPacketQueue Time)
          → (drive recording xs (record { stage = at_test decoder; queues = queues })).queues
            ≡ (recv_loop cfg decoder (from_test xs) queues).0
      unfolding step_at is_state onward recv_loop
      drive-from_test [] queues = refl
      drive-from_test (x ∷ []) queues = refl
      drive-from_test (x ∷ (recv, now) ∷ xs) queues =
          round-onward xs (round true recv now) queues (drive-from_test xs)

      drive-from_recv :
          (xs : Inputs Time) (queues : SsrcPacketQueue Time)
          → (drive recording xs (record { stage = in_recv true decoder; queues = queues })).queues
            ≡ (recv_loop cfg decoder (from_recv xs) queues).0
      unfolding step_at onward recv_loop
      drive-from_recv [] queues = refl
      drive-from_recv ((recv, now) ∷ xs) queues =
          round-onward xs (round true recv now) queues (drive-from_test xs)

    -- The older thread and the new one, with what each has filed.
    pub record IsDivided (decoder decoder' : Decryption) (queues : SsrcPacketQueue Time)
        (es : List (Event Time)) (c : Recordings Time) : Type 0 where
      pub new : Recording Time
      pub new_eq : get_elem? c.threads 0 ≡ some new
      pub new_queues : new.queues ≡ (recv_loop cfg decoder' (from_test (inputs 0 es)) []).0
      pub old : Recording Time
      pub old_eq : get_elem? c.threads 1 ≡ some old
      pub old_queues : old.queues ≡ (recv_loop cfg decoder (from_recv (inputs 1 es)) queues).0

    -- A call of `record` while an older recording thread waits in `recv`, which it does after it has
    -- seen that the state is `Recording`, and then any steps of the threads, in any order, with no
    -- other call in between: the older thread is not stopped. It goes on as `recv_loop` does, and
    -- what it hears is filed in its own queues. The queues that `stop_record` would decode, those of
    -- the new thread, are what `recv_loop` makes of what the new thread alone hears.
    pub record-again :
        (decoder decoder' : Decryption) (queues : SsrcPacketQueue Time) (es : List (Event Time))
        (connection : VoiceConnection) (rest : List (Recording Time))
        → All IsOwn es
        → IsDivided decoder decoder' queues es (
            run cfg (acts records (ok decoder') ∷ es) (record {
              connection = connection;
              threads = record { stage = in_recv true decoder; queues = queues } ∷ rest;
            }))
    unfolding run advance Connection.step record_voice set_state
    record-again decoder decoder' queues es connection rest h =
        let c : Recordings Time = record {
          connection = record_voice connection;
          threads =
              record { stage = at_test decoder'; queues = [] }
              ∷ record { stage = in_recv true decoder; queues = queues }
              ∷ rest;
        } in
        record {
          new = drive recording (inputs 0 es) (record { stage = at_test decoder'; queues = [] });
          new_eq = run-drive es c 0 (record { stage = at_test decoder'; queues = [] }) refl h;
          new_queues = drive-from_test decoder' (inputs 0 es) [];
          old =
              drive recording (inputs 1 es)
                (record { stage = in_recv true decoder; queues = queues });
          old_eq =
              run-drive es c 1 (record { stage = in_recv true decoder; queues = queues }) refl h;
          old_queues = drive-from_recv decoder (inputs 1 es) queues;
        }
