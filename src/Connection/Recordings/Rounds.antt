-- ===== src/Connection/Recordings/Rounds.antt =====
-- src/recorder.rs with src/connection.rs: a step of a thread of `AudioRecorder` when the state
-- is not `Recording`.
use discord_ext_audiorec.Prelude.{
  ℕ, ◌+◌, ◌-◌, ◌≤◌, true, false, List, [], ◌∷◌, length, length-append, Option, none, some, ◌≡◌,
  refl, arith, sym, ap,
}
use discord_ext_audiorec.Prelude.Results.{Result, ok, err, panic, Build, bind-eq-ok, ◌>>=◌}
use discord_ext_audiorec.Errors.{DiscordError, IoError}
use discord_ext_audiorec.State.{ConnectionState, recording, is_state}
use discord_ext_audiorec.Recorder.Queue.{Packet, PacketQueue, push_back}
use discord_ext_audiorec.Recorder.Queue
use discord_ext_audiorec.Recorder.Receive.{
  Decryption, SsrcPacketQueue, Ending, waiting, finished, panicked, failed, push_entry,
  received_size, decrypt_from_buffer, packet_of_header, on_datagram, recv_round, recv_loop,
}
use discord_ext_audiorec.Connection.Recordings.{
  Stage, at_test, in_recv, over, Recording, left, round, step_at,
}

-- How many steps of its own a thread still makes when the state is not `Recording`, and how many
-- packets it can still file.
abbrev pub todo : Stage → ℕ
todo (at_test decoder) = 2
todo (in_recv true decoder) = 3
todo (in_recv false decoder) = 1
todo (over e) = 0

abbrev pub due : Stage → ℕ
due (in_recv true decoder) = 1
due (in_recv false decoder) = 0
due (at_test decoder) = 0
due (over e) = 0

pub todo-over : (x : Stage) → todo x ≡ 0 → (e : Ending) × (x ≡ over e)
todo-over (at_test decoder) h = absurd (omega (arith, h))
todo-over (in_recv true decoder) h = absurd (omega (arith, h))
todo-over (in_recv false decoder) h = absurd (omega (arith, h))
todo-over (over e) h = (e, refl)

pub todo_le : (x : Stage) → (todo x ≤ 3) × (due x ≤ 1)
todo_le (at_test decoder) = (omega arith, omega arith)
todo_le (in_recv true decoder) = (omega arith, omega arith)
todo_le (in_recv false decoder) = (omega arith, omega arith)
todo_le (over e) = (omega arith, omega arith)

module _ {Time : Type 0} where
  -- The packets of all speakers.
  abbrev pub count : SsrcPacketQueue Time → ℕ
  count [] = 0
  count ((k, q) ∷ m) = length q.queue + count m

  count-push_entry :
      (ssrc : ℕ) (p : Packet Time) (m : SsrcPacketQueue Time)
      → count (push_entry ssrc p m) ≡ count m + 1
  unfolding push_entry push_back Queue.new
  count-push_entry ssrc p [] = refl
  count-push_entry ssrc p ((k, q) ∷ m) =
      ground (arith, count-push_entry ssrc p m, length-append q.queue (p ∷ []))

  count-filed :
      (cfg : Build) (size : ℕ) (now : Time) (bytes : List ℕ) (queues after : SsrcPacketQueue Time)
      (header : Option (List ℕ))
      → (elim header [
        | none ↦ ok queues
        | some h ↦ do
          (ssrc, packet) ← packet_of_header cfg size now h bytes
          ok (push_entry ssrc packet queues)
      ])
        ≡ ok after
      → count after ≤ count queues + 1
  count-filed cfg size now bytes queues after none e =
      let same : queues ≡ after = cc in rw (sym same) (omega arith)
  count-filed cfg size now bytes queues after (some h) e =
      let ((ssrc, packet), x, e') = bind-eq-ok (packet_of_header cfg size now h bytes) _ e in
      let same : push_entry ssrc packet queues ≡ after = cc in
      rw (sym same) (omega (arith, count-push_entry ssrc packet queues))

  count-on_datagram :
      (cfg : Build) (decoder : Decryption) (now : Time) (d : List ℕ)
      (queues after : SsrcPacketQueue Time)
      → on_datagram cfg decoder now d queues ≡ ok after
      → count after ≤ count queues + 1
  unfolding on_datagram
  count-on_datagram cfg decoder now d queues after h =
      let ((header, opened), e, h') = bind-eq-ok (decrypt_from_buffer cfg decoder _) _ h in
      count-filed cfg (received_size d) now opened.slice queues after header h'

  -- What a round of a thread whose test failed leaves.
  swallowed :
      (cfg : Build) (decoder : Decryption) (recv : Result IoError (List ℕ)) (now : Time)
      (queues : SsrcPacketQueue Time)
      → (e : Ending) × (left decoder (recv_loop cfg decoder (round false recv now ∷ []) queues)
          ≡ record { stage = over e; queues = queues })
  unfolding recv_loop recv_round
  swallowed cfg decoder (ok d) now queues = (_, refl)
  swallowed cfg decoder (err x) now queues = (_, refl)
  swallowed cfg decoder panic now queues = (_, refl)

  module _ (cfg : Build) (decoder : Decryption) (now : Time) (queues : SsrcPacketQueue Time) where
    of_result :
        (d : List ℕ) (r : Result DiscordError (SsrcPacketQueue Time))
        → on_datagram cfg decoder now d queues ≡ r
        → recv_loop cfg decoder (round true (ok d) now ∷ []) queues ≡ elim r [
          | ok after ↦ (after, waiting)
          | err e ↦ (queues, failed e)
          | panic ↦ (queues, panicked)
        ]
    unfolding recv_loop recv_round
    of_result d (ok after) e = rw (recv_loop, e) refl
    of_result d (err x) e = rw (recv_loop, e) refl
    of_result d panic e = rw (recv_loop, e) refl

    -- A round of a thread whose test succeeded files at most one packet, whatever comes of it.
    count-round :
        (recv : Result IoError (List ℕ))
        → count (recv_loop cfg decoder (round true recv now ∷ []) queues).0 ≤ count queues + 1
    unfolding recv_loop recv_round
    count-round (err x) = omega arith
    count-round panic = omega arith
    count-round (ok d) = go (on_datagram cfg decoder now d queues) refl
      where
        go :
            (r : Result DiscordError (SsrcPacketQueue Time))
            → on_datagram cfg decoder now d queues ≡ r
            → count (recv_loop cfg decoder (round true (ok d) now ∷ []) queues).0 ≤ count queues + 1
        go (ok after) e = omega (
          arith,
          ap (λ x. count x.0) (of_result d (ok after) e),
          count-on_datagram cfg decoder now d queues after e,
        )
        go (err x) e = omega (arith, ap (λ x. count x.0) (of_result d (err x) e))
        go panic e = omega (arith, ap (λ x. count x.0) (of_result d panic e))

  left_queues :
      (decoder : Decryption) (x : SsrcPacketQueue Time × Ending) → (left decoder x).queues ≡ x.0
  left_queues decoder (queues, waiting) = refl
  left_queues decoder (queues, finished) = refl
  left_queues decoder (queues, panicked) = refl
  left_queues decoder (queues, failed e) = refl

  pub record IsNearer (fewer : ℕ) (before after : Recording Time) : Type 0 where
    pub steps : todo after.stage ≤ todo before.stage - fewer
    pub packets : count after.queues + due after.stage ≤ count before.queues + due before.stage

  left-todo :
      (decoder : Decryption) (x : SsrcPacketQueue Time × Ending)
      → (todo (left decoder x).stage ≤ 2) × (due (left decoder x).stage ≡ 0)
  left-todo decoder (queues, waiting) = (omega arith, refl)
  left-todo decoder (queues, finished) = (omega arith, refl)
  left-todo decoder (queues, panicked) = (omega arith, refl)
  left-todo decoder (queues, failed e) = (omega arith, refl)

  pub step_at-IsNearer :
      (cfg : Build) (s : ConnectionState) (recv : Result IoError (List ℕ)) (now : Time)
      (self : Recording Time)
      → is_state s recording ≡ false
      → IsNearer 1 self (step_at cfg s recv now self.stage self.queues)
  unfolding step_at
  step_at-IsNearer cfg s recv now self off = go self.stage refl
    where
      go :
          (x : Stage)
          → self.stage ≡ x
          → IsNearer 1 self (step_at cfg s recv now self.stage self.queues)
      go (at_test decoder) e =
          rw (e, off)
            (record { steps = omega (arith, ap todo e); packets = omega (arith, ap due e) })
      go (in_recv true decoder) e =
          let filed =
            ap count (
              left_queues decoder (recv_loop cfg decoder (round true recv now ∷ []) self.queues)) in
          let (few, none_due) =
            left-todo decoder (recv_loop cfg decoder (round true recv now ∷ []) self.queues) in
          rw e (record {
            steps = omega (arith, ap todo e, few);
            packets =
                omega
                  (arith, ap due e, none_due, filed, count-round cfg decoder now self.queues recv);
          })
      go (in_recv false decoder) e =
          let (x, ending) = swallowed cfg decoder recv now self.queues in
          rw (e, ending)
            (record { steps = omega (arith, ap todo e); packets = omega (arith, ap due e) })
      go (over x) e =
          rw e (record { steps = omega (arith, ap todo e); packets = omega (arith, ap due e) })
