-- ===== src/Player/Loop/Pace.antt =====
-- src/player.rs: the pace of `play_loop`, one frame of 20 ms after the other.
use discord_ext_audiorec.Prelude.{
  ℕ, ◌+◌, ◌*◌, ◌≤◌, List, [], ◌∷◌, length, ◌≡◌, ◌≢◌, refl, arith, All, inl, inr, length-append,
}
use discord_ext_audiorec.Prelude.Results.{Result, ok, Result-cases}
use discord_ext_audiorec.Errors.{IoError}
use discord_ext_audiorec.State.{ConnectionState}
use discord_ext_audiorec.Connection.{VoiceConnection}
use discord_ext_audiorec.Gateway.Session.{World, Round}
use discord_ext_audiorec.Gateway.Session.Flow.{clone_socket}
use discord_ext_audiorec.Player.Loop.{
  Codec, Turn, Thread, Place, at_finished, at_paused, in_pause, at_disconnected, in_outage,
  behind_outage, at_frame, at_end, ended, step, rebuild, frame, encoder_for, start, period,
}
use discord_ext_audiorec.Player.Loop.Outcomes.{
  Outcome, sends, silent, runs_out, fails, frame-Outcome,
}
use discord_ext_audiorec.Player.Loop.Start.{start-IsFresh}
use discord_ext_audiorec.Player.Loop.System.{Event, OnOwn, run, run-thread}

module _ (w : World) {Opus : Type 0} (codec : Codec Opus) where
  -- A frame that is begun when the last one's time is over and that sends a packet sleeps for 20 ms
  -- at most, and afterwards its time is over again: `next_iteration` is when the sleep ends.
  pub frame-slept :
      (t : Turn w) (self : Thread w Opus)
      → self.next_iteration ≤ t.now
      → (frame w codec t self).sent ≢ self.sent
      → ((frame w codec t self).slept ≤ period w codec)
        × ((frame w codec t self).next_iteration ≡ t.now + (frame w codec t self).slept)
  frame-slept t self h sent = go (frame-Outcome w codec t self) sent
    where
      go :
          {after : Thread w Opus}
          → Outcome w codec t self after
          → after.sent ≢ self.sent
          → (after.slept ≤ period w codec) × (after.next_iteration ≡ t.now + after.slept)
      go (sends d e e' n x) ne = rw (n, x) (omega arith, omega arith)
      go (silent e e' n) ne = absurd (ne e')
      go (runs_out over e e' n) ne = absurd (ne e')
      go (fails r e k e' n) ne = absurd (ne e')

  -- The packets since the encoder was made have had their 20 ms each.
  abbrev pub IsPaced : (began : ℕ) → Thread w Opus → Type 0
  IsPaced began self = began + period w codec * length self.sent ≤ self.next_iteration

  frame-IsPaced :
      (began : ℕ) (t : Turn w) (self : Thread w Opus)
      → IsPaced began self
      → IsPaced began (frame w codec t self)
  frame-IsPaced began t self h = go (frame-Outcome w codec t self)
    where
      go : {after : Thread w Opus} → Outcome w codec t self after → IsPaced began after
      go (sends d e e' n x) = rw (e', n) (omega (arith, h, length-append self.sent (d ∷ [])))
      go (silent e e' n) = rw (e', n) (omega (arith, h))
      go (runs_out over e e' n) = rw (e', n) (omega (arith, h))
      go (fails r e k e' n) = rw (e', n) (omega (arith, h))

  rebuild-IsPaced :
      (began : ℕ) (t : Turn w) (self : Thread w Opus)
      → began ≤ t.now
      → IsPaced began self
      → IsPaced began (rebuild w codec t self)
  unfolding rebuild
  rebuild-IsPaced began t self later h = elim (Result-cases (encoder_for w codec t.gateway)) [
    | inl (encoder, e) ↦ elim (Result-cases (clone_socket w t.try_clone t.gateway)) [
      | inl (socket, e') ↦ rw (e, e') (omega (arith, later))
      | inr (inl (x, e')) ↦ rw (e, e') h
      | inr (inr e') ↦ rw (e, e') h
    ]
    | inr (inl (x, e)) ↦ rw e h
    | inr (inr e) ↦ rw e h
  ]

  step-IsPaced :
      (began : ℕ) (t : Turn w) (s : ConnectionState) (self : Thread w Opus)
      → began ≤ t.now
      → IsPaced began self
      → IsPaced began (step w codec t s self).1
  unfolding step
  step-IsPaced began t s self later h = go self.place refl
    where
      go : (p : Place) → self.place ≡ p → IsPaced began (step w codec t s self).1
      go at_finished e = rw e h
      go at_paused e = rw e h
      go in_pause e = rw e h
      go at_disconnected e = rw e h
      go in_outage e = rw e h
      go behind_outage e = rw e (rebuild-IsPaced began t self later h)
      go at_frame e = rw e (frame-IsPaced began t self h)
      go at_end e = rw e h
      go (ended r) e = rw e h

  -- For a thread that `play_loop` has started, with a clock that does not go back behind that
  -- start, and however it is interleaved with the others: the next frame is due no sooner than 20
  -- ms for each packet since the encoder was made, counted from that start.
  pub run-IsPaced :
      (peer_addr : Result IoError w.Address) (r : Round w) (began : ℕ) (t : Turn w)
      (self : Thread w Opus) (connection : VoiceConnection) (es : List (Event w))
      → start w codec peer_addr r began t ≡ ok self
      → All (OnOwn (λ t. began ≤ t.now)) es
      → IsPaced began (run w codec es (record { connection = connection; thread = self })).thread
  run-IsPaced peer_addr r began t self connection es h later =
      let fresh = start-IsFresh w codec peer_addr r began t self h in
      run-thread w codec (IsPaced began) (λ t. began ≤ t.now) (step-IsPaced began) es
        (record { connection = connection; thread = self }) later
        (rw (fresh.nothing_sent, fresh.began_eq) (omega arith))
