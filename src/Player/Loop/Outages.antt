-- ===== src/Player/Loop/Outages.antt =====
-- src/player.rs: what does not end the thread of `play_loop`.
use discord_ext_audiorec.Prelude.{
  ℕ, List, [], ◌∷◌, map, inl, inr, true, false, ◌≡◌, ◌≢◌, refl, arith, All,
}
use discord_ext_audiorec.Prelude.Results.{ok, Result-cases}
use discord_ext_audiorec.State.{ConnectionState, connected, set_state, wait_until}
use discord_ext_audiorec.Connection.{
  VoiceConnection, Action, stops, pauses, resumes, records, stops_record, decodes, disconnects,
  plays, described, closed, exhausted,
}
use discord_ext_audiorec.Connection
use discord_ext_audiorec.Gateway.Session.{World}
use discord_ext_audiorec.Gateway.Session.Flow.{clone_socket}
use discord_ext_audiorec.Player.Loop.{
  Codec, Turn, Thread, Place, at_finished, at_paused, in_pause, at_disconnected, in_outage,
  behind_outage, at_frame, at_end, ended, step, rebuild, frame, encoder_for,
}
use discord_ext_audiorec.Player.Loop.Outcomes.{
  Outcome, sends, silent, runs_out, fails, frame-Outcome,
}
use discord_ext_audiorec.Player.Loop.System.{Event, own, other, OnOther, System, advance, run}

-- Neither of the two actions that set `Connected`: a session description and `play`.
abbrev pub Spares : Action → Type 0
Spares a = (a ≢ described) × (a ≢ plays true)

step-ne-connected :
    (c : VoiceConnection) (a : Action)
    → Spares a
    → c.state ≢ connected
    → (Connection.step c a).state ≢ connected
unfolding Connection.step
step-ne-connected c stops n h = ground arith
step-ne-connected c pauses n h = ground arith
step-ne-connected c resumes n h = ground arith
step-ne-connected c records n h = ground arith
step-ne-connected c stops_record n h = ground arith
step-ne-connected c decodes n h = ground arith
step-ne-connected c disconnects n h = ground arith
step-ne-connected c (plays true) n h = absurd (n.1 refl)
step-ne-connected c (plays false) n h = ground arith
step-ne-connected c described n h = absurd (n.0 refl)
step-ne-connected c closed n h = ground arith
step-ne-connected c exhausted n h = ground arith

waits_on : (s : ConnectionState) → s ≢ connected → wait_until s connected ≡ false
unfolding wait_until
waits_on s h = ground arith

module _ (w : World) {Opus : Type 0} (codec : Codec Opus) where
  -- The thread waits for `Connected`, and has sent these datagrams.
  abbrev pub WaitsWith : List (List ℕ) → System w Opus → Type 0
  WaitsWith sent c =
      (c.connection.state ≢ connected) × (c.thread.place ≡ in_outage) × (c.thread.sent ≡ sent)

  advance-WaitsWith :
      (sent : List (List ℕ)) (c : System w Opus) (e : Event w)
      → OnOther Spares e
      → WaitsWith sent c
      → WaitsWith sent (advance w codec c e)
  unfolding advance step
  advance-WaitsWith sent c (own t) n h = rw (h.1, waits_on c.connection.state h.0) (h.0, refl, h.2)
  advance-WaitsWith sent c (other a) n h = (step-ne-connected c.connection a n h.0, h.1, h.2)

  -- A thread in `wait_until(Connected)` after a disconnect waits on and sends nothing, whatever
  -- else happens to the connection, `stop` included, until a session description comes or `play`
  -- is called with an ffmpeg that runs.
  pub run-WaitsWith :
      (es : List (Event w)) (c : System w Opus) (sent : List (List ℕ))
      → All (OnOther Spares) es
      → WaitsWith sent c
      → WaitsWith sent (run w codec es c)
  unfolding run
  run-WaitsWith [] c sent n h = h
  run-WaitsWith (e ∷ es) c sent n h =
      run-WaitsWith es (advance w codec c e) sent n.1 (advance-WaitsWith sent c e n.0 h)

  -- The loop has not ended in the orderly way, and is not about to.
  abbrev pub GoesOn : System w Opus → Type 0
  GoesOn c =
      (c.connection.state ≡ connected)
      × (c.thread.place ≢ at_end)
      × (c.thread.place ≢ ended (ok tt))

  -- The input has a whole frame.
  abbrev pub Reads : Turn w → Type 0
  Reads t = (pcm : List ℕ) → (t.read pcm).0 ≡ true

  frame-GoesOn :
      (t : Turn w) (self : Thread w Opus)
      → Reads t
      → ((frame w codec t self).place ≢ at_end) × ((frame w codec t self).place ≢ ended (ok tt))
  frame-GoesOn t self more = go (frame-Outcome w codec t self)
    where
      go :
          {after : Thread w Opus}
          → Outcome w codec t self after
          → (after.place ≢ at_end) × (after.place ≢ ended (ok tt))
      go (sends d e e' n x) = (λ k. cc, λ k. cc)
      go (silent e e' n) = (λ k. cc, λ k. cc)
      go (runs_out over e e' n) = absurd (cc (over, more self.encoder.pcm_buff))
      go (fails r e ne e' n) = (λ k. cc, λ k. ne (cc (e, k)))

  rebuild-GoesOn :
      (t : Turn w) (self : Thread w Opus)
      → ((rebuild w codec t self).place ≢ at_end) × ((rebuild w codec t self).place ≢ ended (ok tt))
  unfolding rebuild
  rebuild-GoesOn t self = elim (Result-cases (encoder_for w codec t.gateway)) [
    | inl (encoder, e) ↦ elim (Result-cases (clone_socket w t.try_clone t.gateway)) [
      | inl (socket, e') ↦ rw (e, e') (λ k. cc, λ k. cc)
      | inr (inl (x, e')) ↦ rw (e, e') (λ k. cc, λ k. cc)
      | inr (inr e') ↦ rw (e, e') (λ k. cc, λ k. cc)
    ]
    | inr (inl (x, e)) ↦ rw e (λ k. cc, λ k. cc)
    | inr (inr e) ↦ rw e (λ k. cc, λ k. cc)
  ]

  own-GoesOn :
      (t : Turn w) (c : System w Opus) → Reads t → GoesOn c → GoesOn (advance w codec c (own t))
  unfolding advance step
  own-GoesOn t c more h = rw h.0 (go c.thread.place refl)
    where
      Still : Type 0
      Still =
          ((step w codec t connected c.thread).0 ≡ connected)
          × ((step w codec t connected c.thread).1.place ≢ at_end)
          × ((step w codec t connected c.thread).1.place ≢ ended (ok tt))

      go : (p : Place) → c.thread.place ≡ p → Still
      go at_finished e = rw e (refl, λ k. cc, λ k. cc)
      go at_paused e = rw e (refl, λ k. cc, λ k. cc)
      go in_pause e = rw e (refl, λ k. cc, λ k. cc)
      go at_disconnected e = rw e (refl, λ k. cc, λ k. cc)
      go in_outage e = rw e (refl, λ k. cc, λ k. cc)
      go behind_outage e =
          let (a, b) = rebuild-GoesOn t (record c.thread { place = behind_outage }) in
          rw e (refl, a, b)
      go at_frame e =
          let (a, b) = frame-GoesOn t (record c.thread { place = at_frame }) more in
          rw e (refl, a, b)
      go at_end e = absurd (h.1 e)
      go (ended r) e = rw e (refl, λ k. cc, λ k. h.2 (cc (e, k)))

  run-GoesOn :
      (ts : List (Turn w)) (c : System w Opus)
      → All Reads ts
      → GoesOn c
      → GoesOn (run w codec (map own ts) c)
  unfolding run
  run-GoesOn [] c more h = h
  run-GoesOn (t ∷ ts) c more h =
      run-GoesOn ts (advance w codec c (own t)) more.1 (own-GoesOn t c more.0 h)

  -- `play` on a connection that plays already, with a thread that does not look at the state
  -- between its `stop` and the new player's `Connected`: while its own input has frames and the
  -- state is not set again, no number of its steps ends the old thread, but by an error.
  pub play-GoesOn :
      (ts : List (Turn w)) (c : System w Opus)
      → c.connection.player ≡ true
      → c.thread.place ≢ at_end
      → c.thread.place ≢ ended (ok tt)
      → All Reads ts
      → GoesOn (run w codec (other (plays true) ∷ map own ts) c)
  unfolding run advance Connection.step Connection.play Connection.player_new set_state
  play-GoesOn ts c p ne ne' more =
      run-GoesOn ts (advance w codec c (other (plays true))) more (refl, ne, ne')
