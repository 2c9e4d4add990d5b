-- ===== src/Gateway/Session/Beats.antt =====
-- src/ws.rs: the heartbeats. A `poll` that succeeds sends the one that is due, and leaves none due.
use discord_ext_audiorec.Prelude.{
  ℕ, ◌-◌, ◌/◌, ◌%◌, ◌^◌, ◌≤◌, ◌<◌, false, leb, ◌≡◌, ◌⊎◌, inl, inr, refl, arith, ap, ◌∙◌, Bool-cases,
}
use discord_ext_audiorec.Prelude.Results.{Result, ok, err, panic, Result-cases}
use discord_ext_audiorec.Payload.OpCode.{
  OpCode, ready, heartbeat_code, session_description, heartbeat_ack, hello, from_message,
}
use discord_ext_audiorec.Gateway.Action.{bind_ok, bind-eq-ok}
use discord_ext_audiorec.Gateway.Session.{
  World, VoiceGateway, Message, text, close_message, unknown, ReadError, io, protocol, Round,
  handle_heartbeat, handle_heartbeat_ack, handle_session_description, handle_ready, handle_hello,
  handle, on_message, on_read, due, beat, poll,
}
use discord_ext_audiorec.Gateway.Session.Sending.{Beats, poll-Beats}

module _ (w : World) (r : Round w) where
  open w use {serde}

  -- Either the timer is left alone, or it starts again at the instant.
  abbrev Timer : (now : ℕ) → VoiceGateway w → VoiceGateway w → Type 0
  Timer now g g' =
      ((g'.heartbeat_interval ≡ g.heartbeat_interval) × (g'.last_heartbeat ≡ g.last_heartbeat))
      ⊎ (g'.last_heartbeat ≡ now)

  handle_heartbeat-Timer :
      (now : ℕ) (g : VoiceGateway w)
      → (handle_heartbeat w r now g).0 ≡ ok tt
      → (handle_heartbeat w r now g).1.last_heartbeat ≡ now
  unfolding handle_heartbeat
  handle_heartbeat-Timer now g h = ground arith

  handle-Timer :
      (p : OpCode serde.F64 serde.Value) (g : VoiceGateway w)
      → (handle w r p g).0 ≡ ok tt
      → Timer r.handled g (handle w r p g).1
  unfolding handle
  handle-Timer (hello x) g h = unfold handle_hello in ground arith
  handle-Timer (ready d) g h = unfold handle_ready in inl (ground arith)
  handle-Timer (heartbeat_code n) g h = inr (handle_heartbeat-Timer r.handled g h)
  handle-Timer (heartbeat_ack n) g h = unfold handle_heartbeat_ack in inl (refl, refl)
  handle-Timer (session_description d) g h = unfold handle_session_description in ground arith
  handle-Timer p g h = inl (refl, refl)

  on_message-Timer :
      (m : Message) (g : VoiceGateway w)
      → (on_message w r m g).0 ≡ ok tt
      → Timer r.handled g (on_message w r m g).1
  unfolding on_message
  on_message-Timer (text t) g h = elim (Result-cases (from_message serde t)) [
    | inl (p, e) ↦ rw e (handle-Timer p g (rw e at h))
    | inr (inl (x, e)) ↦ rw e (inl (refl, refl))
    | inr (inr e) ↦ rw e (inl (refl, refl))
  ]
  on_message-Timer (close_message frame) g h = cc
  on_message-Timer unknown g h = inl (refl, refl)

  on_read-Timer :
      (m : Result ReadError Message) (g : VoiceGateway w)
      → (on_read w r m g).0 ≡ ok tt
      → Timer r.handled g (on_read w r m g).1
  unfolding on_read
  on_read-Timer (ok m) g h = on_message-Timer m g h
  on_read-Timer (err (io e)) g h = ground arith
  on_read-Timer (err (protocol e)) g h = cc
  on_read-Timer panic g h = cc

  beat-Timer :
      (g : VoiceGateway w)
      → (beat w r g).0 ≡ ok tt
      → ((due w r.checked g ≡ false) × ((beat w r g).1 ≡ g))
        ⊎ ((beat w r g).1.last_heartbeat ≡ r.beaten)
  unfolding beat
  beat-Timer g h = elim (Bool-cases (due w r.checked g)) [
    | inl late ↦ inr (rw late (handle_heartbeat-Timer r.beaten g (rw late at h)))
    | inr early ↦ inl (early, rw early refl)
  ]

  just_beaten :
      (now last interval : ℕ)
      → now ≤ last
      → 0 < interval
      → leb interval ((now - last) / 10 ^ 6 % 2 ^ 64) ≡ false
  just_beaten now last interval h pos =
      let none_left : now - last ≡ 0 = omega arith in rw none_left (ground arith)

  calm_after :
      (g : VoiceGateway w)
      → r.checked ≤ r.beaten
      → r.beaten ≤ r.handled
      → (poll w r g).0 ≡ ok tt
      → 0 < (poll w r g).1.heartbeat_interval
      → due w r.checked (poll w r g).1 ≡ false
  unfolding poll
  calm_after g a b h pos =
      let (u, e, h') = bind-eq-ok (beat w r) (λ _. on_read w r r.read) g h in
      rw (bind_ok (beat w r) (λ _. on_read w r r.read) g e) (
        calm (beat w r g).1 (on_read w r r.read (beat w r g).1).1 (beat-Timer g e)
          (on_read-Timer r.read (beat w r g).1 h')
          (rw (bind_ok (beat w r) (λ _. on_read w r r.read) g e) at pos))
    where
      calm :
          (g1 g2 : VoiceGateway w)
          → ((due w r.checked g ≡ false) × (g1 ≡ g)) ⊎ (g1.last_heartbeat ≡ r.beaten)
          → Timer r.handled g1 g2
          → 0 < g2.heartbeat_interval
          → due w r.checked g2 ≡ false
      calm g1 g2 x (inr l) pos =
          just_beaten r.checked g2.last_heartbeat g2.heartbeat_interval (omega arith) pos
      calm g1 g2 (inr l) (inl (i, l')) pos =
          just_beaten r.checked g2.last_heartbeat g2.heartbeat_interval (omega arith) pos
      calm g1 g2 (inl (early, same)) (inl (i, l')) pos =
          let interval : g2.heartbeat_interval ≡ g.heartbeat_interval =
            i ∙ ap (λ (k : VoiceGateway w). k.heartbeat_interval) same in
          let last : g2.last_heartbeat ≡ g.last_heartbeat =
            l' ∙ ap (λ (k : VoiceGateway w). k.last_heartbeat) same in
          cc

  -- A `poll` that succeeds writes a heartbeat if one is due by the clock that it looks at, behind
  -- what was sent before: it is the one that the system clock gives, and stands in front of whatever
  -- the message that is read then makes it send. And after the `poll` none is due by that clock,
  -- if the interval then is not zero. (The clock does not run backwards.)
  pub poll-ne-due :
      (g : VoiceGateway w)
      → r.checked ≤ r.beaten
      → r.beaten ≤ r.handled
      → (poll w r g).0 ≡ ok tt
      → 0 < (poll w r g).1.heartbeat_interval
      → ((due w r.checked g ≡ false) ⊎ Beats w r g (poll w r g).1)
        × (due w r.checked (poll w r g).1 ≡ false)
  poll-ne-due g a b h pos = (
    elim (Bool-cases (due w r.checked g)) [
      | inl late ↦ inr (poll-Beats w r g late h)
      | inr early ↦ inl early
    ],
    calm_after g a b h pos,
  )
