-- ===== src/Gateway/Session/Invariants.antt =====
-- src/ws.rs: what holds of a gateway after every `poll`.
use Prim.Native.String.{String}
use discord_ext_audiorec.Prelude.{
  ℕ, ◌≤◌, List, [], ◌∷◌, ◌++◌, length, drop, false, ◌==◌, if◌then◌else◌, ◌≡◌, ◌≢◌, refl, arith, ◌∙◌,
  inl, inr, Bool-cases, length-append, length-drop,
}
use discord_ext_audiorec.Prelude.Results.{Result, ok, err, panic, Result-cases}
use discord_ext_audiorec.State.{connected}
use discord_ext_audiorec.Payload.OpCode.{
  OpCode, ready, heartbeat_code, session_description, heartbeat_ack, hello, Ready, from_message,
}
use discord_ext_audiorec.Gateway.Action.{bind_ok, bind-eq-ok}
use discord_ext_audiorec.Gateway.Session.{
  World, VoiceGateway, Message, text, close_message, unknown, ReadError, io, protocol, Round,
  write_message, handle_heartbeat, handle_heartbeat_ack, handle_session_description, handle_ready,
  handle_hello, handle, on_message, on_read, due, beat, poll, all_zero,
}

module _ (w : World) where
  -- The parts that most methods leave alone.
  pub record Keeps (g g' : VoiceGateway w) : Type 0 where
    pub acks : g'.recent_acks ≡ g.recent_acks
    pub key : g'.secret_key ≡ g.secret_key
    pub state : g'.state ≡ g.state
    pub code : g'.close_code ≡ g.close_code

  -- At most twenty latencies are kept, and a gateway with a key is connected.
  pub record IsSound (g : VoiceGateway w) : Type 0 where
    pub acks_le : length g.recent_acks ≤ 20
    pub keyed : all_zero w g.secret_key ≡ false → g.state ≡ connected

  pub Keeps-IsSound : (g g' : VoiceGateway w) → Keeps g g' → IsSound g → IsSound g'
  Keeps-IsSound g g' k s = record {
    acks_le = rw (k.acks) (s.acks_le);
    keyed = λ h. k.state ∙ s.keyed (rw (k.key) at h);
  }

module _ (w : World) (r : Round w) where
  open w use {serde}

  pub write_message-Keeps : (p : String) (g : VoiceGateway w) → Keeps w g (write_message w r p g).1
  unfolding write_message
  write_message-Keeps p g = ground arith

  pub handle_heartbeat-Keeps :
      (now : ℕ) (g : VoiceGateway w) → Keeps w g (handle_heartbeat w r now g).1
  unfolding handle_heartbeat
  handle_heartbeat-Keeps now g = ground arith

  pub beat-Keeps : (g : VoiceGateway w) → Keeps w g (beat w r g).1
  unfolding beat
  beat-Keeps g = elim (Bool-cases (due w r.checked g)) [
    | inl late ↦ rw late (handle_heartbeat-Keeps r.beaten g)
    | inr early ↦ rw early (record { acks = refl; key = refl; state = refl; code = refl })
  ]

  handle_hello-Keeps : (x : serde.F64) (g : VoiceGateway w) → Keeps w g (handle_hello w r x g).1
  unfolding handle_hello
  handle_hello-Keeps x g = ground arith

  handle_ready-Keeps : (d : Ready) (g : VoiceGateway w) → Keeps w g (handle_ready w r d g).1
  unfolding handle_ready
  handle_ready-Keeps d g = ground arith

  pushed-le :
      (xs : List serde.F64) (x : serde.F64)
      → length xs ≤ 20
      → length ((if length xs == 20 then drop 1 xs else xs) ++ (x ∷ [])) ≤ 20
  pushed-le xs x h = elim (Bool-cases (length xs == 20)) [
    | inl full ↦
        let n : length xs ≡ 20 = ground arith in
        rw full (omega (arith, length-append (drop 1 xs) (x ∷ []), length-drop 1 xs))
    | inr room ↦
        let n : length xs ≢ 20 = ground arith in rw room (omega (arith, length-append xs (x ∷ [])))
  ]

  handle-IsSound :
      (p : OpCode serde.F64 serde.Value) (g : VoiceGateway w)
      → IsSound w g
      → IsSound w (handle w r p g).1
  unfolding handle
  handle-IsSound (hello x) g s = Keeps-IsSound w g _ (handle_hello-Keeps x g) s
  handle-IsSound (ready d) g s = Keeps-IsSound w g _ (handle_ready-Keeps d g) s
  handle-IsSound (heartbeat_code n) g s = Keeps-IsSound w g _ (handle_heartbeat-Keeps r.handled g) s
  handle-IsSound (heartbeat_ack n) g s = record {
    acks_le = unfold handle_heartbeat_ack in pushed-le g.recent_acks _ s.acks_le;
    keyed = unfold handle_heartbeat_ack in s.keyed;
  }
  handle-IsSound (session_description d) g s = unfold handle_session_description in ground arith
  handle-IsSound p g s = s

  on_message-IsSound :
      (m : Message) (g : VoiceGateway w)
      → IsSound w g
      → (on_message w r m g).0 ≡ ok tt
      → IsSound w (on_message w r m g).1
  unfolding on_message
  on_message-IsSound (text t) g s h = elim (Result-cases (from_message serde t)) [
    | inl (p, e) ↦ rw e (handle-IsSound p g s)
    | inr (inl (x, e)) ↦ rw e s
    | inr (inr e) ↦ rw e s
  ]
  on_message-IsSound (close_message frame) g s h = cc
  on_message-IsSound unknown g s h = s

  on_read-IsSound :
      (m : Result ReadError Message) (g : VoiceGateway w)
      → IsSound w g
      → (on_read w r m g).0 ≡ ok tt
      → IsSound w (on_read w r m g).1
  unfolding on_read
  on_read-IsSound (ok m) g s h = on_message-IsSound m g s h
  on_read-IsSound (err (io e)) g s h = ground arith
  on_read-IsSound (err (protocol e)) g s h = cc
  on_read-IsSound panic g s h = cc

  -- A `poll` that succeeds keeps a gateway sound: there are at most twenty latencies, and if there is
  -- a key, the state is `Connected`.
  pub poll-IsSound :
      (g : VoiceGateway w) → IsSound w g → (poll w r g).0 ≡ ok tt → IsSound w (poll w r g).1
  unfolding poll
  poll-IsSound g s h =
      let (u, e, h') = bind-eq-ok (beat w r) (λ _. on_read w r r.read) g h in
      rw (bind_ok (beat w r) (λ _. on_read w r r.read) g e) (
        on_read-IsSound r.read (beat w r g).1 (Keeps-IsSound w g (beat w r g).1 (beat-Keeps g) s)
          h')
