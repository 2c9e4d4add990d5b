-- ===== src/Gateway/Session/Handshake.antt =====
-- src/ws.rs: how `connection_flow` ends.
use Prim.Native.String.{String}
use discord_ext_audiorec.Prelude.{
  ℕ, List, [], ◌∷◌, ◌++◌, All, Bool, true, false, if◌then◌else◌, none, some, ◌≡◌, ◌⊎◌, inl, inr,
  refl, arith, ◌∙◌, ap, Bool-cases, ◌%◌, ◌^◌, length,
}
use discord_ext_audiorec.Prelude.Results.{ok, err}
use discord_ext_audiorec.Errors.{IoError, would_block, timed_out}
use discord_ext_audiorec.State.{connected}
use discord_ext_audiorec.Payload.Mode.{EncryptionMode, from_str}
use discord_ext_audiorec.Payload.OpCode.{
  OpCode, session_description, SessionDescription, from_message,
}
use discord_ext_audiorec.Payload.OpCode
use discord_ext_audiorec.Gateway.Action.{◌>>=◌, bind_ok, bind-eq-ok}
use discord_ext_audiorec.Gateway.Session.{
  World, VoiceGateway, text, io, Round, Method, write_message, on_read, due, beat, poll, all_zero,
}
use discord_ext_audiorec.Gateway.Session.Flow.{
  Progress, finished, identify, resume, await_key, connection_flow,
}
use discord_ext_audiorec.Gateway.Session.Invariants.{
  Keeps, beat-Keeps, IsSound, Keeps-IsSound, poll-IsSound,
}

module _ (w : World) where
  open w use {serde}

  identify-Keeps : (r : Round w) (g : VoiceGateway w) → Keeps w g (identify w r g).1
  unfolding identify
  identify-Keeps r g = ground arith

  resume-Keeps : (r : Round w) (g : VoiceGateway w) → Keeps w g (resume w r g).1
  unfolding resume
  resume-Keeps r g = ground arith

  greet-Keeps :
      (resumes : Bool) (r : Round w) (g : VoiceGateway w)
      → Keeps w g ((if resumes then resume w r else identify w r) g).1
  greet-Keeps true r g = resume-Keeps r g
  greet-Keeps false r g = identify-Keeps r g

  await_key-connected :
      (rs : List (Round w)) (g : VoiceGateway w)
      → IsSound w g
      → (await_key w rs g).0 ≡ ok finished
      → (all_zero w (await_key w rs g).1.secret_key ≡ false)
        × ((await_key w rs g).1.state ≡ connected)
  unfolding await_key
  await_key-connected [] g s h = elim (Bool-cases (all_zero w g.secret_key)) [
    | inl z ↦ absurd (cc (rw z at h))
    | inr k ↦ (k, s.keyed k)
  ]
  await_key-connected (r ∷ rs) g s h = elim (Bool-cases (all_zero w g.secret_key)) [
    | inl z ↦
        let (u, e, h') = bind-eq-ok (poll w r) (λ _. await_key w rs) g (rw z at h) in
        rw (z, bind_ok (poll w r) (λ _. await_key w rs) g e)
          (await_key-connected rs (poll w r g).1 (poll-IsSound w r g s e) h')
    | inr k ↦ rw k (k, s.keyed k)
  ]

  -- From a gateway with no key and no latencies: if `connection_flow` ends without an error, the
  -- gateway has a key and is `Connected`, whatever the server sent and whether it resumes or not.
  pub connection_flow-connected :
      (resumes : Bool) (r : Round w) (rs : List (Round w)) (g : VoiceGateway w)
      → all_zero w g.secret_key ≡ true
      → g.recent_acks ≡ []
      → (connection_flow w resumes r rs g).0 ≡ ok finished
      → (all_zero w (connection_flow w resumes r rs g).1.secret_key ≡ false)
        × ((connection_flow w resumes r rs g).1.state ≡ connected)
  unfolding connection_flow
  connection_flow-connected resumes r rs g z none_yet h =
      let start : IsSound w g = record { acks_le = rw none_yet (omega arith); keyed = λ k. cc } in
      let greet : Method w (Unit {0}) = if resumes then resume w r else identify w r in
      let tail : Unit {0} → Method w Progress = λ _. (greet >>= λ _. await_key w rs) in
      let (u, e, h') = bind-eq-ok (poll w r) tail g h in
      let g1 : VoiceGateway w = (poll w r g).1 in
      let (u', e', h'') = bind-eq-ok greet (λ _. await_key w rs) g1 h' in
      rw (bind_ok (poll w r) tail g e, bind_ok greet (λ _. await_key w rs) g1 e')
        (await_key-connected rs (greet g1).1
          (Keeps-IsSound w g1 (greet g1).1 (greet-Keeps resumes r g1) (poll-IsSound w r g start e))
          h'')

  -- A round in which the read timed out and everything else works.
  pub record IsIdle (r : Round w) : Type 0 where
    pub error : IoError
    pub timed : (error.kind ≡ would_block) ⊎ (error.kind ≡ timed_out)
    pub reads : r.read ≡ err (io error)
    pub clock : (n : ℕ) → (ms : ℕ) × (r.unix_ms n ≡ some ms)
    pub writes : (n : ℕ) → r.write n ≡ none

  -- `serde_json` can print every heartbeat.
  abbrev pub Prints : Type 0
  Prints = (ms : ℕ) → (packet : String) × (OpCode.heartbeat serde ms ≡ ok packet)

  pub beat_ok :
      (r : Round w) (g : VoiceGateway w)
      → Prints
      → ((n : ℕ) → (ms : ℕ) × (r.unix_ms n ≡ some ms))
      → ((n : ℕ) → r.write n ≡ none)
      → (beat w r g).0 ≡ ok tt
  unfolding beat
  beat_ok r g prints clock writes = elim (Bool-cases (due w r.checked g)) [
    | inl late ↦
        let (ms, e) = clock (length g.sent) in
        let (packet, e') = prints (ms % 2 ^ 64) in
        rw (late, e, e', ◌>>=◌, write_message, writes (length g.sent)) refl
    | inr early ↦ rw early refl
  ]

  pub idle-ok :
      (r : Round w) (g : VoiceGateway w)
      → Prints
      → IsIdle r
      → ((poll w r g).0 ≡ ok tt) × Keeps w g (poll w r g).1
  unfolding poll on_read
  idle-ok r g prints x =
      let e : (beat w r g).0 ≡ ok tt = beat_ok r g prints x.clock x.writes in
      rw (bind_ok (beat w r) (λ _. on_read w r r.read) g e, x.reads)
        (let (same, kept) = quiet (beat w r g).1 in (same, rw kept (beat-Keeps w r g)))
    where
      quiet :
          (g : VoiceGateway w)
          → ((on_read w r (err (io x.error)) g).0 ≡ ok tt)
            × ((on_read w r (err (io x.error)) g).1 ≡ g)
      quiet g = elim x.timed [ inl k ↦ rw k (refl, refl) | inr k ↦ rw k (refl, refl) ]

  await_key_done :
      (rest : List (Round w)) (g : VoiceGateway w)
      → all_zero w g.secret_key ≡ false
      → await_key w rest g ≡ (ok finished, g)
  unfolding await_key
  await_key_done [] g k = rw k refl
  await_key_done (r ∷ rest) g k = rw k refl

  -- Once `connection_flow` waits for the key, with no key yet, and as long as heartbeats can be
  -- made and written: after any number of rounds in which the read timed out, a session description
  -- with a key and a known mode ends it, and the gateway has that key and mode and is `Connected`.
  pub await_key-finishes :
      (idle rest : List (Round w)) (r : Round w) (g : VoiceGateway w) (msg : String)
      (d : SessionDescription) (mode : EncryptionMode)
      → Prints
      → all_zero w g.secret_key ≡ true
      → All IsIdle idle
      → (beat_answers : (n : ℕ) → ((ms : ℕ) × (r.unix_ms n ≡ some ms)) × (r.write n ≡ none))
      → r.read ≡ ok (text msg)
      → from_message serde msg ≡ ok (session_description d)
      → from_str d.mode ≡ ok mode
      → all_zero w d.secret_key ≡ false
      → (g' : VoiceGateway w) × (await_key w (idle ++ (r ∷ rest)) g ≡ (ok finished, g'))
        × (g'.secret_key ≡ d.secret_key)
        × (g'.encryption ≡ mode)
        × (g'.state ≡ connected)
  unfolding await_key on_read
  await_key-finishes [] rest r g msg d mode prints z idle answers e e' em k =
      let b : (beat w r g).0 ≡ ok tt =
        beat_ok r g prints (λ n. (answers n).0) (λ n. (answers n).1) in
      let g1 : VoiceGateway w = (beat w r g).1 in
      let g2 : VoiceGateway w = record g1 {
        encryption = mode;
        secret_key = d.secret_key;
        state = connected;
      } in
      let polled : poll w r g ≡ (ok tt, g2) =
        bind_ok (beat w r) (λ _. on_read w r r.read) g b ∙ described g1 in
      let stepped : (poll w r >>= λ _. await_key w rest) g ≡ await_key w rest (poll w r g).1 =
        bind_ok (poll w r) (λ _. await_key w rest) g (ap (λ t. t.0) polled) in
      (g2, rw z (stepped ∙ ap (λ t. await_key w rest t.1) polled ∙ ended g2 k), refl, refl, refl)
    where
      described :
          (g1 : VoiceGateway w)
          → on_read w r r.read g1
            ≡ (ok tt, record g1 { encryption = mode; secret_key = d.secret_key; state = connected })
      described g1 = rw (e, e', em) refl

      ended :
          (g2 : VoiceGateway w)
          → all_zero w g2.secret_key ≡ false
          → await_key w rest g2 ≡ (ok finished, g2)
      ended g2 k = await_key_done rest g2 k
  await_key-finishes (i ∷ idle) rest r g msg d mode prints z h answers e e' em k =
      let (polled, kept) = idle-ok i g prints h.0 in
      let (g', f, key, enc, st) =
        await_key-finishes idle rest r (poll w i g).1 msg d mode prints (rw (kept.key) z) h.1
          answers e e' em k in
      (
        g',
        rw (z, bind_ok (poll w i) (λ _. await_key w (idle ++ (r ∷ rest))) g polled) f,
        key,
        enc,
        st,
      )
