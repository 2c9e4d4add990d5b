-- ===== src/Gateway/Session/Sending.antt =====
-- src/ws.rs: a heartbeat that is due is written by `poll`.
use Prim.Native.String.{String}
use discord_ext_audiorec.Prelude.{
  ℕ, ◌%◌, ◌^◌, List, [], ◌∷◌, ◌++◌, length, drop, take-append-drop, take_all, append_assoc, true,
  some, ◌≡◌, arith, ap, ◌∙◌, sym, inl, inr, Option-cases,
}
use discord_ext_audiorec.Prelude.Results.{ok, Result-cases}
use discord_ext_audiorec.Payload.OpCode
use discord_ext_audiorec.Gateway.Action.{bind_ok, bind-eq-ok}
use discord_ext_audiorec.Gateway.Session.{
  World, VoiceGateway, Round, write_message, handle_heartbeat, on_read, due, beat, poll,
}
use discord_ext_audiorec.Gateway.Session.Growth.{on_read-begins}

-- Behind what `g` had sent, the heartbeat is sent that the system clock gives, and then `more`.
pub record Beats (w : World) (r : Round w) (g g' : VoiceGateway w) : Type 0 where
  pub ms : ℕ
  pub clock : r.unix_ms (length g.sent) ≡ some ms
  pub packet : String
  pub printed : OpCode.heartbeat w.serde (ms % 2 ^ 64) ≡ ok packet
  pub more : List String
  pub sent_eq : g'.sent ≡ g.sent ++ (packet ∷ more)

module _ (w : World) (r : Round w) where
  open w use {serde}

  handle_heartbeat-Beats :
      (now : ℕ) (g : VoiceGateway w)
      → (handle_heartbeat w r now g).0 ≡ ok tt
      → Beats w r g (handle_heartbeat w r now g).1
  unfolding handle_heartbeat write_message
  handle_heartbeat-Beats now g h = elim (Option-cases (r.unix_ms (length g.sent))) [
    | inl e ↦ absurd (ground arith)
    | inr (ms, e) ↦ elim (Result-cases (OpCode.heartbeat serde (ms % 2 ^ 64))) [
      | inl (packet, e') ↦ record {
        ms = ms;
        clock = e;
        packet = packet;
        printed = e';
        more = [];
        sent_eq = ground arith;
      }
      | inr (inl (x, e')) ↦ absurd (ground arith)
      | inr (inr e') ↦ absurd (ground arith)
    ]
  ]

  beat-Beats :
      (g : VoiceGateway w)
      → due w r.checked g ≡ true
      → (beat w r g).0 ≡ ok tt
      → Beats w r g (beat w r g).1
  unfolding beat
  beat-Beats g late h = rw late (handle_heartbeat-Beats r.beaten g (rw late at h))

  -- A heartbeat that is due is written, whatever is read after it.
  pub poll-Beats :
      (g : VoiceGateway w)
      → due w r.checked g ≡ true
      → (poll w r g).0 ≡ ok tt
      → Beats w r g (poll w r g).1
  unfolding poll
  poll-Beats g late h =
      let (u, e, h') = bind-eq-ok (beat w r) (λ _. on_read w r r.read) g h in
      let g1 = (beat w r g).1 in
      let g2 = (on_read w r r.read g1).1 in
      let b = beat-Beats g late e in
      let more = drop (length g1.sent) g2.sent in
      let same : g2.sent ≡ g.sent ++ (b.packet ∷ b.more ++ more) =
        sym (take-append-drop (length g1.sent) g2.sent)
        ∙ ap (λ x. x ++ more)
            (on_read-begins w r g1.sent r.read g1 (take_all (length g1.sent) g1.sent (omega arith))
              ∙ b.sent_eq)
        ∙ append_assoc g.sent (b.packet ∷ b.more) more in
      rw (bind_ok (beat w r) (λ _. on_read w r r.read) g e) (record {
        ms = b.ms;
        clock = b.clock;
        packet = b.packet;
        printed = b.printed;
        more = b.more ++ more;
        sent_eq = same;
      })
