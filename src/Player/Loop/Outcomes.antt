-- ===== src/Player/Loop/Outcomes.antt =====
-- src/player.rs: the four ways in which a frame of `play_loop` can go.
use discord_ext_audiorec.Prelude.{
  ℕ, ◌+◌, ◌-◌, max, List, [], ◌∷◌, ◌++◌, false, ◌≡◌, ◌≢◌, refl, Bool-cases, inl, inr, ◌==◌,
}
use discord_ext_audiorec.Prelude.Results.{Result, ok, err, panic, Result-cases}
use discord_ext_audiorec.Errors.{DiscordError, opus_error}
use discord_ext_audiorec.Gateway.Session.{World}
use discord_ext_audiorec.Player.Encoder.{AudioEncoder, send_opus_packet, encode_pcm_buffer}
use discord_ext_audiorec.Player.Loop.{
  Codec, Turn, Thread, at_finished, at_end, ended, send, frame, period,
}

module _ (w : World) {Opus : Type 0} (codec : Codec Opus) where
  -- A packet was sent and the thread slept, the codec wrote nothing, the input is over, or an error
  -- ends the loop.
  pub data Outcome (t : Turn w) (before after : Thread w Opus) : Type 0 where
    sends :
        (d : List ℕ)
        → after.place ≡ at_finished
        → after.sent ≡ before.sent ++ (d ∷ [])
        → after.next_iteration ≡ max (before.next_iteration + period w codec) t.now
        → after.slept ≡ max (before.next_iteration + period w codec) t.now - t.now
        → Outcome t before after
    silent :
        after.place ≡ at_finished
        → after.sent ≡ before.sent
        → after.next_iteration ≡ before.next_iteration + period w codec
        → Outcome t before after
    runs_out :
        (t.read before.encoder.pcm_buff).0 ≡ false
        → after.place ≡ at_end
        → after.sent ≡ before.sent
        → after.next_iteration ≡ before.next_iteration + period w codec
        → Outcome t before after
    fails :
        (r : Result DiscordError (Unit {0}))
        → after.place ≡ ended r
        → r ≢ ok tt
        → after.sent ≡ before.sent
        → after.next_iteration ≡ before.next_iteration + period w codec
        → Outcome t before after

  send-Outcome :
      (t : Turn w) (size : ℕ) (self begun : Thread w Opus)
      → begun.sent ≡ self.sent
      → begun.next_iteration ≡ self.next_iteration + period w codec
      → Outcome t self (send w codec t size begun)
  unfolding send
  send-Outcome t size self begun s n =
      elim (Result-cases (send_opus_packet t.random (t.send_to begun.addr) begun.encoder size)) [
        | inl ((datagram, next), e) ↦ rw (e, s, n) (sends datagram refl refl refl refl)
        | inr (inl (x, e)) ↦ rw e (fails (err x) refl (λ k. cc) s n)
        | inr (inr e) ↦ rw e (fails panic refl (λ k. cc) s n)
      ]

  pub frame-Outcome : (t : Turn w) (self : Thread w Opus) → Outcome t self (frame w codec t self)
  unfolding frame
  frame-Outcome t self = elim (Bool-cases (t.read self.encoder.pcm_buff).0) [
    | inl came ↦
        let pcm : List ℕ = (t.read self.encoder.pcm_buff).1 in
        let begun : AudioEncoder Opus = record self.encoder { pcm_buff = pcm } in
        elim (Result-cases (encode_pcm_buffer codec.opus_encode begun)) [
          | inl ((size, next), e) ↦ elim (Bool-cases (size == 0)) [
            | inl z ↦ rw (came, e, z) (silent refl refl refl)
            | inr z ↦
                let encoded : Thread w Opus = record self {
                  next_iteration = self.next_iteration + period w codec;
                  encoder = next;
                } in
                rw (came, e, z) (send-Outcome t size self encoded refl refl)
          ]
          | inr (inl (x, e)) ↦ rw (came, e) (fails (err (opus_error x)) refl (λ k. cc) refl refl)
          | inr (inr e) ↦ rw (came, e) (fails panic refl (λ k. cc) refl refl)
        ]
    | inr over ↦ rw over (runs_out over refl refl refl)
  ]
