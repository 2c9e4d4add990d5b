-- ===== src/Player/Loop/Numbering.antt =====
-- src/player.rs: the numbers of the datagrams that `play_loop` sends.
use discord_ext_audiorec.Prelude.{
  ℕ, ◌+◌, List, [], ◌∷◌, ◌≡◌, refl, arith, Bool-cases, inl, inr, ◌==◌, All,
}
use discord_ext_audiorec.Prelude.Results.{Result, ok, Result-cases}
use discord_ext_audiorec.Errors.{IoError}
use discord_ext_audiorec.State.{ConnectionState}
use discord_ext_audiorec.Gateway.Session.{World, Round}
use discord_ext_audiorec.Gateway.Session.Flow.{clone_socket}
use discord_ext_audiorec.Player.Encoder.{
  AudioEncoder, encode_pcm_buffer, send_opus_packet, from_gateway,
}
use discord_ext_audiorec.Player.Encoder.Counters.{send_opus_packet-counters}
use discord_ext_audiorec.Player.Loop.{
  Codec, Turn, Thread, Place, at_end, at_finished, at_paused, in_pause, at_disconnected, in_outage,
  behind_outage, at_frame, ended, encoder_for, rebuild, send, frame, step, start, period,
}
use discord_ext_audiorec.Connection.{VoiceConnection}
use discord_ext_audiorec.Player.Loop.Datagrams.{Counted, Counted-append, send_opus_packet-Carries}
use discord_ext_audiorec.Player.Loop.Start.{IsFresh, start-IsFresh}
use discord_ext_audiorec.Player.Loop.System.{OnOwn, other, Event, own, run, run-thread}

module _ (w : World) {Opus : Type 0} (codec : Codec Opus) where
  abbrev pub IsNumbered : Thread w Opus → Type 0
  IsNumbered self = Counted self.encoder.sequence self.encoder.lite_nonce self.sent

  send-IsNumbered :
      (t : Turn w) (size : ℕ) (self : Thread w Opus)
      → IsNumbered self
      → IsNumbered (send w codec t size self)
  unfolding send
  send-IsNumbered t size self h =
      elim (Result-cases (send_opus_packet t.random (t.send_to self.addr) self.encoder size)) [
        | inl ((datagram, next), e) ↦
            let (s, l, ts, ssrc, m) =
              send_opus_packet-counters t.random (t.send_to self.addr) self.encoder next size
                datagram e in
            rw (e, s, l)
              (Counted-append self.encoder.sequence self.encoder.lite_nonce self.sent datagram h (
                send_opus_packet-Carries t.random (t.send_to self.addr) self.encoder next size
                  datagram e))
        | inr (inl (x, e)) ↦ rw e h
        | inr (inr e) ↦ rw e h
      ]

  encode-IsNumbered :
      (self next : AudioEncoder Opus) (size : ℕ)
      → encode_pcm_buffer codec.opus_encode self ≡ ok (size, next)
      → (next.sequence ≡ self.sequence) × (next.lite_nonce ≡ self.lite_nonce)
  unfolding encode_pcm_buffer
  encode-IsNumbered self next size h = ground arith

  frame-IsNumbered :
      (t : Turn w) (self : Thread w Opus) → IsNumbered self → IsNumbered (frame w codec t self)
  unfolding frame
  frame-IsNumbered t self h = elim (Bool-cases (t.read self.encoder.pcm_buff).0) [
    | inl came ↦
        let pcm : List ℕ = (t.read self.encoder.pcm_buff).1 in
        let begun : AudioEncoder Opus = record self.encoder { pcm_buff = pcm } in
        elim (Result-cases (encode_pcm_buffer codec.opus_encode begun)) [
          | inl ((size, next), e) ↦
              let (s, l) = encode-IsNumbered begun next size e in
              let encoded : Thread w Opus = record self {
                next_iteration = self.next_iteration + period w codec;
                encoder = next;
              } in
              let h' : IsNumbered encoded = rw (s, l) h in
              elim (Bool-cases (size == 0)) [
                | inl z ↦ rw (came, e, z) h'
                | inr z ↦ rw (came, e, z) (send-IsNumbered t size encoded h')
              ]
          | inr (inl (x, e)) ↦ rw (came, e) h
          | inr (inr e) ↦ rw (came, e) h
        ]
    | inr over ↦ rw over h
  ]

  rebuild-IsNumbered :
      (t : Turn w) (self : Thread w Opus) → IsNumbered self → IsNumbered (rebuild w codec t self)
  unfolding rebuild encoder_for from_gateway
  rebuild-IsNumbered t self h = elim (Result-cases codec.opus_new) [
    | inl (opus, e) ↦ elim (Result-cases (clone_socket w t.try_clone t.gateway)) [
      | inl (socket, e') ↦
          rw (e, e') (record { sequence_eq = refl; lite_nonce_eq = refl; numbered = tt })
      | inr (inl (x, e')) ↦ rw (e, e') h
      | inr (inr e') ↦ rw (e, e') h
    ]
    | inr (inl (x, e)) ↦ rw e h
    | inr (inr e) ↦ rw e h
  ]

  step-IsNumbered :
      (t : Turn w) (s : ConnectionState) (self : Thread w Opus)
      → IsNumbered self
      → IsNumbered (step w codec t s self).1
  unfolding step
  step-IsNumbered t s self h = go self.place refl
    where
      go : (p : Place) → self.place ≡ p → IsNumbered (step w codec t s self).1
      go at_finished e = rw e h
      go at_paused e = rw e h
      go in_pause e = rw e h
      go at_disconnected e = rw e h
      go in_outage e = rw e h
      go behind_outage e = rw e (rebuild-IsNumbered t self h)
      go at_frame e = rw e (frame-IsNumbered t self h)
      go at_end e = rw e h
      go (ended r) e = rw e h

  IsFresh-IsNumbered :
      (began : ℕ) (self : Thread w Opus) → IsFresh w codec began self → IsNumbered self
  IsFresh-IsNumbered began self f =
      rw (f.nothing_sent, f.sequence_zero, f.lite_nonce_zero)
        (record { sequence_eq = refl; lite_nonce_eq = refl; numbered = tt })

  -- For a thread that `play_loop` has started, however it is interleaved with the others and
  -- whatever its environment answers: the encoder's two counters are the number of datagrams since
  -- it was made, modulo their width, and the datagrams carry consecutive sequence numbers, from 1
  -- on and modulo 2 ^ 16.
  pub run-IsNumbered :
      (peer_addr : Result IoError w.Address) (r : Round w) (began : ℕ) (t : Turn w)
      (self : Thread w Opus) (connection : VoiceConnection) (es : List (Event w))
      → start w codec peer_addr r began t ≡ ok self
      → IsNumbered (run w codec es (record { connection = connection; thread = self })).thread
  run-IsNumbered peer_addr r began t self connection es h =
      run-thread w codec IsNumbered (λ t. Unit {0}) (λ t s self u. step-IsNumbered t s self) es
        (record { connection = connection; thread = self }) (every es)
        (IsFresh-IsNumbered began self (start-IsFresh w codec peer_addr r began t self h))
    where
      every : (es : List (Event w)) → All (OnOwn (λ t. Unit {0})) es
      every [] = tt
      every (own t ∷ es) = (tt, every es)
      every (other a ∷ es) = (tt, every es)
