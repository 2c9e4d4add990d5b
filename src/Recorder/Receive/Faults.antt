-- ===== src/Recorder/Receive/Faults.antt =====
-- src/recorder.rs: datagrams that do not become packets.
use discord_ext_audiorec.Prelude.{
  ℕ, zero, suc, ◌-◌, ◌≤◌, ◌<◌, List, [], ◌∷◌, length, take, replicate, get_elem?, take_all, leb,
  Bool, true, if◌then◌else◌, Option, some, ◌≡◌, refl, arith, ◌∙◌, ap, ◌⊎◌, inl, inr, Option-cases,
  length-append, length-take, length-replicate, take-append_eq, le→leb,
}
use discord_ext_audiorec.Prelude.Results.{Result, ok, panic, ◌>>=◌, Build}
use discord_ext_audiorec.Buffer.{AudioBuffer, new, IsSane, contents}
use discord_ext_audiorec.Buffer.Laws.{new-IsSane, as_ref_lem}
use discord_ext_audiorec.Errors.{DiscordError}
use discord_ext_audiorec.Payload.Encryptor.Bounds.{decrypt_no_header}
use discord_ext_audiorec.Player.{bufsize}
use discord_ext_audiorec.Recorder.Receive.{
  Decryption, decrypt_from_buffer, SsrcPacketQueue, received, received_size, on_datagram, Round,
  panicked, recv_round, recv_loop,
}

-- The buffer over a received datagram.
abbrev pub datagram_buffer : List ℕ → AudioBuffer
datagram_buffer datagram = new (received datagram) (received_size datagram)

pub datagram_buffer-IsSane : (d : List ℕ) → IsSane (datagram_buffer d)
datagram_buffer-IsSane d = new-IsSane (received d) (received_size d) (
    omega (
      arith,
      length-append (take bufsize d) (replicate (bufsize - length d) 0),
      length-take bufsize d,
      length-replicate {A = ℕ} (bufsize - length d) 0,
    ))

pub contents-datagram_buffer : (d : List ℕ) → contents (datagram_buffer d) ≡ take bufsize d
unfolding new
contents-datagram_buffer d =
    take-append_eq (received_size d) (take bufsize d) _ (omega (arith, length-take bufsize d))

-- The second byte marks no RTCP packet.
abbrev pub IsNotRtcp : ℕ → Type 0
IsNotRtcp byte = (byte < 200) ⊎ (204 < byte)

abbrev then_some :
    {Time : Type 0}
    → Result DiscordError (SsrcPacketQueue Time)
    → Result DiscordError (Option (SsrcPacketQueue Time))
then_some r = r >>= λ after. ok (some after)

pub log_fits : (b : Bool) (n : ℕ) → 5 ≤ n → (if b then leb 5 n else true) ≡ true
log_fits b n h = ground arith

get_elem?-take : (i n : ℕ) (xs : List ℕ) → i < n → get_elem? (take n xs) i ≡ get_elem? xs i
get_elem?-take i zero xs h = absurd (omega arith)
get_elem?-take i (suc n) [] h = refl
get_elem?-take zero (suc n) (x ∷ xs) h = refl
get_elem?-take (suc i) (suc n) (x ∷ xs) h = get_elem?-take i n xs (omega arith)

module _ (cfg : Build) (decoder : Decryption) where
  decrypt_from_buffer_short :
      (b : AudioBuffer)
      → IsSane b
      → b.len < 12
      → ((byte : ℕ) → get_elem? (contents b) 1 ≡ some byte → IsNotRtcp byte)
      → decrypt_from_buffer cfg decoder b ≡ panic
  unfolding decrypt_from_buffer
  decrypt_from_buffer_short b s h no_rtcp = elim (Option-cases (get_elem? (contents b) 1)) [
    | inl e ↦ rw (as_ref_lem b s, e) refl
    | inr (byte, e) ↦
        rw (as_ref_lem b s, e)
          (ground
            (arith, no_rtcp byte e, decrypt_no_header cfg decoder.cipher decoder.encryption b s h))
  ]

  on_datagram_short :
      {Time : Type 0} (now : Time) (d : List ℕ) (queues : SsrcPacketQueue Time)
      → length d < 12
      → ((byte : ℕ) → get_elem? d 1 ≡ some byte → IsNotRtcp byte)
      → on_datagram cfg decoder now d queues ≡ panic
  unfolding on_datagram
  on_datagram_short now d queues h no_rtcp =
      rw
        (decrypt_from_buffer_short (datagram_buffer d) (datagram_buffer-IsSane d) small
          λ byte e. no_rtcp byte (rw whole at e))
        refl
    where
      small : (datagram_buffer d).len < 12
      small = unfold new in omega arith

      whole : contents (datagram_buffer d) ≡ d
      whole = contents-datagram_buffer d ∙ take_all bufsize d (omega arith)

  -- A round that receives a datagram while the state is `Recording`.
  pub recv_round_step :
      {Time : Type 0} (r : Round Time) (queues : SsrcPacketQueue Time) (d : List ℕ)
      → r.recording ≡ true
      → r.recv ≡ ok d
      → recv_round cfg decoder r queues
        ≡ (on_datagram cfg decoder r.now d queues >>= λ after. ok (some after))
  unfolding recv_round
  recv_round_step r queues d on got = simp (on, got)

  -- A datagram of fewer than twelve bytes whose second byte marks no RTCP packet, received while
  -- the state is `Recording`, ends the recording thread by a panic; the packets that were filed
  -- before stay.
  pub recv_loop_short :
      {Time : Type 0} (r : Round Time) (rounds : List (Round Time)) (queues : SsrcPacketQueue Time)
      (d : List ℕ)
      → r.recording ≡ true
      → r.recv ≡ ok d
      → length d < 12
      → ((byte : ℕ) → get_elem? d 1 ≡ some byte → IsNotRtcp byte)
      → recv_loop cfg decoder (r ∷ rounds) queues ≡ (queues, panicked)
  unfolding recv_loop
  recv_loop_short r rounds queues d on got h no_rtcp =
      rw
        (
          recv_round_step r queues d on got
              ∙ ap then_some (on_datagram_short r.now d queues h no_rtcp),
          recv_loop,
        )
        refl

  on_datagram_rtcp :
      {Time : Type 0} (now : Time) (d : List ℕ) (queues : SsrcPacketQueue Time) (byte : ℕ)
      → get_elem? d 1 ≡ some byte
      → 200 ≤ byte
      → byte ≤ 204
      → 5 ≤ length d
      → on_datagram cfg decoder now d queues ≡ ok queues
  unfolding on_datagram decrypt_from_buffer
  on_datagram_rtcp now d queues byte e low high h =
      rw
        (
          as_ref_lem (datagram_buffer d) (datagram_buffer-IsSane d),
          contents-datagram_buffer d,
          get_elem?-take 1 bufsize d (omega arith),
          e,
          log_fits cfg.debug_log (length (take bufsize d)) (omega (arith, length-take bufsize d)),
          le→leb 200 byte low,
          le→leb byte 204 high,
        )
        refl

  -- An RTCP packet of five bytes or more, received while the state is `Recording`, is skipped: the
  -- queues stay and the loop goes on.
  pub recv_loop_rtcp :
      {Time : Type 0} (r : Round Time) (rounds : List (Round Time)) (queues : SsrcPacketQueue Time)
      (d : List ℕ) (byte : ℕ)
      → r.recording ≡ true
      → r.recv ≡ ok d
      → get_elem? d 1 ≡ some byte
      → 200 ≤ byte
      → byte ≤ 204
      → 5 ≤ length d
      → recv_loop cfg decoder (r ∷ rounds) queues ≡ recv_loop cfg decoder rounds queues
  unfolding recv_loop
  recv_loop_rtcp r rounds queues d byte on got e low high h =
      rw
        (
          recv_round_step r queues d on got
              ∙ ap then_some (on_datagram_rtcp r.now d queues byte e low high h),
          recv_loop,
        )
        refl
