-- ===== src/Recorder/Receive/Shuffle.antt =====
-- src/recorder.rs: the packets of different speakers may come in any order.
use discord_ext_audiorec.Prelude.{
  ℕ, suc, List, [], ◌∷◌, some, true, get_elem?, ◌≡◌, ◌≢◌, refl, arith, ◌∙◌, sym, ap,
}
use discord_ext_audiorec.Prelude.Results.{Build, ok}
use discord_ext_audiorec.Recorder.Queue.{Packet, PacketQueue, push_back}
use discord_ext_audiorec.Recorder.Queue
use discord_ext_audiorec.Recorder.Receive.{
  Decryption, SsrcPacketQueue, push_entry, Round, recv_round, recv_loop,
}
use discord_ext_audiorec.Payload.Cipher.{IsAead}
use discord_ext_audiorec.Recorder.Receive.Delivery.{IsDatagram, packet_at, on_datagram_lem}
use discord_ext_audiorec.Recorder.Receive.Queues.{IsSorted, push_entry-IsSorted}

module _ {Time : Type 0} where
  -- Filing for one speaker commutes with filing for another.
  push_entry_comm :
      (low s t : ℕ) (p q : Packet Time) (m : SsrcPacketQueue Time)
      → s ≢ t
      → IsSorted low m
      → push_entry s p (push_entry t q m) ≡ push_entry t q (push_entry s p m)
  unfolding push_entry push_back Queue.new
  push_entry_comm low s t p q [] ne h = ground arith
  push_entry_comm low s t p q ((k, x) ∷ m) ne h = ground (arith, push_entry_comm (suc k) s t p q m)

  module _ (cfg : Build) (decoder : Decryption) where
    -- A round that files a packet for this speaker.
    abbrev pub FilesFor : ℕ → Round Time → Type 0
    FilesFor ssrc r =
        (p : Packet Time) × ((queues : SsrcPacketQueue Time)
          → recv_round cfg decoder r queues ≡ ok (some (push_entry ssrc p queues)))

    -- A datagram in the receiver's format, with a plain message, makes such a round.
    pub IsDatagram-FilesFor :
        (aead : IsAead decoder.cipher) {d : List ℕ} {seq timestamp ssrc : ℕ}
        {message trailer : List ℕ}
        (x : IsDatagram decoder aead d seq timestamp ssrc message trailer) (now : Time) (b : ℕ)
        → get_elem? message 0 ≡ some b
        → b ≢ 0xBE
        → FilesFor ssrc (record { recording = true; recv = ok d; now = now })
    unfolding recv_round
    IsDatagram-FilesFor aead {d} x now b e ne = (
      packet_at cfg decoder aead x now,
      λ queues. let filed = on_datagram_lem cfg decoder aead x now queues b e ne in rw filed refl,
    )

    -- The same rounds in another order, which keeps the order of each speaker's packets.
    pub data Shuffle : List (Round Time) → List (Round Time) → Type 0 where
      same : {rs : List (Round Time)} → Shuffle rs rs
      keep :
          {rs rs' : List (Round Time)} {r : Round Time} (ssrc : ℕ)
          → FilesFor ssrc r
          → Shuffle rs rs'
          → Shuffle (r ∷ rs) (r ∷ rs')
      swap :
          {rs : List (Round Time)} {r r' : Round Time} (s t : ℕ)
          → s ≢ t
          → FilesFor s r
          → FilesFor t r'
          → Shuffle (r ∷ r' ∷ rs) (r' ∷ r ∷ rs)
      then_also :
          {rs rs' rs'' : List (Round Time)} → Shuffle rs rs' → Shuffle rs' rs'' → Shuffle rs rs''

    filed_next :
        (ssrc : ℕ) (r : Round Time) (f : FilesFor ssrc r) (rs : List (Round Time))
        (queues : SsrcPacketQueue Time)
        → recv_loop cfg decoder (r ∷ rs) queues
          ≡ recv_loop cfg decoder rs (push_entry ssrc f.0 queues)
    unfolding recv_loop
    filed_next ssrc r f rs queues = let e = f.1 queues in rw (recv_loop, e) refl

    -- What `recv_loop` makes of rounds that each file a packet does not depend on how the packets of
    -- different speakers alternate: exchanging neighbours with different SSRCs, any number of times,
    -- changes nothing, from queues in the order of their keys.
    pub recv_loop-Shuffle :
        {rs rs' : List (Round Time)} (queues : SsrcPacketQueue Time)
        → Shuffle rs rs'
        → IsSorted 0 queues
        → recv_loop cfg decoder rs queues ≡ recv_loop cfg decoder rs' queues
    recv_loop-Shuffle queues same h = refl
    recv_loop-Shuffle queues (keep {rs = rs} {rs' = rs'} {r = r} ssrc f x) h =
        filed_next ssrc r f rs queues
        ∙ recv_loop-Shuffle (push_entry ssrc f.0 queues) x
            (push_entry-IsSorted 0 ssrc f.0 queues h (omega arith))
        ∙ sym (filed_next ssrc r f rs' queues)
    recv_loop-Shuffle queues (swap {rs = rs} {r = r} {r' = r'} s t ne f f') h =
        filed_next s r f (r' ∷ rs) queues
        ∙ filed_next t r' f' rs (push_entry s f.0 queues)
        ∙ ap (recv_loop cfg decoder rs) (sym (push_entry_comm 0 s t f.0 f'.0 queues ne h))
        ∙ sym (filed_next s r f rs (push_entry t f'.0 queues))
        ∙ sym (filed_next t r' f' (r ∷ rs) queues)
    recv_loop-Shuffle queues (then_also x y) h =
        recv_loop-Shuffle queues x h ∙ recv_loop-Shuffle queues y h
