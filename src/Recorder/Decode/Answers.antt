-- ===== src/Recorder/Decode/Answers.antt =====
-- src/recorder.rs: `decode_packets` decodes what `get_packet` answers, to the end of the queue.
use discord_ext_audiorec.Prelude.{
  ℕ, zero, suc, ◌+◌, ◌%◌, ◌^◌, ◌≤◌, ◌<◌, List, [], ◌∷◌, length, map, none, some, ◌≡◌, ◌≢◌, refl,
  arith, ◌∙◌, sym, ap, inl, inr,
}
use discord_ext_audiorec.Prelude.Results.{ok, ◌>>=◌, MayPanic, Result-cases}
use discord_ext_audiorec.Recorder.Queue.{
  Packet, PacketResult, find, dropped, end, PacketQueue, get_packet, Drains, done, step,
}
use discord_ext_audiorec.Recorder.Queue.Shrinks.{get_packet-Takes}
use discord_ext_audiorec.Recorder.Queue.InOrder.{RunsFrom, IsNext, in_order-Drains}
use discord_ext_audiorec.Recorder.Queue.Gaps.{gap-Drains}
use discord_ext_audiorec.Recorder.Mix.{Samples, Times}
use discord_ext_audiorec.Recorder.Decode.{
  OpusDecoder, Decoding, begin, on_find, on_dropped, decode_loop, decode_packets,
}

module _ (s : Samples) (o : OpusDecoder s.F32) (t : Times) where
  open t use {F64}
  open o use {Coder}

  -- The answers decoded one by one.
  abbrev pub decode_all :
      List (PacketResult (Packet F64)) → Decoding s o t → MayPanic (Decoding s o t)
  decode_all [] self = ok self
  decode_all (find p ∷ rest) self = on_find s o t self p >>= decode_all rest
  decode_all (dropped ∷ rest) self = on_dropped s o t self >>= decode_all rest
  decode_all (end ∷ rest) self = ok self

  module _ (next : ℕ → ℕ) where
    shorter_after :
        (q r : PacketQueue F64) (a : PacketResult (Packet F64))
        → get_packet next q ≡ ok (a, r)
        → a ≢ end
        → length r.queue < length q.queue
    shorter_after q r a e more =
        let x = get_packet-Takes next q in
        let same_answer : x.answer ≡ a = cc (x.returns) in
        let same_after : x.after ≡ r = cc (x.returns) in
        omega (
          arith,
          x.shorter (λ z. more (sym same_answer ∙ z)),
          ap (λ (k : PacketQueue F64). length k.queue) same_after,
        )

    decode_loop-Drains :
        (fuel : ℕ) (q r : PacketQueue F64) (answers : List (PacketResult (Packet F64)))
        (self : Decoding s o t)
        → length q.queue < fuel
        → Drains next q answers r
        → decode_loop s o t next fuel q self ≡ (decode_all answers self >>= λ d. ok (some (d, r)))
    unfolding decode_loop
    decode_loop-Drains zero q r answers self h x = absurd (omega arith)
    decode_loop-Drains (suc fuel) q r answers self h (done e) = rw e refl
    decode_loop-Drains (suc fuel) q r answers self h (step {r = after} {a = find p} e more x) =
        let less = shorter_after q after (find p) e more in
        rw e (elim (Result-cases (on_find s o t self p)) [
          | inl (d, f) ↦ rw f (decode_loop-Drains fuel after r _ d (omega arith) x)
          | inr (inl (z, _)) ↦ absurd z
          | inr (inr f) ↦ rw f refl
        ])
    decode_loop-Drains (suc fuel) q r answers self h (step {r = after} {a = dropped} e more x) =
        let less = shorter_after q after dropped e more in
        rw e (elim (Result-cases (on_dropped s o t self)) [
          | inl (d, f) ↦ rw f (decode_loop-Drains fuel after r _ d (omega arith) x)
          | inr (inl (z, _)) ↦ absurd z
          | inr (inr f) ↦ rw f refl
        ])
    decode_loop-Drains (suc fuel) q r answers self h (step {a = end} e more x) = absurd (more refl)

    -- The fuel of `decode_packets` is enough: whatever the calls of `get_packet` until `End`
    -- answer, it decodes these answers one by one, and leaves the queue that the calls leave; it
    -- panics only where decoding an answer does.
    pub decode_packets-Drains :
        (opus : Coder) (q r : PacketQueue F64) (answers : List (PacketResult (Packet F64)))
        → Drains next q answers r
        → decode_packets s o t next opus q
          ≡ (decode_all answers (begin s o t opus) >>= λ d. ok (some (d, r)))
    unfolding decode_packets
    decode_packets-Drains opus q r answers x =
        decode_loop-Drains (suc (length q.queue)) q r answers (begin s o t opus) (omega arith) x

  module _ (next : ℕ → ℕ) (wraps : IsNext next) where
    -- The packets behind a lost one are not decoded: each of them is concealed as if it were lost.
    -- (`Seq::next` is as documented; the first packet has the number `n`, and the queue goes on in
    -- order with some `u` above `n + 1` and less than a whole turn behind `n`.)
    pub decode_packets-gap :
        (n u : ℕ) (opus : Coder) (p : Packet F64) (ps : List (Packet F64))
        → p.seq ≡ n % 2 ^ 16
        → RunsFrom u ps
        → suc n < u
        → u + length ps ≤ n + 2 ^ 16
        → decode_packets s o t next opus (record { queue = p ∷ ps; last = none }) ≡ (
            decode_all (find p ∷ map (λ _. dropped) ps) (begin s o t opus) >>= λ d.
            ok (some (d, record { queue = []; last = some p.seq })))
    unfolding get_packet
    decode_packets-gap n u opus p ps e h a b =
        decode_packets-Drains next opus (record { queue = p ∷ ps; last = none })
          (record { queue = []; last = some p.seq }) (find p ∷ map (λ _. dropped) ps)
          (step refl (λ x. cc) (gap-Drains next wraps n u p.seq ps e h a b))

    -- A queue whose packets arrived in order, with none missing, is decoded whole, if `Seq::next`
    -- is as documented: every packet in its turn, and none is concealed or left.
    pub decode_packets-in_order :
        (n : ℕ) (opus : Coder) (ps : List (Packet F64))
        → RunsFrom n ps
        → (r : PacketQueue F64) × (decode_packets s o t next opus
              (record { queue = ps; last = none })
            ≡ (decode_all (map find ps) (begin s o t opus) >>= λ d. ok (some (d, r))))
          × (r.queue ≡ [])
    decode_packets-in_order n opus ps h =
        let (r, x, emptied) = in_order-Drains next wraps n ps h in
        (
          r,
          decode_packets-Drains next opus (record { queue = ps; last = none }) r (map find ps) x,
          emptied,
        )
