-- ===== src/Recorder/Queue/InOrder.antt =====
-- src/recorder.rs: a queue whose packets arrived in order, with none missing, comes out whole.
use discord_ext_audiorec.Prelude.{
  ℕ, suc, ◌+◌, ◌%◌, ◌^◌, ◌<◌, List, [], ◌∷◌, map, ◌==◌, ◌≡◌, refl, arith, ◌∙◌, none, some, ==_refl,
  true,
}
use discord_ext_audiorec.Recorder.Queue.{Packet, find, PacketQueue, get_packet, Drains, done, step}

-- The sequence numbers run on from `t`, modulo 2 ^ 16.
abbrev pub RunsFrom : {Time : Type 0} → ℕ → List (Packet Time) → Type 0
RunsFrom t [] = Unit {0}
RunsFrom t (p ∷ ps) = (p.seq ≡ t % 2 ^ 16) × RunsFrom (suc t) ps

-- What the documentation of `Seq::next` promises: the next number, with wrap-around.
abbrev pub IsNext : (ℕ → ℕ) → Type 0
IsNext next = (n : ℕ) → n < 2 ^ 16 → next n ≡ (n + 1) % 2 ^ 16

module _ {Time : Type 0} (next : ℕ → ℕ) (wraps : IsNext next) where
  hit :
      (t seq : ℕ) (p : Packet Time)
      → seq ≡ t % 2 ^ 16
      → p.seq ≡ suc t % 2 ^ 16
      → (next seq == p.seq) ≡ true
  hit t seq p e h =
      let n : next seq ≡ p.seq = wraps seq (omega arith) ∙ omega arith in rw n (==_refl p.seq)

  run-Drains :
      (t seq : ℕ) (ps : List (Packet Time))
      → seq ≡ t % 2 ^ 16
      → RunsFrom (suc t) ps
      → (r : PacketQueue Time) × Drains next
          (record { queue = ps; last = some seq })
          (map find ps)
          r
        × (r.queue ≡ [])
  unfolding get_packet
  run-Drains t seq [] e h = (record { queue = []; last = some seq }, done refl, refl)
  run-Drains t seq (p ∷ ps) e h =
      let (r, d, emptied) = run-Drains (suc t) p.seq ps h.0 h.1 in
      (r, step (rw (hit t seq p e h.0) refl) (λ x. cc) d, emptied)

  -- Packets that arrived in order, with none missing, are returned one by one, all of them, if
  -- `Seq::next` is as documented.
  pub in_order-Drains :
      (t : ℕ) (ps : List (Packet Time))
      → RunsFrom t ps
      → (r : PacketQueue Time) × Drains next (record { queue = ps; last = none }) (map find ps) r
        × (r.queue ≡ [])
  unfolding get_packet
  in_order-Drains t [] h = (record { queue = []; last = none }, done refl, refl)
  in_order-Drains t (p ∷ ps) h =
      let (r, d, emptied) = run-Drains t p.seq ps h.0 h.1 in (r, step refl (λ x. cc) d, emptied)
