-- ===== src/Recorder/Queue/Gaps.antt =====
-- src/recorder.rs: what `get_packet` does after a lost or late packet.
use discord_ext_audiorec.Prelude.{
  ℕ, zero, suc, ◌+◌, ◌-◌, ◌%◌, ◌^◌, ◌≤◌, ◌<◌, min, List, [], ◌∷◌, ◌++◌, length, map, take, drop,
  ◌==◌, ◌≡◌, ◌≢◌, refl, arith, ap, ◌∙◌, none, some, false, ne→==_false, get_elem?, subst,
  take-take_le,
}
use mathlib.Core.List.{reverse, reverse_aux, reverse_aux-eq}
use discord_ext_audiorec.Prelude.Results.{ok}
use discord_ext_audiorec.Recorder.Queue.{
  Packet, find, dropped, end, push_fronts, last_of, search, get_packet, Drains, done, step,
}
use discord_ext_audiorec.Recorder.Queue.InOrder.{RunsFrom, IsNext}
use discord_ext_audiorec.Recorder.Queue.Shrinks.{reordered_lem, search_bounds}

module _ {Time : Type 0} (next : ℕ → ℕ) (wraps : IsNext next) where
  -- In a run behind the number `t`, and less than a whole turn behind, no packet's successor is `t`.
  search_run :
      (t u i stop : ℕ) (ps : List (Packet Time))
      → RunsFrom u ps
      → t < u
      → u + length ps < t + 2 ^ 16
      → search next (t % 2 ^ 16) i stop ps ≡ none
  unfolding search
  search_run t u i stop [] h a b = refl
  search_run t u i stop (p ∷ ps) h a b =
      let n : next p.seq ≡ suc u % 2 ^ 16 = wraps p.seq (omega arith) ∙ omega arith in
      let miss : (next p.seq == t % 2 ^ 16) ≡ false = ne→==_false _ _ (λ e. omega arith) in
      let rest = search_run t (suc u) (i + 1) stop ps h.1 (omega arith) (omega arith) in
      ground arith

  search_rest :
      (u stop : ℕ) (p : Packet Time) (ps : List (Packet Time))
      → p.seq ≡ u % 2 ^ 16
      → RunsFrom (suc u) ps
      → suc (length ps) < 2 ^ 16
      → search next p.seq 1 stop (drop 1 ps) ≡ none
  search_rest u stop p [] e h b = unfold search in refl
  search_rest u stop p (q ∷ ps) e h b =
      rw e (search_run u (suc (suc u)) 1 stop ps h.1 (omega arith) (omega arith))

  -- One call behind a gap: the packet is thrown away, and the expected number stays.
  behind_gap :
      (t u seq : ℕ) (p : Packet Time) (ps : List (Packet Time))
      → seq ≡ t % 2 ^ 16
      → RunsFrom u (p ∷ ps)
      → suc t < u
      → u + length (p ∷ ps) ≤ t + 2 ^ 16
      → get_packet next (record { queue = p ∷ ps; last = some seq })
        ≡ ok (dropped, record { queue = ps; last = some seq })
  unfolding get_packet
  behind_gap t u seq p ps e h a b =
      let n : next seq ≡ suc t % 2 ^ 16 = wraps seq (omega arith) ∙ omega arith in
      let miss : (next seq == p.seq) ≡ false = ne→==_false _ _ (λ x. omega (arith, h.0)) in
      rw (miss, search_rest u (min 1000 (length ps)) p ps h.0 h.1 (omega arith))

  on_empty :
      (seq : ℕ)
      → get_packet {Time = Time} next (record { queue = []; last = some seq })
        ≡ ok (end, record { queue = []; last = some seq })
  unfolding get_packet
  on_empty seq = refl

  -- After a lost packet (`t` was the last number, and the queue goes on in order with some `u`
  -- above `t + 1` and less than a whole turn behind `t`) every packet that follows is answered by
  -- `Dropped`, and none is found, if `Seq::next` is as documented.
  pub gap-Drains :
      (t u seq : ℕ) (ps : List (Packet Time))
      → seq ≡ t % 2 ^ 16
      → RunsFrom u ps
      → suc t < u
      → u + length ps ≤ t + 2 ^ 16
      → Drains next
          (record { queue = ps; last = some seq })
          (map (λ _. dropped) ps)
          (record { queue = []; last = some seq })
  gap-Drains t u seq [] e h a b = done (on_empty seq)
  gap-Drains t u seq (p ∷ ps) e h a b =
      step (behind_gap t u seq p ps e h a b) (λ x. cc)
        (gap-Drains t (suc u) seq ps e h.1 (omega arith) (omega arith))

module _ {Time : Type 0} where
  push_fronts-eq-aux : (ps q : List (Packet Time)) → push_fronts ps q ≡ reverse_aux ps q
  unfolding push_fronts
  push_fronts-eq-aux [] q = refl
  push_fronts-eq-aux (p ∷ ps) q = push_fronts-eq-aux ps (p ∷ q)

  last_of-take :
      (i : ℕ) (rest : List (Packet Time)) (p : Packet Time)
      → i < length rest
      → last_of (take (suc i) rest) ≡ ok p
      → get_elem? rest i ≡ some p
  unfolding last_of
  last_of-take i [] p h e = cc
  last_of-take zero (x ∷ rest) p h e = cc
  last_of-take (suc i) (x ∷ []) p h e = absurd (omega arith)
  last_of-take (suc i) (x ∷ y ∷ rest) p h e = last_of-take i (y ∷ rest) p (omega arith) e

-- When the packet at the front is not the next one, and the search finds the packet before it at
-- the index `i` of the rest, the call returns another one, which stands at `i - 1`, and what is
-- left has lost two packets: that one, and the one from the front. The packets before it are left
-- in the reverse order.
pub reorder-eq-neighbour :
    {Time : Type 0} (next : ℕ → ℕ) (seq i : ℕ) (p : Packet Time) (rest : List (Packet Time))
    → next seq ≢ p.seq
    → search next p.seq 1 (min 1000 (length rest)) (drop 1 rest) ≡ some i
    → (q : Packet Time) × (get_elem? rest (i - 1) ≡ some q)
      × (get_packet next (record { queue = p ∷ rest; last = some seq })
          ≡ ok (
            find q,
            record { queue = reverse (take (i - 1) rest) ++ drop i rest; last = some q.seq },
          ))
unfolding get_packet
reorder-eq-neighbour next seq i p rest ne e =
    let (low, high) = search_bounds next p.seq 1 (min 1000 (length rest)) i (drop 1 rest) e in
    let (q, l, r) = reordered_lem i rest low (omega arith) in
    let i_suc : i ≡ suc (i - 1) = omega arith in
    let l' = subst (λ (k : ℕ). last_of (take k rest) ≡ ok q) i_suc l in
    let kept : push_fronts (take (i - 1) (take i rest)) (drop i rest)
        ≡ reverse (take (i - 1) rest) ++ drop i rest =
      push_fronts-eq-aux (take (i - 1) (take i rest)) (drop i rest)
      ∙ reverse_aux-eq (take (i - 1) (take i rest)) (drop i rest)
      ∙ ap (λ t. reverse t ++ drop i rest) (take-take_le (i - 1) i rest (omega arith)) in
    (
      q,
      last_of-take (i - 1) rest q (omega arith) l',
      rw (ne→==_false _ _ ne, e)
          (r ∙ ap (λ t. ok (find q, record { queue = t; last = some q.seq })) kept),
    )
