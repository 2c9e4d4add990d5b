-- ===== src/Recorder/Queue/Shrinks.antt =====
-- src/recorder.rs: `get_packet` never panics, and takes a packet away whenever it does not answer
-- `End`, so the loop that calls it ends.
use discord_ext_audiorec.Prelude.{
  ℕ, zero, suc, ◌+◌, ◌-◌, ◌≤◌, ◌<◌, min, List, [], ◌∷◌, length, take, drop, ◌==◌, ◌≡◌, ◌≢◌, refl,
  arith, ap, ◌∙◌, ◌⊎◌, Option, none, some, Option-cases, Bool-cases, inl, inr, length-take,
  length-drop,
}
use discord_ext_audiorec.Prelude.Results.{Result, ok}
use discord_ext_audiorec.Recorder.Queue.{
  Packet, PacketResult, find, dropped, end, PacketQueue, Outcome, push_fronts, last_of, search,
  reordered, got, pop, get_packet, Drains, done, step,
}

module _ {Time : Type 0} where
  last_of_lem : (ps : List (Packet Time)) → 0 < length ps → (p : Packet Time) × (last_of ps ≡ ok p)
  unfolding last_of
  last_of_lem [] h = absurd (omega arith)
  last_of_lem (p ∷ []) h = (p, refl)
  last_of_lem (p ∷ q ∷ ps) h = last_of_lem (q ∷ ps) (omega arith)

  length-push_fronts :
      (ps q : List (Packet Time)) → length (push_fronts ps q) ≡ length ps + length q
  unfolding push_fronts
  length-push_fronts [] q = omega arith
  length-push_fronts (p ∷ ps) q = omega (arith, length-push_fronts ps (p ∷ q))

  reordered_at :
      (i : ℕ) (rest : List (Packet Time)) (p : Packet Time)
      → length (take i rest) ≡ i
      → last_of (take i rest) ≡ ok p
      → reordered i rest
        ≡ ok (
          find p,
          record {
            queue = push_fronts (take (i - 1) (take i rest)) (drop i rest);
            last = some p.seq;
          },
        )
  unfolding reordered
  reordered_at i rest p cut e = rw (e, cut) refl

  pub reordered_lem :
      (i : ℕ) (rest : List (Packet Time))
      → 0 < i
      → i < length rest
      → (p : Packet Time) × (last_of (take i rest) ≡ ok p)
        × (reordered i rest
            ≡ ok (
              find p,
              record {
                queue = push_fronts (take (i - 1) (take i rest)) (drop i rest);
                last = some p.seq;
              },
            ))
  reordered_lem i rest h hi =
      let cut : length (take i rest) ≡ i = omega (arith, length-take i rest) in
      let (p, e) = last_of_lem (take i rest) (omega (arith, cut)) in
      (p, e, reordered_at i rest p cut e)

module _ {Time : Type 0} (next : ℕ → ℕ) where
  -- The index that the loop stops at lies in its range.
  pub search_bounds :
      (target i stop k : ℕ) (ps : List (Packet Time))
      → search next target i stop ps ≡ some k
      → (i ≤ k) × (k < stop)
  unfolding search
  search_bounds target i stop k [] h = ground arith
  search_bounds target i stop k (p ∷ ps) h = ground (arith, search_bounds target (i + 1) stop k ps)

  -- A call that returns and leaves a shorter queue, or `End` and an empty one.
  pub record Takes (q : PacketQueue Time) (r : Result ⊥ (Outcome Time)) : Type 0 where
    pub answer : PacketResult (Packet Time)
    pub after : PacketQueue Time
    pub returns : r ≡ ok (answer, after)
    pub shorter : answer ≢ end → length after.queue < length q.queue
    pub ends : answer ≡ end → q.queue ≡ []

  module _ (seq : ℕ) (packet : Packet Time) (rest : List (Packet Time)) where
    abbrev before : PacketQueue Time
    before = record { queue = packet ∷ rest; last = some seq }

    got-Takes : Takes before (got next seq packet rest)
    unfolding got
    got-Takes = elim (Bool-cases (next seq == packet.seq)) [
      | inl hit ↦ record {
        answer = find packet;
        after = record { queue = rest; last = some packet.seq };
        returns = rw hit refl;
        shorter = λ _. omega arith;
        ends = λ e. cc;
      }
      | inr miss ↦
          elim (Option-cases (search next packet.seq 1 (min 1000 (length rest)) (drop 1 rest))) [
            | inl lost ↦ record {
              answer = dropped;
              after = record { queue = rest; last = some seq };
              returns = rw (miss, lost) refl;
              shorter = λ _. omega arith;
              ends = λ e. cc;
            }
            | inr (i, e) ↦
                let (low, high) =
                  search_bounds packet.seq 1 (min 1000 (length rest)) i (drop 1 rest) e in
                let (p, _, r) = reordered_lem i rest (omega arith) (omega arith) in
                record {
                  answer = find p;
                  after = record {
                    queue = push_fronts (take (i - 1) (take i rest)) (drop i rest);
                    last = some p.seq;
                  };
                  returns = rw (miss, e) r;
                  shorter = λ _. omega (
                    arith,
                    length-push_fronts (take (i - 1) (take i rest)) (drop i rest),
                    length-take (i - 1) (take i rest),
                    length-take i rest,
                    length-drop i rest,
                  );
                  ends = λ e. cc;
                }
          ]
    ]

  pop-Takes :
      (last : Option ℕ) (queue : List (Packet Time))
      → Takes (record { queue = queue; last = last }) (pop next last queue)
  unfolding pop
  pop-Takes last [] = record {
    answer = end;
    after = record { queue = []; last = last };
    returns = refl;
    shorter = λ h. absurd (h refl);
    ends = λ _. refl;
  }
  pop-Takes none (p ∷ rest) = record {
    answer = find p;
    after = record { queue = rest; last = some p.seq };
    returns = refl;
    shorter = λ _. omega arith;
    ends = λ e. cc;
  }
  pop-Takes (some seq) (p ∷ rest) = got-Takes seq p rest

  -- `get_packet` never panics: it answers `End` on an empty queue only, and any other answer leaves
  -- a shorter queue.
  pub get_packet-Takes : (q : PacketQueue Time) → Takes q (get_packet next q)
  unfolding get_packet
  get_packet-Takes q = pop-Takes q.last q.queue

  drains_within :
      (n : ℕ) (q : PacketQueue Time)
      → length q.queue < n
      → (answers : List (PacketResult (Packet Time))) × (r : PacketQueue Time) × Drains next q
          answers r
  drains_within zero q h = absurd (omega arith)
  drains_within (suc n) q h =
      let t = get_packet-Takes q in
      elim (is_end t.answer) [
        | inl e ↦ ([], t.after, done (t.returns ∙ ap (λ a. ok (a, t.after)) e))
        | inr more ↦
            let (answers, r, d) = drains_within n t.after (omega (arith, t.shorter more)) in
            (t.answer ∷ answers, r, step t.returns more d)
      ]
    where
      is_end : (a : PacketResult (Packet Time)) → (a ≡ end) ⊎ (a ≢ end)
      is_end (find p) = inr (λ e. cc)
      is_end dropped = inr (λ e. cc)
      is_end end = inl refl

  -- The loop that calls `get_packet` until `End` ends on every queue.
  pub Drains-total :
      (q : PacketQueue Time)
      → (answers : List (PacketResult (Packet Time))) × (r : PacketQueue Time) × Drains next q
          answers r
  Drains-total q = drains_within (suc (length q.queue)) q (omega arith)
