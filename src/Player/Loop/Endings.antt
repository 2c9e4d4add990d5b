-- ===== src/Player/Loop/Endings.antt =====
-- src/player.rs: how the thread of `play_loop` answers to what the other threads set.
use discord_ext_audiorec.Prelude.{
  ℕ, ◌+◌, ◌-◌, ◌≤◌, List, [], ◌∷◌, length, map, true, ◌≡◌, ◌≢◌, refl, arith, inl, inr,
  length-append,
}
use discord_ext_audiorec.Prelude.Results.{Result, ok, err, panic, Result-cases}
use discord_ext_audiorec.State.{ConnectionState, set_state, finished}
use discord_ext_audiorec.Connection.{VoiceConnection, Action, stops, plays, described}
use discord_ext_audiorec.Connection
use discord_ext_audiorec.Errors.{DiscordError}
use discord_ext_audiorec.Gateway.Session.{World}
use discord_ext_audiorec.Gateway.Session.Flow.{clone_socket}
use discord_ext_audiorec.Player.Loop.{
  Codec, Turn, Thread, Place, at_finished, at_paused, in_pause, at_disconnected, in_outage,
  behind_outage, at_frame, at_end, ended, step, rebuild, frame, encoder_for,
}
use discord_ext_audiorec.Player.Loop.Outcomes.{
  Outcome, sends, silent, runs_out, fails, frame-Outcome,
}
use discord_ext_audiorec.Player.Loop.System.{own, other, System, advance, run}

-- How many steps a thread takes at most to end once the state is `Finished`.
abbrev pub rank : Place → ℕ
rank at_finished = 1
rank at_paused = 5
rank in_pause = 2
rank at_disconnected = 4
rank in_outage = 0
rank behind_outage = 4
rank at_frame = 3
rank at_end = 2
rank (ended r) = 0

-- How many datagrams it may still send then.
abbrev pub left : Place → ℕ
left at_paused = 1
left at_disconnected = 1
left behind_outage = 1
left at_frame = 1
left _ = 0

module _ (w : World) {Opus : Type 0} (codec : Codec Opus) where
  -- One step nearer to the end, with the state still `Finished`.
  record IsNearer (place : Place) (sent : List (List ℕ)) (s : ConnectionState)
      (after : Thread w Opus) : Type 0 where
    pub state_eq : s ≡ finished
    pub rank_lt : rank after.place ≤ rank place - 1
    pub not_in_outage : after.place ≢ in_outage
    pub sent_le : length after.sent + left after.place ≤ length sent + left place

  frame-IsNearer :
      (t : Turn w) (self : Thread w Opus)
      → IsNearer at_frame self.sent finished (frame w codec t self)
  frame-IsNearer t self = go (frame-Outcome w codec t self)
    where
      go :
          {after : Thread w Opus}
          → Outcome w codec t self after
          → IsNearer at_frame self.sent finished after
      go (sends d e e' n x) = record {
        state_eq = refl;
        rank_lt = rw e (omega arith);
        not_in_outage = λ k. cc;
        sent_le = rw (e, e') (omega (arith, length-append self.sent (d ∷ [])));
      }
      go (silent e e' n) = record {
        state_eq = refl;
        rank_lt = rw e (omega arith);
        not_in_outage = λ k. cc;
        sent_le = rw (e, e') (omega arith);
      }
      go (runs_out over e e' n) = record {
        state_eq = refl;
        rank_lt = rw e (omega arith);
        not_in_outage = λ k. cc;
        sent_le = rw (e, e') (omega arith);
      }
      go (fails r e ne e' n) = record {
        state_eq = refl;
        rank_lt = rw e (omega arith);
        not_in_outage = λ k. cc;
        sent_le = rw (e, e') (omega arith);
      }

  rebuild-IsNearer :
      (t : Turn w) (self : Thread w Opus)
      → IsNearer behind_outage self.sent finished (rebuild w codec t self)
  unfolding rebuild
  rebuild-IsNearer t self = elim (Result-cases (encoder_for w codec t.gateway)) [
    | inl (encoder, e) ↦ elim (Result-cases (clone_socket w t.try_clone t.gateway)) [
      | inl (socket, e') ↦
          rw (e, e')
            (record {
              state_eq = refl;
              rank_lt = omega arith;
              not_in_outage = λ k. cc;
              sent_le = omega arith;
            })
      | inr (inl (x, e')) ↦ rw (e, e') (over (err x))
      | inr (inr e') ↦ rw (e, e') (over panic)
    ]
    | inr (inl (x, e)) ↦ rw e (over (err x))
    | inr (inr e) ↦ rw e (over panic)
  ]
    where
      over :
          (r : Result DiscordError (Unit {0}))
          → IsNearer behind_outage self.sent finished (record self { place = ended r })
      over r = record {
        state_eq = refl;
        rank_lt = omega arith;
        not_in_outage = λ k. cc;
        sent_le = omega arith;
      }

  step-IsNearer :
      (t : Turn w) (self : Thread w Opus)
      → self.place ≢ in_outage
      → IsNearer self.place self.sent
          (step w codec t finished self).0
          (step w codec t finished self).1
  unfolding step
  step-IsNearer t self h = go self.place refl
    where
      goes :
          (p q : Place)
          → rank q ≤ rank p - 1
          → left q ≤ left p
          → q ≢ in_outage
          → IsNearer p self.sent finished (record self { place = q })
      goes p q r l ne = record {
        state_eq = refl;
        rank_lt = r;
        not_in_outage = ne;
        sent_le = omega (arith, l);
      }

      go :
          (p : Place)
          → self.place ≡ p
          → IsNearer p self.sent (step w codec t finished self).0 (step w codec t finished self).1
      go at_finished e =
          rw e (goes at_finished (ended (ok tt)) (omega arith) (omega arith) (λ k. cc))
      go at_paused e = rw e (goes at_paused at_disconnected (omega arith) (omega arith) (λ k. cc))
      go in_pause e = rw e (goes in_pause at_finished (omega arith) (omega arith) (λ k. cc))
      go at_disconnected e =
          rw e (goes at_disconnected at_frame (omega arith) (omega arith) (λ k. cc))
      go in_outage e = absurd (h e)
      go behind_outage e = rw e (rebuild-IsNearer t (record self { place = behind_outage }))
      go at_frame e = rw e (frame-IsNearer t (record self { place = at_frame }))
      go at_end e = rw e (goes at_end at_finished (omega arith) (omega arith) (λ k. cc))
      go (ended r) e = rw e (goes (ended r) (ended r) (omega arith) (omega arith) (λ k. cc))

  rank_zero :
      (p : Place)
      → p ≢ in_outage
      → rank p ≤ 0
      → (r : Result DiscordError (Unit {0})) × (p ≡ ended r)
  rank_zero at_finished h z = absurd (omega arith)
  rank_zero at_paused h z = absurd (omega arith)
  rank_zero in_pause h z = absurd (omega arith)
  rank_zero at_disconnected h z = absurd (omega arith)
  rank_zero in_outage h z = absurd (h refl)
  rank_zero behind_outage h z = absurd (omega arith)
  rank_zero at_frame h z = absurd (omega arith)
  rank_zero at_end h z = absurd (omega arith)
  rank_zero (ended r) h z = (r, refl)

  run-finished :
      (ts : List (Turn w)) (c : System w Opus)
      → c.connection.state ≡ finished
      → c.thread.place ≢ in_outage
      → rank c.thread.place ≤ length ts
      → ((r : Result DiscordError (Unit {0})) × ((run w codec (map own ts) c).thread.place
            ≡ ended r))
        × (length (run w codec (map own ts) c).thread.sent
            ≤ length c.thread.sent + left c.thread.place)
  unfolding run advance
  run-finished [] c s h l = (rank_zero c.thread.place h l, omega arith)
  run-finished (t ∷ ts) c s h l =
      let n : IsNearer c.thread.place c.thread.sent (step w codec t c.connection.state c.thread).0
          (step w codec t c.connection.state c.thread).1 =
        rw s (step-IsNearer t c.thread h) in
      let (e, m) =
        run-finished ts (advance w codec c (own t)) n.state_eq n.not_in_outage
          (omega (arith, n.rank_lt, l)) in
      (e, omega (arith, m, n.sent_le))

  left_le : (p : Place) → left p ≤ 1
  left_le p = ground arith

  rank_le : (p : Place) → rank p ≤ 5
  rank_le p = ground arith

  -- After `stop` on a connection with a player, and while no other thread sets the state again, a
  -- thread that does not wait for `Connected` ends within five of its steps, with or without an
  -- error, and sends at most one more datagram.
  pub stop-ends :
      (c : System w Opus) (ts : List (Turn w))
      → c.connection.player ≡ true
      → c.thread.place ≢ in_outage
      → 5 ≤ length ts
      → ((r : Result DiscordError (Unit {0})) × ((run w codec
              (other stops ∷ map own ts)
              c).thread.place
            ≡ ended r))
        × (length (run w codec (other stops ∷ map own ts) c).thread.sent ≤ length c.thread.sent + 1)
  unfolding run advance Connection.step Connection.stop Connection.player_stop set_state
  stop-ends c ts p h l =
      let (e, m) =
        run-finished ts (advance w codec c (other stops)) (rw p refl) h
          (omega (arith, rank_le c.thread.place)) in
      (e, omega (arith, m, left_le c.thread.place))
