-- ===== src/Player/Loop/Playback.antt =====
-- src/player.rs: what `play_loop` does with an input when nothing goes wrong.
use discord_ext_audiorec.Prelude.{
  ℕ, ◌++◌, append-nil, append_assoc, sym, List, [], ◌∷◌, length, All, false, ◌≡◌, refl, ap, ◌∙◌,
}
use discord_ext_audiorec.Prelude.Results.{ok}
use discord_ext_audiorec.State.{
  ConnectionState, finished, paused, disconnected, is_state, set_state,
}
use discord_ext_audiorec.Gateway.Session.{World}
use discord_ext_audiorec.Player.Loop.{
  Codec, Turn, Thread, at_finished, at_frame, at_end, ended, step, frame,
}
use discord_ext_audiorec.Player.Loop.System.{Event, own, System, advance, run}
use discord_ext_audiorec.Player.Loop.Served.{
  Encodes, IsServed, IsFit, frame_samples, next_opus, message_of, frame-IsSent,
}
use discord_ext_audiorec.Player.{bufsize}
use discord_ext_audiorec.Player.Encoder.{AudioEncoder}
use discord_ext_audiorec.Player.Encoder.Stream.{after_frame, wire_of, counted, wires, wires_rest}
use discord_ext_audiorec.Payload.Cipher.{IsAead}

-- The four turns of a frame: three looks at the state, and the frame itself.
pub record Lap (w : World) : Type 0 where
  pub first : Turn w
  pub second : Turn w
  pub third : Turn w
  pub work : Turn w

abbrev pub schedule : {w : World} → List (Lap w) → List (Event w) → List (Event w)
schedule [] rest = rest
schedule (l ∷ ls) rest = own l.first ∷ own l.second ∷ own l.third ∷ own l.work ∷ schedule ls rest

-- None of the states that the loop looks for.
abbrev pub IsLive : ConnectionState → Type 0
IsLive s =
    (is_state s finished ≡ false) × (is_state s paused ≡ false) × (is_state s disconnected ≡ false)

module _ (w : World) {Opus : Type 0} (codec : Codec Opus) where
  looked :
      (a b d : Turn w) (es : List (Event w)) (c : System w Opus)
      → c.thread.place ≡ at_finished
      → IsLive c.connection.state
      → run w codec (own a ∷ own b ∷ own d ∷ es) c
        ≡ run w codec es (record c { thread = record c.thread { place = at_frame } })
  unfolding run advance step
  looked a b d es c p live = rw (p, live.0, live.1, live.2) refl

  worked :
      (t : Turn w) (es : List (Event w)) (c : System w Opus)
      → c.thread.place ≡ at_frame
      → run w codec (own t ∷ es) c ≡ run w codec es (record c { thread = frame w codec t c.thread })
  unfolding run advance step
  worked t es c p = rw p refl

  -- At the end of the input.
  closed :
      (a b : Turn w) (c : System w Opus)
      → c.thread.place ≡ at_end
      → run w codec (own a ∷ own b ∷ []) c ≡ record c {
        connection = record c.connection { state = finished };
        thread = record c.thread { place = ended (ok tt) };
      }
  unfolding run advance step set_state
  closed a b c p = rw p refl

  frame_over :
      (t : Turn w) (self : Thread w Opus)
      → (t.read self.encoder.pcm_buff).0 ≡ false
      → ((frame w codec t self).place ≡ at_end) × ((frame w codec t self).sent ≡ self.sent)
  unfolding frame
  frame_over t self h = rw h (refl, refl)

  -- These datagrams more were sent, and the thread stands where it stood.
  record IsPlayed (ds : List (List ℕ)) (before : System w Opus) (after : System w Opus)
      : Type 0 where
    pub place : after.thread.place ≡ at_finished
    pub state : after.connection.state ≡ before.connection.state
    pub pcm_array : length after.thread.encoder.pcm_buff ≡ frame_samples
    pub sent : after.thread.sent ≡ before.thread.sent ++ ds

  -- The random bytes and the messages of these frames, for an encoder in this state.
  abbrev pub packets : AudioEncoder Opus → List (Lap w) → List (List ℕ × List ℕ)
  packets e [] = []
  packets e (l ∷ ls) =
      (l.work.random, message_of w codec l.work e)
      ∷ packets (after_frame e (next_opus w codec l.work e) (l.work.read e.pcm_buff).1 e.buff) ls

  packets_buff :
      (e : AudioEncoder Opus) (buff : List ℕ) (ls : List (Lap w))
      → packets (record e { buff = buff }) ls ≡ packets e ls
  packets_buff e buff [] = refl
  packets_buff e buff (l ∷ ls) = ap (◌∷◌ (l.work.random, message_of w codec l.work e)) (
      packets_buff (after_frame e (next_opus w codec l.work e) (l.work.read e.pcm_buff).1 e.buff)
        buff ls)

  run-schedule :
      (encodes : Encodes codec) (ls : List (Lap w)) (rest : List (Event w)) (c : System w Opus)
      (aead : IsAead c.thread.encoder.cipher)
      → c.thread.place ≡ at_finished
      → IsLive c.connection.state
      → length c.thread.encoder.buff ≡ bufsize
      → length c.thread.encoder.pcm_buff ≡ frame_samples
      → All (λ l. IsServed l.work) ls
      → (c' : System w Opus) × IsPlayed
          (wires c.thread.encoder aead (packets c.thread.encoder ls))
          c
          c'
        × (run w codec (schedule ls rest) c ≡ run w codec rest c')
  run-schedule encodes [] rest c aead p live array pcm_array g = (
    c,
    record {
      place = p;
      state = refl;
      pcm_array = pcm_array;
      sent = sym (append-nil c.thread.sent);
    },
    refl,
  )
  run-schedule encodes (l ∷ ls) rest c aead p live array pcm_array g =
      let framing : System w Opus = record c { thread = record c.thread { place = at_frame } } in
      let e : AudioEncoder Opus = c.thread.encoder in
      let work : Thread w Opus = frame w codec l.work framing.thread in
      let done = frame-IsSent w codec encodes l.work g.0 framing.thread aead array pcm_array in
      let opus : Opus = next_opus w codec l.work e in
      let pcm : List ℕ = (l.work.read e.pcm_buff).1 in
      let next : AudioEncoder Opus = after_frame e opus pcm done.buff in
      let after : System w Opus = record c { thread = record work { encoder = next } } in
      let same : record c { thread = work } ≡ after =
        ap {B = System w Opus} (λ x. record c { thread = record work { encoder = x } })
          done.encoder_eq in
      let d : List ℕ = wire_of e aead l.work.random (message_of w codec l.work e) in
      let onward : wires next aead (packets next ls)
          ≡ wires (counted e) aead (packets (after_frame e opus pcm e.buff) ls) =
        wires_rest (counted e) aead opus pcm done.buff (packets next ls)
        ∙ ap (wires (counted e) aead) (packets_buff (after_frame e opus pcm e.buff) done.buff ls) in
      let (c', more, way) =
        run-schedule encodes ls rest after aead done.returned live done.array
          (g.0.fills e.pcm_buff pcm_array) g.1 in
      (
        c',
        record {
          place = more.place;
          state = more.state;
          pcm_array = more.pcm_array;
          sent =
              more.sent
              ∙ ap (λ ds. work.sent ++ ds) onward
              ∙ rw (done.appended) (append_assoc c.thread.sent (d ∷ []) _);
        },
        looked l.first l.second l.third (own l.work ∷ schedule ls rest) c p live
            ∙ worked l.work (schedule ls rest) framing refl
            ∙ ap (run w codec (schedule ls rest)) same
            ∙ way,
      )

  -- The frames of `ls`, a lap that finds the input over, and the two steps after it.
  abbrev pub played : List (Lap w) → (last : Lap w) → (x y : Turn w) → System w Opus → System w Opus
  played ls last x y c = run w codec (schedule ls (schedule (last ∷ []) (own x ∷ own y ∷ []))) c

  -- A thread at the top of the loop, in a state that is neither `Finished` nor `Paused` nor
  -- `Disconnected`, with a codec that makes a packet of every whole frame, an encoder that can send,
  -- an input that fills each of the frames, and a socket that takes every datagram of at most
  -- `BUFSIZE` bytes: each frame of the input is sent as one packet, with the
  -- codec's message sealed in it and with consecutive numbers, and when the input is over the loop
  -- ends without an error and sets `Finished`.
  pub played-ends :
      (encodes : Encodes codec) (ls : List (Lap w)) (last : Lap w) (x y : Turn w)
      (c : System w Opus)
      → c.thread.place ≡ at_finished
      → IsLive c.connection.state
      → (f : IsFit c.thread.encoder) → All (λ l. IsServed l.work) ls
      → ((pcm : List ℕ) → length pcm ≡ frame_samples → (last.work.read pcm).0 ≡ false)
      → ((played ls last x y c).thread.place ≡ ended (ok tt))
        × ((played ls last x y c).connection.state ≡ finished)
        × ((played ls last x y c).thread.sent
            ≡ c.thread.sent ++ wires c.thread.encoder f.aead (packets c.thread.encoder ls))
  played-ends encodes ls last x y c p live f g over =
      let (c1, most, e) =
        run-schedule encodes ls (schedule (last ∷ []) (own x ∷ own y ∷ [])) c f.aead p live f.array
          f.pcm_array g in
      let c2 : System w Opus = record c1 { thread = record c1.thread { place = at_frame } } in
      let c3 : System w Opus = record c1 { thread = frame w codec last.work c2.thread } in
      let (place, same) =
        frame_over last.work c2.thread (over c2.thread.encoder.pcm_buff most.pcm_array) in
      let still : IsLive c1.connection.state = rw (most.state) live in
      let whole =
        e
        ∙ looked last.first last.second last.third (own last.work ∷ own x ∷ own y ∷ []) c1
            most.place still
        ∙ worked last.work (own x ∷ own y ∷ []) c2 refl
        ∙ closed x y c3 place in
      (
        ap (λ s. s.thread.place) whole,
        ap (λ s. s.connection.state) whole,
        ap (λ s. s.thread.sent) whole ∙ same ∙ most.sent,
      )
