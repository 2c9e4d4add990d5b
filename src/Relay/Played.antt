-- ===== src/Relay/Played.antt =====
-- src/player.rs with src/recorder.rs: a whole input, from `play_loop` to `decode_packets`.
use discord_ext_audiorec.Prelude.{
  ℕ, suc, List, [], ◌∷◌, ◌++◌, get_elem?, length, map, none, some, false, ◌≡◌, ◌≢◌, arith, ◌∙◌, ap,
  All,
}
use discord_ext_audiorec.Prelude.Results.{ok, ◌>>=◌, Build}
use discord_ext_audiorec.Gateway.Session.{World}
use discord_ext_audiorec.Player.Encoder.{AudioEncoder}
use discord_ext_audiorec.Player.Encoder.Stream.{after_frame, wires}
use discord_ext_audiorec.Player.Loop.{Codec, Turn, at_finished}
use discord_ext_audiorec.Player.Loop.System.{System}
use discord_ext_audiorec.Player.Loop.Served.{
  Encodes, IsServed, IsFit, next_opus, frame_samples, encoded, IsCoded, coded,
}
use discord_ext_audiorec.Player.Loop.Playback.{Lap, IsLive, packets, played, played-ends}
use discord_ext_audiorec.Recorder.Queue.{Packet, PacketQueue, find}
use discord_ext_audiorec.Recorder.Queue.InOrder.{IsNext}
use discord_ext_audiorec.Recorder.Receive.{waiting, recv_loop}
use discord_ext_audiorec.Recorder.Mix.{Samples, Times}
use discord_ext_audiorec.Recorder.Decode.{OpusDecoder, begin, decode_packets}
use discord_ext_audiorec.Recorder.Decode.Answers.{decode_all, decode_packets-in_order}
use discord_ext_audiorec.Relay.{
  IsSpeech, IsHeard, receiver, Received, Received-RunsFrom, arrivals, one_queue, recv_loop-wires,
}

-- The codec's packets of whole frames start with no mark of an extension.
abbrev pub Unmarked : {Opus : Type 0} → Codec Opus → Type 0
Unmarked {Opus} codec =
    (opus : Opus) (pcm : List ℕ)
    → length pcm ≡ frame_samples
    → (b : ℕ) × (get_elem? (encoded codec opus pcm).1 0 ≡ some b) × (b ≢ 0xBE)

module _ (w : World) {Opus : Type 0} (codec : Codec Opus) (encodes : Encodes codec)
    (unmarked : Unmarked codec) where
  packets-IsSpeech :
      (e : AudioEncoder Opus) (ls : List (Lap w))
      → length e.pcm_buff ≡ frame_samples
      → All (λ l. IsServed l.work) ls
      → All IsSpeech (packets w codec e ls)
  packets-IsSpeech e [] h g = tt
  packets-IsSpeech e (l ∷ ls) h g =
      let pcm : List ℕ = (l.work.read e.pcm_buff).1 in
      let whole : length pcm ≡ frame_samples = g.0.fills e.pcm_buff h in
      let made : IsCoded codec e.opus pcm = coded codec encodes e.opus pcm whole in
      let (first, first_eq, no_mark) = unmarked e.opus pcm whole in
      (
        record {
          random_24 = g.0.random_24;
          message_le = made.few_bytes;
          first = first;
          first_eq = first_eq;
          no_mark = no_mark;
        },
        packets-IsSpeech (after_frame e (next_opus w codec l.work e) pcm e.buff) ls whole g.1,
      )

  module _ (s : Samples) (o : OpusDecoder s.F32) (t : Times) (next : ℕ → ℕ)
      (wraps : IsNext next) where
    open t use {F64}
    open o use {Coder}

    -- What the recorder makes of these datagrams, sent by this encoder: each message in the packet
    -- of its number, all of them in one queue, and the queue decoded whole and in order.
    pub record IsRelayed (cfg : Build) (clock : ℕ → F64) (e : AudioEncoder Opus)
        (ms : List (List ℕ × List ℕ)) (ds : List (List ℕ)) (opus : Coder) : Type 0 where
      pub filed : List (Packet F64)
      pub received : Received e ms filed
      pub queues :
          recv_loop cfg (receiver e) (arrivals clock ds) [] ≡ (one_queue e.ssrc filed, waiting)
      pub decoded :
          (r : PacketQueue F64) × (decode_packets s o t next opus
              (record { queue = filed; last = none })
            ≡ (decode_all s o t (map find filed) (begin s o t opus) >>= λ d. ok (some (d, r))))
          × (r.queue ≡ [])

    -- A thread at the top of the loop that has sent nothing yet plays an input, as for
    -- `played-ends`, in a mode other than the default, with counters that fit their types, and with
    -- packets that start with no mark of an extension. If its datagrams come, in order and with none
    -- missing, to a recorder with the same key and mode that has heard nothing yet, `recv_loop` files
    -- one packet for each frame under the encoder's SSRC, with consecutive sequence numbers and with
    -- timestamps 960 apart, both modulo their width, and with the codec's message in front; and
    -- `decode_packets` then decodes each of them, in order, and nothing else (if `Seq::next` is as
    -- documented).
    pub played-IsRelayed :
        (ls : List (Lap w)) (last : Lap w) (x y : Turn w) (c : System w Opus)
        → c.thread.place ≡ at_finished
        → IsLive c.connection.state
        → IsFit c.thread.encoder
        → All (λ l. IsServed l.work) ls
        → ((pcm : List ℕ) → length pcm ≡ frame_samples → (last.work.read pcm).0 ≡ false)
        → c.thread.sent ≡ []
        → IsHeard c.thread.encoder
        → (cfg : Build) (clock : ℕ → F64) (opus : Coder)
        → IsRelayed cfg clock c.thread.encoder
            (packets w codec c.thread.encoder ls)
            (played w codec ls last x y c).thread.sent
            opus
    played-IsRelayed ls last x y c p live fit g over silent heard cfg clock opus =
        let e : AudioEncoder Opus = c.thread.encoder in
        let ms : List (List ℕ × List ℕ) = packets w codec e ls in
        let (place, state, sent) = played-ends w codec encodes ls last x y c p live fit g over in
        let (filed, received, way) =
          recv_loop-wires cfg clock e fit.aead ms [] heard
            (packets-IsSpeech e ls fit.pcm_array g) in
        let all_sent : (played w codec ls last x y c).thread.sent ≡ wires e fit.aead ms =
          sent ∙ ap (λ ds. ds ++ wires e fit.aead ms) silent in
        record {
          filed = filed;
          received = received;
          queues = ap (λ ds. recv_loop cfg (receiver e) (arrivals clock ds) []) all_sent ∙ way;
          decoded =
              decode_packets-in_order s o t next wraps (suc e.sequence) opus filed (
                Received-RunsFrom e.sequence e ms filed (omega (arith, heard.sequence_lt))
                  received);
        }
