-- ===== src/Recorder/Decode.antt =====
-- src/recorder.rs: the decoding of the queues, `AudioDecoder::{decode_packets, decode_raw,
-- decode_dropped_frame}` and `SsrcPacketQueue::decode`. The Opus decoder and the WAV writer are
-- parameters. One decoder goes through all speakers, so its state is passed along.
pub mod Answers
pub mod Speakers
pub mod Sample
mod Tests
use discord_ext_audiorec.Prelude.{
  ℕ, zero, suc, ◌+◌, ◌*◌, List, [], ◌∷◌, ◌++◌, length, take, replicate, ltb, leb, ◌==◌,
  if◌then◌else◌, Option, none, some,
}
use discord_ext_audiorec.Prelude.Results.{
  Result, ok, err, panic, ◌>>=◌, ◌>>◌, require, map_err, MayPanic,
}
use discord_ext_audiorec.Errors.{DiscordError}
use discord_ext_audiorec.Player.{samples_per_frame}
use discord_ext_audiorec.Recorder.Queue.{
  Packet, PacketResult, find, dropped, end, PacketQueue, get_packet,
}
use discord_ext_audiorec.Recorder.Receive.{SsrcPacketQueue}
use discord_ext_audiorec.Recorder.Mix.{Samples, Times, mix}

-- `audiopus::coder::Decoder`. `decode_float` takes the data, or nothing for a lost packet, and the
-- room for samples; it returns its next state and, if it succeeds, the number of samples of each
-- channel and what it wrote. `last_packet_duration` is nothing on an error.
pub record OpusDecoder (F32 : Type 0) : Type 1 where
  pub Coder : Type 0
  pub decode_float : Coder → Option (List ℕ) → (room : ℕ) → Coder × Option (ℕ × List F32)
  pub last_packet_duration : Coder → Option ℕ

-- `hound::WavWriter` over a vector.
pub record WavWriter : Type 1 where
  pub Writer : Type 0
  pub create : Result DiscordError Writer
  pub write_sample : Writer → ℕ → Result DiscordError Writer
  pub finalize : Writer → Result DiscordError (List ℕ)

module _ (s : Samples) (o : OpusDecoder s.F32) where
  open s use {F32, nil}
  open o use {Coder, decode_float, last_packet_duration}

  -- `[0f32; 1920]` after the call, cut to the samples of both channels.
  unfoldable pub output : Option (ℕ × List F32) → List F32
  output none = []
  output (some (size, written)) = take (size * 2) (take 1920 (written ++ replicate 1920 nil))

  unfoldable pub decode_raw : Coder → List ℕ → (size : ℕ) → MayPanic (Coder × List F32)
  unfolding output
  decode_raw opus bytes size = do
    require (leb size (length bytes))
    let (after, result) = decode_float opus (some (take size bytes)) 1920
    ok (after, output result)

  duration_or : Option ℕ → ℕ
  duration_or none = samples_per_frame
  duration_or (some n) = n

  unfoldable pub decode_dropped_frame : Coder → MayPanic (Coder × List F32)
  unfolding output duration_or
  decode_dropped_frame opus =
      let n : ℕ = duration_or (last_packet_duration opus) in
      if n == 0 then ok (opus, []) else (do
        require (leb n 1920)
        let (after, result) = decode_float opus none n
        ok (after, output result))

  module _ (t : Times) where
    open t use {F64, latest, minimum, above, as_f64, as_usize, minus, times, over, one, frame_secs}

    -- The local variables of `decode_packets`, and the Opus decoder.
    pub record Decoding : Type 0 where
      pub opus : Coder
      pub pcmdata : List F32
      pub start_time : F64
      pub last_timestamp : Option ℕ

    abbrev pub begin : Coder → Decoding
    begin opus = record { opus = opus; pcmdata = []; start_time = latest; last_timestamp = none }

    abbrev elapsed : (last now : ℕ) → F64
    elapsed last now = over (minus (as_f64 now) (as_f64 last)) (as_f64 48000)

    -- The length of the margin between two timestamps, which is at most a second.
    abbrev silence : (last now : ℕ) → ℕ
    silence last now =
        if above (elapsed last now) frame_secs
        then 2
          * as_usize (
              times (times (as_f64 4) (minus (minimum (elapsed last now) one) frame_secs))
                (as_f64 48000))
        else 0

    margin_after : Option ℕ → ℕ → List F32
    margin_after none now = []
    margin_after (some last) now = replicate (silence last now) nil

    -- The arm `Find(packet)`.
    unfoldable pub on_find : Decoding → Packet F64 → MayPanic Decoding
    unfolding decode_raw margin_after
    on_find self packet =
        let start : F64 = minimum self.start_time packet.received in
        if ltb packet.size 10
        then ok (record self { start_time = start; last_timestamp = some packet.timestamp })
        else (do
          (opus, pcm) ← decode_raw self.opus packet.bytes packet.size
          ok (record {
            opus = opus;
            pcmdata = self.pcmdata ++ (margin_after self.last_timestamp packet.timestamp ++ pcm);
            start_time = start;
            last_timestamp = some packet.timestamp;
          }))

    -- The arm `Dropped`.
    unfoldable pub on_dropped : Decoding → MayPanic Decoding
    unfolding decode_dropped_frame
    on_dropped self = do
      (opus, pcm) ← decode_dropped_frame self.opus
      ok (record self { opus = opus; pcmdata = self.pcmdata ++ pcm; last_timestamp = none })

    -- The loop, on fuel: nothing if the fuel ran out.
    unfoldable pub decode_loop :
        (next : ℕ → ℕ)
        → (fuel : ℕ) → PacketQueue F64
        → Decoding
        → MayPanic (Option (Decoding × PacketQueue F64))
    unfolding on_find on_dropped
    decode_loop next zero queue self = ok none
    decode_loop next (suc fuel) queue self = do
      (answer, after) ← get_packet next queue
      elim answer [
        | find packet ↦ do found ← on_find self packet; decode_loop next fuel after found
        | dropped ↦ do concealed ← on_dropped self; decode_loop next fuel after concealed
        | end ↦ ok (some (self, after))
      ]

    -- Each call of `get_packet` but the last shortens the queue, so its length and one more is
    -- enough fuel.
    unfoldable pub decode_packets :
        (next : ℕ → ℕ) → Coder → PacketQueue F64 → MayPanic (Option (Decoding × PacketQueue F64))
    unfolding decode_loop
    decode_packets next opus queue = decode_loop next (suc (length queue.queue)) queue (begin opus)
