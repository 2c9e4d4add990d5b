-- ===== src/Recorder/Decode/Speakers.antt =====
-- src/recorder.rs: `SsrcPacketQueue::decode`, for all speakers. Nothing in place of the outcome
-- would say that the fuel of `decode_packets` ran out.
pub mod Mixed
use discord_ext_audiorec.Prelude.{ℕ, List, [], ◌∷◌, Option, none, some}
use discord_ext_audiorec.Prelude.Results.{Result, ok, err, panic, ◌>>=◌, map_err, MayPanic}
use discord_ext_audiorec.Errors.{DiscordError}
use discord_ext_audiorec.Recorder.Receive.{SsrcPacketQueue}
use discord_ext_audiorec.Recorder.Mix.{Samples, Times, mix}
use discord_ext_audiorec.Recorder.Decode.{OpusDecoder, WavWriter, decode_packets}

module _ (s : Samples) (o : OpusDecoder s.F32) (t : Times) where
  open s use {F32}
  open o use {Coder}
  open t use {F64}

  -- The map over the queues: each speaker's time and PCM, the decoder, and the queues after it.
  abbrev pub Decoded : Type 0
  Decoded = Coder × List (F64 × List F32) × SsrcPacketQueue F64

  unfoldable pub decode_queues :
      (next : ℕ → ℕ) → Coder → SsrcPacketQueue F64 → MayPanic (Option Decoded)
  decode_queues next opus [] = ok (some (opus, [], []))
  decode_queues next opus ((ssrc, q) ∷ m) = do
    first ← decode_packets s o t next opus q
    elim first [
      | none ↦ ok none
      | some (d, after) ↦ do
        others ← decode_queues next d.opus m
        elim others [
          | none ↦ ok none
          | some (last, pcms, rest) ↦
              ok (some (last, (d.start_time, d.pcmdata) ∷ pcms, (ssrc, after) ∷ rest))
        ]
    ]

  module _ (w : WavWriter) where
    open w use {Writer, create, write_sample, finalize}

    unfoldable pub write_all : Writer → List ℕ → Result DiscordError Writer
    write_all writer [] = ok writer
    write_all writer (x ∷ xs) = do after ← write_sample writer x; write_all after xs

    -- What is mixed is written and the file is finished; if nobody spoke there is no file.
    unfoldable pub write_file : Writer → Option (List ℕ) → Result DiscordError (Option (List ℕ))
    unfolding write_all
    write_file writer none = ok none
    write_file writer (some xs) = do
      written ← write_all writer xs
      bytes ← finalize written
      ok (some bytes)

    unfoldable pub decode :
        (next : ℕ → ℕ)
        → Coder
        → SsrcPacketQueue F64
        → Result DiscordError (Option (Option (List ℕ) × SsrcPacketQueue F64))
    unfolding decode_queues write_file
    decode next opus queues = do
      writer ← create
      decoded ← map_err (λ e. absurd e) (decode_queues next opus queues)
      elim decoded [
        | none ↦ ok none
        | some (last, pcms, after) ↦ do
          samples ← map_err (λ e. absurd e) (mix s t pcms)
          file ← write_file writer samples
          ok (some (file, after))
      ]
