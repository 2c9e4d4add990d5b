-- ===== src/Connection/StopRecord.antt =====
-- src/connection.rs: `VoiceConnection::stop_record` with its thread, which decodes what was
-- recorded; and the decoder that src/recorder.rs makes for it.
use Prim.Native.String.{String}
use discord_ext_audiorec.Prelude.{
  ℕ, List, [], ◌∷◌, map, true, if◌then◌else◌, Option, none, some, ◌≡◌, refl,
}
use discord_ext_audiorec.Prelude.Results.{Result, ok, err, panic, ◌>>=◌, map_err}
use discord_ext_audiorec.Errors.{DiscordError, opus_error, PyErr, from_owned}
use discord_ext_audiorec.Payload.Cipher.{Cipher}
use discord_ext_audiorec.Gateway.Session.{World, VoiceGateway}
use discord_ext_audiorec.Recorder.Queue.{PacketResult, Packet, PacketQueue, Drains}
use discord_ext_audiorec.Recorder.Receive.{SsrcPacketQueue, Decryption}
use discord_ext_audiorec.Recorder.Mix.{Samples, Times, padded, max_len}
use discord_ext_audiorec.Recorder.Mix.Uneven.{AnyShorter}
use discord_ext_audiorec.Recorder.Decode.{OpusDecoder, WavWriter, Decoding, begin}
use discord_ext_audiorec.Recorder.Decode.Answers.{decode_all}
use discord_ext_audiorec.Recorder.Decode.Speakers.{decode_queues, decode}
use discord_ext_audiorec.Recorder.Decode.Speakers.Mixed.{
  by_time, samples_of, save, decode_single, decode_uneven,
}
use discord_ext_audiorec.Connection.{VoiceConnection, stop_record, stop_record_thread}

-- What the future is given; a thread that panics gives it nothing.
pub data Answer : Type 0 where
  resolved_by : List ℕ → Answer
  raised : PyErr → Answer
  never : Answer

-- `AudioDecoder::from_gateway`: `opus_new` is what `Decoder::new` returns.
unfoldable pub decoder_for :
    {Coder : Type 0} (w : World) (opus_new : Result String Coder) (cipher_new : List ℕ → Cipher)
    → VoiceGateway w
    → Result DiscordError (Coder × Decryption)
decoder_for w opus_new cipher_new g = do
  opus ← map_err opus_error opus_new
  ok (opus, record { cipher = cipher_new g.secret_key; encryption = g.encryption })

module _ (s : Samples) (o : OpusDecoder s.F32) (t : Times) (v : WavWriter) (next : ℕ → ℕ)
    (to_string : DiscordError → String) where
  open s use {F32}
  open o use {Coder}
  open t use {F64}
  open v use {Writer, create}

  -- The outcome of `queue.decode`, and `unwrap_or_default`. (The fuel of `decode` does not run out.)
  unfoldable pub answer_of :
      Result DiscordError (Option (Option (List ℕ) × SsrcPacketQueue F64)) → Answer
  unfolding from_owned
  answer_of (ok none) = never
  answer_of (ok (some (none, after))) = resolved_by []
  answer_of (ok (some (some file, after))) = resolved_by file
  answer_of (err e) = raised (from_owned to_string e)
  answer_of panic = never

  -- The thread. `signal` is what `check_signals` raises, `decoder` what `from_gateway` returns.
  unfoldable pub stop_record_task :
      (signal : Option PyErr)
      → (decoder : Result DiscordError (Coder × Decryption)) → SsrcPacketQueue F64
      → VoiceConnection
      → Answer × VoiceConnection
  unfolding answer_of stop_record_thread from_owned decode
  stop_record_task (some e) decoder queues c = (raised e, c)
  stop_record_task none decoder queues c =
      if c.recorder
      then (
        elim decoder [
          | ok (opus, decryption) ↦ answer_of (decode s o t v next opus queues)
          | err e ↦ raised (from_owned to_string e)
          | panic ↦ never
        ],
        stop_record_thread c,
      )
      else (resolved_by [], c)

  -- The call and its thread.
  unfoldable pub stop_and_decode :
      Option PyErr
      → Result DiscordError (Coder × Decryption)
      → SsrcPacketQueue F64
      → VoiceConnection
      → Answer × VoiceConnection
  unfolding stop_record stop_record_task
  stop_and_decode signal decoder queues c = stop_record_task signal decoder queues (stop_record c)

  -- The decoder when `Decoder::new` succeeds.
  abbrev pub made :
      (w : World)
      → (List ℕ → Cipher)
      → VoiceGateway w
      → Coder
      → Result DiscordError (Coder × Decryption)
  made w cipher_new g opus = decoder_for w (ok opus) cipher_new g

  module _ (w : World) (cipher_new : List ℕ → Cipher) (g : VoiceGateway w) (opus : Coder)
      (c : VoiceConnection) (h : c.recorder ≡ true) where
    decodes :
        (queues : SsrcPacketQueue F64)
        → (stop_and_decode none (made w cipher_new g opus) queues c).0
          ≡ answer_of (decode s o t v next opus queues)
    unfolding stop_and_decode decoder_for
    decodes queues = rw h refl

    -- With a recorder, no pending signal and a decoder: the recording of one speaker, whose packets
    -- are decoded without a panic and written without an error, is the answer of the future.
    pub stop_and_decode-single :
        (ssrc : ℕ) (q r : PacketQueue F64) (answers : List (PacketResult (Packet F64)))
        (d : Decoding s o t) (writer : Writer) (file : List ℕ)
        → create ≡ ok writer
        → Drains next q answers r
        → decode_all s o t answers (begin s o t opus) ≡ ok d
        → save s o t v next writer (samples_of s o t v next d) ((ssrc, r) ∷ [])
          ≡ ok (some (some file, (ssrc, r) ∷ []))
        → (stop_and_decode none (made w cipher_new g opus) ((ssrc, q) ∷ []) c).0 ≡ resolved_by file
    stop_and_decode-single ssrc q r answers d writer file e x e' saved =
        rw
          (
            decodes ((ssrc, q) ∷ []),
            decode_single s o t v next opus ssrc q r answers d writer e x e',
            saved,
          )
          (unfold answer_of in refl)

    -- With a recorder, no pending signal and a decoder, if the WAV writer can be created and the
    -- queues are decoded without a panic: when some speaker's PCM, with the silence in front, is
    -- shorter than the longest, the future is never answered.
    pub stop_and_decode-uneven :
        (last : Coder) (queues after : SsrcPacketQueue F64) (writer : Writer) (first : F64)
        (pcm : List F32) (pcms rest : List (F64 × List F32))
        → create ≡ ok writer
        → decode_queues s o t next opus queues ≡ ok (some (last, pcms, after))
        → by_time s t pcms ≡ (first, pcm) ∷ rest
        → AnyShorter
            (max_len (map (padded s t first) ((first, pcm) ∷ rest)))
            (map (padded s t first) ((first, pcm) ∷ rest))
        → (stop_and_decode none (made w cipher_new g opus) queues c).0 ≡ never
    stop_and_decode-uneven last queues after writer first pcm pcms rest e x y z =
        rw
          (
            decodes queues,
            decode_uneven s o t v next opus last queues after writer first pcm pcms rest e x y z,
          )
          (unfold answer_of in refl)
