-- ===== src/Recorder/Decode/Speakers/Mixed.antt =====
-- src/recorder.rs: what `decode` writes for one speaker, and when it panics for several.
use discord_ext_audiorec.Prelude.{
  ℕ, ◌/◌, List, [], ◌∷◌, map, Option, some, ◌≡◌, ◌∙◌, refl, arith, inl, inr,
}
use discord_ext_audiorec.Prelude.Results.{Result, ok, panic, ◌>>=◌, Result-cases}
use discord_ext_audiorec.Errors.{DiscordError}
use discord_ext_audiorec.Recorder.Queue.{Packet, PacketResult, PacketQueue, Drains}
use discord_ext_audiorec.Recorder.Receive.{SsrcPacketQueue}
use discord_ext_audiorec.Recorder.Mix.{Samples, Times, padded, mix, sort_by, max_len}
use discord_ext_audiorec.Recorder.Mix.Even.{level, pairs, mix_pcms_even}
use discord_ext_audiorec.Recorder.Mix.Uneven.{AnyShorter, mix_pcms_uneven}
use discord_ext_audiorec.Recorder.Decode.{OpusDecoder, WavWriter, Decoding, begin}
use discord_ext_audiorec.Recorder.Decode.Answers.{decode_all, decode_packets-Drains}
use discord_ext_audiorec.Recorder.Decode.Speakers.{decode_queues, write_file, write_all, decode}

module _ (s : Samples) (t : Times) where
  open s use {F32, to_i16}
  open t use {F64, before}

  abbrev pub by_time : List (F64 × List F32) → List (F64 × List F32)
  by_time = sort_by (λ a b. before a.0 b.0)

  one_even : (xs : List F32) → ¬ AnyShorter (max_len (xs ∷ [])) (xs ∷ [])
  one_even xs (inl short) = omega arith
  one_even xs (inr none_left) = none_left

  mix_one :
      (time : F64) (pcm : List F32)
      → mix s t ((time, pcm) ∷ [])
        ≡ ok (
            some (
              map to_i16 (
                pairs s
                  (level s (padded s t time (time, pcm) ∷ []))
                  (max_len (padded s t time (time, pcm) ∷ []) / 2)
                  0)))
  unfolding mix
  mix_one time pcm =
      let own : List F32 = padded s t time (time, pcm) in
      rw (mix_pcms_even s (own ∷ []) (one_even own)) refl

  mix_uneven :
      (first : F64) (pcm : List F32) (pcms rest : List (F64 × List F32))
      → by_time pcms ≡ (first, pcm) ∷ rest
      → AnyShorter
          (max_len (map (padded s t first) ((first, pcm) ∷ rest)))
          (map (padded s t first) ((first, pcm) ∷ rest))
      → mix s t pcms ≡ panic
  unfolding mix
  mix_uneven first pcm pcms rest e h =
      rw (e, mix_pcms_uneven s (map (padded s t first) ((first, pcm) ∷ rest)) h) refl

module _ (s : Samples) (o : OpusDecoder s.F32) (t : Times) (w : WavWriter) (next : ℕ → ℕ) where
  open s use {F32, to_i16}
  open o use {Coder}
  open t use {F64}
  open w use {Writer, create, finalize}

  -- The samples of one speaker: the silence and the PCM, frame by frame.
  abbrev pub samples_of : Decoding s o t → List ℕ
  samples_of d =
      let own : List (List F32) = padded s t d.start_time (d.start_time, d.pcmdata) ∷ [] in
      map to_i16 (pairs s (level s own) (max_len own / 2) 0)

  -- The samples written one by one, and the file finished.
  abbrev pub save :
      Writer
      → List ℕ
      → SsrcPacketQueue F64
      → Result DiscordError (Option (Option (List ℕ) × SsrcPacketQueue F64))
  save writer xs after = do
    written ← write_all s o t w writer xs
    bytes ← finalize written
    ok (some (some bytes, after))

  finished :
      (writer : Writer) (xs : List ℕ) (after : SsrcPacketQueue F64)
      → (◌>>=◌ {B = Option (Option (List ℕ) × SsrcPacketQueue F64)}
          (write_file s o t w writer (some xs))
          (λ file. ok (some (file, after))))
        ≡ save writer xs after
  unfolding write_file
  finished writer xs after = elim (Result-cases (write_all s o t w writer xs)) [
    | inl (written, e) ↦ elim (Result-cases (finalize written)) [
      | inl (bytes, e') ↦ rw (e, e') refl
      | inr (inl (x, e')) ↦ rw (e, e') refl
      | inr (inr e') ↦ rw (e, e') refl
    ]
    | inr (inl (x, e)) ↦ rw e refl
    | inr (inr e) ↦ rw e refl
  ]

  decode_mixed :
      (opus last : Coder) (queues after : SsrcPacketQueue F64) (writer : Writer)
      (pcms : List (F64 × List F32)) (samples : Option (List ℕ))
      → create ≡ ok writer
      → decode_queues s o t next opus queues ≡ ok (some (last, pcms, after))
      → mix s t pcms ≡ ok samples
      → decode s o t w next opus queues ≡ (
          ◌>>=◌ {B = Option (Option (List ℕ) × SsrcPacketQueue F64)}
            (write_file s o t w writer samples)
            (λ file. ok (some (file, after))))
  unfolding decode
  decode_mixed opus last queues after writer pcms samples c x m = rw (c, x, m) refl

  one_queue :
      (opus : Coder) (ssrc : ℕ) (q r : PacketQueue F64) (answers : List (PacketResult (Packet F64)))
      (d : Decoding s o t)
      → Drains next q answers r
      → decode_all s o t answers (begin s o t opus) ≡ ok d
      → decode_queues s o t next opus ((ssrc, q) ∷ [])
        ≡ ok (some (d.opus, (d.start_time, d.pcmdata) ∷ [], (ssrc, r) ∷ []))
  unfolding decode_queues
  one_queue opus ssrc q r answers d x e =
      rw (decode_packets-Drains s o t next opus q r answers x, e) refl

  -- A recording of one speaker never fails in the mixing: if the WAV writer can be created and the
  -- speaker's packets are decoded without a panic, what is written are the decoded samples, behind
  -- the silence in front of them, each frame clamped and quantised; of an odd number of samples
  -- the last is left out.
  pub decode_single :
      (opus : Coder) (ssrc : ℕ) (q r : PacketQueue F64) (answers : List (PacketResult (Packet F64)))
      (d : Decoding s o t) (writer : Writer)
      → create ≡ ok writer
      → Drains next q answers r
      → decode_all s o t answers (begin s o t opus) ≡ ok d
      → decode s o t w next opus ((ssrc, q) ∷ []) ≡ save writer (samples_of d) ((ssrc, r) ∷ [])
  decode_single opus ssrc q r answers d writer c x e =
      decode_mixed opus d.opus ((ssrc, q) ∷ []) ((ssrc, r) ∷ []) writer
        ((d.start_time, d.pcmdata) ∷ []) (some (samples_of d)) c
        (one_queue opus ssrc q r answers d x e) (mix_one s t d.start_time d.pcmdata)
      ∙ finished writer (samples_of d) ((ssrc, r) ∷ [])

  -- When the WAV writer can be created, the queues are decoded without a panic, and some speaker's
  -- PCM, with the silence in front, is shorter than the longest, `decode` panics.
  pub decode_uneven :
      (opus last : Coder) (queues after : SsrcPacketQueue F64) (writer : Writer) (first : F64)
      (pcm : List F32) (pcms rest : List (F64 × List F32))
      → create ≡ ok writer
      → decode_queues s o t next opus queues ≡ ok (some (last, pcms, after))
      → by_time s t pcms ≡ (first, pcm) ∷ rest
      → AnyShorter
          (max_len (map (padded s t first) ((first, pcm) ∷ rest)))
          (map (padded s t first) ((first, pcm) ∷ rest))
      → decode s o t w next opus queues ≡ panic
  unfolding decode
  decode_uneven opus last queues after writer first pcm pcms rest c x y h =
      rw (c, x, mix_uneven s t first pcm pcms rest y h) refl
