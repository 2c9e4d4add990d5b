-- ===== src/Recorder/Decode/Tests.antt =====
-- src/recorder.rs: the theorems on decoding, at concrete inputs.
use discord_ext_audiorec.Prelude.{
  ℕ, List, [], ◌∷◌, replicate, true, false, none, some, ◌≡◌, refl, arith, inl,
}
use discord_ext_audiorec.Errors.{DiscordError}
use discord_ext_audiorec.State.{recording}
use discord_ext_audiorec.Payload.Cipher.{Cipher}
use discord_ext_audiorec.Payload.SampleCipher.{sample_cipher}
use discord_ext_audiorec.Gateway.Session.Sample.{sample_world, sample_gateway}
use discord_ext_audiorec.Connection.{VoiceConnection}
use discord_ext_audiorec.Connection.StopRecord.{
  resolved_by, never, stop_and_decode, made, stop_and_decode-single, stop_and_decode-uneven,
}
use discord_ext_audiorec.Prelude.Results.{Result, ok, ◌>>=◌}
use discord_ext_audiorec.Recorder.Queue.{
  Packet, find, dropped, PacketQueue, Drains, done, step, get_packet,
}
use discord_ext_audiorec.Recorder.Receive.{SsrcPacketQueue, Decryption}
use discord_ext_audiorec.Recorder.Mix.{combine, sort_by}
use discord_ext_audiorec.Recorder.Decode.{Decoding, begin, on_find, decode_packets}
use discord_ext_audiorec.Recorder.Decode.Sample.{next_seq, whole, clock, counting, listing}
use discord_ext_audiorec.Recorder.Decode.Answers.{
  decode_all, decode_packets-Drains, decode_packets-gap, decode_packets-in_order,
}
use discord_ext_audiorec.Recorder.Decode.Speakers.{decode_queues, write_file}

abbrev numbered : ℕ → Packet ℕ
numbered n = record { bytes = replicate 12 n; size = 12; timestamp = 0; seq = n; received = 7 }

abbrev fresh : List (Packet ℕ) → PacketQueue ℕ
fresh ps = record { queue = ps; last = none }

abbrev ended : ℕ → PacketQueue ℕ
ended n = record { queue = []; last = some n }

one_packet : (n : ℕ) → Drains next_seq (fresh (numbered n ∷ [])) (find (numbered n) ∷ []) (ended n)
unfolding get_packet
one_packet n = step refl (λ x. cc) (done refl)

decode_packets-Drains_example :
    decode_packets whole counting clock next_seq 5 (fresh (numbered 3 ∷ [])) ≡ (
      decode_all whole counting clock (find (numbered 3) ∷ []) (begin whole counting clock 5)
      >>= λ d. ok (some (d, ended 3)))
decode_packets-Drains_example =
    decode_packets-Drains whole counting clock next_seq 5 (fresh (numbered 3 ∷ [])) (ended 3)
      (find (numbered 3) ∷ []) (one_packet 3)

-- The packet 4 was lost.
decode_packets-gap_example :
    decode_packets whole counting clock next_seq 5 (fresh (numbered 3 ∷ numbered 5 ∷ [])) ≡ (
      decode_all whole counting clock
        (find (numbered 3) ∷ dropped ∷ [])
        (begin whole counting clock 5)
      >>= λ d. ok (some (d, ended 3)))
decode_packets-gap_example =
    decode_packets-gap whole counting clock next_seq (λ n h. refl) 3 5 5 (numbered 3)
      (numbered 5 ∷ []) refl (refl, tt) (omega arith) (omega arith)

abbrev decoded : Decoding whole counting clock
decoded = record { opus = 6; pcmdata = 5 ∷ 12 ∷ []; start_time = 7; last_timestamp = some 0 }

one_decoded :
    decode_all whole counting clock (find (numbered 3) ∷ []) (begin whole counting clock 5)
    ≡ ok decoded
unfolding on_find
one_decoded = refl

-- The second speaker has two packets.
abbrev two_speakers : SsrcPacketQueue ℕ
two_speakers = (8, fresh (numbered 3 ∷ [])) ∷ (9, fresh (numbered 4 ∷ numbered 5 ∷ [])) ∷ []

both_decoded :
    decode_queues whole counting clock next_seq 5 two_speakers
    ≡ ok (
        some
          (8, (7, 5 ∷ 12 ∷ []) ∷ (7, 6 ∷ 12 ∷ 7 ∷ 12 ∷ []) ∷ [], (8, ended 3) ∷ (9, ended 5) ∷ []))
unfolding decode_queues decode_packets get_packet
both_decoded = refl

abbrev recorded : VoiceConnection
recorded = record { state = recording; player = false; recorder = true }

abbrev key_cipher : List ℕ → Cipher
key_cipher key = sample_cipher

abbrev opened : Result DiscordError (ℕ × Decryption)
opened =
    made whole counting clock listing next_seq (λ e. "") (sample_world 4) key_cipher
      (sample_gateway 4) 5

stop_and_decode-single_example :
    (stop_and_decode whole counting clock listing next_seq
      (λ e. "")
      none
      opened
      ((9, fresh (numbered 3 ∷ [])) ∷ [])
      recorded).0
    ≡ resolved_by (5 ∷ 12 ∷ [])
unfolding write_file combine
stop_and_decode-single_example =
    stop_and_decode-single whole counting clock listing next_seq (λ e. "") (sample_world 4)
      key_cipher (sample_gateway 4) 5 recorded refl 9 (fresh (numbered 3 ∷ [])) (ended 3)
      (find (numbered 3) ∷ []) decoded [] (5 ∷ 12 ∷ []) refl (one_packet 3) one_decoded refl

stop_and_decode-uneven_example :
    (stop_and_decode whole counting clock listing next_seq
      (λ e. "")
      none
      opened
      two_speakers
      recorded).0
    ≡ never
unfolding sort_by
stop_and_decode-uneven_example =
    stop_and_decode-uneven whole counting clock listing next_seq (λ e. "") (sample_world 4)
      key_cipher (sample_gateway 4) 5 recorded refl 8 two_speakers
      ((8, ended 3) ∷ (9, ended 5) ∷ []) [] 7 (5 ∷ 12 ∷ [])
      ((7, 5 ∷ 12 ∷ []) ∷ (7, 6 ∷ 12 ∷ 7 ∷ 12 ∷ []) ∷ []) ((7, 6 ∷ 12 ∷ 7 ∷ 12 ∷ []) ∷ []) refl
      both_decoded refl (inl (omega arith))

decode_packets-in_order_example :
    (r : PacketQueue ℕ) × (decode_packets whole counting clock next_seq 5
        (fresh (numbered 3 ∷ numbered 4 ∷ []))
      ≡ (decode_all whole counting clock
            (find (numbered 3) ∷ find (numbered 4) ∷ [])
            (begin whole counting clock 5)
          >>= λ d. ok (some (d, r))))
    × (r.queue ≡ [])
decode_packets-in_order_example =
    decode_packets-in_order whole counting clock next_seq (λ n h. refl) 3 5
      (numbered 3 ∷ numbered 4 ∷ []) (refl, (refl, tt))
