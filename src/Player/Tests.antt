-- ===== src/Player/Tests.antt =====
-- src/player.rs: the theorems on the encoder, at concrete inputs.
use discord_ext_audiorec.Prelude.{
  ℕ, ◌+◌, ◌%◌, ◌^◌, List, [], ◌∷◌, some, length, replicate, ◌≡◌, refl, arith, true,
  length-replicate,
}
use discord_ext_audiorec.Prelude.Results.{Result, ok, Build}
use discord_ext_audiorec.Errors.{IoError}
use discord_ext_audiorec.Payload.Mode.{xsalsa20_poly1305_lite}
use discord_ext_audiorec.Payload.SampleCipher.{sample_cipher, sample-IsAead}
use discord_ext_audiorec.Player.{bufsize, samples_per_frame}
use discord_ext_audiorec.Player.Ffmpeg.{read_frames, le_samples, read_frames-join}
use discord_ext_audiorec.Player.Encoder.{AudioEncoder, after_send, send_opus_packet}
use discord_ext_audiorec.Buffer.{AudioBuffer, new}
use discord_ext_audiorec.Player.Encoder.Packets.{Sends, datagram_of, send_opus_packet-Sends}

abbrev checked : Build
checked = record { overflow_checks = true; debug_log = true }

abbrev random : List ℕ
random = replicate 24 7

-- An encoder before its 65536th packet.
abbrev encoder : AudioEncoder ℕ
encoder = record {
  opus = 0;
  cipher = sample_cipher;
  sequence = 65535;
  timestamp = 4294966816;
  lite_nonce = 3;
  ssrc = 9;
  pcm_buff = [];
  buff = replicate bufsize 5;
  encryption = xsalsa20_poly1305_lite;
}

array : length encoder.buff ≡ bufsize
array = length-replicate {A = ℕ} bufsize 5

abbrev accepts : List ℕ → Result IoError ℕ
accepts d = ok (length d)

abbrev datagram : List ℕ
datagram = datagram_of random encoder 100 sample-IsAead array refl (omega arith)

send_opus_packet-Sends_example :
    Sends encoder datagram accepts (send_opus_packet random accepts encoder 100)
send_opus_packet-Sends_example =
    send_opus_packet-Sends random encoder 100 sample-IsAead array refl (omega arith) accepts

abbrev arrived : AudioBuffer
arrived = new datagram (length datagram)

abbrev sent : Sends encoder datagram accepts (send_opus_packet random accepts encoder 100)
sent = send_opus_packet-Sends random encoder 100 sample-IsAead array refl (omega arith) accepts

abbrev after : AudioEncoder ℕ
after = record sent.prepared { timestamp = (sent.prepared.timestamp + samples_per_frame) % 2 ^ 32 }

sent_returns : send_opus_packet random accepts encoder 100 ≡ ok (datagram, after)
unfolding after_send
sent_returns = sent.returns

-- Two frames of one sample each, and half a sample.
read_frames-join_example :
    read_frames [] 5 (record { stdout = some (1 ∷ 0 ∷ 2 ∷ 1 ∷ 9 ∷ []) }) (0 ∷ [])
    ≡ (1 ∷ 258 ∷ [], record { stdout = some [] })
unfolding le_samples
read_frames-join_example =
    read_frames-join [] ((1 ∷ 0 ∷ []) ∷ (2 ∷ 1 ∷ []) ∷ []) (9 ∷ []) (0 ∷ []) 2 (refl, (refl, tt))
      (omega arith)
