-- ===== src/Recorder/Receive/Tests.antt =====
-- src/recorder.rs: the theorems on received datagrams, at concrete inputs.
use discord_ext_audiorec.Prelude.{
  ℕ, ◌≤◌, List, [], ◌∷◌, ◌++◌, length, replicate, ◌≡◌, refl, arith, inl, true, some, length-append,
}
use discord_ext_audiorec.Prelude.Results.{ok, Build}
use discord_ext_audiorec.Payload.Mode.{xsalsa20_poly1305_lite}
use discord_ext_audiorec.Payload.SampleCipher.{sample_cipher, sample-IsAead}
use discord_ext_audiorec.Payload.Encryptor.{be32}
use discord_ext_audiorec.Player.Encoder.{rtp_header}
use discord_ext_audiorec.Recorder.Receive.{
  Decryption, SsrcPacketQueue, on_datagram, Round, panicked, recv_loop,
}
use discord_ext_audiorec.Recorder.Receive.Faults.{recv_loop_short}
use discord_ext_audiorec.Recorder.Receive.Shuffle.{
  Shuffle, swap, IsDatagram-FilesFor, recv_loop-Shuffle,
}
use discord_ext_audiorec.Recorder.Receive.Delivery.{IsDatagram, Files, on_datagram-Files}

abbrev checked : Build
checked = record { overflow_checks = true; debug_log = true }

abbrev decoder : Decryption
decoder = record { cipher = sample_cipher; encryption = xsalsa20_poly1305_lite }

abbrev queues : SsrcPacketQueue ℕ
queues = (3, record { queue = []; last = some 4 }) ∷ []

abbrev short : Round ℕ
short = record { recording = true; recv = ok (0x80 ∷ 0x78 ∷ []); now = 0 }

recv_loop_short_example : recv_loop checked decoder (short ∷ []) queues ≡ (queues, panicked)
recv_loop_short_example =
    recv_loop_short checked decoder short [] queues (0x80 ∷ 0x78 ∷ []) refl refl (omega arith)
      (λ byte e. inl (ground arith))

abbrev report : Round ℕ
report = record { recording = true; recv = ok (0x80 ∷ 200 ∷ 0 ∷ 0 ∷ 0 ∷ []); now = 0 }

abbrev datagram : List ℕ
datagram =
    rtp_header 513 70000 9 ++ (sample-IsAead.seal (be32 6 ++ replicate 20 0) (7 ∷ 8 ∷ []) ++ be32 6)

length-datagram : length datagram ≤ 100
length-datagram = omega (
  arith,
  length-append (sample-IsAead.seal (be32 6 ++ replicate 20 0) (7 ∷ 8 ∷ [])) (be32 6),
  sample-IsAead.length-seal (be32 6 ++ replicate 20 0) (7 ∷ 8 ∷ []),
)

datagram-IsDatagram : IsDatagram decoder sample-IsAead datagram 513 70000 9 (7 ∷ 8 ∷ []) (be32 6)
datagram-IsDatagram = record {
  fits = omega (arith, length-datagram);
  seq_lt = omega arith;
  timestamp_lt = omega arith;
  ssrc_lt = omega arith;
  length_trailer = refl;
  parts = refl;
}

on_datagram-Files_example :
    Files checked decoder sample-IsAead datagram-IsDatagram queues
      (on_datagram checked decoder 0 datagram queues)
on_datagram-Files_example =
    on_datagram-Files checked decoder sample-IsAead datagram-IsDatagram 0 queues 7 refl
      (λ e. omega arith)

-- Another speaker's datagram.
abbrev other_datagram : List ℕ
other_datagram =
    rtp_header 3 70000 2 ++ (sample-IsAead.seal (be32 6 ++ replicate 20 0) (7 ∷ 8 ∷ []) ++ be32 6)

length-other_datagram : length other_datagram ≤ 100
length-other_datagram = omega (
  arith,
  length-append (sample-IsAead.seal (be32 6 ++ replicate 20 0) (7 ∷ 8 ∷ [])) (be32 6),
  sample-IsAead.length-seal (be32 6 ++ replicate 20 0) (7 ∷ 8 ∷ []),
)

other_datagram-IsDatagram :
    IsDatagram decoder sample-IsAead other_datagram 3 70000 2 (7 ∷ 8 ∷ []) (be32 6)
other_datagram-IsDatagram = record {
  fits = omega (arith, length-other_datagram);
  seq_lt = omega arith;
  timestamp_lt = omega arith;
  ssrc_lt = omega arith;
  length_trailer = refl;
  parts = refl;
}

abbrev first_round : Round ℕ
first_round = record { recording = true; recv = ok datagram; now = 1 }

abbrev second_round : Round ℕ
second_round = record { recording = true; recv = ok other_datagram; now = 2 }

alternate :
    Shuffle checked decoder (first_round ∷ second_round ∷ []) (second_round ∷ first_round ∷ [])
alternate =
    swap 9 2 (λ e. absurd (omega (arith, e)))
      (IsDatagram-FilesFor checked decoder sample-IsAead datagram-IsDatagram 1 7 refl
        (λ e. omega arith))
      (IsDatagram-FilesFor checked decoder sample-IsAead other_datagram-IsDatagram 2 7 refl
        (λ e. omega arith))

recv_loop-Shuffle_example :
    recv_loop checked decoder (first_round ∷ second_round ∷ []) queues
    ≡ recv_loop checked decoder (second_round ∷ first_round ∷ []) queues
recv_loop-Shuffle_example = recv_loop-Shuffle checked decoder queues alternate (omega arith, tt)
