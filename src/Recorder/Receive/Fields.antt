-- ===== src/Recorder/Receive/Fields.antt =====
-- src/recorder.rs: the fields that `recv_loop` reads from an RTP header, and the packet it makes.
use discord_ext_audiorec.Prelude.{
  ℕ, ◌+◌, ◌-◌, ◌/◌, ◌%◌, ◌^◌, ◌≤◌, ◌<◌, List, ◌++◌, length, take, drop, ◌≡◌, refl, arith, ◌∙◌,
  le→leb,
}
use discord_ext_audiorec.Prelude.Bits.{join16, join16_lem, join32, join32_lem}
use discord_ext_audiorec.Prelude.Results.{ok, Build}
use discord_ext_audiorec.Player.Encoder.{rtp_header}
use discord_ext_audiorec.Recorder.Queue.{Packet}
use discord_ext_audiorec.Recorder.Offset.{calc_offset}
use discord_ext_audiorec.Recorder.Offset.Bounds.{calc_offset_le}
use discord_ext_audiorec.Recorder.Receive.{packet_of_header}

-- The receiver's shifts undo `to_be_bytes`.
pub join16-be16 : (n : ℕ) → n < 2 ^ 16 → join16 (n / 2 ^ 8 % 256) (n % 256) ≡ n
join16-be16 n h = join16_lem (n / 2 ^ 8 % 256) (n % 256) (omega arith) (omega arith) ∙ omega arith

pub join32-be32 :
    (n : ℕ)
    → n < 2 ^ 32
    → join32 (n / 2 ^ 24 % 256) (n / 2 ^ 16 % 256) (n / 2 ^ 8 % 256) (n % 256) ≡ n
join32-be32 n h =
    join32_lem (n / 2 ^ 24 % 256) (n / 2 ^ 16 % 256) (n / 2 ^ 8 % 256) (n % 256) (omega arith)
      (omega arith) (omega arith) (omega arith)
    ∙ omega arith

-- The packet that is filed for a header and a decrypted array, whose message starts at `offset`.
abbrev pub filed :
    {Time : Type 0} (size offset : ℕ) (now : Time) (seq timestamp : ℕ) (bytes : List ℕ)
    → Packet Time
filed size offset now seq timestamp bytes = record {
  bytes = drop offset bytes ++ take offset bytes;
  size = size - 12 - offset;
  timestamp = timestamp;
  seq = seq;
  received = now;
}

-- From the header of an encoder whose fields fit their widths, and an array in which `calc_offset`
-- finds an offset inside the received size, the receiver reads the encoder's SSRC, timestamp and
-- sequence number, and files the array turned by that offset.
pub packet_of_header-rtp_header :
    {Time : Type 0} (cfg : Build) (size offset : ℕ) (now : Time) (seq timestamp ssrc : ℕ)
    (bytes : List ℕ)
    → seq < 2 ^ 16
    → timestamp < 2 ^ 32
    → ssrc < 2 ^ 32
    → calc_offset bytes ≡ ok offset
    → 12 + offset ≤ size
    → packet_of_header cfg size now (rtp_header seq timestamp ssrc) bytes
      ≡ ok (ssrc, filed size offset now seq timestamp bytes)
unfolding packet_of_header
packet_of_header-rtp_header cfg size offset now seq timestamp ssrc bytes hs ht hc e fits =
    rw
      (
        le→leb 12 size (omega arith),
        e,
        le→leb offset (length bytes) (calc_offset_le bytes offset e),
        le→leb offset (size - 12) (omega arith),
        join16-be16 seq hs,
        join32-be32 timestamp ht,
        join32-be32 ssrc hc,
      )
      refl
