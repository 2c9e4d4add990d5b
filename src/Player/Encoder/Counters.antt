-- ===== src/Player/Encoder/Counters.antt =====
-- src/player.rs: how `send_opus_packet` moves the counters of `AudioEncoder`.
use discord_ext_audiorec.Prelude.{ℕ, ◌+◌, ◌%◌, ◌^◌, List, ◌≡◌, arith, ◌⊎◌, inl, inr}
use discord_ext_audiorec.Prelude.Results.{Result, ok, err, Result-cases}
use discord_ext_audiorec.Errors.{IoError, would_block, timed_out}
use discord_ext_audiorec.Player.{samples_per_frame}
use discord_ext_audiorec.Player.Encoder.{AudioEncoder, send_opus_packet}

-- The socket answers that count as a lost packet.
abbrev pub IsLost : Result IoError ℕ → Type 0
IsLost r = (e : IoError) × (r ≡ err e) × ((e.kind ≡ would_block) ⊎ (e.kind ≡ timed_out))

-- The timestamp moves on by one frame when the socket took the packet, and stays when it is lost.
abbrev pub TimestampAfter : ℕ → Result IoError ℕ → ℕ → Type 0
TimestampAfter before answer after =
    ((n : ℕ) × (answer ≡ ok n) × (after ≡ (before + samples_per_frame) % 2 ^ 32))
    ⊎ (IsLost answer × (after ≡ before))

module _ {Opus : Type 0} where
  -- Whatever the cipher does: a send that succeeds uses up one sequence number and one lite nonce,
  -- both modulo their width; the timestamp moves on by one frame if the socket took the packet and
  -- stays if the packet was lost; the stream's identifier and mode stay.
  pub send_opus_packet-counters :
      (random : List ℕ) (send_to : List ℕ → Result IoError ℕ) (self next : AudioEncoder Opus)
      (size : ℕ) (datagram : List ℕ)
      → send_opus_packet random send_to self size ≡ ok (datagram, next)
      → (next.sequence ≡ (self.sequence + 1) % 2 ^ 16)
        × (next.lite_nonce ≡ (self.lite_nonce + 1) % 2 ^ 32)
        × TimestampAfter self.timestamp (send_to datagram) next.timestamp
        × (next.ssrc ≡ self.ssrc)
        × (next.encryption ≡ self.encryption)
  unfolding send_opus_packet
  send_opus_packet-counters random send_to self next size datagram h =
      (ground arith, ground arith, timestamp_after, ground arith, ground arith)
    where
      timestamp_after : TimestampAfter self.timestamp (send_to datagram) next.timestamp
      timestamp_after = elim (Result-cases (send_to datagram)) [
        | inl (n, e) ↦ inl (n, e, ground arith)
        | inr (inl (e, e')) ↦ inr ((e, e', ground arith), ground arith)
        | inr (inr e) ↦ absurd (ground arith)
      ]
