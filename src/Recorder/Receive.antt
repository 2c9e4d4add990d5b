-- ===== src/Recorder/Receive.antt =====
-- src/recorder.rs: `AudioDecoder::decrypt_from_buffer`, the map of queues by SSRC, and `recv_loop`,
-- which files each datagram of the socket. The socket and the flag that other threads change are a
-- list of what each round of the loop observes; `Time` is the `f64` of `SystemTime::now`.
pub mod Fields
pub mod Queues
pub mod Shuffle
pub mod Delivery
pub mod Faults
mod Tests
use discord_ext_audiorec.Prelude.{
  ℕ, ◌+◌, ◌-◌, ◌%◌, ◌^◌, min, List, [], ◌∷◌, ◌++◌, length, take, drop, replicate, ltb, leb, ◌==◌,
  Bool, true, false, ◌&&◌, if◌then◌else◌, Option, none, some,
}
use discord_ext_audiorec.Prelude.Bits.{join16, join32}
use discord_ext_audiorec.Prelude.Results.{
  Result, ok, err, panic, ◌>>=◌, ◌>>◌, require, map_err, Build, sub_usize,
}
use discord_ext_audiorec.Buffer.{AudioBuffer, AeadError, as_ref, new}
use discord_ext_audiorec.Errors.{DiscordError, encryption_error, io_error, IoError}
use discord_ext_audiorec.Payload.Mode.{EncryptionMode}
use discord_ext_audiorec.Payload.Cipher.{Cipher}
use discord_ext_audiorec.Payload.Encryptor.{decrypt}
use discord_ext_audiorec.Player.{bufsize}
use discord_ext_audiorec.Recorder.Queue.{Packet, PacketQueue, push_back}
use discord_ext_audiorec.Recorder.Queue
use discord_ext_audiorec.Recorder.Offset.{index, calc_offset}

-- What `AudioDecoder` needs for decryption.
pub record Decryption : Type 0 where
  pub cipher : Cipher
  pub encryption : EncryptionMode

-- `None` for an RTCP packet, and otherwise the RTP header.
unfoldable pub decrypt_from_buffer :
    Build → Decryption → AudioBuffer → Result DiscordError (Option (List ℕ) × AudioBuffer)
decrypt_from_buffer cfg self buffer = do
  view ← as_ref buffer
  byte ← index view 1
  require (if cfg.debug_log then leb 5 (length view) else true)
  if leb 200 byte && leb byte 204 then ok (none, buffer) else (do
    (header, opened) ← map_err encryption_error (decrypt cfg self.encryption self.cipher buffer)
    ok (some header, opened))

-- `SsrcPacketQueue`: a `BTreeMap` from SSRCs to queues, in the order of its keys.
abbrev pub SsrcPacketQueue : Type 0 → Type 0
SsrcPacketQueue Time = List (ℕ × PacketQueue Time)

-- `[0; BUFSIZE]` with a datagram received into it, and the size that `recv` returns: what does
-- not fit is cut off.
abbrev pub received : List ℕ → List ℕ
received datagram = take bufsize datagram ++ replicate (bufsize - length datagram) 0

abbrev pub received_size : List ℕ → ℕ
received_size datagram = min (length datagram) bufsize

-- `data.rotate_left(offset)`.
unfoldable pub rotate_array : List ℕ → ℕ → Result DiscordError (List ℕ)
rotate_array xs n = do require (leb n (length xs)); ok (drop n xs ++ take n xs)

module _ {Time : Type 0} where
  -- `queue.entry(ssrc).or_insert_with(PacketQueue::new).push_back(packet)`.
  unfoldable pub push_entry : ℕ → Packet Time → SsrcPacketQueue Time → SsrcPacketQueue Time
  push_entry ssrc p [] = (ssrc, push_back Queue.new p) ∷ []
  push_entry ssrc p ((k, q) ∷ m) =
      if ssrc == k
      then (k, push_back q p) ∷ m
      else if ltb ssrc k
      then (ssrc, push_back Queue.new p) ∷ (k, q) ∷ m
      else (k, q) ∷ push_entry ssrc p m

  -- From the header and the decrypted array to the packet.
  unfoldable pub packet_of_header :
      Build
      → (size : ℕ) → (now : Time) → (header bytes : List ℕ) → Result DiscordError (ℕ × Packet Time)
  unfolding rotate_array
  packet_of_header cfg size now header bytes = do
    h2 ← index header 2
    h3 ← index header 3
    h4 ← index header 4
    h5 ← index header 5
    h6 ← index header 6
    h7 ← index header 7
    h8 ← index header 8
    h9 ← index header 9
    h10 ← index header 10
    h11 ← index header 11
    body ← sub_usize cfg size 12
    offset ← map_err (λ e. absurd e) (calc_offset bytes)
    rotated ← rotate_array bytes offset
    rest ← sub_usize cfg body offset
    ok (
      join32 h8 h9 h10 h11,
      record {
        bytes = rotated;
        size = rest;
        timestamp = join32 h4 h5 h6 h7;
        seq = join16 h2 h3;
        received = now;
      },
    )

  -- The body of the loop, once a datagram has been received.
  unfoldable pub on_datagram :
      Build
      → Decryption
      → (now : Time) → (datagram : List ℕ) → SsrcPacketQueue Time
      → Result DiscordError (SsrcPacketQueue Time)
  on_datagram cfg decoder now datagram queues = do
    let buffer = new (received datagram) (received_size datagram)
    (header, opened) ← decrypt_from_buffer cfg decoder buffer
    elim header [
      | none ↦ ok queues
      | some h ↦ do
        (ssrc, packet) ← packet_of_header cfg (received_size datagram) now h opened.slice
        ok (push_entry ssrc packet queues)
    ]

-- What one round of the loop observes: whether the state is `Recording`, what `recv` returns, and
-- the time.
pub record Round (Time : Type 0) : Type 0 where
  pub recording : Bool
  pub recv : Result IoError (List ℕ)
  pub now : Time

-- How the thread ends; `waiting` while it still runs after the given rounds.
pub data Ending : Type 0 where
  finished waiting panicked : Ending
  failed : DiscordError → Ending

module _ {Time : Type 0} where
  -- One round: the queues and how the loop ends, if it does. The queues are shared, so they stay
  -- as they are when the thread fails.
  unfoldable pub recv_round :
      Build
      → Decryption
      → Round Time
      → SsrcPacketQueue Time
      → Result DiscordError (Option (SsrcPacketQueue Time))
  recv_round cfg decoder r queues = do
    datagram ← map_err io_error r.recv
    if r.recording
        then (do after ← on_datagram cfg decoder r.now datagram queues; ok (some after))
        else ok none

  unfoldable pub recv_loop :
      Build → Decryption → List (Round Time) → SsrcPacketQueue Time → SsrcPacketQueue Time × Ending
  recv_loop cfg decoder [] queues = (queues, waiting)
  recv_loop cfg decoder (r ∷ rs) queues = elim (recv_round cfg decoder r queues) [
    | ok (some after) ↦ recv_loop cfg decoder rs after
    | ok none ↦ (queues, finished)
    | err e ↦ (queues, failed e)
    | panic ↦ (queues, panicked)
  ]
