-- ===== src/Gateway.antt =====
-- src/ws.rs: the UDP discovery of `VoiceGateway`, with the retries in `handle_ready`. The gateway
-- itself is the module `Session`, and `VoiceGatewayBuilder` is `Builder`.
pub mod Discovered
pub mod Action
pub mod Session
pub mod Builder
mod Tests
use Prim.Native.String.{String}
use discord_ext_audiorec.Prelude.{
  ℕ, zero, suc, ◌+◌, ◌-◌, ◌*◌, List, [], ◌∷◌, ◌++◌, length, take, drop, replicate, get_elem?, ◌==◌,
  if◌then◌else◌, Option, none, some,
}
use discord_ext_audiorec.Prelude.Results.{Result, ok, err, panic, ◌>>=◌, ◌>>◌, map_err}
use discord_ext_audiorec.Errors.{DiscordError, io_error, IoError, other}
use discord_ext_audiorec.Payload.Encryptor.{be16, be32}
use discord_ext_audiorec.Recorder.Offset.{index}

-- One exchange on the socket: what `send` answers to the request, and what `recv` receives.
pub record Exchange : Type 0 where
  pub send : List ℕ → Result IoError ℕ
  pub recv : Result IoError (List ℕ)

-- The 70 bytes that are sent.
unfoldable pub request : (ssrc : ℕ) → List ℕ
request ssrc = be16 1 ++ (be16 70 ++ (be32 ssrc ++ replicate 62 0))

-- `[0_u8; 70]` after `recv`.
abbrev pub received_70 : List ℕ → List ℕ
received_70 datagram = take 70 datagram ++ replicate (70 - length datagram) 0

-- `iter().position(|&b| b == 0)`.
unfoldable pub position_zero : List ℕ → Option ℕ
position_zero [] = none
position_zero (b ∷ bs) =
    if b == 0 then some 0 else elim (position_zero bs) [ none ↦ none | some n ↦ some (suc n) ]

abbrev pub invalid_ip : DiscordError
invalid_ip = io_error (record { kind = other; message = "invalid IP found" })

abbrev pub no_socket : DiscordError
no_socket = io_error (record { kind = other; message = "No socket found" })

-- `ok_or_else`.
abbrev pub ok_or : {A : Type 0} → DiscordError → Option A → Result DiscordError A
ok_or e none = err e
ok_or e (some x) = ok x

-- `utf8` is `std::str::from_utf8`.
module _ (utf8 : List ℕ → Option String) where
  unfoldable pub read_response : List ℕ → Result DiscordError (String × ℕ)
  unfolding position_zero
  read_response buff = do
    ip_end ← ok_or invalid_ip (position_zero (drop 4 buff))
    ip ← ok_or invalid_ip (utf8 (take ip_end (drop 4 buff)))
    high ← index buff 68
    low ← index buff 69
    ok (ip, high * 256 + low)

  unfoldable pub udp_discovery : (ssrc : ℕ) → Option Exchange → Result DiscordError (String × ℕ)
  unfolding request read_response
  udp_discovery ssrc none = err no_socket
  udp_discovery ssrc (some socket) = do
    sent ← map_err io_error (socket.send (request ssrc))
    datagram ← map_err io_error socket.recv
    read_response (received_70 datagram)

  -- The loop of `handle_ready`: `left` is `4 - retry`, and the exchanges are those still to come.
  unfoldable pub discover :
      (ssrc left : ℕ) → (ℕ → Option Exchange) → Result DiscordError (String × ℕ)
  unfolding udp_discovery
  discover ssrc zero exchanges = udp_discovery ssrc (exchanges 0)
  discover ssrc (suc left) exchanges =
      let later = discover ssrc left (λ n. exchanges (suc n)) in
      elim (udp_discovery ssrc (exchanges 0)) [
        | ok data' ↦ ok data'
        | err e ↦ later
        | panic ↦ panic
      ]
