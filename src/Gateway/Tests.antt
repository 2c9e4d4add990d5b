-- ===== src/Gateway/Tests.antt =====
-- src/ws.rs: the theorems on the UDP discovery, at concrete inputs.
use Prim.Native.String.{String}
use discord_ext_audiorec.Prelude.{
  ℕ, zero, suc, List, [], ◌∷◌, ◌++◌, replicate, Option, none, some, ◌≡◌, ◌<◌, refl, arith,
}
use discord_ext_audiorec.Prelude.Results.{ok, err}
use discord_ext_audiorec.Errors.{DiscordError}
use discord_ext_audiorec.Payload.Encryptor.{be16}
use discord_ext_audiorec.Gateway.{Exchange, no_socket, udp_discovery, discover}
use discord_ext_audiorec.Gateway.Discovered.{IsResponse, discover-finds}

abbrev text : List ℕ → Option String
text bytes = some "1.2"

abbrev response : List ℕ
response = 0 ∷ 2 ∷ 0 ∷ 70 ∷ 49 ∷ 46 ∷ 50 ∷ 0 ∷ (replicate 60 0 ++ be16 50001)

abbrev answering : Exchange
answering = record { send = λ bytes. ok 70; recv = ok response }

-- The second exchange succeeds.
abbrev second : ℕ → Option Exchange
second zero = none
second (suc n) = some answering

response-IsResponse : IsResponse response (49 ∷ 46 ∷ 50 ∷ []) 50001
response-IsResponse = record {
  head = 0 ∷ 2 ∷ 0 ∷ 70 ∷ [];
  padding = 60;
  four = refl;
  fits = refl;
  no_zero = ((λ e. omega arith), ((λ e. omega arith), ((λ e. omega arith), tt)));
  port_lt = omega arith;
  parts = refl;
}

first_fails : (i : ℕ) → i < 1 → (e : DiscordError) × (udp_discovery text 9 (second i) ≡ err e)
unfolding udp_discovery
first_fails zero h = (no_socket, refl)
first_fails (suc i) h = absurd (omega arith)

discover-finds_example : discover text 9 4 second ≡ ok ("1.2", 50001)
discover-finds_example =
    discover-finds text 9 1 70 second answering response (49 ∷ 46 ∷ 50 ∷ []) 50001 "1.2"
      (omega arith) first_fails refl refl refl response-IsResponse refl

abbrev never : ℕ → Option Exchange
never n = none

never_answers : (n : ℕ) → udp_discovery text 9 (never n) ≡ err no_socket
unfolding udp_discovery
never_answers n = refl
