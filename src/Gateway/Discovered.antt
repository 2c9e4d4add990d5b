-- ===== src/Gateway/Discovered.antt =====
-- src/ws.rs: what the UDP discovery finds.
use Prim.Native.String.{String}
use discord_ext_audiorec.Prelude.{
  ℕ, zero, suc, ◌+◌, ◌/◌, ◌%◌, ◌^◌, ◌≤◌, ◌<◌, List, [], ◌∷◌, ◌++◌, length, take, drop, replicate,
  get_elem?, All, Option, some, ◌≡◌, ◌≢◌, refl, arith, ◌∙◌, ap, sym, ne→==_false, length-append,
  take-append_eq, take_all, drop-append_eq, length-replicate, append-nil,
}
use discord_ext_audiorec.Prelude.Results.{ok, err}
use discord_ext_audiorec.Errors.{DiscordError}
use discord_ext_audiorec.Payload.Encryptor.{be16}
use discord_ext_audiorec.Gateway.{
  Exchange, request, received_70, position_zero, read_response, udp_discovery, discover,
}

-- A response: four bytes, the address, zeros, and the port.
pub record IsResponse (response address : List ℕ) (port : ℕ) : Type 0 where
  pub head : List ℕ
  pub padding : ℕ
  pub four : length head ≡ 4
  pub fits : length address + padding ≡ 63
  pub no_zero : All (λ b. b ≢ 0) address
  pub port_lt : port < 2 ^ 16
  pub parts : response ≡ head ++ (address ++ (0 ∷ (replicate padding 0 ++ be16 port)))

position_zero-append :
    (address rest : List ℕ)
    → All (λ b. b ≢ 0) address
    → position_zero (address ++ (0 ∷ rest)) ≡ some (length address)
unfolding position_zero
position_zero-append [] rest h = refl
position_zero-append (b ∷ bs) rest h =
    rw (ne→==_false b 0 h.0, position_zero-append bs rest h.1) refl

get_elem?-append_right {ℓ} :
    {A : Type ℓ} (xs ys : List A) (n i : ℕ)
    → n ≡ length xs + i
    → get_elem? (xs ++ ys) n ≡ get_elem? ys i
get_elem?-append_right [] ys n i h = ap (λ (k : ℕ). get_elem? ys k) (omega arith)
get_elem?-append_right (x ∷ xs) ys zero i h = absurd (omega arith)
get_elem?-append_right (x ∷ xs) ys (suc n) i h = get_elem?-append_right xs ys n i (omega arith)

module _ (utf8 : List ℕ → Option String) where
  read_response_lem :
      (response address : List ℕ) (port : ℕ) (ip : String)
      → IsResponse response address port
      → utf8 address ≡ some ip
      → read_response utf8 response ≡ ok (ip, port)
  unfolding read_response
  read_response_lem response address port ip x u =
      rw (behind_head, found, front, u, at_68, at_69)
        (ap (λ (p : ℕ). ok (ip, p)) (omega (arith, x.port_lt)))
    where
      tail : List ℕ
      tail = replicate x.padding 0 ++ be16 port

      behind_head : drop 4 response ≡ address ++ (0 ∷ tail)
      behind_head = rw x.parts (drop-append_eq 4 x.head (address ++ (0 ∷ tail)) (sym x.four))

      found : position_zero (address ++ (0 ∷ tail)) ≡ some (length address)
      found = position_zero-append address tail x.no_zero

      front : take (length address) (address ++ (0 ∷ tail)) ≡ address
      front = take-append_eq (length address) address (0 ∷ tail) refl

      port_at : (i : ℕ) → get_elem? response (68 + i) ≡ get_elem? (be16 port) i
      port_at i =
          ap (λ r. get_elem? r (68 + i)) x.parts
          ∙ get_elem?-append_right x.head (address ++ (0 ∷ tail)) (68 + i) (64 + i)
              (omega (arith, x.four))
          ∙ get_elem?-append_right address (0 ∷ tail) (64 + i) (suc (x.padding + i))
              (omega (arith, x.fits))
          ∙ get_elem?-append_right (replicate x.padding 0) (be16 port) (x.padding + i) i
              (omega (arith, length-replicate {A = ℕ} x.padding 0))

      at_68 : get_elem? response 68 ≡ some (port / 2 ^ 8 % 256)
      at_68 = port_at 0

      at_69 : get_elem? response 69 ≡ some (port % 256)
      at_69 = port_at 1

  -- The exchange at which the loop stops, if the ones before it fail without a panic.
  discover_at :
      (ssrc left k : ℕ) (exchanges : ℕ → Option Exchange) (found : String × ℕ)
      → k ≤ left
      → ((i : ℕ) → i < k → (e : DiscordError) × (udp_discovery utf8 ssrc (exchanges i) ≡ err e))
      → udp_discovery utf8 ssrc (exchanges k) ≡ ok found
      → discover utf8 ssrc left exchanges ≡ ok found
  unfolding discover
  discover_at ssrc zero k exchanges found h failed e =
      let first : k ≡ 0 = omega arith in rw first at e
  discover_at ssrc (suc left) zero exchanges found h failed e = rw (e, discover) refl
  discover_at ssrc (suc left) (suc k) exchanges found h failed e =
      let (x, first) = failed 0 (omega arith) in
      rw (first, discover)
        (discover_at ssrc left k (λ n. exchanges (suc n)) found (omega arith)
          (λ i lt. failed (suc i) (omega arith)) e)

  discover_never :
      (ssrc left : ℕ) (exchanges : ℕ → Option Exchange) (e : DiscordError)
      → ((i : ℕ) → i < left → (e : DiscordError) × (udp_discovery utf8 ssrc (exchanges i) ≡ err e))
      → udp_discovery utf8 ssrc (exchanges left) ≡ err e
      → discover utf8 ssrc left exchanges ≡ err e
  unfolding discover
  discover_never ssrc zero exchanges e failed last = last
  discover_never ssrc (suc left) exchanges e failed last =
      let (x, first) = failed 0 (omega arith) in
      rw (first, discover)
        (discover_never ssrc left (λ n. exchanges (suc n)) e (λ i lt. failed (suc i) (omega arith))
          last)

  length-response :
      (response address : List ℕ) (port : ℕ)
      → IsResponse response address port
      → length response ≡ 70
  length-response response address port x = omega (
    arith,
    ap length x.parts,
    length-append x.head (address ++ (0 ∷ (replicate x.padding 0 ++ be16 port))),
    length-append address (0 ∷ (replicate x.padding 0 ++ be16 port)),
    length-append (replicate x.padding 0) (be16 port),
    length-replicate {A = ℕ} x.padding 0,
    x.four,
    x.fits,
  )

  -- Five exchanges are tried. If one of them answers with a response of 70 bytes, and those before
  -- it fail without a panic, the loop finds the address and the port of that response.
  pub discover-finds :
      (ssrc k n : ℕ) (exchanges : ℕ → Option Exchange) (socket : Exchange)
      (response address : List ℕ) (port : ℕ) (ip : String)
      → k ≤ 4
      → ((i : ℕ) → i < k → (e : DiscordError) × (udp_discovery utf8 ssrc (exchanges i) ≡ err e))
      → exchanges k ≡ some socket
      → socket.send (request ssrc) ≡ ok n
      → socket.recv ≡ ok response
      → IsResponse response address port
      → utf8 address ≡ some ip
      → discover utf8 ssrc 4 exchanges ≡ ok (ip, port)
  unfolding udp_discovery
  discover-finds ssrc k n exchanges socket response address port ip h failed at sent got x u =
      discover_at ssrc 4 k exchanges (ip, port) h failed
        (rw (at, sent, got, whole) (read_response_lem response address port ip x u))
    where
      len : length response ≡ 70
      len = length-response response address port x

      whole : received_70 response ≡ response
      whole = rw len (append-nil (take 70 response) ∙ take_all 70 response (omega (arith, len)))

  -- If none of the first four exchanges panics or succeeds, and the fifth fails, the loop fails with
  -- the error of the fifth.
  pub discover-fails :
      (ssrc : ℕ) (exchanges : ℕ → Option Exchange) (e : DiscordError)
      → ((i : ℕ) → i < 4 → (e : DiscordError) × (udp_discovery utf8 ssrc (exchanges i) ≡ err e))
      → udp_discovery utf8 ssrc (exchanges 4) ≡ err e
      → discover utf8 ssrc 4 exchanges ≡ err e
  discover-fails ssrc exchanges e failed last = discover_never ssrc 4 exchanges e failed last
