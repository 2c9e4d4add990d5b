-- ===== src/Player/Loop/Datagrams.antt =====
-- src/player.rs: the RTP header of a datagram of `send_opus_packet`, and a list of such datagrams.
use discord_ext_audiorec.Prelude.{
  ℕ, ◌+◌, ◌%◌, ◌^◌, List, [], ◌∷◌, ◌++◌, length, take, drop, leb, take-append_add, ◌≡◌, refl, arith,
  length-append, ◌∙◌, ap,
}
use discord_ext_audiorec.Prelude.Results.{Result, ok, map_err, bind-eq-ok, map_err-eq-ok, require}
use discord_ext_audiorec.Errors.{IoError, encryption_error}
use discord_ext_audiorec.Buffer.{AudioBuffer, new, slice_to}
use discord_ext_audiorec.Payload.Encryptor.{be16, encrypt}
use discord_ext_audiorec.Player.Encoder.{
  AudioEncoder, send_opus_packet, prepare_packet, after_send, rtp_header,
}

-- The first four bytes of an RTP packet with this sequence number.
abbrev pub Carries : ℕ → List ℕ → Type 0
Carries sequence datagram = take 4 datagram ≡ 0x80 ∷ 0x78 ∷ be16 sequence

-- Each datagram carries the number behind the one before, modulo 2¹⁶; `n` were sent before.
abbrev pub Numbered : ℕ → List (List ℕ) → Type 0
Numbered n [] = Unit {0}
Numbered n (d ∷ ds) = Carries ((n + 1) % 2 ^ 16) d × Numbered (n + 1) ds

Numbered-append :
    (n : ℕ) (ds : List (List ℕ)) (d : List ℕ)
    → Numbered n ds
    → Carries ((n + length ds + 1) % 2 ^ 16) d
    → Numbered n (ds ++ (d ∷ []))
Numbered-append n [] d h c = let e : n + 0 + 1 ≡ n + 1 = omega arith in (rw e at c, tt)
Numbered-append n (e ∷ ds) d h c =
    let k : n + length (e ∷ ds) + 1 ≡ n + 1 + length ds + 1 = omega arith in
    (h.0, Numbered-append (n + 1) ds d h.1 (rw k at c))

slice_to-eq-ok :
    {E : Type 0} (n : ℕ) (xs : List ℕ) {d : List ℕ} → slice_to {E = E} n xs ≡ ok d → d ≡ take n xs
slice_to-eq-ok n xs h = let (u, e, e') = bind-eq-ok (require (leb n (length xs))) _ h in cc e'

module _ {Opus : Type 0} where
  prepare_packet-buff :
      (random : List ℕ) (self : AudioEncoder Opus) (size n : ℕ) (next : AudioEncoder Opus)
      → prepare_packet random self size ≡ ok (n, next)
      → (rest : List ℕ) × (next.buff ≡ rtp_header self.sequence self.timestamp self.ssrc ++ rest)
  unfolding prepare_packet
  prepare_packet-buff random self size n next h =
      let buffer : AudioBuffer = new (drop 12 self.buff) size in
      let header = rtp_header self.sequence self.timestamp self.ssrc in
      let (sealed, e, e') =
        bind-eq-ok (encrypt self.encryption self.cipher random self.lite_nonce header buffer) _ h in
      (sealed.slice, cc e')

  pub send_opus_packet-Carries :
      (random : List ℕ) (send_to : List ℕ → Result IoError ℕ) (self next : AudioEncoder Opus)
      (size : ℕ) (datagram : List ℕ)
      → send_opus_packet random send_to self size ≡ ok (datagram, next)
      → Carries ((self.sequence + 1) % 2 ^ 16) datagram
  unfolding send_opus_packet
  send_opus_packet-Carries random send_to self next size datagram h =
      let self' : AudioEncoder Opus = record self { sequence = (self.sequence + 1) % 2 ^ 16 } in
      let ((n, prepared), e, h') =
        bind-eq-ok (map_err encryption_error (prepare_packet random self' size)) _ h in
      let (d, e', h'') = bind-eq-ok (slice_to (n + 12) prepared.buff) _ h' in
      let (sent, e'', h3) = bind-eq-ok (after_send prepared (send_to d)) _ h'' in
      let (rest, b) =
        prepare_packet-buff random self' size n prepared
          (map_err-eq-ok encryption_error (prepare_packet random self' size) e) in
      let same : datagram ≡ d = cc h3 in
      let cut : datagram ≡ rtp_header self'.sequence self.timestamp self.ssrc ++ take n rest =
        same
        ∙ slice_to-eq-ok (n + 12) prepared.buff e'
        ∙ ap (take (n + 12)) b
        ∙ take-append_add n (rtp_header self'.sequence self.timestamp self.ssrc) rest in
      rw cut refl

-- Counters after these datagrams.
pub record Counted (sequence lite_nonce : ℕ) (sent : List (List ℕ)) : Type 0 where
  pub sequence_eq : sequence ≡ length sent % 2 ^ 16
  pub lite_nonce_eq : lite_nonce ≡ length sent % 2 ^ 32
  pub numbered : Numbered 0 sent

pub Counted-append :
    (sequence lite_nonce : ℕ) (sent : List (List ℕ)) (d : List ℕ)
    → Counted sequence lite_nonce sent
    → Carries ((sequence + 1) % 2 ^ 16) d
    → Counted ((sequence + 1) % 2 ^ 16) ((lite_nonce + 1) % 2 ^ 32) (sent ++ (d ∷ []))
Counted-append sequence lite_nonce sent d h c =
    let n = length-append sent (d ∷ []) in
    let k : (sequence + 1) % 2 ^ 16 ≡ (0 + length sent + 1) % 2 ^ 16 =
      omega (arith, h.sequence_eq) in
    record {
      sequence_eq = omega (arith, h.sequence_eq, n);
      lite_nonce_eq = omega (arith, h.lite_nonce_eq, n);
      numbered = Numbered-append 0 sent d h.numbered (rw k at c);
    }
