-- ===== src/Player/Encoder/Nonces.antt =====
-- src/player.rs: the nonces of the datagrams that encoders with one key seal.
use discord_ext_audiorec.Prelude.{
  ℕ, zero, suc, ◌+◌, ◌-◌, ◌%◌, ◌^◌, ◌<◌, List, [], ◌∷◌, ◌++◌, length, drop, get_elem?, some, ◌≡◌,
  ◌≢◌, refl, arith, ◌∙◌, sym, ap, append_assoc, length-append, drop-append_eq,
}
use discord_ext_audiorec.Prelude.Bits.{join32}
use discord_ext_audiorec.Payload.Mode.{
  EncryptionMode, xsalsa20_poly1305, xsalsa20_poly1305_suffix, xsalsa20_poly1305_lite,
}
use discord_ext_audiorec.Payload.Cipher.{IsAead}
use discord_ext_audiorec.Payload.Encryptor.{be32}
use discord_ext_audiorec.Payload.Encryptor.Wire.{nonce_out, trailer_out}
use discord_ext_audiorec.Player.Encoder.{AudioEncoder}
use discord_ext_audiorec.Player.Encoder.Stream.{next_header, next_nonce, wire_of, counted, wires}
use discord_ext_audiorec.Recorder.Receive.Fields.{join32-be32}

-- The last four bytes: the nonce that a datagram of the lite mode carries.
abbrev pub last_4 : List ℕ → List ℕ
last_4 d = drop (length d - 4) d

join_list : List ℕ → ℕ
join_list (a ∷ b ∷ c ∷ d ∷ []) = join32 a b c d
join_list xs = 0

pub be32_injective : (m n : ℕ) → m < 2 ^ 32 → n < 2 ^ 32 → be32 m ≡ be32 n → m ≡ n
unfolding join_list
be32_injective m n hm hn e = sym (join32-be32 m hm) ∙ ap join_list e ∙ join32-be32 n hn

-- Two datagrams sealed under one nonce.
pub record SealedAlike (seal : List ℕ → List ℕ → List ℕ) (d d' : List ℕ) : Type 0 where
  pub nonce : List ℕ
  pub header : List ℕ
  pub message : List ℕ
  pub message' : List ℕ
  pub trailer : List ℕ
  pub sealed : d ≡ header ++ (seal nonce message ++ trailer)
  pub sealed' : d' ≡ header ++ (seal nonce message' ++ trailer)

-- The first of the one with the first of the other, and so on, as long as both go on.
abbrev pub PairedAlike : (List ℕ → List ℕ → List ℕ) → (ds ds' : List (List ℕ)) → Type 0
PairedAlike seal [] ds' = Unit {0}
PairedAlike seal (d ∷ ds) [] = Unit {0}
PairedAlike seal (d ∷ ds) (d' ∷ ds') = SealedAlike seal d d' × PairedAlike seal ds ds'

-- Only the suffix mode draws its nonces at random.
nonce_out_random :
    (m : EncryptionMode) (random random' : List ℕ) (lite : ℕ) (header : List ℕ)
    → m ≢ xsalsa20_poly1305_suffix
    → (nonce_out m random' lite header ≡ nonce_out m random lite header)
      × (trailer_out m random' lite header ≡ trailer_out m random lite header)
nonce_out_random xsalsa20_poly1305 random random' lite header h = (refl, refl)
nonce_out_random xsalsa20_poly1305_suffix random random' lite header h = absurd (h refl)
nonce_out_random xsalsa20_poly1305_lite random random' lite header h = (refl, refl)

module _ {Opus : Type 0} where
  wire_last :
      (e : AudioEncoder Opus) (aead : IsAead e.cipher) (random message : List ℕ)
      → e.encryption ≡ xsalsa20_poly1305_lite
      → last_4 (wire_of e aead random message) ≡ be32 e.lite_nonce
  wire_last e aead random message h =
      let header : List ℕ = next_header e in
      let trailer : List ℕ = trailer_out e.encryption random e.lite_nonce header in
      let body : List ℕ = aead.seal (next_nonce e random) message in
      let four : trailer ≡ be32 e.lite_nonce = rw h refl in
      let long : length trailer ≡ 4 = ap length four in
      rw (← append_assoc header body trailer) (
        drop-append_eq (length (header ++ body ++ trailer) - 4) (header ++ body) trailer
          (omega (arith, long, length-append (header ++ body) trailer)))
      ∙ four

  pub wires-last_4 :
      (e : AudioEncoder Opus) (aead : IsAead e.cipher) (ms : List (List ℕ × List ℕ)) (i : ℕ)
      (d : List ℕ)
      → e.encryption ≡ xsalsa20_poly1305_lite
      → e.lite_nonce < 2 ^ 32
      → get_elem? (wires e aead ms) i ≡ some d
      → last_4 d ≡ be32 ((e.lite_nonce + i) % 2 ^ 32)
  wires-last_4 e aead [] i d h lt k = absurd (cc)
  wires-last_4 e aead (m ∷ ms) zero d h lt k =
      let same : wire_of e aead m.0 m.1 ≡ d = cc in
      let n : e.lite_nonce ≡ (e.lite_nonce + zero) % 2 ^ 32 = omega arith in
      ap last_4 (sym same) ∙ wire_last e aead m.0 m.1 h ∙ ap be32 n
  wires-last_4 e aead (m ∷ ms) (suc i) d h lt k =
      let n : ((e.lite_nonce + 1) % 2 ^ 32 + i) % 2 ^ 32 ≡ (e.lite_nonce + suc i) % 2 ^ 32 =
        omega arith in
      wires-last_4 (counted e) aead ms i d h (omega arith) k ∙ ap be32 n

  pub wires-PairedAlike :
      (e : AudioEncoder Opus) (aead : IsAead e.cipher) (opus : Opus) (pcm buff : List ℕ)
      (ms ms' : List (List ℕ × List ℕ))
      → e.encryption ≢ xsalsa20_poly1305_suffix
      → PairedAlike aead.seal
          (wires e aead ms)
          (wires (record e { opus = opus; pcm_buff = pcm; buff = buff }) aead ms')
  wires-PairedAlike e aead opus pcm buff [] ms' h = tt
  wires-PairedAlike e aead opus pcm buff (m ∷ ms) [] h = tt
  wires-PairedAlike e aead opus pcm buff (m ∷ ms) (m' ∷ ms') h =
      let header : List ℕ = next_header e in
      let (n, t) = nonce_out_random e.encryption m.0 m'.0 e.lite_nonce header h in
      (
        record {
          nonce = next_nonce e m.0;
          header = header;
          message = m.1;
          message' = m'.1;
          trailer = trailer_out e.encryption m.0 e.lite_nonce header;
          sealed = refl;
          sealed' =
              ap
                (λ k.
                  header ++ (aead.seal k m'.1 ++ trailer_out e.encryption m'.0 e.lite_nonce header))
                n
              ∙ ap (λ k. header ++ (aead.seal (next_nonce e m.0) m'.1 ++ k)) t;
        },
        wires-PairedAlike (counted e) aead opus pcm buff ms ms' h,
      )
