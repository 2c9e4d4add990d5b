-- ===== src/Payload/Encryptor/Wire.antt =====
-- src/payload.rs: what `encrypt` writes behind a packet's header and what `decrypt` hands to the
-- cipher, mode by mode.
use discord_ext_audiorec.Prelude.{
  ℕ, ◌+◌, ◌-◌, ◌≤◌, List, ◌++◌, length, take, drop, replicate, ◌≡◌, refl, arith, ◌∙◌, sym, ap,
  take-append_eq, drop-append_eq, length-append, append_assoc, le→leb,
}
use discord_ext_audiorec.Prelude.Results.{Result, ok, ◌>>=◌, Build, sub_usize}
use discord_ext_audiorec.Buffer.{
  AudioBuffer, AeadError, extend_from_slice, truncate, rotate_left, IsSane, contents,
}
use discord_ext_audiorec.Buffer.Laws.{
  length-contents, as_ref_lem, extended, extend_from_slice_fits, extended-IsSane, contents-extended,
  truncated, truncate_shorter, truncated-IsSane, contents-truncated, rotated, rotate_left_lem,
  rotated-IsSane, contents-rotated,
}
use discord_ext_audiorec.Payload.Mode.{
  EncryptionMode, xsalsa20_poly1305, xsalsa20_poly1305_suffix, xsalsa20_poly1305_lite,
}
use discord_ext_audiorec.Payload.Cipher.{Cipher, IsAead, Holds}
use discord_ext_audiorec.Payload.Encryptor.{encrypt, decrypt, be32}

-- The nonce under which `encrypt` seals, and the bytes that it appends.
abbrev pub nonce_out : EncryptionMode → List ℕ → ℕ → List ℕ → List ℕ
nonce_out xsalsa20_poly1305 random lite header = header ++ replicate 12 0
nonce_out xsalsa20_poly1305_suffix random lite header = random
nonce_out xsalsa20_poly1305_lite random lite header = be32 lite ++ replicate 20 0

abbrev pub trailer_out : EncryptionMode → List ℕ → ℕ → List ℕ → List ℕ
trailer_out xsalsa20_poly1305 random lite header = header ++ replicate 12 0
trailer_out xsalsa20_poly1305_suffix random lite header = random
trailer_out xsalsa20_poly1305_lite random lite header = be32 lite

-- The number of trailing bytes that `decrypt` takes off, and the nonce under which it opens.
abbrev pub trailer_len : EncryptionMode → ℕ
trailer_len xsalsa20_poly1305 = 0
trailer_len xsalsa20_poly1305_suffix = 24
trailer_len xsalsa20_poly1305_lite = 4

abbrev pub nonce_in : EncryptionMode → List ℕ → List ℕ → List ℕ
nonce_in xsalsa20_poly1305 header trailer = header ++ replicate 12 0
nonce_in xsalsa20_poly1305_suffix header trailer = trailer
nonce_in xsalsa20_poly1305_lite header trailer = trailer ++ replicate 20 0

module _ (c : Cipher) (aead : IsAead c) where
  seal_extend :
      (nonce trailer : List ℕ) (b : AudioBuffer)
      → IsSane b
      → b.len + 16 + length trailer ≤ b.capacity
      → Holds b
          (aead.seal nonce (contents b) ++ trailer)
          (c.encrypt_in_place nonce b >>= λ s. extend_from_slice s trailer)
  seal_extend nonce trailer b s h = record {
    buffer = extended sealed.buffer trailer;
    returns = rw sealed.returns (extend_from_slice_fits sealed.buffer trailer sealed.sane room);
    sane = extended-IsSane sealed.buffer trailer sealed.sane room;
    same_capacity = sealed.same_capacity;
    holds =
        contents-extended sealed.buffer trailer sealed.sane ∙ ap (λ t. t ++ trailer) sealed.holds;
  }
    where
      sealed : Holds b (aead.seal nonce (contents b)) (c.encrypt_in_place nonce b)
      sealed = aead.encrypt_fits nonce b s (omega arith)

      room : sealed.buffer.len + length trailer ≤ sealed.buffer.capacity
      room = omega (
        arith,
        sealed.same_capacity,
        ap length sealed.holds,
        length-contents sealed.buffer sealed.sane,
        length-contents b s,
        aead.length-seal nonce (contents b),
      )

  -- With a header of twelve bytes and a sane buffer that has room, `encrypt` replaces the message
  -- by its sealed form, followed by the trailer.
  pub encrypt_wire :
      (m : EncryptionMode) (random : List ℕ) (lite : ℕ) (header : List ℕ) (b : AudioBuffer)
      → length header ≡ 12
      → IsSane b
      → b.len + 16 + length (trailer_out m random lite header) ≤ b.capacity
      → Holds b
          (aead.seal (nonce_out m random lite header) (contents b)
            ++ trailer_out m random lite header)
          (encrypt m c random lite header b)
  unfolding encrypt
  encrypt_wire xsalsa20_poly1305 random lite header b hl s h =
      rw hl (seal_extend (header ++ replicate 12 0) (header ++ replicate 12 0) b s h)
  encrypt_wire xsalsa20_poly1305_suffix random lite header b hl s h =
      seal_extend random random b s h
  encrypt_wire xsalsa20_poly1305_lite random lite header b hl s h =
      seal_extend (be32 lite ++ replicate 20 0) (be32 lite) b s h

-- A packet in a buffer: header, sealed message, trailer.
pub record IsPacket (m : EncryptionMode) (b : AudioBuffer) (header body trailer : List ℕ)
    : Type 0 where
  pub sane : IsSane b
  pub length_header : length header ≡ 12
  pub length_trailer : length trailer ≡ trailer_len m
  pub parts : contents b ≡ header ++ (body ++ trailer)

pub length-packet :
    {m : EncryptionMode} {b : AudioBuffer} {header body trailer : List ℕ}
    → IsPacket m b header body trailer
    → b.len ≡ 12 + length body + trailer_len m
length-packet {m} {b} {header} {body} {trailer} p = omega (
  arith,
  ap length p.parts,
  length-contents b p.sane,
  length-append header (body ++ trailer),
  length-append body trailer,
  p.length_header,
  p.length_trailer,
)

module _ (cfg : Build) (c : Cipher) where
  -- The end that the three branches of `decrypt` share.
  abbrev finish : List ℕ → List ℕ → ℕ → AudioBuffer → Result AeadError (List ℕ × AudioBuffer)
  finish header nonce k buffer = do
    rotated ← rotate_left buffer 12
    n ← sub_usize cfg rotated.len k
    cut ← truncate rotated n
    opened ← c.decrypt_in_place nonce cut
    ok (header, opened)

  -- What the cipher is handed.
  abbrev pub cut : AudioBuffer → ℕ → AudioBuffer
  cut b k = truncated (rotated b 12) (b.len - k)

  finish_lem :
      (header nonce : List ℕ) (k : ℕ) (b : AudioBuffer)
      → IsSane b
      → 12 ≤ b.len
      → 12 ≤ k
      → k ≤ b.len
      → finish header nonce k b
        ≡ (c.decrypt_in_place nonce (cut b k) >>= λ opened. ok (header, opened))
  finish_lem header nonce k b s h12 hk hb =
      rw
        (
          rotate_left_lem b 12 s h12,
          le→leb k b.len hb,
          truncate_shorter (rotated b 12) (b.len - k) (rotated-IsSane b 12 s h12) (omega arith),
        )
        refl

  cut-IsSane :
      (b : AudioBuffer) (k : ℕ) → IsSane b → 12 ≤ b.len → 12 ≤ k → k ≤ b.len → IsSane (cut b k)
  cut-IsSane b k s h12 hk hb =
      truncated-IsSane (rotated b 12) (b.len - k) (rotated-IsSane b 12 s h12) (omega arith)

  module _ {m : EncryptionMode} {b : AudioBuffer} {header body trailer : List ℕ}
      (p : IsPacket m b header body trailer) where
    abbrev pub packet_cut : AudioBuffer
    packet_cut = cut b (12 + trailer_len m)

    pub packet_cut-IsSane : IsSane packet_cut
    packet_cut-IsSane =
        cut-IsSane b (12 + trailer_len m) p.sane (omega (arith, length-packet p)) (omega arith)
          (omega (arith, length-packet p))

    take-header : take 12 (contents b) ≡ header
    take-header = rw p.parts (take-append_eq 12 header (body ++ trailer) (sym p.length_header))

    drop_header : drop 12 (contents b) ≡ body ++ trailer
    drop_header = rw p.parts (drop-append_eq 12 header (body ++ trailer) (sym p.length_header))

    drop_body : drop (b.len - trailer_len m) (contents b) ≡ trailer
    drop_body =
        rw (p.parts, ← append_assoc header body trailer)
          (drop-append_eq (b.len - trailer_len m) (header ++ body) trailer
            (omega (arith, length-packet p, length-append header body, p.length_header)))

    pub contents-packet_cut : contents packet_cut ≡ body
    contents-packet_cut =
        contents-truncated (rotated b 12) (b.len - (12 + trailer_len m))
          (rotated-IsSane b 12 p.sane (omega (arith, length-packet p)))
          (omega (arith, length-packet p))
        ∙ ap (take (b.len - (12 + trailer_len m)))
            (contents-rotated b 12 p.sane (omega (arith, length-packet p)))
        ∙ rw (drop_header, append_assoc body trailer (take 12 (contents b)))
            (take-append_eq _ body _ (omega (arith, length-packet p)))

-- The part of `decrypt` before the rotation finds the header and the nonce.
opens_with :
    (cfg : Build) (c : Cipher) (m : EncryptionMode) {b : AudioBuffer} {header body trailer : List ℕ}
    (p : IsPacket m b header body trailer)
    → decrypt cfg m c b ≡ finish cfg c header (nonce_in m header trailer) (12 + trailer_len m) b
unfolding decrypt
opens_with cfg c xsalsa20_poly1305 {b} {header} {body} {trailer} p = rw (
  as_ref_lem b p.sane,
  le→leb 12 (length (contents b)) (omega (arith, length-contents b p.sane, length-packet p)),
  take-header cfg c p,
)
opens_with cfg c xsalsa20_poly1305_suffix {b} {header} {body} {trailer} p = rw (
  as_ref_lem b p.sane,
  le→leb 12 (length (contents b)) (omega (arith, length-contents b p.sane, length-packet p)),
  take-header cfg c p,
  le→leb 24 b.len (omega (arith, length-packet p)),
  le→leb (b.len - 24) (length (contents b)) (omega (arith, length-contents b p.sane)),
  drop_body cfg c p,
  p.length_trailer,
)
opens_with cfg c xsalsa20_poly1305_lite {b} {header} {body} {trailer} p = rw (
  as_ref_lem b p.sane,
  le→leb 12 (length (contents b)) (omega (arith, length-contents b p.sane, length-packet p)),
  take-header cfg c p,
  le→leb 4 b.len (omega (arith, length-packet p)),
  le→leb (b.len - 4) (length (contents b)) (omega (arith, length-contents b p.sane)),
  drop_body cfg c p,
  p.length_trailer,
)

-- On a packet `decrypt` hands the cipher the sealed message alone, under the mode's nonce, and
-- returns the header with what the cipher opens.
pub decrypt_packet :
    (cfg : Build) (c : Cipher) (m : EncryptionMode) {b : AudioBuffer} {header body trailer : List ℕ}
    (p : IsPacket m b header body trailer)
    → decrypt cfg m c b ≡ (
        c.decrypt_in_place (nonce_in m header trailer) (packet_cut cfg c p) >>= λ opened.
        ok (header, opened))
decrypt_packet cfg c m {b} {header} {body} {trailer} p =
    opens_with cfg c m p
    ∙ finish_lem cfg c header (nonce_in m header trailer) (12 + trailer_len m) b p.sane
        (omega (arith, length-packet p)) (omega arith) (omega (arith, length-packet p))
