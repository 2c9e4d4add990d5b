-- ===== src/Payload/Encryptor/Bounds.antt =====
-- src/payload.rs: the lengths at which `decrypt` panics.
use discord_ext_audiorec.Prelude.{
  ℕ, ◌+◌, ◌-◌, ◌≤◌, ◌<◌, List, ◌++◌, length, take, drop, ◌≡◌, ◌≢◌, ◌↔◌, refl, arith, ◌∙◌, sym, ap,
  length-take, length-drop, take-append-drop, true, le→leb, lt→leb_false, ◌⊎◌, inl, inr,
}
use discord_ext_audiorec.Prelude.Results.{Result, ok, err, panic, ◌>>=◌, Build}
use discord_ext_audiorec.Buffer.{AudioBuffer, AeadError, IsSane, contents}
use discord_ext_audiorec.Buffer.Laws.{length-contents, as_ref_lem, rotate_left_lem}
use discord_ext_audiorec.Payload.Mode.{
  EncryptionMode, xsalsa20_poly1305, xsalsa20_poly1305_suffix, xsalsa20_poly1305_lite,
}
use discord_ext_audiorec.Payload.Cipher.{Cipher, IsAead}
use discord_ext_audiorec.Payload.Encryptor.{decrypt}
use discord_ext_audiorec.Payload.Encryptor.Wire.{
  IsPacket, trailer_len, decrypt_packet, packet_cut, packet_cut-IsSane,
}

-- The number of bytes of the sealed message in a buffer.
abbrev body_len : EncryptionMode → AudioBuffer → ℕ
body_len m b = b.len - 12 - trailer_len m

-- Any buffer that is long enough is a packet.
pub IsPacket-of :
    (m : EncryptionMode) (b : AudioBuffer)
    → IsSane b
    → 12 + trailer_len m ≤ b.len
    → IsPacket m b
        (take 12 (contents b))
        (take (body_len m b) (drop 12 (contents b)))
        (drop (body_len m b) (drop 12 (contents b)))
IsPacket-of m b s h = record {
  sane = s;
  length_header = omega (arith, length-take 12 (contents b), length-contents b s);
  length_trailer = omega (
    arith,
    length-drop (body_len m b) (drop 12 (contents b)),
    length-drop 12 (contents b),
    length-contents b s,
  );
  parts = sym (
      ap (◌++◌ (take 12 (contents b))) (take-append-drop (body_len m b) (drop 12 (contents b)))
      ∙ take-append-drop 12 (contents b));
}

bind-ne-panic :
    (header : List ℕ) (r : Result AeadError AudioBuffer)
    → r ≢ panic
    → ◌>>=◌ {B = List ℕ × AudioBuffer} r (λ o. ok (header, o)) ≢ panic
bind-ne-panic header (ok b) h e = cc
bind-ne-panic header (err x) h e = cc
bind-ne-panic header panic h e = h refl

length_tail :
    (k : ℕ) (b : AudioBuffer) → IsSane b → k ≤ b.len → length (drop (b.len - k) (contents b)) ≡ k
length_tail k b s h = omega (arith, length-drop (b.len - k) (contents b), length-contents b s)

le_or_lt : (k n : ℕ) → (k ≤ n) ⊎ (n < k)
le_or_lt k n = omega arith

module _ (cfg : Build) (c : Cipher) where
  decrypt_long :
      IsAead c
      → (m : EncryptionMode) (b : AudioBuffer) → IsSane b
      → 12 + trailer_len m ≤ b.len
      → decrypt cfg m c b ≢ panic
  decrypt_long aead m b s h e =
      let p = IsPacket-of m b s h in
      bind-ne-panic _ _ (aead.decrypt_answers _ (packet_cut cfg c p) (packet_cut-IsSane cfg c p))
        (sym (decrypt_packet cfg c m p) ∙ e)

  -- A buffer with no room for the header panics, in every mode and every build.
  pub decrypt_no_header :
      (m : EncryptionMode) (b : AudioBuffer) → IsSane b → b.len < 12 → decrypt cfg m c b ≡ panic
  unfolding decrypt
  decrypt_no_header xsalsa20_poly1305 b s h =
      rw
        (as_ref_lem b s, lt→leb_false 12 (length (contents b)) (omega (arith, length-contents b s)))
  decrypt_no_header xsalsa20_poly1305_suffix b s h =
      rw
        (as_ref_lem b s, lt→leb_false 12 (length (contents b)) (omega (arith, length-contents b s)))
  decrypt_no_header xsalsa20_poly1305_lite b s h =
      rw
        (as_ref_lem b s, lt→leb_false 12 (length (contents b)) (omega (arith, length-contents b s)))

  decrypt_short :
      (m : EncryptionMode) (b : AudioBuffer)
      → cfg.overflow_checks ≡ true
      → IsSane b
      → b.len < 12 + trailer_len m
      → decrypt cfg m c b ≡ panic
  unfolding decrypt
  decrypt_short xsalsa20_poly1305 b o s h = decrypt_no_header xsalsa20_poly1305 b s h
  decrypt_short xsalsa20_poly1305_suffix b o s h = elim (le_or_lt 12 b.len) [
    | inr headless ↦ decrypt_no_header xsalsa20_poly1305_suffix b s headless
    | inl head ↦ elim (le_or_lt 24 b.len) [
      | inr no_nonce ↦ rw (
        as_ref_lem b s,
        le→leb 12 (length (contents b)) (omega (arith, length-contents b s)),
        lt→leb_false 24 b.len no_nonce,
        o,
      )
      | inl nonce ↦ rw (
        as_ref_lem b s,
        le→leb 12 (length (contents b)) (omega (arith, length-contents b s)),
        le→leb 24 b.len nonce,
        le→leb (b.len - 24) (length (contents b)) (omega (arith, length-contents b s)),
        length_tail 24 b s nonce,
        rotate_left_lem b 12 s head,
        lt→leb_false 36 b.len h,
        o,
      )
    ]
  ]
  decrypt_short xsalsa20_poly1305_lite b o s h = elim (le_or_lt 12 b.len) [
    | inr headless ↦ decrypt_no_header xsalsa20_poly1305_lite b s headless
    | inl head ↦ rw (
      as_ref_lem b s,
      le→leb 12 (length (contents b)) (omega (arith, length-contents b s)),
      le→leb 4 b.len (omega arith),
      le→leb (b.len - 4) (length (contents b)) (omega (arith, length-contents b s)),
      length_tail 4 b s (omega arith),
      rotate_left_lem b 12 s head,
      lt→leb_false 16 b.len h,
      o,
    )
  ]

  -- In a build with overflow checks, and with a cipher that keeps its interface, `decrypt` panics
  -- on exactly those sane buffers that are shorter than a header and the mode's trailer.
  pub decrypt-panic_iff :
      IsAead c
      → (m : EncryptionMode) (b : AudioBuffer) → cfg.overflow_checks ≡ true
      → IsSane b
      → (decrypt cfg m c b ≡ panic) ↔ (b.len < 12 + trailer_len m)
  decrypt-panic_iff aead m b o s = (
    (λ e. elim (le_or_lt (12 + trailer_len m) b.len) [
      | inl h ↦ absurd (decrypt_long aead m b s h e)
      | inr h ↦ h
    ]),
    decrypt_short m b o s,
  )
