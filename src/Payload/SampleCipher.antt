-- ===== src/Payload/SampleCipher.antt =====
-- A concrete cipher that keeps what `IsAead` promises, for the tests. Its tag is sixteen copies of
-- the message's length, in front of the message. It stands for no code of the repository.
use discord_ext_audiorec.Prelude.{
  ℕ, ◌+◌, ◌-◌, ◌%◌, ◌≤◌, ◌<◌, List, [], ◌∷◌, ◌++◌, length, take, drop, replicate, ◌≡◌, ◌≢◌, refl,
  arith, ◌∙◌, sym, ap, subst, ◌⊎◌, take-append_eq, drop-append_eq, length-append, length-drop,
  length-replicate, take-append-drop, Bool, true, false, ◌&&◌, ltb, ◌==◌, if◌then◌else◌, ==_refl,
  Bool-cases, inl, inr,
}
use discord_ext_audiorec.Prelude.Results.{err, panic, ◌>>=◌}
use discord_ext_audiorec.Buffer.{
  AudioBuffer, aead_error, extend_from_slice, truncate, rotate_left, IsSane, contents,
}
use discord_ext_audiorec.Buffer.Laws.{
  length-contents, extended, extend_from_slice_fits, extend_from_slice_full, extended-IsSane,
  contents-extended, truncated, truncate_shorter, truncated-IsSane, contents-truncated, rotated,
  rotate_left_lem, rotated-IsSane, contents-rotated,
}
use discord_ext_audiorec.Payload.Cipher.{Cipher, IsAead, Holds}

eqb : List ℕ → List ℕ → Bool
eqb [] [] = true
eqb [] (y ∷ ys) = false
eqb (x ∷ xs) [] = false
eqb (x ∷ xs) (y ∷ ys) = x == y && eqb xs ys

eqb→eq : (xs ys : List ℕ) → eqb xs ys ≡ true → xs ≡ ys
unfolding eqb
eqb→eq [] [] h = refl
eqb→eq [] (y ∷ ys) h = cc
eqb→eq (x ∷ xs) [] h = cc
eqb→eq (x ∷ xs) (y ∷ ys) h = ground (arith, eqb→eq xs ys)

eqb_refl : (xs : List ℕ) → eqb xs xs ≡ true
unfolding eqb
eqb_refl [] = refl
eqb_refl (x ∷ xs) = rw (==_refl x) (eqb_refl xs)

le→ltb_false : (m n : ℕ) → n ≤ m → ltb m n ≡ false
le→ltb_false m n h = ground arith

abbrev pub tag : ℕ → List ℕ
tag n = replicate 16 (n % 256)

unfoldable pub sample_cipher : Cipher
unfolding eqb
sample_cipher = record {
  encrypt_in_place = λ nonce b. do
    e ← extend_from_slice b (tag b.len)
    rotate_left e b.len;
  decrypt_in_place = λ nonce b.
      if ltb b.len 16
      then err aead_error
      else if eqb (take 16 (contents b)) (tag (b.len - 16))
      then (do r ← rotate_left b 16; truncate r (b.len - 16))
      else err aead_error;
}

abbrev pub seal : List ℕ → List ℕ → List ℕ
seal nonce bytes = tag (length bytes) ++ bytes

module _ (nonce : List ℕ) (b : AudioBuffer) (s : IsSane b) where
  encrypt_fits :
      b.len + 16 ≤ b.capacity
      → Holds b (seal nonce (contents b)) (sample_cipher.encrypt_in_place nonce b)
  unfolding sample_cipher
  encrypt_fits h = record {
    buffer = rotated e b.len;
    returns = rw (extend_from_slice_fits b (tag b.len) s h, rotate_left_lem e b.len e_sane fits);
    sane = rotated-IsSane e b.len e_sane fits;
    same_capacity = refl;
    holds =
        contents-rotated e b.len e_sane fits
        ∙ rw (
          contents-extended b (tag b.len) s,
          drop-append_eq b.len (contents b) (tag b.len) (sym (length-contents b s)),
          take-append_eq b.len (contents b) (tag b.len) (sym (length-contents b s)),
          length-contents b s,
        );
  }
    where
      e : AudioBuffer
      e = extended b (tag b.len)

      e_sane : IsSane e
      e_sane = extended-IsSane b (tag b.len) s h

      fits : b.len ≤ e.len
      fits = omega arith

  encrypt_full : b.capacity < b.len + 16 → sample_cipher.encrypt_in_place nonce b ≡ err aead_error
  unfolding sample_cipher
  encrypt_full h = rw (extend_from_slice_full b (tag b.len) s h)

  -- On a match the message is moved to the front and the tag is cut off.
  opens :
      16 ≤ b.len
      → take 16 (contents b) ≡ tag (b.len - 16)
      → Holds b (drop 16 (contents b)) (sample_cipher.decrypt_in_place nonce b)
  unfolding sample_cipher
  opens h e = record {
    buffer = truncated (rotated b 16) (b.len - 16);
    returns =
        rw (le→ltb_false b.len 16 h, matched, rotate_left_lem b 16 s h)
          (truncate_shorter (rotated b 16) (b.len - 16) (rotated-IsSane b 16 s h) (omega arith));
    sane = truncated-IsSane (rotated b 16) (b.len - 16) (rotated-IsSane b 16 s h) (omega arith);
    same_capacity = refl;
    holds =
        contents-truncated (rotated b 16) (b.len - 16) (rotated-IsSane b 16 s h) (omega arith)
        ∙ ap (take (b.len - 16)) (contents-rotated b 16 s h)
        ∙ take-append_eq (b.len - 16) (drop 16 (contents b)) _
            (omega (arith, length-drop 16 (contents b), length-contents b s));
  }
    where
      matched : eqb (take 16 (contents b)) (tag (b.len - 16)) ≡ true
      matched = rw e (eqb_refl (tag (b.len - 16)))

  seal_of :
      16 ≤ b.len
      → take 16 (contents b) ≡ tag (b.len - 16)
      → contents b ≡ seal nonce (drop 16 (contents b))
  seal_of h e =
      sym (take-append-drop 16 (contents b))
      ∙ ap (λ t. t ++ drop 16 (contents b))
          (e ∙ ap tag (omega (arith, length-drop 16 (contents b), length-contents b s)))

  decrypt_cases :
      (sample_cipher.decrypt_in_place nonce b ≡ err aead_error)
      ⊎ ((16 ≤ b.len) × (take 16 (contents b) ≡ tag (b.len - 16)))
  unfolding sample_cipher
  decrypt_cases = elim (Bool-cases (ltb b.len 16)) [
    | inl short ↦ inl (rw short)
    | inr long ↦ elim (Bool-cases (eqb (take 16 (contents b)) (tag (b.len - 16)))) [
      | inl same ↦ inr (ground arith, eqb→eq _ _ same)
      | inr differs ↦ inl (rw (long, differs))
    ]
  ]

  decrypt_refuses :
      ((bytes : List ℕ) → contents b ≢ seal nonce bytes)
      → sample_cipher.decrypt_in_place nonce b ≡ err aead_error
  decrypt_refuses h = elim decrypt_cases [
    | inl refused ↦ refused
    | inr (long, e) ↦ absurd (h _ (seal_of long e))
  ]

  decrypt_answers : sample_cipher.decrypt_in_place nonce b ≢ panic
  decrypt_answers h = elim decrypt_cases [
    | inl refused ↦ cc
    | inr (long, e) ↦ let o = opens long e in cc (o.returns)
  ]

  decrypt_opens :
      (bytes : List ℕ)
      → contents b ≡ seal nonce bytes
      → Holds b bytes (sample_cipher.decrypt_in_place nonce b)
  decrypt_opens bytes e =
      subst (λ t. Holds b t (sample_cipher.decrypt_in_place nonce b)) body (opens long head)
    where
      long : 16 ≤ b.len
      long = omega (
        arith,
        ap length e,
        length-contents b s,
        length-append (tag (length bytes)) bytes,
        length-replicate 16 (length bytes % 256),
      )

      body_length : length bytes ≡ b.len - 16
      body_length = omega (
        arith,
        ap length e,
        length-contents b s,
        length-append (tag (length bytes)) bytes,
        length-replicate 16 (length bytes % 256),
      )

      head : take 16 (contents b) ≡ tag (b.len - 16)
      head = ap (take 16) e ∙ ap tag body_length

      body : drop 16 (contents b) ≡ bytes
      body = ap (drop 16) e

pub sample-IsAead : IsAead sample_cipher
sample-IsAead = record {
  seal = seal;
  length-seal = λ nonce bytes.
      omega
        (arith, length-append (tag (length bytes)) bytes, length-replicate 16 (length bytes % 256));
  encrypt_fits = encrypt_fits;
  encrypt_full = encrypt_full;
  decrypt_opens = λ nonce bytes b s e. decrypt_opens nonce b s bytes e;
  decrypt_refuses = decrypt_refuses;
  decrypt_answers = decrypt_answers;
}

pub seal-sample-IsAead : (nonce bytes : List ℕ) → sample-IsAead.seal nonce bytes ≡ seal nonce bytes
unfolding sample-IsAead
seal-sample-IsAead nonce bytes = refl
