-- ===== src/Buffer/Laws.antt =====
-- src/player.rs: what the operations of `AudioBuffer` do to a sane buffer and to its contents.
use discord_ext_audiorec.Prelude.{
  ℕ, ◌+◌, ◌-◌, ◌≤◌, ◌<◌, List, ◌++◌, length, take, drop, replicate, ◌≡◌, refl, arith, ◌∙◌, sym, ap,
  take-append_eq, length-append, length-take, length-drop, length-replicate, append_assoc, le→leb,
  take-take_le,
}
use discord_ext_audiorec.Prelude.Results.{ok, err}
use discord_ext_audiorec.Buffer.{
  AudioBuffer, aead_error, new, as_ref, extend_from_slice, truncate, rotate_left, IsSane, contents,
}

pub new-IsSane : (xs : List ℕ) (n : ℕ) → n ≤ length xs → IsSane (new xs n)
unfolding new
new-IsSane xs n h = record { capacity_eq = refl; len_le = h }

pub length-contents : (b : AudioBuffer) → IsSane b → length (contents b) ≡ b.len
length-contents b s = omega (arith, length-take b.len b.slice, s.len_le)

pub as_ref_lem {ℓ} : {E : Type ℓ} (b : AudioBuffer) → IsSane b → as_ref {E = E} b ≡ ok (contents b)
unfolding as_ref
as_ref_lem b s = rw (le→leb b.len (length b.slice) s.len_le) refl

-- What `extend_from_slice` returns on a sane buffer with room.
abbrev pub extended : AudioBuffer → List ℕ → AudioBuffer
extended b other = record b {
  slice = take b.len b.slice ++ (other ++ drop (b.len + length other) b.slice);
  len = b.len + length other;
}

module _ (b : AudioBuffer) (other : List ℕ) (s : IsSane b) where
  pub extend_from_slice_fits :
      b.len + length other ≤ b.capacity → extend_from_slice b other ≡ ok (extended b other)
  unfolding extend_from_slice
  extend_from_slice_fits h = ground (arith, s.capacity_eq)

  pub extend_from_slice_full :
      b.capacity < b.len + length other → extend_from_slice b other ≡ err aead_error
  unfolding extend_from_slice
  extend_from_slice_full h = ground arith

  pub extended-IsSane : b.len + length other ≤ b.capacity → IsSane (extended b other)
  extended-IsSane h =
      let e = length-append (take b.len b.slice) (other ++ drop (b.len + length other) b.slice) in
      let f = length-append other (drop (b.len + length other) b.slice) in
      omega (
        arith,
        e,
        f,
        s.capacity_eq,
        length-contents b s,
        length-drop (b.len + length other) b.slice,
      )

  pub contents-extended : contents (extended b other) ≡ contents b ++ other
  contents-extended =
      ap (take (b.len + length other))
        (sym (append_assoc (contents b) other (drop (b.len + length other) b.slice)))
      ∙ take-append_eq (b.len + length other) (contents b ++ other) _
          (omega (arith, length-append (contents b) other, length-contents b s))

-- What `truncate` returns on a sane buffer that is longer than `n`.
abbrev pub truncated : AudioBuffer → ℕ → AudioBuffer
truncated b n = record b { slice = take n b.slice ++ replicate (length b.slice - n) 0; len = n }

module _ (b : AudioBuffer) (n : ℕ) (s : IsSane b) where
  pub truncate_shorter {ℓ} : {E : Type ℓ} → n < b.len → truncate {E = E} b n ≡ ok (truncated b n)
  unfolding truncate
  truncate_shorter {E} h = ground (arith, s.len_le)

  length-truncated : n < b.len → length (truncated b n).slice ≡ length b.slice
  length-truncated h = omega (
    arith,
    length-append (take n b.slice) (replicate (length b.slice - n) 0),
    length-take n b.slice,
    length-replicate {A = ℕ} (length b.slice - n) 0,
    s.len_le,
  )

  pub truncated-IsSane : n < b.len → IsSane (truncated b n)
  truncated-IsSane h = omega (arith, length-truncated h, s.capacity_eq, s.len_le)

  pub contents-truncated : n < b.len → contents (truncated b n) ≡ take n (contents b)
  contents-truncated h =
      take-append_eq n (take n b.slice) _ (omega (arith, length-take n b.slice, s.len_le))
      ∙ sym (take-take_le n b.len b.slice (omega arith))

-- What `rotate_left` returns on a sane buffer.
abbrev pub rotated : AudioBuffer → ℕ → AudioBuffer
rotated b mid = record b {
  slice = drop mid (contents b) ++ take mid (contents b) ++ drop b.len b.slice;
}

module _ (b : AudioBuffer) (mid : ℕ) (s : IsSane b) (h : mid ≤ b.len) where
  pub rotate_left_lem {ℓ} : {E : Type ℓ} → rotate_left {E = E} b mid ≡ ok (rotated b mid)
  unfolding rotate_left as_ref
  rotate_left_lem {E} =
      rw
        (
          le→leb b.len (length b.slice) s.len_le,
          le→leb mid (length (contents b)) (omega (arith, length-contents b s)),
        )
        refl

  length-turned : length (drop mid (contents b) ++ take mid (contents b)) ≡ b.len
  length-turned = omega (
    arith,
    length-append (drop mid (contents b)) (take mid (contents b)),
    length-take mid (contents b),
    length-drop mid (contents b),
    length-contents b s,
  )

  pub rotated-IsSane : IsSane (rotated b mid)
  rotated-IsSane = omega (
    arith,
    length-append (drop mid (contents b) ++ take mid (contents b)) (drop b.len b.slice),
    length-turned,
    length-drop b.len b.slice,
    s.capacity_eq,
    s.len_le,
  )

  pub contents-rotated : contents (rotated b mid) ≡ drop mid (contents b) ++ take mid (contents b)
  contents-rotated = take-append_eq b.len _ _ (sym length-turned)
