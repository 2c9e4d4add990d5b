-- ===== src/Buffer.antt =====
-- src/player.rs: `AudioBuffer`, the fixed-capacity byte buffer over a borrowed slice on which the
-- cipher works in place, with the slice operations that `src/payload.rs` applies to it. A byte is a
-- number below 256. Lengths stay far below 2 ^ 64 (a Rust slice has at most 2 ^ 63 - 1 elements),
-- so that `length + other.len()` does not overflow.
pub mod Laws
use discord_ext_audiorec.Prelude.{
  ℕ, ◌+◌, ◌-◌, ◌≤◌, Bool, List, ◌++◌, length, take, drop, replicate, leb, ltb, if◌then◌else◌, ◌≡◌,
}
use discord_ext_audiorec.Prelude.Results.{Result, ok, err, panic, ◌>>=◌, ◌>>◌, require}

-- `xsalsa20poly1305::aead::Error`, an opaque unit struct.
pub data AeadError : Type 0 where
  aead_error : AeadError

pub record AudioBuffer : Type 0 where
  pub slice : List ℕ
  pub len : ℕ
  pub capacity : ℕ

unfoldable pub new : List ℕ → ℕ → AudioBuffer
new slice len = record { slice = slice; len = len; capacity = length slice }

-- `&slice[..n]` and `&slice[n..]`.
abbrev pub slice_to {ℓ} : {E : Type ℓ} → ℕ → List ℕ → Result E (List ℕ)
slice_to n xs = do require (leb n (length xs)); ok (take n xs)

abbrev pub slice_from {ℓ} : {E : Type ℓ} → ℕ → List ℕ → Result E (List ℕ)
slice_from n xs = do require (leb n (length xs)); ok (drop n xs)

-- `as_ref` and `as_mut`: the first `length` bytes.
unfoldable pub as_ref {ℓ} : {E : Type ℓ} → AudioBuffer → Result E (List ℕ)
as_ref b = slice_to b.len b.slice

unfoldable pub extend_from_slice : AudioBuffer → List ℕ → Result AeadError AudioBuffer
extend_from_slice b other = if ltb b.capacity (b.len + length other) then err aead_error else (do
  require (leb (b.len + length other) (length b.slice))
  ok (record b {
    slice = take b.len b.slice ++ (other ++ drop (b.len + length other) b.slice);
    len = b.len + length other;
  }))

-- The bytes from `n` to the end of the slice are cleared, not only those up to the old length.
unfoldable pub truncate {ℓ} : {E : Type ℓ} → AudioBuffer → ℕ → Result E AudioBuffer
truncate b n =
    if ltb n b.len
    then (do
      require (leb n (length b.slice))
      ok (record b { slice = take n b.slice ++ replicate (length b.slice - n) 0; len = n }))
    else ok b

-- `slice.is_empty()`: the test is on the whole slice.
unfoldable pub is_empty : AudioBuffer → Bool
is_empty b = leb (length b.slice) 0

-- `buffer.as_mut().rotate_left(mid)`.
unfoldable pub rotate_left {ℓ} : {E : Type ℓ} → AudioBuffer → ℕ → Result E AudioBuffer
unfolding as_ref
rotate_left b mid = do
  view ← as_ref b
  require (leb mid (length view))
  ok (record b { slice = drop mid view ++ take mid view ++ drop b.len b.slice })

-- The invariant that `new` sets up for a length inside the slice.
pub record IsSane (b : AudioBuffer) : Type 0 where
  pub capacity_eq : b.capacity ≡ length b.slice
  pub len_le : b.len ≤ length b.slice

-- What a reader of a sane buffer sees.
abbrev pub contents : AudioBuffer → List ℕ
contents b = take b.len b.slice
