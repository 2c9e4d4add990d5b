-- ===== src/Recorder/Mix.antt =====
-- src/recorder.rs: the mixing in `SsrcPacketQueue::decode`, from the decoded PCM of each speaker to
-- the 16-bit samples that are written. `Samples` stands for `f32`, and `Times` for the `f64` times;
-- no law of theirs is used but the ones that a theorem names.
pub mod Uneven
pub mod Even
use discord_ext_audiorec.Prelude.{
  ℕ, zero, suc, ◌+◌, ◌%◌, max, List, [], ◌∷◌, ◌++◌, map, length, get_elem?, replicate, Bool, ◌&&◌,
  ◌==◌, if◌then◌else◌, Option, none, some,
}
use discord_ext_audiorec.Prelude.Results.{Result, ok, panic, ◌>>=◌, MayPanic}

-- `f32`. `to_i16 x` is the pattern of `(x * 32767.0) as i16`.
pub record Samples : Type 1 where
  pub F32 : Type 0
  pub nil : F32
  pub one : F32
  pub minus_one : F32
  pub less : F32 → F32 → Bool
  pub add : F32 → F32 → F32
  pub sub : F32 → F32 → F32
  pub mul : F32 → F32 → F32
  pub minimum : F32 → F32 → F32
  pub maximum : F32 → F32 → F32
  pub to_i16 : F32 → ℕ

-- `f64`. `before` is the order that `partial_cmp` gives to finite times, `above` is `>`, `latest` and
-- `minimum` are `MAX` and `min`, and `as_f64` and `as_usize` are the casts. `two`, `one` and
-- `frame_secs` are 2.0, 1.0 and 0.02.
pub record Times : Type 1 where
  pub F64 : Type 0
  pub before : F64 → F64 → Bool
  pub above : F64 → F64 → Bool
  pub latest : F64
  pub minimum : F64 → F64 → F64
  pub as_f64 : ℕ → F64
  pub as_usize : F64 → ℕ
  pub minus : F64 → F64 → F64
  pub times : F64 → F64 → F64
  pub over : F64 → F64 → F64
  pub two : F64
  pub one : F64
  pub frame_secs : F64

-- `sort_by`, which is stable: an element goes behind those that are not after it.
unfoldable pub insert_by {ℓ} : {A : Type ℓ} → (A → A → Bool) → A → List A → List A
insert_by less x [] = x ∷ []
insert_by less x (y ∷ ys) = if less y x then y ∷ insert_by less x ys else x ∷ y ∷ ys

unfoldable pub sort_by {ℓ} : {A : Type ℓ} → (A → A → Bool) → List A → List A
unfolding insert_by
sort_by less [] = []
sort_by less (x ∷ xs) = insert_by less x (sort_by less xs)

-- `xs[i]`.
abbrev pub at {ℓ} : {A : Type ℓ} → Option A → Result ⊥ A
at none = panic
at (some x) = ok x

-- `pcms.iter().map(|v| v.len()).max().unwrap()`, for a list that is not empty.
abbrev pub max_len {ℓ} : {A : Type ℓ} → List (List A) → ℕ
max_len [] = 0
max_len (p ∷ ps) = max (length p) (max_len ps)

module _ (s : Samples) where
  open s use {F32, nil, one, minus_one, less, add, sub, mul, minimum, maximum, to_i16}

  -- The `match (result, byte)`.
  unfoldable pub combine : F32 → F32 → F32
  combine r b =
      if less r nil && less b nil
      then sub (add r b) (mul (mul r b) minus_one)
      else if less nil r && less nil b
      then sub (add r b) (mul r b)
      else add r b

  abbrev pub clamp : F32 → F32
  clamp r = maximum (minimum r one) minus_one

  -- The loop over the speakers.
  unfoldable pub mix_frame : (frame : ℕ) → F32 → List (List F32) → MayPanic F32
  unfolding combine
  mix_frame frame result [] = ok result
  mix_frame frame result (pcm ∷ pcms) = do
    byte ← at (get_elem? pcm frame)
    mix_frame frame (combine result byte) pcms

  -- The loop over the frames: the right and the left channel.
  unfoldable pub mix_frames :
      (rounds frame : ℕ) → List (List F32) → (r l : List F32) → MayPanic (List F32 × List F32)
  unfolding mix_frame
  mix_frames zero frame pcms r l = ok (r, l)
  mix_frames (suc n) frame pcms r l = do
    result ← mix_frame frame nil pcms
    mix_frames n (frame + 1) pcms (if frame % 2 == 0 then r ++ clamp result ∷ [] else r)
        (if frame % 2 == 0 then l else l ++ clamp result ∷ [])

  -- The loop over `l_channel.iter().zip(r_channel.iter())`: what is written.
  unfoldable pub write_samples : (l r : List F32) → List ℕ
  write_samples [] rs = []
  write_samples (l ∷ ls) [] = []
  write_samples (l ∷ ls) (r ∷ rs) = to_i16 r ∷ to_i16 l ∷ write_samples ls rs

  unfoldable pub mix_pcms : List (List F32) → MayPanic (List ℕ)
  unfolding mix_frames write_samples
  mix_pcms pcms = do (r, l) ← mix_frames (max_len pcms) 0 pcms [] []; ok (write_samples l r)

  module _ (t : Times) where
    open t use {F64, before, as_f64, as_usize, minus, times, two}

    -- How many zeros stand in front. (The allocation of a length that no memory could hold, which
    -- panics, is not modelled.)
    abbrev pub margin : F64 → F64 → ℕ
    margin time first = as_usize (times (times (as_f64 48000) two) (minus time first))

    -- Silence up to the speaker's first packet, and the speaker's PCM.
    abbrev pub padded : F64 → F64 × List F32 → List F32
    padded first (time, pcm) = replicate (margin time first) nil ++ pcm

    -- `None` if nobody spoke.
    unfoldable pub mix_sorted : List (F64 × List F32) → MayPanic (Option (List ℕ))
    unfolding mix_pcms
    mix_sorted [] = ok none
    mix_sorted ((first, pcm) ∷ rest) = do
      samples ← mix_pcms (map (padded first) ((first, pcm) ∷ rest))
      ok (some samples)

    unfoldable pub mix : List (F64 × List F32) → MayPanic (Option (List ℕ))
    unfolding mix_sorted sort_by
    mix pcm_list = mix_sorted (sort_by (λ a b. before a.0 b.0) pcm_list)
