-- ===== src/Player/Ffmpeg.antt =====
-- src/player.rs: `FFmpegAudio` as an `AudioInput`. `stdout` are the bytes that the pipe of the
-- process still gives before its end. Samples are 16-bit patterns, in little-endian order as ffmpeg
-- writes them (`s16le`) and as the machines that the crate is built for keep them.
pub mod Process
use native.Mathlib.Nat.{zero-add, suc-add}
use discord_ext_audiorec.Prelude.{
  ℕ, suc, zero, ◌+◌, ◌*◌, ◌<◌, List, [], ◌∷◌, ◌++◌, length, take, drop, All, leb, if◌then◌else◌,
  Option, none, some, ◌≡◌, refl, arith, ap, sym, le→leb, lt→leb_false, take-append_eq,
  drop-append_eq, length-append, append_assoc,
}

pub record FfmpegAudio : Type 0 where
  pub stdout : Option (List ℕ)

-- The array of samples that is seen as bytes.
unfoldable pub le_samples : List ℕ → List ℕ
le_samples (low ∷ high ∷ bytes) = (low + 256 * high) ∷ le_samples bytes
le_samples _ = []

-- The answer, the buffer and the input. `torn` is what the buffer holds when the pipe ends too
-- early, which `read_exact` leaves open.
unfoldable pub read_pcm_frame :
    (torn : List ℕ) → FfmpegAudio → (buffer : List ℕ) → Option ℕ × List ℕ × FfmpegAudio
unfolding le_samples
read_pcm_frame torn self buffer = elim self.stdout [
  | none ↦ (none, buffer, self)
  | some bytes ↦
      if leb (length buffer * 2) (length bytes)
      then (
        some (length buffer),
        le_samples (take (length buffer * 2) bytes),
        record { stdout = some (drop (length buffer * 2) bytes) },
      )
      else (none, torn, record { stdout = some [] })
]

-- What a caller gets that reads frame after frame into one buffer until there is none: the samples,
-- and the input. `n` is the number of frames that it asks for at most.
unfoldable pub read_frames :
    (torn : List ℕ) → (n : ℕ) → FfmpegAudio → (buffer : List ℕ) → List ℕ × FfmpegAudio
unfolding read_pcm_frame
read_frames torn zero self buffer = ([], self)
read_frames torn (suc n) self buffer =
    let (answer, pcm, next) = read_pcm_frame torn self buffer in
    let (more, last) = read_frames torn n next pcm in
    elim answer [ none ↦ ([], next) | some size ↦ (pcm ++ more, last) ]

length-le_samples : (n : ℕ) (xs : List ℕ) → length xs ≡ n * 2 → length (le_samples xs) ≡ n
unfolding le_samples
length-le_samples zero [] h = refl
length-le_samples (suc n) [] h = absurd (omega arith)
length-le_samples n (a ∷ []) h = absurd (omega arith)
length-le_samples zero (a ∷ b ∷ xs) h = absurd (omega arith)
length-le_samples (suc n) (a ∷ b ∷ xs) h = ap suc (length-le_samples n xs (omega arith))

le_samples-append :
    (n : ℕ) (xs ys : List ℕ)
    → length xs ≡ n * 2
    → le_samples (xs ++ ys) ≡ le_samples xs ++ le_samples ys
unfolding le_samples
le_samples-append zero [] ys h = refl
le_samples-append (suc n) [] ys h = absurd (omega arith)
le_samples-append n (a ∷ []) ys h = absurd (omega arith)
le_samples-append zero (a ∷ b ∷ xs) ys h = absurd (omega arith)
le_samples-append (suc n) (a ∷ b ∷ xs) ys h =
    ap (◌∷◌ (a + 256 * b)) (le_samples-append n xs ys (omega arith))

abbrev pub join : List (List ℕ) → List ℕ
join [] = []
join (f ∷ fs) = f ++ join fs

read_pcm_frame_whole :
    (torn f rest buffer : List ℕ)
    → length f ≡ length buffer * 2
    → read_pcm_frame torn (record { stdout = some (f ++ rest) }) buffer
      ≡ (some (length buffer), le_samples f, record { stdout = some rest })
unfolding read_pcm_frame
read_pcm_frame_whole torn f rest buffer h =
    rw
      (
        le→leb (length buffer * 2) (length (f ++ rest)) (omega (arith, h, length-append f rest)),
        take-append_eq (length buffer * 2) f rest (sym h),
        drop-append_eq (length buffer * 2) f rest (sym h),
      )
      refl

read_pcm_frame_short :
    (torn tail buffer : List ℕ)
    → length tail < length buffer * 2
    → read_pcm_frame torn (record { stdout = some tail }) buffer
      ≡ (none, torn, record { stdout = some [] })
unfolding read_pcm_frame
read_pcm_frame_short torn tail buffer h = rw (lt→leb_false (length buffer * 2) (length tail) h) refl

read_frames_step :
    (torn : List ℕ) (n size : ℕ) (self next : FfmpegAudio) (buffer pcm : List ℕ)
    → read_pcm_frame torn self buffer ≡ (some size, pcm, next)
    → read_frames torn (suc n) self buffer
      ≡ (pcm ++ (read_frames torn n next pcm).0, (read_frames torn n next pcm).1)
unfolding read_frames
read_frames_step torn n size self next buffer pcm e =
    ap
      (λ (x : Option ℕ × List ℕ × FfmpegAudio). elim (x.0) as (λ o. List ℕ × FfmpegAudio) [
        | none ↦ ([], x.2)
        | some s ↦ (x.1 ++ (read_frames torn n x.2 x.1).0, (read_frames torn n x.2 x.1).1)
      ])
      e

-- A caller that reads into a buffer of one frame, more often than there are whole frames in the
-- stream, gets the samples of all whole frames in their order; what is left of a frame at the end
-- is dropped.
pub read_frames-join :
    (torn : List ℕ) (fs : List (List ℕ)) (tail buffer : List ℕ) (k : ℕ)
    → All (λ f. length f ≡ length buffer * 2) fs
    → length tail < length buffer * 2
    → read_frames torn (length fs + suc k) (record { stdout = some (join fs ++ tail) }) buffer
      ≡ (le_samples (join fs), record { stdout = some [] })
unfolding read_frames le_samples
read_frames-join torn [] tail buffer k h short =
    let e = read_pcm_frame_short torn tail buffer short in
    rw (zero-add, read_frames, e) (ap (λ (x : Option ℕ × List ℕ × FfmpegAudio). ([], x.2)) e)
read_frames-join torn (f ∷ fs) tail buffer k h short =
    let seam : (f ++ join fs) ++ tail ≡ f ++ (join fs ++ tail) = append_assoc f (join fs) tail in
    let same : length (le_samples f) ≡ length buffer = length-le_samples (length buffer) f h.0 in
    let shape : All (λ f'. length f' ≡ length (le_samples f) * 2) fs = rw same h.1 in
    rw
      (
        suc-add,
        seam,
        read_frames_step torn (length fs + suc k) (length buffer)
            (record { stdout = some (f ++ (join fs ++ tail)) })
            (record { stdout = some (join fs ++ tail) }) buffer (le_samples f)
            (read_pcm_frame_whole torn f (join fs ++ tail) buffer h.0),
        read_frames-join torn fs tail (le_samples f) k shape (rw same short),
        le_samples-append (length buffer) f (join fs) h.0,
      )
      refl
