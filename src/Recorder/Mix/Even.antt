-- ===== src/Recorder/Mix/Even.antt =====
-- src/recorder.rs: mixing PCM of one length. The two channels are taken apart and put together
-- again, so the samples are those of the mixed frames in their order.
use discord_ext_audiorec.Prelude.{
  ℕ, zero, suc, ◌+◌, ◌%◌, ◌/◌, ◌≤◌, ◌<◌, List, [], ◌∷◌, ◌++◌, map, length, get_elem?, Option, none,
  some, ◌≡◌, ◌≢◌, refl, arith, ◌⊎◌, inl, inr, Option-cases, ap, ◌∙◌, sym, ◌==◌, false, append_assoc,
  append-nil, ◌*◌, ne→==_false,
}
use discord_ext_audiorec.Prelude.Results.{ok}
use discord_ext_audiorec.Recorder.Mix.Uneven.{AnyShorter}
use discord_ext_audiorec.Recorder.Mix.{
  Samples, max_len, combine, clamp, mix_frame, mix_frames, write_samples, mix_pcms,
}

-- Every list is longer than the index.
abbrev pub AllReach {ℓ} : {A : Type ℓ} → ℕ → List (List A) → Type 0
AllReach i [] = Unit {0}
AllReach i (p ∷ ps) = (i < length p) × AllReach i ps

AllReach-mono {ℓ} :
    {A : Type ℓ} (i j : ℕ) (ps : List (List A)) → i ≤ j → AllReach j ps → AllReach i ps
AllReach-mono i j [] h x = tt
AllReach-mono i j (p ∷ ps) h x = (omega arith, AllReach-mono i j ps h x.1)

module _ (s : Samples) where
  open s use {F32, nil, to_i16}

  abbrev or_nil : Option F32 → F32
  or_nil none = nil
  or_nil (some x) = x

  -- The speakers' samples at one index, put together in their order.
  abbrev pub mixed_at : (frame : ℕ) → F32 → List (List F32) → F32
  mixed_at frame acc [] = acc
  mixed_at frame acc (p ∷ ps) = mixed_at frame (combine s acc (or_nil (get_elem? p frame))) ps

  abbrev pub level : List (List F32) → ℕ → F32
  level pcms frame = clamp s (mixed_at frame nil pcms)

  mix_frame-eq-mixed_at :
      (frame : ℕ) (acc : F32) (pcms : List (List F32))
      → AllReach frame pcms
      → mix_frame s frame acc pcms ≡ ok (mixed_at frame acc pcms)
  unfolding mix_frame
  mix_frame-eq-mixed_at frame acc [] x = refl
  mix_frame-eq-mixed_at frame acc (p ∷ ps) x = elim (Option-cases (get_elem? p frame)) [
    | inl e ↦ absurd (reached p frame x.0 e)
    | inr (b, e) ↦ rw e (mix_frame-eq-mixed_at frame (combine s acc b) ps x.1)
  ]
    where
      reached : {A : Type 0} (p : List A) (i : ℕ) → i < length p → get_elem? p i ≢ none
      reached [] i h e = omega arith
      reached (x ∷ p) zero h e = cc
      reached (x ∷ p) (suc i) h e = reached p i (omega arith) e

  -- `k` pairs of levels from an index on: the right ones, the left ones, and both in turn.
  abbrev rights : (ℕ → F32) → (k from : ℕ) → List F32
  rights f zero from = []
  rights f (suc k) from = f from ∷ rights f k (from + 2)

  abbrev lefts : (ℕ → F32) → (k from : ℕ) → List F32
  lefts f zero from = []
  lefts f (suc k) from = f (from + 1) ∷ lefts f k (from + 2)

  abbrev pub pairs : (ℕ → F32) → (k from : ℕ) → List F32
  pairs f zero from = []
  pairs f (suc k) from = f from ∷ f (from + 1) ∷ pairs f k (from + 2)

  abbrev double : ℕ → ℕ
  double zero = zero
  double (suc k) = suc (suc (double k))

  write_samples-pairs :
      (f : ℕ → F32) (k from : ℕ) (rest : List F32)
      → write_samples s (lefts f k from) (rights f k from ++ rest) ≡ map to_i16 (pairs f k from)
  unfolding write_samples
  write_samples-pairs f zero from rest = refl
  write_samples-pairs f (suc k) from rest =
      ap (λ t. to_i16 (f from) ∷ to_i16 (f (from + 1)) ∷ t)
        (write_samples-pairs f k (from + 2) rest)

  two_frames :
      (n frame : ℕ) (pcms : List (List F32)) (r l : List F32)
      → frame % 2 ≡ 0
      → AllReach (frame + 1) pcms
      → mix_frames s (suc (suc n)) frame pcms r l
        ≡ mix_frames s n
            (frame + 2)
            pcms
            (r ++ level pcms frame ∷ [])
            (l ++ level pcms (frame + 1) ∷ [])
  unfolding mix_frames
  two_frames n frame pcms r l even x =
      let odd : ((frame + 1) % 2 == 0) ≡ false = ne→==_false _ _ (λ e. omega arith) in
      rw
        (
          mix_frame-eq-mixed_at frame nil pcms
              (AllReach-mono frame (frame + 1) pcms (omega arith) x),
          mix_frame-eq-mixed_at (frame + 1) nil pcms x,
          even,
          odd,
        )
        (ap
          (λ (k : ℕ).
            mix_frames s n k pcms (r ++ level pcms frame ∷ []) (l ++ level pcms (frame + 1) ∷ []))
          (omega arith))

  mix_eq :
      {n n' f f' : ℕ} (pcms : List (List F32)) {r r' l l' : List F32}
      → n ≡ n'
      → f ≡ f'
      → r ≡ r'
      → l ≡ l'
      → mix_frames s n f pcms r l ≡ mix_frames s n' f' pcms r' l'
  mix_eq pcms a b c d = cc

  double-half : (n : ℕ) → double (n / 2) ≡ n / 2 * 2
  double-half n = twice (n / 2)
    where
      twice : (k : ℕ) → double k ≡ k * 2
      twice zero = refl
      twice (suc k) = omega (arith, twice k)

  halves : (n : ℕ) → (n ≡ double (n / 2) + 0) ⊎ (n ≡ double (n / 2) + 1)
  halves n = omega (arith, double-half n)

  mix_frames-double :
      (k frame top : ℕ) (pcms : List (List F32)) (r l : List F32)
      → frame % 2 ≡ 0
      → frame + double k ≤ top
      → ((i : ℕ) → i < top → AllReach i pcms)
      → (rest : ℕ)
      → mix_frames s (double k + rest) frame pcms r l
        ≡ mix_frames s rest
            (frame + double k)
            pcms
            (r ++ rights (level pcms) k frame)
            (l ++ lefts (level pcms) k frame)
  mix_frames-double zero frame top pcms r l even h x rest =
      mix_eq pcms (omega arith) (omega arith) (sym (append-nil r)) (sym (append-nil l))
  mix_frames-double (suc k) frame top pcms r l even h x rest =
      mix_eq {n' = suc (suc (double k + rest))} pcms (omega arith) refl refl refl
      ∙ two_frames (double k + rest) frame pcms r l even (x (frame + 1) (omega arith))
      ∙ mix_frames-double k (frame + 2) top pcms (r ++ level pcms frame ∷ [])
          (l ++ level pcms (frame + 1) ∷ []) (omega arith) (omega arith) x rest
      ∙ mix_eq pcms refl (omega arith) (append_assoc r (level pcms frame ∷ []) _)
          (append_assoc l (level pcms (frame + 1) ∷ []) _)

  no_frame :
      (frame : ℕ) (pcms : List (List F32)) (r l : List F32)
      → mix_frames s 0 frame pcms r l ≡ ok (r, l)
  unfolding mix_frames
  no_frame frame pcms r l = refl

  last_frame :
      (frame : ℕ) (pcms : List (List F32)) (r l : List F32)
      → frame % 2 ≡ 0
      → AllReach frame pcms
      → mix_frames s 1 frame pcms r l ≡ ok (r ++ level pcms frame ∷ [], l)
  unfolding mix_frames
  last_frame frame pcms r l even x = rw (mix_frame-eq-mixed_at frame nil pcms x, even) refl

  double-even : (k : ℕ) → double k % 2 ≡ 0
  double-even zero = refl
  double-even (suc k) = omega (arith, double-even k)

  -- All frames: the channels, with one more sample on the right if their number is odd.
  all_frames :
      (n : ℕ) (pcms : List (List F32))
      → ((i : ℕ) → i < n → AllReach i pcms)
      → (extra : List F32) × (mix_frames s n 0 pcms [] []
          ≡ ok (rights (level pcms) (n / 2) 0 ++ extra, lefts (level pcms) (n / 2) 0))
  all_frames n pcms x = elim (halves n) [
    | inl h ↦ (
      [],
      mix_eq pcms h refl refl refl
          ∙ mix_frames-double (n / 2) 0 n pcms [] [] refl (omega arith) x 0
          ∙ no_frame (0 + double (n / 2)) pcms _ _
          ∙ ap (λ t. ok (t, lefts (level pcms) (n / 2) 0)) (sym (append-nil _)),
    )
    | inr h ↦ (
      level pcms (0 + double (n / 2)) ∷ [],
      mix_eq pcms h refl refl refl
          ∙ mix_frames-double (n / 2) 0 n pcms [] [] refl (omega arith) x 1
          ∙ last_frame (0 + double (n / 2)) pcms _ _ (omega (arith, double-even (n / 2)))
              (x (0 + double (n / 2)) (omega arith)),
    )
  ]

  long_enough : (n i : ℕ) (pcms : List (List F32)) → ¬ AnyShorter n pcms → i < n → AllReach i pcms
  long_enough n i [] h x = tt
  long_enough n i (p ∷ ps) h x = (
    elim (le_or_lt n (length p)) [ inl long ↦ omega arith | inr short ↦ absurd (h (inl short)) ],
    long_enough n i ps (λ y. h (inr y)) x,
  )
    where
      le_or_lt : (a b : ℕ) → (a ≤ b) ⊎ (b < a)
      le_or_lt a b = omega arith

  -- When no speaker's PCM is shorter than the longest, counted with the silence in front, the
  -- samples written are the mixed frames, clamped and quantised, in their order; of an odd number of
  -- frames the last is left out.
  pub mix_pcms_even :
      (pcms : List (List F32))
      → ¬ AnyShorter (max_len pcms) pcms
      → mix_pcms s pcms ≡ ok (map to_i16 (pairs (level pcms) (max_len pcms / 2) 0))
  unfolding mix_pcms
  mix_pcms_even pcms h =
      let (extra, frames) =
        all_frames (max_len pcms) pcms (λ i. long_enough (max_len pcms) i pcms h) in
      rw frames (ap ok (write_samples-pairs (level pcms) (max_len pcms / 2) 0 extra))
