-- ===== src/Recorder/Mix/Uneven.antt =====
-- src/recorder.rs: mixing indexes every speaker's PCM up to the length of the longest.
use discord_ext_audiorec.Prelude.{
  ℕ, zero, suc, ◌+◌, ◌≤◌, ◌<◌, List, [], ◌∷◌, length, get_elem?, ◌≡◌, refl, arith, ◌⊎◌, inl, inr,
  Option-cases,
}
use discord_ext_audiorec.Prelude.Results.{ok, panic}
use discord_ext_audiorec.Recorder.Offset.Bounds.{get_elem?_lt}
use discord_ext_audiorec.Recorder.Mix.{Samples, max_len, combine, mix_frame, mix_frames, mix_pcms}

-- Some list has fewer than `n` elements.
abbrev pub AnyShorter {ℓ} : {A : Type ℓ} → ℕ → List (List A) → Type 0
AnyShorter n [] = ⊥
AnyShorter n (p ∷ ps) = (length p < n) ⊎ AnyShorter n ps

AnyShorter-mono {ℓ} :
    {A : Type ℓ} (m n : ℕ) (ps : List (List A)) → m ≤ n → AnyShorter m ps → AnyShorter n ps
AnyShorter-mono m n (p ∷ ps) h (inl x) = inl (omega arith)
AnyShorter-mono m n (p ∷ ps) h (inr x) = inr (AnyShorter-mono m n ps h x)
AnyShorter-mono m n [] h x = x

module _ (s : Samples) where
  open s use {F32, nil}

  mix_frame_cases :
      (frame : ℕ) (result : F32) (pcms : List (List F32))
      → (((r : F32) × (mix_frame s frame result pcms ≡ ok r)) × ¬ AnyShorter (suc frame) pcms)
        ⊎ (mix_frame s frame result pcms ≡ panic)
  unfolding mix_frame
  mix_frame_cases frame result [] = inl ((result, refl), λ x. x)
  mix_frame_cases frame result (p ∷ ps) = elim (Option-cases (get_elem? p frame)) [
    | inl e ↦ inr (rw e refl)
    | inr (b, e) ↦ elim (mix_frame_cases frame (combine s result b) ps) [
      | inl ((r, m), long) ↦ inl (
        (r, rw e m),
        λ x. elim x [ inl short ↦ omega (arith, get_elem?_lt p frame e) | inr more ↦ long more ],
      )
      | inr m ↦ inr (rw e m)
    ]
  ]

  mix_frames_short :
      (n frame : ℕ) (pcms : List (List F32)) (r l : List F32)
      → 0 < n
      → AnyShorter (frame + n) pcms
      → mix_frames s n frame pcms r l ≡ panic
  unfolding mix_frames
  mix_frames_short zero frame pcms r l h x = absurd (omega arith)
  mix_frames_short (suc zero) frame pcms r l h x = elim (mix_frame_cases frame nil pcms) [
    | inr m ↦ rw m refl
    | inl ((v, m), long) ↦
        absurd (long (AnyShorter-mono (frame + 1) (suc frame) pcms (omega arith) x))
  ]
  mix_frames_short (suc (suc n)) frame pcms r l h x = elim (mix_frame_cases frame nil pcms) [
    | inr m ↦ rw m refl
    | inl ((v, m), long) ↦ rw m (
        mix_frames_short (suc n) (frame + 1) pcms _ _ (omega arith)
          (AnyShorter-mono (frame + suc (suc n)) (frame + 1 + suc n) pcms (omega arith) x))
  ]

  AnyShorter-pos : (n : ℕ) (pcms : List (List F32)) → AnyShorter n pcms → 0 < n
  AnyShorter-pos n [] x = absurd x
  AnyShorter-pos n (p ∷ ps) (inl x) = omega arith
  AnyShorter-pos n (p ∷ ps) (inr x) = AnyShorter-pos n ps x

  -- When some speaker's PCM is shorter than the longest, counted with the silence in front, mixing
  -- panics.
  pub mix_pcms_uneven :
      (pcms : List (List F32)) → AnyShorter (max_len pcms) pcms → mix_pcms s pcms ≡ panic
  unfolding mix_pcms
  mix_pcms_uneven pcms x =
      rw
        (mix_frames_short (max_len pcms) 0 pcms [] [] (AnyShorter-pos (max_len pcms) pcms x)
          (AnyShorter-mono (max_len pcms) (0 + max_len pcms) pcms (omega arith) x))
        refl
