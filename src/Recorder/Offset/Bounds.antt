-- ===== src/Recorder/Offset/Bounds.antt =====
-- src/recorder.rs: the offsets that `calc_offset` returns stay in the array, and the extensions on
-- which it panics.
use discord_ext_audiorec.Prelude.{
  ℕ, zero, suc, ◌+◌, ◌*◌, ◌≤◌, ◌<◌, List, [], ◌∷◌, length, get_elem?, none, some, ◌≡◌, refl, arith,
  inl, inr, Option-cases, ◌==◌, ◌||◌, if◌then◌else◌, lt→leb_false, ◌∙◌,
}
use discord_ext_audiorec.Prelude.Results.{ok, panic, ◌>>=◌, Result-cases}
use discord_ext_audiorec.Recorder.Offset.{index, skip, ext_loop, calc_extension, calc_offset}

pub get_elem?_lt {ℓ} :
    {A : Type ℓ} (xs : List A) (i : ℕ) {b : A} → get_elem? xs i ≡ some b → i < length xs
get_elem?_lt [] i h = cc
get_elem?_lt (x ∷ xs) zero h = omega arith
get_elem?_lt (x ∷ xs) (suc i) h = omega (arith, get_elem?_lt xs i h)

pub get_elem?_ge {ℓ} : {A : Type ℓ} (xs : List A) (i : ℕ) → length xs ≤ i → get_elem? xs i ≡ none
get_elem?_ge [] i h = refl
get_elem?_ge (x ∷ xs) zero h = absurd (omega arith)
get_elem?_ge (x ∷ xs) (suc i) h = get_elem?_ge xs i (omega arith)

skip_grows : (byte offset : ℕ) → offset < skip byte offset
unfolding skip
skip_grows byte offset = ground arith

-- Each round reads the byte at its offset and moves on by one at least.
ext_loop_bounds :
    (n : ℕ) (bytes : List ℕ) (offset r : ℕ)
    → ext_loop n bytes offset ≡ ok r
    → (offset + n ≤ r) × (0 < n → offset + n ≤ length bytes)
unfolding ext_loop
ext_loop_bounds zero bytes offset r h = ground arith
ext_loop_bounds (suc n) bytes offset r h = elim (Option-cases (get_elem? bytes offset)) [
  | inl e ↦ absurd (ground arith)
  | inr (byte, e) ↦
      let rest = ext_loop_bounds n bytes (skip byte offset) r (ground arith) in
      let read = get_elem?_lt bytes offset e in
      let grows = skip_grows byte offset in
      (
        omega (arith, rest.0, grows),
        λ _. round n offset (skip byte offset) (length bytes) read grows rest.1,
      )
]
  where
    round :
        (n offset next len : ℕ)
        → offset < len
        → offset < next
        → (0 < n → next + n ≤ len)
        → offset + suc n ≤ len
    round zero offset next len a b c = omega arith
    round (suc n) offset next len a b c = omega (arith, c (omega arith))

-- More rounds than bytes: some round reads behind the array.
ext_loop_panics :
    (n : ℕ) (bytes : List ℕ) (offset : ℕ)
    → 0 < n
    → length bytes < offset + n
    → ext_loop n bytes offset ≡ panic
ext_loop_panics n bytes offset pos h = elim (Result-cases (ext_loop n bytes offset)) [
  | inl (r, e) ↦ absurd (omega (arith, (ext_loop_bounds n bytes offset r e).1 pos))
  | inr (inl (e, _)) ↦ absurd e
  | inr (inr e) ↦ e
]

-- The marks of an extension, and the number of rounds that it asks for.
pub record IsExtension (bytes : List ℕ) (rounds : ℕ) : Type 0 where
  pub long : 4 < length bytes
  pub first : get_elem? bytes 0 ≡ some 0xBE
  pub second : get_elem? bytes 1 ≡ some 0xDE
  pub high : ℕ
  pub low : ℕ
  pub third : get_elem? bytes 2 ≡ some high
  pub fourth : get_elem? bytes 3 ≡ some low
  pub rounds_eq : rounds ≡ high * 256 + low

pub calc_offset-ext_loop :
    (bytes : List ℕ) (n : ℕ)
    → IsExtension bytes n
    → calc_offset bytes ≡ (do
      offset ← ext_loop n bytes 4
      first ← index bytes (offset + 1)
      ok ((if first == 0 || first == 2 then offset + 1 else offset) + 1))
unfolding calc_offset
calc_offset-ext_loop bytes n x =
    rw (x.first, x.second, lt→leb_false (length bytes) 4 x.long, x.third, x.fourth, x.rounds_eq)

tail_le :
    (bytes : List ℕ) (offset r : ℕ)
    → (do
      first ← index {E = ⊥} bytes (offset + 1)
      ok ((if first == 0 || first == 2 then offset + 1 else offset) + 1))
      ≡ ok r
    → r ≤ length bytes
tail_le bytes offset r h = elim (Option-cases (get_elem? bytes (offset + 1))) [
  | inl e ↦ absurd (ground arith)
  | inr (b, e) ↦ ground (arith, get_elem?_lt bytes (offset + 1) e)
]

calc_extension_le : (bytes : List ℕ) (r : ℕ) → calc_extension bytes ≡ ok r → r ≤ length bytes
unfolding calc_extension
calc_extension_le bytes r h = elim (Option-cases (get_elem? bytes 2)) [
  | inl e ↦ absurd (ground arith)
  | inr (high, e) ↦ elim (Option-cases (get_elem? bytes 3)) [
    | inl e' ↦ absurd (ground arith)
    | inr (low, e') ↦ elim (Result-cases (ext_loop (high * 256 + low) bytes 4)) [
      | inl (offset, e'') ↦ tail_le bytes offset r (rw (e, e', e'') at h)
      | inr (inl (x, _)) ↦ absurd x
      | inr (inr e'') ↦ absurd (ground arith)
    ]
  ]
]

-- Whatever offset `calc_offset` returns, the array can be rotated by it.
pub calc_offset_le : (bytes : List ℕ) (r : ℕ) → calc_offset bytes ≡ ok r → r ≤ length bytes
unfolding calc_offset
calc_offset_le bytes r h = ground (arith, calc_extension_le bytes r)

-- An extension that announces more elements than there are bytes behind its own header makes the
-- receiver panic.
pub calc_offset_panics :
    (bytes : List ℕ) (n : ℕ)
    → IsExtension bytes n
    → length bytes < 4 + n
    → calc_offset bytes ≡ panic
calc_offset_panics bytes n x h =
    calc_offset-ext_loop bytes n x
    ∙ rw (ext_loop_panics n bytes 4 (omega (arith, x.long)) (omega arith))
