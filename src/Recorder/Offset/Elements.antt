-- ===== src/Recorder/Offset/Elements.antt =====
-- src/recorder.rs: on a well-formed extension `calc_offset` steps over all of its elements.
use Prim.Native.Nat.{bit_and}
use discord_ext_audiorec.Prelude.{
  ℕ, zero, suc, ◌+◌, ◌/◌, ◌%◌, ◌^◌, ◌<◌, List, [], ◌∷◌, ◌++◌, length, get_elem?, some, ◌≡◌, refl,
  arith, ap, ◌∙◌, ◌==◌, ◌||◌, if◌then◌else◌, true, All, length-append, append_assoc, Bool, ◌&&◌,
  ==_iff,
}
use discord_ext_audiorec.Prelude.Results.{ok}
use discord_ext_audiorec.Payload.Encryptor.{be16}
use discord_ext_audiorec.Recorder.Offset.{skip, ext_loop, calc_offset}
use discord_ext_audiorec.Recorder.Offset.Bounds.{IsExtension, calc_offset-ext_loop}

-- A byte of padding, or a tag and its content.
pub data Element : Type 0 where
  padding : Element
  field : ℕ → List ℕ → Element

-- The upper half of a tag says how long the content is.
abbrev pub IsElement : Element → Type 0
IsElement padding = Unit {0}
IsElement (field tag content) = (0 < tag) × (tag < 256) × (length content ≡ 1 + tag / 16)

abbrev pub encode : Element → List ℕ
encode padding = 0 ∷ []
encode (field tag content) = tag ∷ content

abbrev pub encode_all : List Element → List ℕ
encode_all [] = []
encode_all (e ∷ es) = encode e ++ encode_all es

get_elem?-append_length {ℓ} :
    {A : Type ℓ} (xs : List A) (y : A) (ys : List A)
    → get_elem? (xs ++ (y ∷ ys)) (length xs) ≡ some y
get_elem?-append_length [] y ys = refl
get_elem?-append_length (x ∷ xs) y ys = get_elem?-append_length xs y ys

get_elem?-append_second {ℓ} :
    {A : Type ℓ} (xs : List A) (n : ℕ) (y z : A) (ys : List A)
    → n ≡ length xs + 1
    → get_elem? (xs ++ (y ∷ z ∷ ys)) n ≡ some z
get_elem?-append_second [] zero y z ys h = absurd (omega arith)
get_elem?-append_second [] (suc zero) y z ys h = refl
get_elem?-append_second [] (suc (suc n)) y z ys h = absurd (omega arith)
get_elem?-append_second (x ∷ xs) zero y z ys h = absurd (omega arith)
get_elem?-append_second (x ∷ xs) (suc n) y z ys h =
    get_elem?-append_second xs n y z ys (omega arith)

-- A table of the numbers below a limit that pass a test.
passes : (test : ℕ → Bool) → (limit : ℕ) → Bool
passes test zero = true
passes test (suc limit) = passes test limit && test limit

passes_sound :
    (test : ℕ → Bool) (limit n : ℕ) → n < limit → passes test limit ≡ true → test n ≡ true
unfolding passes
passes_sound test zero n below all = absurd (omega arith)
passes_sound test (suc limit) n below all = ground (arith, passes_sound test limit n)

low_half : (n : ℕ) → n < 16 → bit_and 0xF n ≡ n
unfolding passes
low_half n below = (==_iff _ n).0 (passes_sound (λ x. bit_and 0xF x == x) 16 n below refl)

skip_padding : (offset : ℕ) → skip 0 offset ≡ offset + 1
unfolding skip
skip_padding offset = refl

skip_field :
    (tag : ℕ) (content : List ℕ) (offset : ℕ)
    → IsElement (field tag content)
    → skip tag offset ≡ offset + suc (length content)
unfolding skip
skip_field tag content offset h = ground (arith, low_half (tag / 16))

-- One round steps over one element.
round_step :
    (n tag : ℕ) (content front more : List ℕ)
    → skip tag (length front) ≡ length front + suc (length content)
    → ext_loop (suc n) (front ++ (tag ∷ (content ++ more))) (length front)
      ≡ ext_loop n ((front ++ (tag ∷ content)) ++ more) (length (front ++ (tag ∷ content)))
unfolding ext_loop
round_step n tag content front more h =
    rw
      (
        get_elem?-append_length front tag (content ++ more),
        h,
        append_assoc front (tag ∷ content) more,
        length-append front (tag ∷ content),
      )
      refl

ext_loop-encode_all :
    (es : List Element) (front rest : List ℕ)
    → All IsElement es
    → ext_loop (length es) (front ++ (encode_all es ++ rest)) (length front)
      ≡ ok (length front + length (encode_all es))
ext_loop-encode_all [] front rest h = unfold ext_loop in ap ok (omega arith)
ext_loop-encode_all (padding ∷ es) front rest h =
    round_step (length es) 0 [] front (encode_all es ++ rest)
      (skip_padding (length front) ∙ omega arith)
    ∙ ext_loop-encode_all es (front ++ (0 ∷ [])) rest h.1
    ∙ ap ok (omega (arith, length-append front (0 ∷ [])))
ext_loop-encode_all (field tag content ∷ es) front rest h =
    rw (append_assoc content (encode_all es) rest) (
      round_step (length es) tag content front (encode_all es ++ rest)
        (skip_field tag content (length front) h.0)
      ∙ ext_loop-encode_all es (front ++ (tag ∷ content)) rest h.1
      ∙ ap ok (
          omega
            (arith, length-append front (tag ∷ content), length-append content (encode_all es))))

-- The array of a packet with the elements `es` and the message `first ∷ second ∷ rest` behind them.
abbrev pub extension : List Element → ℕ → ℕ → List ℕ → List ℕ
extension es first second rest =
    0xBE ∷ 0xDE ∷ (be16 (length es) ++ (encode_all es ++ (first ∷ second ∷ rest)))

-- On an extension of fewer than 2 ^ 16 well-formed elements, with two bytes or more behind it,
-- `calc_offset` returns the place behind its elements and one more byte, or two more if the second
-- of these is 0 or 2.
pub calc_offset-extension :
    (es : List Element) (first second : ℕ) (rest : List ℕ)
    → All IsElement es
    → length es < 2 ^ 16
    → calc_offset (extension es first second rest)
      ≡ ok (4 + length (encode_all es) + (if second == 0 || second == 2 then 1 else 0) + 1)
calc_offset-extension es first second rest h n =
    calc_offset-ext_loop (extension es first second rest) (length es) marks
    ∙ rw
        (
          ext_loop-encode_all es front (first ∷ second ∷ rest) h,
          get_elem?-append_second (front ++ encode_all es) (4 + length (encode_all es) + 1) first
              second rest (omega arith),
        )
        (ground arith)
  where
    front : List ℕ
    front = 0xBE ∷ 0xDE ∷ be16 (length es)

    marks : IsExtension (extension es first second rest) (length es)
    marks = record {
      long = omega (arith, length-append (encode_all es) (first ∷ second ∷ rest));
      first = refl;
      second = refl;
      high = length es / 2 ^ 8 % 256;
      low = length es % 256;
      third = refl;
      fourth = refl;
      rounds_eq = omega arith;
    }
