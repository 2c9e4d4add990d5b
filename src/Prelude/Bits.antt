-- ===== src/Prelude/Bits.antt =====
-- Shifts and the inclusive or, as Rust's words put bytes together. It models no code of its own.
use Prim.Native.Nat.{
  ℕ, zero, suc, ◌+◌, ◌*◌, ◌/◌, ◌%◌, ◌^◌, ◌≤◌, ◌<◌, max, bit_or, digits, bit_or-bitwise,
}
use mathlib.Core.Path.{◌≡◌, refl, ap, ◌∙◌}
use native.Mathlib.Omega.{arith}
use native.Mathlib.Nat.{pow-suc}

abbrev or_rounds : ℕ → ℕ → ℕ → ℕ
or_rounds rounds x y = digits (λ bit. bit) max rounds x y

-- Rounds beyond the first number's value change nothing.
or_rounds_stable :
    (x y : ℕ) (more fewer : ℕ) → x ≤ fewer → x ≤ more → or_rounds more x y ≡ or_rounds fewer x y
or_rounds_stable zero y zero zero few many = refl
or_rounds_stable zero y zero (suc fewer) few many = refl
or_rounds_stable zero y (suc more) zero few many = refl
or_rounds_stable zero y (suc more) (suc fewer) few many = refl
or_rounds_stable (suc x) y zero fewer few many = absurd (omega arith)
or_rounds_stable (suc x) y (suc more) zero few many = absurd (omega arith)
or_rounds_stable (suc x) y (suc more) (suc fewer) few many =
    let halves = or_rounds_stable (suc x / 2) (y / 2) more fewer (omega arith) (omega arith) in
    omega (arith, halves)

nothing_or : (y : ℕ) → bit_or zero y ≡ y
nothing_or = bit_or-bitwise zero

last_bits : (x y : ℕ) → bit_or x y ≡ max (x % 2) (y % 2) + 2 * bit_or (x / 2) (y / 2)
last_bits zero y = omega (nothing_or (y / 2), nothing_or y, arith)
last_bits (suc x) y =
    let whole = bit_or-bitwise (suc x) y in
    let half = bit_or-bitwise (suc x / 2) (y / 2) in
    let same = or_rounds_stable (suc x / 2) (y / 2) x (suc x / 2) (omega arith) (omega arith) in
    omega (whole, half, same, arith)

or_nothing_below : (limit x : ℕ) → x < limit → bit_or x zero ≡ x
or_nothing_below zero x below = absurd (omega arith)
or_nothing_below (suc limit) zero below = nothing_or zero
or_nothing_below (suc limit) (suc x) below =
    let half = or_nothing_below limit (suc x / 2) (omega arith) in
    omega (half, last_bits (suc x) zero, arith)

or_nothing : (x : ℕ) → bit_or x zero ≡ x
or_nothing x = or_nothing_below (suc x) x (omega arith)

doubled : (a y : ℕ) → bit_or a (y / 2) ≡ a + y / 2 → bit_or (a * 2) y ≡ a * 2 + y
doubled a y h =
    last_bits (a * 2) y
    ∙ ap (λ (t : ℕ). max (a * 2 % 2) (y % 2) + 2 * bit_or t (y / 2)) (halved a)
    ∙ omega (arith, h)
  where
    halved : (a : ℕ) → a * 2 / 2 ≡ a
    halved a = omega arith

-- Bits that do not overlap add up.
pub bit_or_disjoint : (k x y : ℕ) → y < 2 ^ k → bit_or (x * 2 ^ k) y ≡ x * 2 ^ k + y
bit_or_disjoint zero x zero h = or_nothing (x * 1) ∙ omega arith
bit_or_disjoint zero x (suc y) h = absurd (omega arith)
bit_or_disjoint (suc k) x y h =
    let double : x * 2 ^ suc k ≡ x * 2 ^ k * 2 = rw (pow-suc 2 k) (omega arith) in
    let small : y / 2 < 2 ^ k = omega (arith, pow-suc 2 k) in
    rw double (doubled (x * 2 ^ k) y (bit_or_disjoint k x (y / 2) small))

-- `(a as u32) << 24 | (b as u32) << 16 | (c as u32) << 8 | d as u32`.
abbrev pub join32 : ℕ → ℕ → ℕ → ℕ → ℕ
join32 a b c d =
    bit_or (bit_or (bit_or (a * 2 ^ 24 % 2 ^ 32) (b * 2 ^ 16 % 2 ^ 32)) (c * 2 ^ 8 % 2 ^ 32)) d

-- `(a as u16) << 8 | b as u16`.
abbrev pub join16 : ℕ → ℕ → ℕ
join16 a b = bit_or (a * 2 ^ 8 % 2 ^ 16) b

pub join16_lem : (a b : ℕ) → a < 256 → b < 256 → join16 a b ≡ a * 2 ^ 8 + b
join16_lem a b ha hb = ap (λ (t : ℕ). bit_or t b) (fits a ha) ∙ bit_or_disjoint 8 a b (omega arith)
  where
    fits : (a : ℕ) → a < 256 → a * 2 ^ 8 % 2 ^ 16 ≡ a * 2 ^ 8
    fits a h = omega arith

pub join32_lem :
    (a b c d : ℕ)
    → a < 256
    → b < 256
    → c < 256
    → d < 256
    → join32 a b c d ≡ a * 2 ^ 24 + b * 2 ^ 16 + c * 2 ^ 8 + d
join32_lem a b c d ha hb hc hd =
    ap (λ (t : ℕ). bit_or (bit_or t (c * 2 ^ 8 % 2 ^ 32)) d) two_bytes
    ∙ ap (λ (t : ℕ). bit_or t d) three_bytes
    ∙ four_bytes
  where
    two_bytes : bit_or (a * 2 ^ 24 % 2 ^ 32) (b * 2 ^ 16 % 2 ^ 32) ≡ (a * 2 ^ 8 + b) * 2 ^ 16
    two_bytes =
        ap (λ (t : ℕ). bit_or t (b * 2 ^ 16 % 2 ^ 32)) {x = a * 2 ^ 24 % 2 ^ 32} {y = a * 2 ^ 24}
          (omega arith)
        ∙ bit_or_disjoint 24 a (b * 2 ^ 16 % 2 ^ 32) (omega arith)
        ∙ omega arith

    three_bytes :
        bit_or ((a * 2 ^ 8 + b) * 2 ^ 16) (c * 2 ^ 8 % 2 ^ 32)
        ≡ ((a * 2 ^ 8 + b) * 2 ^ 8 + c) * 2 ^ 8
    three_bytes =
        bit_or_disjoint 16 (a * 2 ^ 8 + b) (c * 2 ^ 8 % 2 ^ 32) (omega arith) ∙ omega arith

    four_bytes :
        bit_or (((a * 2 ^ 8 + b) * 2 ^ 8 + c) * 2 ^ 8) d ≡ a * 2 ^ 24 + b * 2 ^ 16 + c * 2 ^ 8 + d
    four_bytes = bit_or_disjoint 8 ((a * 2 ^ 8 + b) * 2 ^ 8 + c) d (omega arith) ∙ omega arith
