-- ===== src/Prelude/Results.antt =====
-- Rust's `Result<A, E>` with its panics, and the `?` operator as a monad. A panic unwinds the
-- thread, so nothing after it runs.
use mathlib.Core.Path.{◌≡◌, refl, ap}
use mathlib.Core.Logic.{◌⊎◌, inl, inr}
use mathlib.Core.Bool.{Bool, true, false}
use Prim.Native.Nat.{ℕ, ◌+◌, ◌-◌, ◌^◌}
use discord_ext_audiorec.Prelude.Tests.{leb, if◌then◌else◌}

pub data Result {ℓ κ} (E : Type ℓ) (A : Type κ) : Type (ℓ ⊔ κ) where
  ok : A → Result E A
  err : E → Result E A
  panic : Result E A

infixl 5 ◌>>=◌ ◌>>◌
abbrev pub ◌>>=◌ {ℓ κ μ} :
    {E : Type ℓ} {A : Type κ} {B : Type μ} → Result E A → (A → Result E B) → Result E B
ok a >>= f = f a
err e >>= f = err e
panic >>= f = panic

abbrev pub ◌>>◌ {ℓ κ} : {E : Type ℓ} {B : Type κ} → Result E (Unit {0}) → Result E B → Result E B
m >> k = m >>= λ _. k

-- `Result::map_err`.
abbrev pub map_err {ℓ κ μ} :
    {E : Type ℓ} {F : Type κ} {A : Type μ} → (E → F) → Result E A → Result F A
map_err f (ok a) = ok a
map_err f (err e) = err (f e)
map_err f panic = panic

-- `assert!`-like checks that the language makes: indexing, slicing, lengths of copies.
abbrev pub require {ℓ} : {E : Type ℓ} → Bool → Result E (Unit {0})
require true = ok tt
require false = panic

-- How the crate was built and how the process runs: whether arithmetic overflow panics (a debug
-- build) or wraps (a release build), and whether the `debug!` lines evaluate their arguments.
pub record Build : Type 0 where
  pub overflow_checks : Bool
  pub debug_log : Bool

-- `a - b` on `usize`, 64 bits wide.
abbrev pub sub_usize {ℓ} : {E : Type ℓ} → Build → ℕ → ℕ → Result E ℕ
sub_usize cfg a b =
    if leb b a then ok (a - b) else if cfg.overflow_checks then panic else ok (a + 2 ^ 64 - b)

pub Result-cases {ℓ κ} :
    {E : Type ℓ} {A : Type κ} (r : Result E A)
    → ((a : A) × (r ≡ ok a)) ⊎ (((e : E) × (r ≡ err e)) ⊎ (r ≡ panic))
Result-cases (ok a) = inl (a, refl)
Result-cases (err e) = inr (inl (e, refl))
Result-cases panic = inr (inr refl)

-- The result of code that returns no error but may panic.
abbrev pub MayPanic : Type 0 → Type 0
MayPanic A = Result ⊥ A

-- A chain that succeeds went through its first step.
pub bind-eq-ok {ℓ κ μ} :
    {E : Type ℓ} {A : Type κ} {B : Type μ} (m : Result E A) (f : A → Result E B) {b : B}
    → (m >>= f) ≡ ok b
    → (a : A) × (m ≡ ok a) × (f a ≡ ok b)
bind-eq-ok (ok a) f h = (a, refl, h)
bind-eq-ok (err e) f h = absurd (cc h)
bind-eq-ok panic f h = absurd (cc h)

pub map_err-eq-ok {ℓ κ μ} :
    {E : Type ℓ} {F : Type κ} {A : Type μ} (f : E → F) (m : Result E A) {a : A}
    → map_err f m ≡ ok a
    → m ≡ ok a
map_err-eq-ok f (ok a) h = ap ok (cc h)
map_err-eq-ok f (err e) h = absurd (cc h)
map_err-eq-ok f panic h = absurd (cc h)

pub require-eq-ok {ℓ} : {E : Type ℓ} (b : Bool) → require {E = E} b ≡ ok tt → b ≡ true
require-eq-ok true h = refl
require-eq-ok false h = absurd (cc h)
