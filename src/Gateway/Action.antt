-- ===== src/Gateway/Action.antt =====
-- Methods on `&mut self` that return `Result<A>`: the object comes back after an error too, since
-- what was written stays written. It models no code of its own.
use discord_ext_audiorec.Prelude.{Bool, if◌then◌else◌, ◌≡◌, refl, inl, inr}
use discord_ext_audiorec.Prelude.Results.{Result, ok, err, panic, Result-cases}
use discord_ext_audiorec.Errors.{DiscordError}

abbrev pub Action : Type 0 → Type 0 → Type 0
Action G A = G → Result DiscordError A × G

module _ {G : Type 0} where
  abbrev pub pure : {A : Type 0} → A → Action G A
  pure a g = (ok a, g)

  -- `expr?` for an expression that does not touch the object.
  abbrev pub lift : {A : Type 0} → Result DiscordError A → Action G A
  lift r g = (r, g)

  abbrev pub modify : (G → G) → Action G (Unit {0})
  modify f g = (ok tt, f g)

  abbrev pub gets : {A : Type 0} → (G → A) → Action G A
  gets f g = (ok (f g), g)

  infixl 5 ◌>>=◌ ◌>>◌
  abbrev pub ◌>>=◌ : {A B : Type 0} → Action G A → (A → Action G B) → Action G B
  ◌>>=◌ m f g = elim ((m g).0) [
    | ok a ↦ f a (m g).1
    | err e ↦ (err e, (m g).1)
    | panic ↦ (panic, (m g).1)
  ]

  abbrev pub ◌>>◌ : {A B : Type 0} → Action G A → Action G B → Action G B
  m >> k = m >>= λ _. k

  abbrev pub when : Bool → Action G (Unit {0}) → Action G (Unit {0})
  when b m = if b then m else pure tt

  -- How a chain goes on after its first step.
  pub bind_ok :
      {A B : Type 0} (m : Action G A) (f : A → Action G B) (g : G) {a : A}
      → (m g).0 ≡ ok a
      → (m >>= f) g ≡ f a (m g).1
  bind_ok m f g h = rw (h, ◌>>=◌) refl

  -- A chain that succeeds went through its first step.
  pub bind-eq-ok :
      {A B : Type 0} (m : Action G A) (f : A → Action G B) (g : G) {b : B}
      → ((m >>= f) g).0 ≡ ok b
      → (a : A) × ((m g).0 ≡ ok a) × ((f a (m g).1).0 ≡ ok b)
  bind-eq-ok m f g h = elim (Result-cases (m g).0) [
    | inl (a, e) ↦ (a, e, rw (e, ◌>>=◌) at h)
    | inr (inl (x, e)) ↦ absurd (cc (rw (e, ◌>>=◌) at h))
    | inr (inr e) ↦ absurd (cc (rw (e, ◌>>=◌) at h))
  ]

-- What holds where a step ends, and where the rest of the chain ends after it, holds at the end.
pub at_end :
    {G A B : Type 0} (P : G → Type 0) (x : Result DiscordError A) (g : G)
    (k : A → Result DiscordError B × G)
    → P g
    → ((a : A) → P (k a).1)
    → P
        (elim x as (λ _. Result DiscordError B × G) [
          | ok a ↦ k a
          | err e ↦ (err e, g)
          | panic ↦ (panic, g)
        ]).1
at_end P (ok a) g k h f = f a
at_end P (err e) g k h f = h
at_end P panic g k h f = h
