-- ===== src/Payload/OpCode/Codes.antt =====
-- src/payload.rs: which codes `from_message` reads, and that no message of the program's own is
-- among them, but the one that says who is speaking.
use Prim.Native.String.{String}
use discord_ext_audiorec.Prelude.{
  ℕ, List, [], ◌∷◌, ◌≡◌, ◌≢◌, ◌↔◌, inl, inr, refl, arith, ◌∙◌, sym, ap, ◌==◌, if◌then◌else◌,
  Bool-cases, true, false,
}
use discord_ext_audiorec.Prelude.Results.{Result, ok, err, panic, Result-cases}
use discord_ext_audiorec.Errors.{DiscordError, invalid_op_code, contains}
use discord_ext_audiorec.Payload.OpCode.{
  OpCode, identify_code, select_protocol_code, ready, heartbeat_code, session_description, speaking,
  heartbeat_ack, resume_code, hello, resumed, client_connect, client_disconnect, RawPayload, Serde,
  Ready, SessionDescription, of_raw, from_message, read,
}

-- The code in the comment on each constructor of `OpCode`.
abbrev pub code_of : {F64 Value : Type 0} → OpCode F64 Value → ℕ
code_of (identify_code i) = 0
code_of (select_protocol_code v) = 1
code_of (ready r) = 2
code_of (heartbeat_code n) = 3
code_of (session_description d) = 4
code_of (speaking n) = 5
code_of (heartbeat_ack n) = 6
code_of (resume_code r) = 7
code_of (hello x) = 8
code_of resumed = 9
code_of client_connect = 12
code_of client_disconnect = 13

abbrev pub read_codes : List ℕ
read_codes = 2 ∷ 4 ∷ 5 ∷ 6 ∷ 8 ∷ 9 ∷ 12 ∷ 13 ∷ []

module _ (s : Serde) where
  open s use {F64, Value, to_string, from_text, number, object}

  abbrev Read : Type 0
  Read = Result DiscordError (OpCode F64 Value)

  -- One test of the chain, whose outcome is `r`.
  split :
      {G : Type 0} (op k : ℕ) (x y r : Read)
      → (op ≡ k → x ≡ r → G)
      → (op ≢ k → y ≡ r → G)
      → (if op == k then x else y) ≡ r
      → G
  split op k x y r hit miss h = elim (Bool-cases (op == k)) [
    | inl e ↦ hit (ground arith) (rw e at h)
    | inr e ↦ miss (ground arith) (rw e at h)
  ]

  -- What a chain of tests comes to, by the code.
  chain :
      {G : Type 0} (raw : RawPayload Value) (r : Read)
      → ((k : ℕ) (A : Type 0) (make : A → OpCode F64 Value) (m : Result String A)
          → ((a : A) → code_of (make a) ≡ k)
          → contains read_codes k ≡ true
          → raw.op ≡ k
          → read make m ≡ r
          → G)
      → (contains read_codes raw.op ≡ false → err (invalid_op_code raw.op) ≡ r → G)
      → of_raw s raw ≡ r
      → G
  unfolding of_raw contains
  chain raw r hit miss = split raw.op 2 _ _ r (hit 2 Ready ready _ (λ a. refl) refl) λ a2.
      split raw.op 4 _ _ r (hit 4 SessionDescription session_description _ (λ a. refl) refl) λ a4.
        split raw.op 5 _ _ r (hit 5 ℕ speaking _ (λ a. refl) refl) λ a5.
          split raw.op 6 _ _ r (hit 6 ℕ heartbeat_ack _ (λ a. refl) refl) λ a6.
            split raw.op 8 _ _ r (hit 8 F64 hello _ (λ a. refl) refl) λ a8.
              split raw.op 9 _ _ r (hit 9 (Unit {0}) (λ _. resumed) _ (λ a. refl) refl) λ a9.
                split raw.op 12 _ _ r (hit 12 (Unit {0}) (λ _. client_connect) _ (λ a. refl) refl)
                  λ a12.
                    split raw.op 13 _ _ r
                      (hit 13 (Unit {0}) (λ _. client_disconnect) _ (λ a. refl) refl)
                      λ a13. miss (ground arith)

  read-eq-ok :
      {A : Type 0} (make : A → OpCode F64 Value) (m : Result String A) (p : OpCode F64 Value)
      → read make m ≡ ok p
      → (a : A) × (make a ≡ p)
  read-eq-ok make (ok a) p h = (a, cc)
  read-eq-ok make (err e) p h = cc
  read-eq-ok make panic p h = cc

  read-ne-invalid :
      {A : Type 0} (make : A → OpCode F64 Value) (m : Result String A) (op : ℕ)
      → read make m ≢ err (invalid_op_code op)
  read-ne-invalid make (ok a) op h = cc
  read-ne-invalid make (err e) op h = cc
  read-ne-invalid make panic op h = cc

  of_raw-code_of :
      (raw : RawPayload Value) (p : OpCode F64 Value)
      → of_raw s raw ≡ ok p
      → (code_of p ≡ raw.op) × (contains read_codes raw.op ≡ true)
  of_raw-code_of raw p =
      chain raw (ok p)
        (λ k A make m code known at h.
          let (a, e) = read-eq-ok make m p h in (sym (ap code_of e) ∙ code a ∙ sym at, rw at known))
        (λ unknown h. cc)

  -- What is read has the constructor of the code that was sent, which is one of eight.
  pub from_message-code_of :
      (msg : String) (p : OpCode F64 Value)
      → from_message s msg ≡ ok p
      → (raw : RawPayload Value) × (from_text msg ≡ ok raw)
        × (code_of p ≡ raw.op)
        × (contains read_codes raw.op ≡ true)
  unfolding from_message
  from_message-code_of msg p h = elim (Result-cases (from_text msg)) [
    | inl (raw, e) ↦ let (c, known) = of_raw-code_of raw p (rw e at h) in (raw, e, c, known)
    | inr (inl (x, e)) ↦ absurd (ground arith)
    | inr (inr e) ↦ absurd (ground arith)
  ]

  invalid :
      (raw : RawPayload Value)
      → contains read_codes raw.op ≡ false
      → of_raw s raw ≡ err (invalid_op_code raw.op)
  invalid raw h =
      chain raw (of_raw s raw)
        (λ k A make m code known at e. absurd (cc (ap (contains read_codes) at)))
        (λ unknown e. sym e) refl

  -- A text that has a code is refused as an invalid code exactly when the code is none of the eight.
  pub from_message-invalid_iff :
      (msg : String) (raw : RawPayload Value)
      → from_text msg ≡ ok raw
      → (from_message s msg ≡ err (invalid_op_code raw.op)) ↔ (contains read_codes raw.op ≡ false)
  unfolding from_message
  from_message-invalid_iff msg raw e = rw e (
    chain raw (err (invalid_op_code raw.op))
        (λ k A make m code known at h. absurd (read-ne-invalid make m raw.op h))
        (λ unknown h. unknown),
    λ unknown. invalid raw unknown,
  )
