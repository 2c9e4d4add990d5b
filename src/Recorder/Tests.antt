-- ===== src/Recorder/Tests.antt =====
-- src/recorder.rs: the theorems on queues, mixing and offsets, at concrete inputs.
use discord_ext_audiorec.Prelude.{
  ℕ, ◌+◌, ◌-◌, ◌%◌, ◌^◌, List, [], ◌∷◌, get_elem?, ◌≡◌, refl, arith, none, some, true, false,
}
use discord_ext_audiorec.Prelude.Results.{ok, panic, Build}
use discord_ext_audiorec.Recorder.Queue.{Packet, find, get_packet, search}
use discord_ext_audiorec.Recorder.Queue.Gaps.{reorder-eq-neighbour}
use discord_ext_audiorec.Recorder.Queue.Shrinks.{Takes, get_packet-Takes}
use discord_ext_audiorec.Recorder.Mix.{Samples, combine, mix_pcms}
use discord_ext_audiorec.Recorder.Mix.Even.{mix_pcms_even}
use discord_ext_audiorec.Recorder.Offset.{calc_offset}
use discord_ext_audiorec.Recorder.Offset.Bounds.{calc_offset_panics}
use discord_ext_audiorec.Recorder.Offset.Elements.{
  Element, padding, field, extension, calc_offset-extension,
}
use discord_ext_audiorec.Recorder.Receive.{SsrcPacketQueue}

abbrev next_seq : ℕ → ℕ
next_seq n = (n + 1) % 2 ^ 16

abbrev numbered : ℕ → Packet ℕ
numbered n = record { bytes = n ∷ []; size = 1; timestamp = 0; seq = n; received = 0 }

-- The packet 12 came before 11.
found_at_one : search next_seq 12 1 2 (numbered 11 ∷ []) ≡ some 1
unfolding search
found_at_one = refl

reorder-eq-neighbour_example :
    (q : Packet ℕ) × (get_elem? (numbered 13 ∷ numbered 11 ∷ []) 0 ≡ some q)
    × (get_packet next_seq
          (record { queue = numbered 12 ∷ numbered 13 ∷ numbered 11 ∷ []; last = some 10 })
        ≡ ok (find q, record { queue = numbered 11 ∷ []; last = some q.seq }))
reorder-eq-neighbour_example =
    reorder-eq-neighbour next_seq 10 1 (numbered 12) (numbered 13 ∷ numbered 11 ∷ [])
      (λ e. omega arith) found_at_one

get_packet-Takes_example :
    Takes next_seq
      (record { queue = numbered 12 ∷ []; last = some 10 })
      (get_packet next_seq (record { queue = numbered 12 ∷ []; last = some 10 }))
get_packet-Takes_example =
    get_packet-Takes next_seq (record { queue = numbered 12 ∷ []; last = some 10 })

-- Whole numbers in the place of `f32`.
abbrev whole : Samples
whole = record {
  F32 = ℕ;
  nil = 0;
  one = 1;
  minus_one = 0;
  less = λ a b. false;
  add = λ a b. a + b;
  sub = λ a b. a - b;
  mul = λ a b. a;
  minimum = λ a b. a;
  maximum = λ a b. a;
  to_i16 = λ a. a;
}

mix_pcms_even_example : mix_pcms whole ((1 ∷ 2 ∷ []) ∷ (10 ∷ 20 ∷ []) ∷ []) ≡ ok (11 ∷ 22 ∷ [])
unfolding combine
mix_pcms_even_example = mix_pcms_even whole ((1 ∷ 2 ∷ []) ∷ (10 ∷ 20 ∷ []) ∷ []) (λ x. ground arith)

abbrev one_field : List Element
one_field = padding ∷ field 0x10 (7 ∷ 8 ∷ []) ∷ []

calc_offset-extension_example : calc_offset (extension one_field 9 0 (5 ∷ [])) ≡ ok 10
calc_offset-extension_example =
    calc_offset-extension one_field 9 0 (5 ∷ []) (tt, ((omega arith, omega arith, refl), tt))
      (omega arith)

calc_offset_panics_example : calc_offset (0xBE ∷ 0xDE ∷ 1 ∷ 0 ∷ 0x10 ∷ 7 ∷ []) ≡ panic
calc_offset_panics_example =
    calc_offset_panics (0xBE ∷ 0xDE ∷ 1 ∷ 0 ∷ 0x10 ∷ 7 ∷ []) 256
      (record {
        long = omega arith;
        first = refl;
        second = refl;
        high = 1;
        low = 0;
        third = refl;
        fourth = refl;
        rounds_eq = refl;
      })
      (omega arith)

abbrev two_speakers : SsrcPacketQueue ℕ
two_speakers =
    (3, record { queue = numbered 1 ∷ []; last = none })
    ∷ (5, record { queue = numbered 2 ∷ []; last = none })
    ∷ []

abbrev checked : Build
checked = record { overflow_checks = true; debug_log = false }

no_extension : calc_offset (7 ∷ 8 ∷ 9 ∷ []) ≡ ok 0
unfolding calc_offset
no_extension = refl
