-- ===== src/Recorder/Decode/Sample.antt =====
-- Samples, times, a decoder and a writer to run the decoding with. They model no code of their own.
use discord_ext_audiorec.Prelude.{
  ℕ, ◌+◌, ◌-◌, ◌*◌, ◌/◌, ◌%◌, ◌^◌, List, [], ◌∷◌, ◌++◌, length, ltb, false, Option, none, some, min,
}
use discord_ext_audiorec.Prelude.Results.{ok}
use discord_ext_audiorec.Recorder.Mix.{Samples, Times}
use discord_ext_audiorec.Recorder.Decode.{OpusDecoder, WavWriter}

abbrev pub next_seq : ℕ → ℕ
next_seq n = (n + 1) % 2 ^ 16

-- Whole numbers in the place of `f32` and `f64`.
abbrev pub whole : Samples
whole = record {
  F32 = ℕ;
  nil = 0;
  one = 1;
  minus_one = 0;
  less = λ a b. false;
  add = λ a b. a + b;
  sub = λ a b. a - b;
  mul = λ a b. a;
  minimum = λ a b. a;
  maximum = λ a b. a;
  to_i16 = λ a. a;
}

abbrev pub clock : Times
clock = record {
  F64 = ℕ;
  before = λ a b. ltb a b;
  latest = 1000;
  minimum = λ a b. min a b;
  above = λ a b. ltb b a;
  as_f64 = λ n. n;
  as_usize = λ n. n;
  minus = λ a b. a - b;
  times = λ a b. a * b;
  over = λ a b. a / b;
  two = 2;
  one = 1;
  frame_secs = 0;
}

-- A decoder that counts its calls, and writes as many samples for each channel as there are bytes.
abbrev pub frames_of : ℕ → Option (List ℕ) → ℕ × Option (ℕ × List ℕ)
frames_of count none = (count + 1, none)
frames_of count (some bytes) = (count + 1, some (1, count ∷ length bytes ∷ []))

abbrev pub counting : OpusDecoder ℕ
counting = record {
  Coder = ℕ;
  decode_float = λ count data' room. frames_of count data';
  last_packet_duration = λ count. some 960;
}

abbrev pub listing : WavWriter
listing = record {
  Writer = List ℕ;
  create = ok [];
  write_sample = λ xs x. ok (xs ++ (x ∷ []));
  finalize = λ xs. ok xs;
}
