-- ===== src/Recorder/Offset.antt =====
-- src/recorder.rs: `calc_offset`, which finds where the Opus frame starts behind an RTP header
-- extension. `data` is the whole receive array, in which the decrypted message stands in front.
pub mod Bounds
pub mod Elements
use Prim.Native.Nat.{bit_and}
use discord_ext_audiorec.Prelude.{
  ℕ, zero, suc, ◌+◌, ◌*◌, ◌/◌, ◌^◌, List, length, get_elem?, Option, none, some, Bool, true, false,
  not, ◌&&◌, ◌||◌, ◌==◌, leb, if◌then◌else◌,
}
use discord_ext_audiorec.Prelude.Results.{Result, ok, panic, ◌>>=◌, ◌>>◌, MayPanic}

-- `data[i]`.
abbrev pub from_some {ℓ} : {E : Type ℓ} → Option ℕ → Result E ℕ
from_some none = panic
from_some (some b) = ok b

abbrev pub index {ℓ} : {E : Type ℓ} → List ℕ → ℕ → Result E ℕ
index xs i = from_some (get_elem? xs i)

-- Where the next round starts: behind a zero byte, or behind a byte, one more, and as many as its
-- upper half says.
unfoldable pub skip : ℕ → ℕ → ℕ
skip byte offset = if byte == 0 then offset + 1 else offset + 1 + (1 + bit_and 0xF (byte / 2 ^ 4))

-- `rounds` is what is left of `0..ext_length`.
unfoldable pub ext_loop : (rounds : ℕ) → List ℕ → (offset : ℕ) → MayPanic ℕ
unfolding skip
ext_loop zero data' offset = ok offset
ext_loop (suc n) data' offset = do byte ← index data' offset; ext_loop n data' (skip byte offset)

unfoldable pub calc_extension : List ℕ → MayPanic ℕ
unfolding ext_loop
calc_extension data' = do
  high ← index data' 2
  low ← index data' 3
  offset ← ext_loop (high * 256 + low) data' 4
  first ← index data' (offset + 1)
  ok ((if first == 0 || first == 2 then offset + 1 else offset) + 1)

unfoldable pub calc_offset : List ℕ → MayPanic ℕ
unfolding calc_extension
calc_offset data' = do
  b0 ← index data' 0
  if not (b0 == 0xBE) then ok 0 else (do
    b1 ← index data' 1
    if not (b1 == 0xDE && not (leb (length data') 4)) then ok 0 else calc_extension data')
