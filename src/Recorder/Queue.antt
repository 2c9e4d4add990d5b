-- ===== src/Recorder/Queue.antt =====
-- src/recorder.rs: `PacketQueue`, the queue of one speaker's packets in the order of arrival, and
-- `get_packet`, which takes them out by sequence number. A `Seq` of the crate rtp-rs is its 16-bit
-- number; the crate's `next` is a parameter. `Time` is the `f64` of the time of arrival.
pub mod Shrinks
pub mod InOrder
pub mod Gaps
use discord_ext_audiorec.Prelude.{
  ℕ, ◌+◌, ◌-◌, min, List, [], ◌∷◌, ◌++◌, length, take, drop, leb, ◌==◌, if◌then◌else◌, Option, none,
  ◌≡◌, ◌≢◌, some,
}
use discord_ext_audiorec.Prelude.Results.{Result, ok, err, panic, ◌>>=◌, ◌>>◌, MayPanic}

pub record Packet (Time : Type 0) : Type 0 where
  pub bytes : List ℕ
  pub size : ℕ
  pub timestamp : ℕ
  pub seq : ℕ
  pub received : Time

pub data PacketResult (A : Type 0) : Type 0 where
  find : A → PacketResult A
  dropped end : PacketResult A

-- `queue` is `.0`, its front first, and `last` is `.1`.
pub record PacketQueue (Time : Type 0) : Type 0 where
  pub queue : List (Packet Time)
  pub last : Option ℕ

module _ {Time : Type 0} where
  unfoldable pub new : PacketQueue Time
  new = record { queue = []; last = none }

  unfoldable pub push_back : PacketQueue Time → Packet Time → PacketQueue Time
  push_back self p = record self { queue = self.queue ++ p ∷ [] }

  -- `push_front` of each packet in turn.
  unfoldable pub push_fronts : List (Packet Time) → List (Packet Time) → List (Packet Time)
  push_fronts [] q = q
  push_fronts (p ∷ ps) q = push_fronts ps (p ∷ q)

  -- `front.last().copied().unwrap()`.
  unfoldable pub last_of : List (Packet Time) → MayPanic (Packet Time)
  last_of [] = panic
  last_of (p ∷ []) = ok p
  last_of (p ∷ q ∷ ps) = last_of (q ∷ ps)

-- What `get_packet` returns, and the queue after it.
abbrev pub Outcome : Type 0 → Type 0
Outcome Time = PacketResult (Packet Time) × PacketQueue Time

module _ {Time : Type 0} where
  -- `drain(..i)`, all but the last of the drained packets pushed back one by one, and the last one
  -- returned.
  unfoldable pub reordered : (i : ℕ) → List (Packet Time) → MayPanic (Outcome Time)
  unfolding push_fronts last_of
  reordered i rest = do
    let front = take i rest
    packet ← last_of front
    ok (
      find packet,
      record {
        queue = push_fronts (take (length front - 1) front) (drop i rest);
        last = some packet.seq;
      },
    )

module _ {Time : Type 0} (next : ℕ → ℕ) where
  -- The loop over `i in 1..1000.min(len)`: the list is what stands from index `i` on.
  unfoldable pub search : (target i stop : ℕ) → List (Packet Time) → Option ℕ
  search target i stop [] = none
  search target i stop (p ∷ ps) =
      if leb stop i
      then none
      else if next p.seq == target
      then some i
      else search target (i + 1) stop ps

  -- A packet was taken from the front, and `rest` is left.
  unfoldable pub got : (seq : ℕ) → Packet Time → List (Packet Time) → MayPanic (Outcome Time)
  unfolding search reordered
  got seq packet rest =
      if next seq == packet.seq
      then ok (find packet, record { queue = rest; last = some packet.seq })
      else elim (search packet.seq 1 (min 1000 (length rest)) (drop 1 rest)) [
        | none ↦ ok (dropped, record { queue = rest; last = some seq })
        | some i ↦ reordered i rest
      ]

  pop : Option ℕ → List (Packet Time) → MayPanic (Outcome Time)
  unfolding got
  pop last [] = ok (end, record { queue = []; last = last })
  pop none (p ∷ rest) = ok (find p, record { queue = rest; last = some p.seq })
  pop (some seq) (p ∷ rest) = got seq p rest

  unfoldable pub get_packet : PacketQueue Time → MayPanic (Outcome Time)
  unfolding pop
  get_packet self = pop self.last self.queue

-- Calls of `get_packet` until it answers `End`: the answers before that, and the queue at the end.
pub data Drains {Time : Type 0} (next : ℕ → ℕ)
    : PacketQueue Time → List (PacketResult (Packet Time)) → PacketQueue Time → Type 0 where
  done : {q r : PacketQueue Time} → get_packet next q ≡ ok (end, r) → Drains next q [] r
  step :
      {q r s : PacketQueue Time} {a : PacketResult (Packet Time)}
      {rest : List (PacketResult (Packet Time))}
      → get_packet next q ≡ ok (a, r)
      → a ≢ end
      → Drains next r rest s
      → Drains next q (a ∷ rest) s
