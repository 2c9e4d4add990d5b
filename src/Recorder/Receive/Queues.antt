-- ===== src/Recorder/Receive/Queues.antt =====
-- src/recorder.rs: the map of queues. A packet reaches the end of its speaker's queue, and no other
-- queue changes.
use discord_ext_audiorec.Prelude.{
  ℕ, suc, ◌<◌, ◌≤◌, List, [], ◌∷◌, ◌++◌, ◌==◌, if◌then◌else◌, ◌≡◌, refl, arith,
}
use discord_ext_audiorec.Recorder.Queue.{Packet, PacketQueue, push_back}
use discord_ext_audiorec.Recorder.Queue
use discord_ext_audiorec.Recorder.Receive.{SsrcPacketQueue, push_entry}

module _ {Time : Type 0} where
  -- The packets of a speaker, oldest first.
  abbrev pub packets_of : ℕ → SsrcPacketQueue Time → List (Packet Time)
  packets_of k [] = []
  packets_of k ((j, q) ∷ m) = if k == j then q.queue else packets_of k m

  -- The keys rise along the list, all of them at or above a bound.
  abbrev pub IsSorted : ℕ → SsrcPacketQueue Time → Type 0
  IsSorted low [] = Unit {0}
  IsSorted low ((k, q) ∷ m) = (low ≤ k) × IsSorted (suc k) m

  IsSorted-absent :
      (low k : ℕ) (m : SsrcPacketQueue Time) → IsSorted low m → k < low → packets_of k m ≡ []
  IsSorted-absent low k [] s h = refl
  IsSorted-absent low k ((j, q) ∷ m) s h = ground (arith, IsSorted-absent (suc j) k m)

  -- Filing a packet keeps the keys of the map in order.
  pub push_entry-IsSorted :
      (low ssrc : ℕ) (p : Packet Time) (m : SsrcPacketQueue Time)
      → IsSorted low m
      → low ≤ ssrc
      → IsSorted low (push_entry ssrc p m)
  unfolding push_entry
  push_entry-IsSorted low ssrc p [] s h = ground arith
  push_entry-IsSorted low ssrc p ((j, q) ∷ m) s h =
      ground (arith, push_entry-IsSorted (suc j) ssrc p m)

  -- In a map in key order, the packet is added behind those of its speaker, and the packets of
  -- every other speaker stay.
  pub packets_of-push_entry :
      (low ssrc k : ℕ) (p : Packet Time) (m : SsrcPacketQueue Time)
      → IsSorted low m
      → packets_of k (push_entry ssrc p m)
        ≡ (if k == ssrc then packets_of k m ++ p ∷ [] else packets_of k m)
  unfolding push_entry push_back Queue.new
  packets_of-push_entry low ssrc k p [] s = ground arith
  packets_of-push_entry low ssrc k p ((j, q) ∷ m) s =
      ground (arith, packets_of-push_entry (suc j) ssrc k p m, IsSorted-absent (suc j) ssrc m)
