-- ===== src/Connection/Run.antt =====
-- src/connection.rs: the thread of `VoiceConnection::run`. A round holds what `poll` returned and
-- what `check_signals` of the Python interpreter raised; what the future is given is the outcome.
use Prim.Native.String.{String}
use discord_ext_audiorec.Prelude.{
  ℕ, Bool, ◌==◌, ◌&&◌, not, List, [], ◌∷◌, ◌++◌, All, if◌then◌else◌, Option, none, some, ◌≡◌, ◌≢◌,
  ◌↔◌, refl, arith,
}
use discord_ext_audiorec.Prelude.Results.{Result, ok, err, panic}
use discord_ext_audiorec.Errors.{DiscordError, connection_closed, PyErr, try_reconnect, from_owned}
use discord_ext_audiorec.Errors.Laws.{IsRetryable}

pub record PollRound : Type 0 where
  pub poll : Result DiscordError (Unit {0})
  pub signal : Option PyErr

-- `resolved` is a result of `None`; `running` says that the rounds are over and the loop is not.
pub data Fate : Type 0 where
  running resolved crashed : Fate
  raised : PyErr → Fate

unfoldable is_retry : ℕ → Bool
is_retry code = not (code == 1000) && not (code == 4014) && not (code == 4015)

module _ (to_string : DiscordError → String) where
  -- The `match` on the error.
  unfoldable pub settle : DiscordError → Fate
  unfolding from_owned is_retry
  settle (connection_closed code) =
      if is_retry code then resolved else raised (from_owned to_string (connection_closed code))
  settle e = raised (from_owned to_string e)

  -- One turn of the loop: what it comes to, and what the turns after it come to if it goes on.
  unfoldable pub turn : Result DiscordError (Unit {0}) → Option PyErr → (after : Fate) → Fate
  unfolding settle
  turn panic _ after = crashed
  turn _ (some e) after = raised e
  turn (ok _) none after = after
  turn (err e) none after = settle e

  unfoldable pub run : List PollRound → Fate
  unfolding turn
  run [] = running
  run (r ∷ rounds) = turn r.poll r.signal (run rounds)

  settle-resolved_iff : (e : DiscordError) → (settle e ≡ resolved) ↔ IsRetryable e
  unfolding settle
  settle-resolved_iff (connection_closed c) =
      ((λ h. (c, refl, ground arith, ground arith, ground arith)), (λ r. ground arith))
  settle-resolved_iff e = ((λ h. cc), (λ r. cc (r.1)))

  settle-ne-try_reconnect :
      (e : DiscordError) (x : PyErr) → settle e ≡ raised x → x.class ≢ try_reconnect
  unfolding settle from_owned
  settle-ne-try_reconnect (connection_closed c) x h = ground arith
  settle-ne-try_reconnect e x h = λ y. cc

  turn-ne-try_reconnect :
      (p : Result DiscordError (Unit {0})) (s : Option PyErr) (after : Fate) (x : PyErr)
      → ((y : PyErr) → s ≡ some y → y.class ≢ try_reconnect)
      → (after ≡ raised x → x.class ≢ try_reconnect)
      → turn p s after ≡ raised x
      → x.class ≢ try_reconnect
  unfolding turn
  turn-ne-try_reconnect panic s after x hs ha e = cc
  turn-ne-try_reconnect (ok u) (some y) after x hs ha e = hs x (cc)
  turn-ne-try_reconnect (err u) (some y) after x hs ha e = hs x (cc)
  turn-ne-try_reconnect (ok u) none after x hs ha e = ha e
  turn-ne-try_reconnect (err u) none after x hs ha e = settle-ne-try_reconnect u x e

  -- The loop goes on after a round in which nothing failed.
  abbrev pub IsQuiet : PollRound → Type 0
  IsQuiet r = (r.poll ≡ ok tt) × (r.signal ≡ none)

  run-quiet :
      (quiet : List PollRound) (rounds : List PollRound)
      → All IsQuiet quiet
      → run (quiet ++ rounds) ≡ run rounds
  unfolding run
  run-quiet [] rounds h = refl
  run-quiet (r ∷ quiet) rounds h = rw (h.0.0, h.0.1) (run-quiet quiet rounds h.1)

  -- After rounds in which nothing failed, the future is resolved by `None` exactly when the error
  -- that ends the loop asks for a reconnection.
  pub run-resolved_iff :
      (quiet rest : List PollRound) (r : PollRound) (e : DiscordError)
      → All IsQuiet quiet
      → r.signal ≡ none
      → r.poll ≡ err e
      → (run (quiet ++ r ∷ rest) ≡ resolved) ↔ IsRetryable e
  unfolding run
  run-resolved_iff quiet rest r e h s p =
      rw (run-quiet quiet (r ∷ rest) h, s, p) (settle-resolved_iff e)

  -- `TryReconnect` never reaches the future, unless what `check_signals` raises is a
  -- `TryReconnect`.
  pub run-ne-try_reconnect :
      (rounds : List PollRound) (x : PyErr)
      → All (λ r. (y : PyErr) → r.signal ≡ some y → y.class ≢ try_reconnect) rounds
      → run rounds ≡ raised x
      → x.class ≢ try_reconnect
  unfolding run
  run-ne-try_reconnect [] x h e = cc
  run-ne-try_reconnect (r ∷ rounds) x h e =
      turn-ne-try_reconnect r.poll r.signal (run rounds) x h.0 (run-ne-try_reconnect rounds x h.1) e
