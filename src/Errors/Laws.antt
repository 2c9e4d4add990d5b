-- ===== src/Errors/Laws.antt =====
-- src/error.rs: which exceptions the errors become.
use Prim.Native.String.{String}
use discord_ext_audiorec.Prelude.{ℕ, ◌≡◌, refl, ◌≢◌, ◌↔◌, arith}
use discord_ext_audiorec.Errors.{
  DiscordError, connection_closed, from_owned, from_borrowed, try_reconnect,
}

-- The close codes on which the gateway asks the client to try again.
abbrev pub IsRetryable : DiscordError → Type 0
IsRetryable e = (c : ℕ) × (e ≡ connection_closed c) × (c ≢ 1000) × (c ≢ 4014) × (c ≢ 4015)

module _ (to_string : DiscordError → String) where
  -- Both conversions, which the source writes out twice, give every error the same exception.
  pub from_borrowed-eq-from_owned :
      (e : DiscordError) → from_borrowed to_string e ≡ from_owned to_string e
  unfolding from_owned from_borrowed
  from_borrowed-eq-from_owned (connection_closed c) = refl
  from_borrowed-eq-from_owned e = refl

  -- An error becomes `TryReconnect` exactly when it is a close with another code than 1000, 4014
  -- and 4015.
  pub from_owned-try_reconnect_iff :
      (e : DiscordError) → ((from_owned to_string e).class ≡ try_reconnect) ↔ IsRetryable e
  unfolding from_owned
  from_owned-try_reconnect_iff (connection_closed c) =
      ((λ h. (c, refl, ground arith, ground arith, ground arith)), (λ r. ground arith))
  from_owned-try_reconnect_iff e = ((λ h. cc), (λ r. cc (r.1)))
