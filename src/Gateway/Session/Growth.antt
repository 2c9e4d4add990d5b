-- ===== src/Gateway/Session/Growth.antt =====
-- src/ws.rs: what was sent on the websocket stays sent, whatever is handled after it.
use Prim.Native.String.{String}
use discord_ext_audiorec.Prelude.{ℕ, List, [], ◌∷◌, ◌++◌, length, arith, take, ◌≡◌, refl}
use discord_ext_audiorec.Prelude.Results.{Result, ok, err, panic}
use discord_ext_audiorec.Payload.OpCode.{
  OpCode, ready, heartbeat_code, session_description, heartbeat_ack, hello, Ready,
}
use discord_ext_audiorec.Gateway.Session.{
  World, VoiceGateway, Message, text, close_message, unknown, ReadError, io, protocol, Round,
  write_message, handle_heartbeat, handle_heartbeat_ack, handle_session_description, handle_ready,
  handle_hello, handle, on_message, on_read,
}

begins-append :
    {A : Type 0} (l xs ys : List A) → take (length l) xs ≡ l → take (length l) (xs ++ ys) ≡ l
begins-append [] xs ys h = refl
begins-append (x ∷ l) [] ys h = absurd (cc h)
begins-append (x ∷ l) (y ∷ xs) ys h = let ih = begins-append l xs ys (cc h) in cc

module _ (w : World) (r : Round w) (l : List String) where
  open w use {serde}

  -- What `l` holds was sent first.
  abbrev Begins : VoiceGateway w → Type 0
  Begins g = take (length l) g.sent ≡ l

  write_message-Begins :
      (packet : String) (g : VoiceGateway w) → Begins g → Begins (write_message w r packet g).1
  unfolding write_message
  write_message-Begins packet g h =
      let more : take (length l) (g.sent ++ (packet ∷ [])) ≡ l =
        begins-append l g.sent (packet ∷ []) h in
      ground arith

  handle_heartbeat-Begins :
      (now : ℕ) (g : VoiceGateway w) → Begins g → Begins (handle_heartbeat w r now g).1
  unfolding handle_heartbeat
  handle_heartbeat-Begins now g h =
      let sent : (packet : String) → Begins (write_message w r packet g).1 =
        λ packet. write_message-Begins packet g h in
      grind arith

  handle_ready-Begins :
      (d : Ready) (g : VoiceGateway w) → Begins g → Begins (handle_ready w r d g).1
  unfolding handle_ready write_message
  handle_ready-Begins d g h =
      let more : (packet : String) → take (length l) (g.sent ++ (packet ∷ [])) ≡ l =
        λ packet. begins-append l g.sent (packet ∷ []) h in
      grind arith

  handle-Begins :
      (p : OpCode serde.F64 serde.Value) (g : VoiceGateway w) → Begins g → Begins (handle w r p g).1
  unfolding handle handle_hello handle_heartbeat_ack handle_session_description
  handle-Begins (hello x) g h = ground arith
  handle-Begins (ready d) g h = handle_ready-Begins d g h
  handle-Begins (heartbeat_code n) g h = handle_heartbeat-Begins r.handled g h
  handle-Begins (heartbeat_ack n) g h = h
  handle-Begins (session_description d) g h = ground arith
  handle-Begins p g h = h

  on_message-Begins : (m : Message) (g : VoiceGateway w) → Begins g → Begins (on_message w r m g).1
  unfolding on_message
  on_message-Begins (text t) g h =
      let later : (p : OpCode serde.F64 serde.Value) → Begins (handle w r p g).1 =
        λ p. handle-Begins p g h in
      grind arith
  on_message-Begins (close_message frame) g h = h
  on_message-Begins unknown g h = h

  -- Whatever is read and handled, with errors too, what was sent before stays sent.
  pub on_read-begins :
      (m : Result ReadError Message) (g : VoiceGateway w)
      → take (length l) g.sent ≡ l
      → take (length l) (on_read w r m g).1.sent ≡ l
  unfolding on_read
  on_read-begins (ok m) g h = on_message-Begins m g h
  on_read-begins (err (io e)) g h = ground arith
  on_read-begins (err (protocol e)) g h = h
  on_read-begins panic g h = h
