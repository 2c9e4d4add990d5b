-- ===== src/Player/Loop/Start.antt =====
-- src/player.rs: the thread with which the loop of `play_loop` starts.
use discord_ext_audiorec.Prelude.{ℕ, [], ◌≡◌}
use discord_ext_audiorec.Prelude.Results.{Result, ok, map_err, bind-eq-ok}
use discord_ext_audiorec.Errors.{IoError, io_error, opus_error}
use discord_ext_audiorec.Gateway.Session.{World, VoiceGateway, Round}
use discord_ext_audiorec.Gateway.Session.Flow.{clone_socket, speaking}
use discord_ext_audiorec.Player.Encoder.{from_gateway}
use discord_ext_audiorec.Player.Loop.{Codec, Turn, Thread, encoder_for, start}

module _ (w : World) {Opus : Type 0} (codec : Codec Opus) where
  -- A thread that has sent nothing.
  pub record IsFresh (began : ℕ) (self : Thread w Opus) : Type 0 where
    pub nothing_sent : self.sent ≡ []
    pub sequence_zero : self.encoder.sequence ≡ 0
    pub lite_nonce_zero : self.encoder.lite_nonce ≡ 0
    pub began_eq : self.next_iteration ≡ began

  pub start-IsFresh :
      (peer_addr : Result IoError w.Address) (r : Round w) (began : ℕ) (t : Turn w)
      (self : Thread w Opus)
      → start w codec peer_addr r began t ≡ ok self
      → IsFresh began self
  unfolding start encoder_for from_gateway
  start-IsFresh peer_addr r began t self h =
      let gateway : VoiceGateway w = (speaking w r 1 t.gateway).1 in
      let (u, e, h1) = bind-eq-ok (speaking w r 1 t.gateway).0 _ h in
      let (encoder, e1, h2) = bind-eq-ok (encoder_for w codec gateway) _ h1 in
      let (opus, e1', made) = bind-eq-ok (map_err opus_error codec.opus_new) _ e1 in
      let (socket, e2, h3) = bind-eq-ok (clone_socket w t.try_clone gateway) _ h2 in
      let (u', e3, h4) = bind-eq-ok (map_err io_error peer_addr) _ h3 in
      record {
        nothing_sent = cc (h4, made);
        sequence_zero = cc (h4, made);
        lite_nonce_zero = cc (h4, made);
        began_eq = cc (h4, made);
      }
