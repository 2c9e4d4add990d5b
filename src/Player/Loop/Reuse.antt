-- ===== src/Player/Loop/Reuse.antt =====
-- src/player.rs: the nonces of the datagrams that `play_loop` sends, within an input and from one
-- input to the next.
use discord_ext_audiorec.Prelude.{
  ℕ, ◌+◌, ◌%◌, ◌^◌, ◌<◌, List, [], ◌++◌, length-replicate, get_elem?, length, some, false, All, ◌≡◌,
  ◌≢◌, arith, ◌∙◌, sym, ap, subst,
}
use discord_ext_audiorec.Payload.Mode.{
  EncryptionMode, xsalsa20_poly1305_suffix, xsalsa20_poly1305_lite,
}
use discord_ext_audiorec.Payload.Cipher.{Cipher, IsAead}
use discord_ext_audiorec.Gateway.Session.{World}
use discord_ext_audiorec.Player.{bufsize}
use discord_ext_audiorec.Player.Encoder.{AudioEncoder, from_gateway}
use discord_ext_audiorec.Player.Encoder.Stream.{wires}
use discord_ext_audiorec.Player.Encoder.Nonces.{
  last_4, be32_injective, wires-last_4, PairedAlike, wires-PairedAlike,
}
use discord_ext_audiorec.Player.Loop.{Codec, Turn, at_finished}
use discord_ext_audiorec.Player.Loop.System.{System}
use discord_ext_audiorec.Player.Loop.Served.{frame_samples, Encodes, IsServed, IsFit}
use discord_ext_audiorec.Player.Loop.Playback.{Lap, IsLive, packets, played, played-ends}

-- The system whose player thread has this encoder.
abbrev pub restarted :
    {w : World} {Opus : Type 0} → System w Opus → AudioEncoder Opus → System w Opus
restarted c e = record c { thread = record c.thread { encoder = e } }

module _ (w : World) {Opus : Type 0} (codec : Codec Opus) (encodes : Encodes codec) where
  -- An input that can be played whole from the top of the loop, with nothing sent yet.
  pub record IsPlayable (ls : List (Lap w)) (last : Lap w) (c : System w Opus) : Type 0 where
    pub place : c.thread.place ≡ at_finished
    pub live : IsLive c.connection.state
    pub served : All (λ l. IsServed l.work) ls
    pub over : (pcm : List ℕ) → length pcm ≡ frame_samples → (last.work.read pcm).0 ≡ false
    pub silent : c.thread.sent ≡ []

  pub played-wires :
      (ls : List (Lap w)) (last : Lap w) (x y : Turn w) (c : System w Opus)
      (fit : IsFit c.thread.encoder)
      → IsPlayable ls last c
      → (played w codec ls last x y c).thread.sent
        ≡ wires c.thread.encoder fit.aead (packets w codec c.thread.encoder ls)
  played-wires ls last x y c fit h =
      let (place, state, sent) =
        played-ends w codec encodes ls last x y c h.place h.live fit h.served h.over in
      sent
      ∙ ap (λ ds. ds ++ wires c.thread.encoder fit.aead (packets w codec c.thread.encoder ls))
          h.silent

  -- In the lite mode, when an input is played whole by a thread that has sent nothing yet, as for
  -- `played-ends`, with a lite nonce that fits a `u32`: any two of its first 2 ^ 32 datagrams carry
  -- different nonces.
  pub played-ne-last_4 :
      (ls : List (Lap w)) (last : Lap w) (x y : Turn w) (c : System w Opus) (i j : ℕ)
      (d d' : List ℕ)
      → IsFit c.thread.encoder
      → IsPlayable ls last c
      → c.thread.encoder.encryption ≡ xsalsa20_poly1305_lite
      → c.thread.encoder.lite_nonce < 2 ^ 32
      → i < 2 ^ 32
      → j < 2 ^ 32
      → get_elem? (played w codec ls last x y c).thread.sent i ≡ some d
      → get_elem? (played w codec ls last x y c).thread.sent j ≡ some d'
      → i ≢ j
      → last_4 d ≢ last_4 d'
  played-ne-last_4 ls last x y c i j d d' fit h lite lt hi hj at_i at_j ne same =
      let e : AudioEncoder Opus = c.thread.encoder in
      let ms : List (List ℕ × List ℕ) = packets w codec e ls in
      let sent = played-wires ls last x y c fit h in
      let di =
        wires-last_4 e fit.aead ms i d lite lt (ap (λ ds. get_elem? ds i) (sym sent) ∙ at_i) in
      let dj =
        wires-last_4 e fit.aead ms j d' lite lt (ap (λ ds. get_elem? ds j) (sym sent) ∙ at_j) in
      let number : (e.lite_nonce + i) % 2 ^ 32 ≡ (e.lite_nonce + j) % 2 ^ 32 =
        be32_injective ((e.lite_nonce + i) % 2 ^ 32) ((e.lite_nonce + j) % 2 ^ 32) (omega arith)
          (omega arith) (sym di ∙ same ∙ dj) in
      ne (omega (arith, number))

  -- Two inputs that are played whole by threads that have sent nothing yet, as for `played-ends`,
  -- with encoders that `from_gateway` made for the same key, SSRC and mode, other than the suffix
  -- mode: the first datagrams of both are sealed under one nonce, the second ones under one nonce,
  -- and so on, as long as both go on and whatever is in them.
  pub played-PairedAlike :
      (cipher : Cipher) (aead : IsAead cipher) (ssrc : ℕ) (m : EncryptionMode) (opus opus' : Opus)
      (ls ls' : List (Lap w)) (last last' : Lap w) (x y x' y' : Turn w) (c c' : System w Opus)
      → m ≢ xsalsa20_poly1305_suffix
      → IsPlayable ls last c
      → IsPlayable ls' last' c'
      → PairedAlike aead.seal
          (played w codec ls last x y (restarted c (from_gateway opus cipher ssrc m))).thread.sent
          (played w codec ls' last' x' y'
            (restarted c' (from_gateway opus' cipher ssrc m))).thread.sent
  unfolding from_gateway
  played-PairedAlike cipher aead ssrc m opus opus' ls ls' last last' x y x' y' c c' ne h h' =
      let e : AudioEncoder Opus = from_gateway opus cipher ssrc m in
      let e' : AudioEncoder Opus = from_gateway opus' cipher ssrc m in
      let fit : IsFit e = record {
        array = length-replicate {A = ℕ} bufsize 0;
        pcm_array = length-replicate {A = ℕ} 1920 0;
        aead = aead;
      } in
      let fit' : IsFit e' = record {
        array = length-replicate {A = ℕ} bufsize 0;
        pcm_array = length-replicate {A = ℕ} 1920 0;
        aead = aead;
      } in
      let sent = played-wires ls last x y (restarted c e) fit (again c e h) in
      let sent' = played-wires ls' last' x' y' (restarted c' e') fit' (again c' e' h') in
      subst
        (λ ds.
          PairedAlike aead.seal ds (played w codec ls' last' x' y' (restarted c' e')).thread.sent)
        (sym sent)
        (subst (PairedAlike aead.seal (wires e aead (packets w codec e ls))) (sym sent') (
          wires-PairedAlike e aead opus' e.pcm_buff e.buff (packets w codec e ls)
            (packets w codec e' ls') ne))
    where
      again :
          {ls : List (Lap w)} {last : Lap w} (c : System w Opus) (e : AudioEncoder Opus)
          → IsPlayable ls last c
          → IsPlayable ls last (restarted c e)
      again c e h = record {
        place = h.place;
        live = h.live;
        served = h.served;
        over = h.over;
        silent = h.silent;
      }
