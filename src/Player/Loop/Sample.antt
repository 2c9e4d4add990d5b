-- ===== src/Player/Loop/Sample.antt =====
-- A world, a codec and inputs to run `play_loop` with. They model no code of their own.
use discord_ext_audiorec.Prelude.{
  ℕ, ◌+◌, [], ◌∷◌, replicate, length, length-replicate, true, false, refl, arith,
}
use discord_ext_audiorec.Prelude.Results.{ok}
use discord_ext_audiorec.State.{connected, is_state}
use discord_ext_audiorec.Connection.{VoiceConnection}
use discord_ext_audiorec.Payload.SampleCipher.{sample_cipher, sample-IsAead}
use discord_ext_audiorec.Gateway.Session.{World}
use discord_ext_audiorec.Gateway.Session.Sample.{sample_world, sample_gateway}
use discord_ext_audiorec.Payload.Mode.{xsalsa20_poly1305_lite}
use discord_ext_audiorec.Player.Loop.System.{System}
use discord_ext_audiorec.Player.Encoder.{AudioEncoder, from_gateway}
use discord_ext_audiorec.Player.Loop.{Codec, Turn, Thread, at_finished}
use discord_ext_audiorec.Player.Loop.Served.{Encodes, IsServed, IsFit}
use discord_ext_audiorec.Player.Loop.Playback.{Lap, IsLive}
use discord_ext_audiorec.Player.{bufsize}

abbrev pub world : World
world = sample_world 4

-- A packet of three bytes for each frame.
abbrev pub codec : Codec ℕ
codec = record {
  opus_new = ok 0;
  opus_encode = λ n pcm room. ok (n + 1, 1 ∷ 2 ∷ 3 ∷ []);
  cipher_new = λ key. sample_cipher;
}

abbrev pub at_time : (now : ℕ) → Turn world
at_time now = record {
  gateway = sample_gateway 4;
  try_clone = λ s. ok s;
  read = λ pcm. (true, pcm);
  random = replicate 24 7;
  send_to = λ addr d. ok (length d);
  now = now;
}

abbrev pub thread : Thread world ℕ
thread = record {
  place = at_finished;
  encoder = from_gateway 0 sample_cipher 9 (sample_gateway 4).encryption;
  socket = 3;
  addr = 7;
  next_iteration = 100;
  sent = [];
  slept = 0;
}

abbrev pub connection : VoiceConnection
connection = record { state = connected; player = true; recorder = false }

abbrev pub encodes : Encodes codec
encodes opus pcm h = (opus + 1, 1 ∷ 2 ∷ 3 ∷ [], refl, omega arith, omega arith)

pub fit : IsFit thread.encoder
unfolding from_gateway
fit = record {
  array = length-replicate {A = ℕ} bufsize 0;
  pcm_array = length-replicate {A = ℕ} 1920 0;
  aead = sample-IsAead;
}

pub served : (now : ℕ) → IsServed (at_time now)
served now = record {
  reads = λ pcm h. refl;
  fills = λ pcm h. h;
  random_24 = refl;
  accepts = λ addr d h. (length d, refl);
}

pub live : IsLive connected
unfolding is_state
live = (refl, refl, refl)

abbrev pub lap : ℕ → Lap world
lap now = record {
  first = at_time now;
  second = at_time now;
  third = at_time now;
  work = at_time now;
}

abbrev pub over : Lap world
over = record (lap 90) { work = record (at_time 90) { read = λ pcm. (false, pcm) } }

abbrev pub lite_encoder : AudioEncoder ℕ
lite_encoder = from_gateway 0 sample_cipher 9 xsalsa20_poly1305_lite

abbrev pub lite_system : System world ℕ
lite_system = record { connection = connection; thread = record thread { encoder = lite_encoder } }

pub lite_fit : IsFit lite_encoder
unfolding from_gateway
lite_fit = record {
  array = length-replicate {A = ℕ} bufsize 0;
  pcm_array = length-replicate {A = ℕ} 1920 0;
  aead = sample-IsAead;
}
