-- ===== src/Player.antt =====
-- src/player.rs: the constants of the audio format, and the encoder that turns PCM frames into
-- encrypted RTP packets. (`AudioBuffer`, of the same file, is the module `Buffer`.)
pub mod Encoder
pub mod Loop
pub mod Ffmpeg
mod Tests
use discord_ext_audiorec.Prelude.{ℕ, ◌+◌, ◌*◌, ◌/◌}

abbrev pub sampling_rate : ℕ
sampling_rate = 48000

abbrev pub channels : ℕ
channels = 2

abbrev pub frame_length : ℕ
frame_length = 20

abbrev pub sample_size : ℕ
sample_size = 4

abbrev pub samples_per_frame : ℕ
samples_per_frame = sampling_rate / 1000 * frame_length

abbrev pub frame_size : ℕ
frame_size = samples_per_frame * sample_size

abbrev pub bufsize : ℕ
bufsize = 1275 + 24 + 12 + 24 + 16 + 12
