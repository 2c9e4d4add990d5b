-- ===== src/Player/Ffmpeg/Process.antt =====
-- src/player.rs: the process behind `FFmpegAudio`. The operating system is a parameter.
use Prim.Native.String.{String}
use discord_ext_audiorec.Prelude.{ℕ, Option, List, [], ◌∷◌}
use discord_ext_audiorec.Prelude.Results.{Result, map_err}
use discord_ext_audiorec.Errors.{DiscordError, io_error, IoError}
use discord_ext_audiorec.Player.Ffmpeg.{FfmpegAudio}

-- `Command::spawn` with a piped output, `Child::kill`, and what the pipe still gives.
pub record Os : Type 1 where
  pub Child : Type 0
  pub spawn : (program : String) → (args : List String) → Result IoError Child
  pub kill : Child → Result IoError (Unit {0}) × Child
  pub stdout : Child → Option (List ℕ)

abbrev pub ffmpeg_args : (input : String) → List String
ffmpeg_args input =
    "-i" ∷ input ∷ "-f" ∷ "s16le" ∷ "-ar" ∷ "48000" ∷ "-ac" ∷ "2" ∷ "-loglevel" ∷ "warning"
    ∷ "pipe:1" ∷ []

module _ (os : Os) where
  open os use {Child, spawn, kill, stdout}

  -- `FFmpegAudio::new`.
  unfoldable pub new : (input : String) → Result DiscordError Child
  new input = map_err io_error (spawn "ffmpeg" (ffmpeg_args input))

  -- The process as an input.
  unfoldable pub input_of : Child → FfmpegAudio
  input_of process = record { stdout = stdout process }

  -- `Drop`: an error is logged.
  unfoldable pub drop : Child → Child
  drop process = (kill process).1
