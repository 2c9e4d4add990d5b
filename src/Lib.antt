-- ===== src/Lib.antt =====
-- The discord-ext-audiorec library (Rust): a Discord voice client that plays and records audio.
--
-- The program's parts and their interaction. A gateway (src/ws.rs) speaks the websocket protocol
-- and keeps a shared state (src/state.rs). `VoiceConnection` (src/connection.rs) polls the gateway
-- in a thread, and starts a player and a recorder, which are threads on the same state. The player
-- (src/player.rs) encodes PCM, encrypts it (src/payload.rs) and sends it by UDP. The recorder
-- (src/recorder.rs) receives datagrams, decrypts them, files them by speaker, and at the end takes
-- each speaker's packets in order, decodes them and mixes them. Errors become Python exceptions
-- (src/error.rs).
--
-- The files:
--   Prelude      shared notation, list lemmas, bits of bytes, and Rust's results with panics
--   Buffer       `AudioBuffer` of src/player.rs
--   Errors       src/error.rs
--   Payload      the encryption modes of src/payload.rs and their `Encryptor`, over the interface
--                of the AEAD crate in Payload/Cipher, and the messages of the gateway in Payload/OpCode;
--                Payload/SampleCipher is a cipher for tests
--   Player       src/player.rs: Encoder is `AudioEncoder`, Ffmpeg is `FFmpegAudio`, and Loop is
--                `play_loop` as a thread beside the others; Loop/System puts the two together
--   Recorder     src/recorder.rs: Queue is `PacketQueue`, Offset is `calc_offset`, Receive is
--                `decrypt_from_buffer` and `recv_loop`, Mix is the mixing in `decode`, and Decode
--                is `decode_packets` and the rest of `decode`
--   State        src/state.rs
--   Python       src/lib.rs and src/futures.rs: the module, and how the threads settle futures
--   Relay        src/player.rs with src/recorder.rs: the player's datagrams, received and decoded
--   Gateway      src/ws.rs: the UDP discovery with its retries, Session is `VoiceGateway` with
--                `poll`, Session/Flow its other methods, and Builder is `VoiceGatewayBuilder` with
--                `VoiceConnector` of src/connection.rs
--   Connection   src/connection.rs: the shared state under the methods; Run is `run`, Polling is
--                `run` on the gateway that it polls, StopRecord the whole of `stop_record`,
--                Recordings the threads of `AudioRecorder`, and Views what Python is told
--
-- Functions keep the names of the source. A `&mut self` method takes the object and returns it; on
-- an error or a panic the object is not returned, since the threads end there and drop it, except
-- for the queues of `recv_loop` and the gateway, which are shared: its methods are actions that keep
-- the object after an error, too. Panics are values: indexing, slicing and
-- `copy_from_slice` check their lengths, and subtraction on `usize` depends on the build. Integers
-- are natural numbers with their wrap-around written out. Loops are structural on a list or on a
-- count, but for the one of `decode_packets`: it runs on fuel, the length of the queue and one more,
-- which is enough since every call of `get_packet` but the last takes a packet away. The loops of
-- `recv_loop`, `run` and `connection_flow` take the list of what their rounds observe, so a theorem
-- on them holds for every list; `play_loop` and the threads of `AudioRecorder` are step functions on a
-- program counter, and a run is a list of their own steps and those of the other threads.
--
-- Parameters: the cipher, the random bytes of the suffix mode, the socket's answers, the Opus
-- encoder and decoder, `Seq::next` of the crate rtp-rs, the WAV writer, `serde_json` (`Serde`), the
-- websocket and the clocks (`Round`, `Turn`), the processes of the operating system (`Os`), the
-- Python interpreter (`Interpreter`), the TLS and websocket handshake of `connect`, the texts of
-- errors, and floating point numbers.
--
-- Not modelled: the log; the conversion of values to Python objects, which is a parameter; and
-- the panic of `vec!` in `decode` on a length that no memory could hold.
pub mod Prelude
pub mod Buffer
pub mod Errors
pub mod Payload
pub mod Player
pub mod Recorder
pub mod State
pub mod Connection
pub mod Gateway
pub mod Relay
pub mod Python
