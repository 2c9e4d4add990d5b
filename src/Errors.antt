-- ===== src/Errors.antt =====
-- src/error.rs: the crate's error type and its two conversions to Python exceptions. The error
-- values of the third-party crates are opaque, and stand here as their texts. `to_string`, which
-- their `Display` and `Debug` instances decide, is a parameter.
pub mod Laws
use Prim.Native.String.{String}
use discord_ext_audiorec.Prelude.{
  ℕ, Bool, true, false, ◌||◌, not, List, [], ◌∷◌, ◌==◌, if◌then◌else◌,
}
use discord_ext_audiorec.Buffer.{AeadError}

-- `std::io::ErrorKind`, as far as the crate tells the kinds apart.
pub data ErrorKind : Type 0 where
  would_block timed_out other : ErrorKind
  another : String → ErrorKind

pub record IoError : Type 0 where
  pub kind : ErrorKind
  pub message : String

pub data DiscordError : Type 0 where
  builder_missing_required_field : String → DiscordError
  tls_connector_creation_failed : String → DiscordError
  io_error : IoError → DiscordError
  invalid_dns_name : String → DiscordError
  websocket_handshake_failed : String → DiscordError
  tungstenite_error : String → DiscordError
  serde_error : String → DiscordError
  invalid_op_code : ℕ → DiscordError
  addr_parse_failed : String → DiscordError
  connection_closed : ℕ → DiscordError
  encryption_error : AeadError → DiscordError
  opus_error : String → DiscordError
  wav_file_error : String → DiscordError

-- The classes that `create_exception!` makes.
pub data ExceptionClass : Type 0 where
  missing_field_error internal_error internal_io_error tls_error gateway_error try_reconnect
        encryption_failed :
      ExceptionClass

pub record PyErr : Type 0 where
  pub class : ExceptionClass
  pub message : String

-- `codes.contains(&c)`.
unfoldable pub contains : List ℕ → ℕ → Bool
contains [] c = false
contains (x ∷ xs) c = x == c || contains xs c

-- The close codes after which no reconnection is worth trying.
abbrev pub final_codes : List ℕ
final_codes = 1000 ∷ 4014 ∷ 4015 ∷ []

module _ (to_string : DiscordError → String) where
  -- `impl From<DiscordError> for PyErr`.
  unfoldable pub from_owned : DiscordError → PyErr
  unfolding contains
  from_owned (builder_missing_required_field f) = record {
    class = missing_field_error;
    message = to_string (builder_missing_required_field f);
  }
  from_owned (tls_connector_creation_failed e) = record {
    class = internal_error;
    message = to_string (tls_connector_creation_failed e);
  }
  from_owned (io_error e) = record { class = internal_io_error; message = to_string (io_error e) }
  from_owned (invalid_dns_name e) = record {
    class = internal_error;
    message = to_string (invalid_dns_name e);
  }
  from_owned (websocket_handshake_failed e) = record {
    class = tls_error;
    message = to_string (websocket_handshake_failed e);
  }
  from_owned (tungstenite_error e) = record {
    class = gateway_error;
    message = to_string (tungstenite_error e);
  }
  from_owned (serde_error e) = record {
    class = internal_error;
    message = to_string (serde_error e);
  }
  from_owned (invalid_op_code c) = record {
    class = gateway_error;
    message = to_string (invalid_op_code c);
  }
  from_owned (addr_parse_failed e) = record {
    class = gateway_error;
    message = to_string (addr_parse_failed e);
  }
  from_owned (connection_closed c) =
      if not (contains final_codes c)
      then record { class = try_reconnect; message = to_string (connection_closed c) }
      else record { class = gateway_error; message = to_string (connection_closed c) }
  from_owned (encryption_error e) = record {
    class = encryption_failed;
    message = to_string (encryption_error e);
  }
  from_owned (opus_error e) = record { class = internal_error; message = to_string (opus_error e) }
  from_owned (wav_file_error e) = record {
    class = internal_io_error;
    message = to_string (wav_file_error e);
  }

  -- `impl From<&DiscordError> for PyErr`.
  unfoldable pub from_borrowed : DiscordError → PyErr
  unfolding contains
  from_borrowed (builder_missing_required_field f) = record {
    class = missing_field_error;
    message = to_string (builder_missing_required_field f);
  }
  from_borrowed (tls_connector_creation_failed e) = record {
    class = internal_error;
    message = to_string (tls_connector_creation_failed e);
  }
  from_borrowed (io_error e) = record {
    class = internal_io_error;
    message = to_string (io_error e);
  }
  from_borrowed (invalid_dns_name e) = record {
    class = internal_error;
    message = to_string (invalid_dns_name e);
  }
  from_borrowed (websocket_handshake_failed e) = record {
    class = tls_error;
    message = to_string (websocket_handshake_failed e);
  }
  from_borrowed (tungstenite_error e) = record {
    class = gateway_error;
    message = to_string (tungstenite_error e);
  }
  from_borrowed (serde_error e) = record {
    class = internal_error;
    message = to_string (serde_error e);
  }
  from_borrowed (invalid_op_code c) = record {
    class = gateway_error;
    message = to_string (invalid_op_code c);
  }
  from_borrowed (addr_parse_failed e) = record {
    class = gateway_error;
    message = to_string (addr_parse_failed e);
  }
  from_borrowed (connection_closed c) =
      if not (contains final_codes c)
      then record { class = try_reconnect; message = to_string (connection_closed c) }
      else record { class = gateway_error; message = to_string (connection_closed c) }
  from_borrowed (encryption_error e) = record {
    class = encryption_failed;
    message = to_string (encryption_error e);
  }
  from_borrowed (opus_error e) = record {
    class = internal_error;
    message = to_string (opus_error e);
  }
  from_borrowed (wav_file_error e) = record {
    class = internal_io_error;
    message = to_string (wav_file_error e);
  }
