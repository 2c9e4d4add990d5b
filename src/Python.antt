-- ===== src/Python.antt =====
-- src/lib.rs and src/futures.rs: the module that Python imports, and how a thread settles a future.
-- PyO3 and the interpreter are the parameter `Interpreter`.
pub mod Task
pub mod Exports
use Prim.Native.String.{String}
use discord_ext_audiorec.Prelude.{ℕ, List, [], ◌∷◌, ◌++◌, ◌≡◌, refl}
use discord_ext_audiorec.Prelude.Results.{Result, ok, err, panic, ◌>>=◌, ◌>>◌}
use discord_ext_audiorec.Errors.{
  ExceptionClass, missing_field_error, internal_error, internal_io_error, tls_error, gateway_error,
  try_reconnect, encryption_failed, PyErr, DiscordError, from_borrowed,
}

-- What `m.add_class` and `m.add` are given.
pub data Export : Type 0 where
  class : String → Export
  exception : String → ExceptionClass → Export

abbrev pub exports : List Export
exports =
    class "VoiceConnector"
    ∷ class "VoiceConnection"
    ∷ exception "MissingFieldError" missing_field_error
    ∷ exception "InternalError" internal_error
    ∷ exception "InternalIOError" internal_io_error
    ∷ exception "TlsError" tls_error
    ∷ exception "GatewayError" gateway_error
    ∷ exception "TryReconnect" try_reconnect
    ∷ exception "EncryptionFailed" encryption_failed
    ∷ []

-- `ffi`: what the module has when `Logger::new` returns this, and everything can be added.
unfoldable pub ffi : (logger : Result PyErr (Unit {0})) → Result PyErr (List Export)
ffi logger = do logger; ok exports

-- Python's objects, and the state of the interpreter under the calls. `call_method1` is given the
-- object, the name of the method and two arguments, `call_method0` no arguments.
pub record Interpreter : Type 1 where
  pub Object : Type 0
  pub Heap : Type 0
  pub call_method0 : Heap → Object → String → Result PyErr Object × Heap
  pub getattr : Heap → Object → String → Result PyErr Object
  pub call_method1 : Heap → Object → String → Object × Object → Result PyErr Object × Heap
  pub to_object : PyErr → Object

module _ (py : Interpreter) where
  open py use {Object, Heap, call_method0, getattr, call_method1, to_object}

  -- The second call of both functions, and `Ok(())`.
  abbrev call_soon :
      (heap : Heap)
      → (loop' : Object) → Result PyErr Object
      → (value : Object) → Result PyErr (Unit {0}) × Heap
  call_soon heap loop' (ok set) value =
      let (answer, after) = call_method1 heap loop' "call_soon_threadsafe" (set, value) in
      (answer >>= λ o. ok tt, after)
  call_soon heap loop' (err e) value = (err e, heap)
  call_soon heap loop' panic value = (panic, heap)

  unfoldable pub set_result : (loop' future result : Object) → Heap → Result PyErr (Unit {0}) × Heap
  set_result loop' future result heap =
      call_soon heap loop' (getattr heap future "set_result") result

  unfoldable pub set_exception :
      (loop' future : Object) → PyErr → Heap → Result PyErr (Unit {0}) × Heap
  set_exception loop' future e heap =
      call_soon heap loop' (getattr heap future "set_exception") (to_object e)

  -- The future that `connect` and `stop_record` return, and hand to their threads.
  unfoldable pub create_future : (loop' : Object) → Heap → Result PyErr Object × Heap
  create_future loop' heap = call_method0 heap loop' "create_future"

  -- `impl ToPyObject for DiscordError`.
  unfoldable pub error_object : (DiscordError → String) → DiscordError → Object
  unfolding from_borrowed
  error_object to_string e = to_object (from_borrowed to_string e)
