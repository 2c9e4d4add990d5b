-- ===== src/Python/Exports.antt =====
-- src/lib.rs with src/error.rs: the exceptions that Python can name.
use Prim.Native.String.{String}
use discord_ext_audiorec.Prelude.{ℕ, List, get_elem?, some, ◌≡◌, refl, subst}
use discord_ext_audiorec.Prelude.Results.{Result, ok, err, panic}
use discord_ext_audiorec.Errors.{
  ExceptionClass, missing_field_error, internal_error, internal_io_error, tls_error, gateway_error,
  try_reconnect, encryption_failed, PyErr, DiscordError, from_owned,
}
use discord_ext_audiorec.Python.{Export, exception, exports, ffi}

-- The class is one of those that the module exports.
abbrev pub IsExported : List Export → ExceptionClass → Type 0
IsExported exports k = (i : ℕ) × (name : String) × (get_elem? exports i ≡ some (exception name k))

class-IsExported : (k : ExceptionClass) → IsExported exports k
class-IsExported missing_field_error = (2, _, refl)
class-IsExported internal_error = (3, _, refl)
class-IsExported internal_io_error = (4, _, refl)
class-IsExported tls_error = (5, _, refl)
class-IsExported gateway_error = (6, _, refl)
class-IsExported try_reconnect = (7, _, refl)
class-IsExported encryption_failed = (8, _, refl)

-- When the module could be made, the class of every exception that the library raises for an error
-- of its own is in it.
pub ffi-IsExported :
    (to_string : DiscordError → String) (logger : Result PyErr (Unit {0})) (names : List Export)
    (e : DiscordError)
    → ffi logger ≡ ok names
    → IsExported names (from_owned to_string e).class
unfolding ffi
ffi-IsExported to_string (err x) names e h = cc
ffi-IsExported to_string panic names e h = cc
ffi-IsExported to_string (ok u) names e h =
    let same : exports ≡ names = cc in
    subst (λ xs. IsExported xs (from_owned to_string e).class) same
      (class-IsExported (from_owned to_string e).class)
