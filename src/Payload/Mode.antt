-- ===== src/Payload/Mode.antt =====
-- src/payload.rs: `EncryptionMode`, its default, and its texts.
use Prim.Native.String.{String}
use text.Mathlib.Text.{◌==◌ as str_eq}
use text.Mathlib.TextEquality.{eq_iff}
use discord_ext_audiorec.Prelude.{◌≡◌, refl, arith, if◌then◌else◌}
use discord_ext_audiorec.Prelude.Results.{Result, ok, err}
use discord_ext_audiorec.Errors.{IoError, other}

pub data EncryptionMode : Type 0 where
  xsalsa20_poly1305 xsalsa20_poly1305_suffix xsalsa20_poly1305_lite : EncryptionMode

abbrev pub default : EncryptionMode
default = xsalsa20_poly1305

unfoldable pub from_str : String → Result IoError EncryptionMode
from_str s =
    if str_eq s "xsalsa20_poly1305"
    then ok xsalsa20_poly1305
    else if str_eq s "xsalsa20_poly1305_lite"
    then ok xsalsa20_poly1305_lite
    else if str_eq s "xsalsa20_poly1305_suffix"
    then ok xsalsa20_poly1305_suffix
    else err (record { kind = other; message = "Unknown encryption mode" })

unfoldable pub into_string : EncryptionMode → String
into_string xsalsa20_poly1305 = "xsalsa20_poly1305"
into_string xsalsa20_poly1305_lite = "xsalsa20_poly1305_lite"
into_string xsalsa20_poly1305_suffix = "xsalsa20_poly1305_suffix"

-- Every mode is read back from its text.
pub from_str-into_string : (m : EncryptionMode) → from_str (into_string m) ≡ ok m
unfolding from_str into_string
from_str-into_string xsalsa20_poly1305 = refl
from_str-into_string xsalsa20_poly1305_lite = refl
from_str-into_string xsalsa20_poly1305_suffix = refl

-- And no other text is read as a mode.
pub into_string-from_str : (s : String) (m : EncryptionMode) → from_str s ≡ ok m → s ≡ into_string m
unfolding from_str into_string
into_string-from_str s m h = ground (
  arith,
  eq_iff s "xsalsa20_poly1305",
  eq_iff s "xsalsa20_poly1305_lite",
  eq_iff s "xsalsa20_poly1305_suffix",
)
