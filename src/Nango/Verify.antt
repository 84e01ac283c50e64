-- ===== src/Nango/Verify.antt =====
-- src/nango/verify.ts: the signature of an incoming webhook. A body is its text; a header's name is
-- compared without regard to the case of ASCII letters, which are all that the name looked for has.
pub mod Signature
use Prim.Native.Char.{Char, code}
use Prim.Native.String.{[], ◌∷◌}
use mathlib.Core.List.{[], ◌∷◌}
use shiplog_prototype.Prelude.{
  ℕ, ◌+◌, ◌*◌, ◌-◌, String, Bool, true, false, ◌&&◌, Option, none, some, List, leb, nat_eq, ◌==◌,
  if◌then◌else◌,
}
use shiplog_prototype.Value.{Value, undefined, str, Fields, end, field, truthy}
use shiplog_prototype.Host.{Host}

-- `c.toLowerCase()` on the code of a character.
pub lower : ℕ → ℕ
lower n = if leb 65 n && leb n 90 then n + 32 else n

-- `a.toLowerCase() === b.toLowerCase()`.
pub same_name : String → String → Bool
unfolding lower
same_name [] [] = true
same_name (c ∷ s) (d ∷ t) = nat_eq (lower (code c)) (lower (code d)) && same_name s t
same_name _ _ = false

-- `headerValue(headers, name)`: the first header of that name.
unfoldable pub header_value : Fields → String → Value
unfolding same_name
header_value end name = undefined
header_value (field k v hs) name = if same_name k name then v else header_value hs name

-- A hexadecimal digit of either case.
pub hex_value : ℕ → Option ℕ
hex_value n =
    if leb 48 n && leb n 57
    then some (n - 48)
    else if leb 97 n && leb n 102
    then some (n - 87)
    else if leb 65 n && leb n 70
    then some (n - 55)
    else none

byte_of : Option ℕ → Option ℕ → Option ℕ
byte_of (some a) (some b) = some (a * 16 + b)
byte_of _ _ = none

-- The bytes before the first pair that is no byte.
add_byte : Option ℕ → List ℕ → List ℕ
add_byte none bs = []
add_byte (some b) bs = b ∷ bs

-- `Buffer.from(s, 'hex')`, which stops at the first pair of characters that is no byte, and drops a
-- last character without a partner.
unfoldable pub from_hex : String → List ℕ
unfolding byte_of add_byte hex_value
from_hex (c ∷ d ∷ s) = add_byte (byte_of (hex_value (code c)) (hex_value (code d))) (from_hex s)
from_hex _ = []

-- `timingSafeEqual` of two buffers, after the test that their lengths agree.
pub same_bytes : List ℕ → List ℕ → Bool
same_bytes [] [] = true
same_bytes (a ∷ s) (b ∷ t) = nat_eq a b && same_bytes s t
same_bytes _ _ = false

is_empty : List ℕ → Bool
is_empty [] = true
is_empty _ = false

-- `safeHexEqual(aHex, bHex)`, of a text and a value.
pub safe_hex_equal : String → Value → Bool
unfolding is_empty
safe_hex_equal a (str b) =
    if is_empty (from_hex a) then false else same_bytes (from_hex a) (from_hex b)
safe_hex_equal a _ = false

-- `rawBody ?? ''`.
abbrev pub body_text : Option String → String
body_text none = ""
body_text (some s) = s

-- `computeNangoHmac(rawBody, signingKey)`.
unfoldable pub compute_nango_hmac : Host → Option String → String → String
compute_nango_hmac host raw_body key = host.hmac_hex key (body_text raw_body)

-- `verifyNangoSignature(rawBody, headers, signingKey)`.
pub verify_nango_signature : Host → Option String → Fields → String → Bool
unfolding safe_hex_equal compute_nango_hmac header_value
verify_nango_signature host raw_body headers key =
    let received = header_value headers "x-nango-hmac-sha256" in
    if key == ""
    then false
    else if truthy received
    then safe_hex_equal (compute_nango_hmac host raw_body key) received
    else false
