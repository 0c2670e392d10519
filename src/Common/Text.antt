-- ===== src/Common/Text.antt =====
-- The text tests of pdfExport/pdfExportOperation.ts and of
-- composition/compositionSchedulerContractSupport.ts: bounded identities, fingerprints, byte lengths.
use Prim.Native.Char.{code}
use Prim.Native.Nat.{ℕ, zero, suc, ◌+◌}
use Prim.Native.String.{String}
use mathlib.Core.Bool.{Bool, true, false, not, ◌&&◌, ◌||◌}
use mathlib.Core.List.{List, [], ◌∷◌}
use flowdoc_vnext_backend.Common.Tests.{leb, number_eq, ◌==◌, if◌then◌else◌}

-- The code points of a text.
abbrev codes : String → List ℕ
codes String.[] = []
codes (String.◌∷◌ c s) = code c ∷ codes s

-- `value.length`: JavaScript counts UTF-16 units.
utf16_length : List ℕ → ℕ
utf16_length [] = 0
utf16_length (c ∷ cs) = (if leb 65536 c then 2 else 1) + utf16_length cs

-- `Buffer.byteLength(value, "utf8")`.
utf8_length : List ℕ → ℕ
utf8_length [] = 0
utf8_length (c ∷ cs) =
    (if leb 65536 c then 4 else if leb 2048 c then 3 else if leb 128 c then 2 else 1)
    + utf8_length cs

unfoldable pub byte_length_of : String → ℕ
unfolding utf8_length
byte_length_of s = utf8_length (codes s)

-- What `trim` removes: white space and line terminators of ECMAScript.
is_white : ℕ → Bool
is_white c =
    (leb 9 c && leb c 13)
    || (c == 32)
    || (c == 160)
    || (c == 0x1680)
    || (leb 0x2000 c && leb c 0x200a)
    || (c == 0x2028)
    || (c == 0x2029)
    || (c == 0x202f)
    || (c == 0x205f)
    || (c == 0x3000)
    || (c == 0xfeff)

-- `value.trim().length > 0`.
has_ink : List ℕ → Bool
unfolding is_white
has_ink [] = false
has_ink (c ∷ cs) = not (is_white c) || has_ink cs

abbrev pub max_id_length : ℕ
max_id_length = 2048

-- isFlowDocBackendPdfExportBoundedStringV1
unfoldable pub is_bounded : String → Bool
unfolding has_ink utf16_length
is_bounded s = has_ink (codes s) && leb (utf16_length (codes s)) max_id_length

abbrev pub max_short_length : ℕ
max_short_length = 512

-- readCompositionString: whether it gives the text out.
unfoldable pub is_short : String → Bool
unfolding has_ink utf16_length
is_short s = has_ink (codes s) && leb (utf16_length (codes s)) max_short_length

-- `value.length <= 512`.
unfoldable pub is_within_512 : String → Bool
unfolding utf16_length
is_within_512 s = leb (utf16_length (codes s)) max_short_length

is_hex : ℕ → Bool
is_hex c = (leb b'a' c && leb c b'f') || (leb b'0' c && leb c b'9')

-- Exactly so many lower-case hexadecimal digits.
hex_digits : ℕ → List ℕ → Bool
unfolding is_hex
hex_digits zero [] = true
hex_digits (suc n) [] = false
hex_digits zero (c ∷ cs) = false
hex_digits (suc n) (c ∷ cs) = is_hex c && hex_digits n cs

after_prefix : List ℕ → List ℕ → Bool
unfolding hex_digits
after_prefix [] cs = hex_digits 64 cs
after_prefix (p ∷ ps) [] = false
after_prefix (p ∷ ps) (c ∷ cs) = (p == c) && after_prefix ps cs

-- /^sha256:[a-f0-9]{64}$/u
unfoldable pub is_fingerprint : String → Bool
unfolding after_prefix
is_fingerprint s = after_prefix (codes "sha256:") (codes s)
