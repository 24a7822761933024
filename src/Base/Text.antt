-- ===== src/Base/Text.antt =====
-- Texts as lists of code points, their encodings, and decimal and hexadecimal digits.
use Prim.Native.Char.{code}
use Prim.Native.Nat.{ℕ, zero, suc, ◌+◌, ◌-◌, ◌*◌, ◌/◌, ◌%◌}
use Prim.Native.String.{String}
use mathlib.Core.Bool.{Bool, true, false, ◌&&◌, ◌||◌}
use mathlib.Core.List.{List, [], ◌∷◌, ◌++◌}
use cathedral_compute.Base.Tests.{ltb, leb, nat_beq, if◌then◌else◌}
use cathedral_compute.Base.Lists.{all, length}
use cathedral_compute.Base.Int.{ℤ, pos, negsuc}

-- The code points of a text. `String` has its own `[]` and `∷`.
abbrev pub codes : String → List ℕ
codes String.[] = []
codes (String.◌∷◌ c s) = code c ∷ codes s

-- `text.encode("utf-8")`, one code point at a time.
abbrev pub utf8_char : ℕ → List ℕ
utf8_char c =
    if ltb c 0x80
    then c ∷ []
    else if ltb c 0x800
    then (0xc0 + c / 64) ∷ (0x80 + c % 64) ∷ []
    else if ltb c 0x10000
    then (0xe0 + c / 4096) ∷ (0x80 + c / 64 % 64) ∷ (0x80 + c % 64) ∷ []
    else (0xf0 + c / 262144) ∷ (0x80 + c / 4096 % 64) ∷ (0x80 + c / 64 % 64) ∷ (0x80 + c % 64) ∷ []

unfoldable pub utf8_codes : List ℕ → List ℕ
utf8_codes [] = []
utf8_codes (c ∷ cs) = utf8_char c ++ utf8_codes cs

abbrev pub utf8 : String → List ℕ
utf8 s = utf8_codes (codes s)

-- `str(n)`: the digits before `rest`. The fuel is above the number of digits.
decimal_before : ℕ → ℕ → List ℕ → List ℕ
decimal_before zero n rest = rest
decimal_before (suc fuel) n rest =
    let digits = (b'0' + n % 10) ∷ rest in
    let more = decimal_before fuel (n / 10) digits in if ltb n 10 then digits else more

unfoldable pub decimal : ℕ → List ℕ
unfolding decimal_before
decimal n = decimal_before (suc n) n []

unfoldable pub decimal_int : ℤ → List ℕ
unfolding decimal
decimal_int (pos n) = decimal n
decimal_int (negsuc n) = b'-' ∷ decimal (suc n)

-- The class `[0-9a-f]`.
abbrev pub is_hex : ℕ → Bool
is_hex c = leb b'0' c && leb c b'9' || leb b'a' c && leb c b'f'

-- `re.fullmatch(r"[0-9a-f]{n}", s)`
abbrev pub is_hex_text : ℕ → List ℕ → Bool
is_hex_text n s = nat_beq (length s) n && all is_hex s

abbrev pub hex_digit : ℕ → ℕ
hex_digit d = if ltb d 10 then b'0' + d else b'a' + d - 10

-- `data.hex()`
unfoldable pub hex : List ℕ → List ℕ
hex [] = []
hex (b ∷ bs) = hex_digit (b / 16) ∷ hex_digit (b % 16) ∷ hex bs

-- `re.fullmatch(r"sha256:[0-9a-f]{64}", s)`
unfoldable pub strip_prefix : List ℕ → List ℕ → List ℕ × Bool
strip_prefix [] s = (s, true)
strip_prefix (p ∷ ps) [] = ([], false)
strip_prefix (p ∷ ps) (c ∷ s) =
    let r = strip_prefix ps s in if nat_beq p c then r else (c ∷ s, false)

unfoldable pub is_digest_text : List ℕ → Bool
unfolding strip_prefix
is_digest_text s =
    let (rest, found) = strip_prefix (codes "sha256:") s in found && is_hex_text 64 rest

unfoldable pub is_sha256_digest : String → Bool
unfolding is_digest_text
is_sha256_digest s = is_digest_text (codes s)

-- Bytes are numbers below 256.
abbrev pub Bytes : Type 0
Bytes = List ℕ

-- `int.from_bytes(data, "big")` and `int.from_bytes(data, "little")`
unfoldable pub from_bytes_big : ℕ → Bytes → ℕ
from_bytes_big acc [] = acc
from_bytes_big acc (b ∷ bs) = from_bytes_big (acc * 256 + b) bs

unfoldable pub from_bytes_little : Bytes → ℕ
from_bytes_little [] = 0
from_bytes_little (b ∷ bs) = b + 256 * from_bytes_little bs
