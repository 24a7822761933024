-- ===== src/Base/Json.antt =====
-- `json.dumps` with `ensure_ascii=True`, for the values that the digests are taken of. The
-- program passes `sort_keys=True`; the models write the fields in that order.
use Prim.Native.Nat.{ℕ, ◌+◌, ◌-◌, ◌/◌, ◌%◌}
use Prim.Native.String.{String}
use mathlib.Core.Bool.{Bool, true, false, ◌&&◌}
use mathlib.Core.List.{List, [], ◌∷◌, ◌++◌}
use cathedral_compute.Base.Tests.{ltb, leb, nat_beq, if◌then◌else◌}
use cathedral_compute.Base.Interfaces.{◌==◌, string_eq}
use cathedral_compute.Base.Int.{ℤ}
use cathedral_compute.Base.Text.{codes, decimal_int, hex_digit}

mutual
  pub data Json : Type 0 where
    num : ℤ → Json
    text : List ℕ → Json
    bool : Bool → Json
    null : Json
    list : Items → Json
    object : Fields → Json

  pub data Items : Type 0 where
    nil : Items
    cons : Json → Items → Items

  pub data Fields : Type 0 where
    end : Fields
    field : String → Json → Fields → Fields

-- `mapping.get(key)` of a mapping that was read from JSON: `null` for a key that is not there.
unfoldable pub get_field : String → Fields → Json
get_field k end = null
get_field k (field l v fs) = let rest = get_field k fs in if k == l then v else rest

-- `\uXXXX`
unicode_escape : ℕ → List ℕ
unicode_escape c =
    b'\\'
    ∷ b'u'
    ∷ hex_digit (c / 4096 % 16)
    ∷ hex_digit (c / 256 % 16)
    ∷ hex_digit (c / 16 % 16)
    ∷ hex_digit (c % 16)
    ∷ []

escape_char : ℕ → List ℕ
unfolding unicode_escape
escape_char c =
    if nat_beq c 34
    then 92 ∷ 34 ∷ []
    else if nat_beq c 92
    then 92 ∷ 92 ∷ []
    else if nat_beq c 10
    then 92 ∷ b'n' ∷ []
    else if nat_beq c 13
    then 92 ∷ b'r' ∷ []
    else if nat_beq c 9
    then 92 ∷ b't' ∷ []
    else if nat_beq c 12
    then 92 ∷ b'f' ∷ []
    else if nat_beq c 8
    then 92 ∷ b'b' ∷ []
    else if leb 32 c && leb c 126
    then c ∷ []
    else if ltb c 0x10000
    then unicode_escape c
    else unicode_escape (0xd800 + (c - 0x10000) / 1024)
      ++ unicode_escape (0xdc00 + (c - 0x10000) % 1024)

unfoldable pub escape : List ℕ → List ℕ
unfolding escape_char
escape [] = []
escape (c ∷ cs) = escape_char c ++ escape cs

pub record Separators : Type 0 where
  pub item : List ℕ
  pub key : List ℕ

-- `separators=(",", ":")`, and Python's default.
abbrev pub compact : Separators
compact = record { item = b',' ∷ []; key = b':' ∷ [] }

abbrev pub spaced : Separators
spaced = record { item = b',' ∷ b' ' ∷ []; key = b':' ∷ b' ' ∷ [] }

unfoldable mutual
  unfolding escape decimal_int

  pub dumps : Separators → Json → List ℕ
  dumps sep (num n) = decimal_int n
  dumps sep (text s) = 34 ∷ escape s ++ 34 ∷ []
  dumps sep (bool true) = codes "true"
  dumps sep (bool false) = codes "false"
  dumps sep null = codes "null"
  dumps sep (list xs) = b'[' ∷ dumps_items sep xs
  dumps sep (object fs) = b'{' ∷ dumps_fields sep fs

  pub dumps_items : Separators → Items → List ℕ
  dumps_items sep nil = b']' ∷ []
  dumps_items sep (cons x nil) = dumps sep x ++ b']' ∷ []
  dumps_items sep (cons x (cons y ys)) = dumps sep x ++ sep.item ++ dumps_items sep (cons y ys)

  pub dumps_fields : Separators → Fields → List ℕ
  dumps_fields sep end = b'}' ∷ []
  dumps_fields sep (field k v end) =
      34 ∷ escape (codes k) ++ 34 ∷ sep.key ++ dumps sep v ++ b'}' ∷ []
  dumps_fields sep (field k v (field l w fs)) =
      34 ∷ escape (codes k)
      ++ 34 ∷ sep.key
      ++ dumps sep v
      ++ sep.item
      ++ dumps_fields sep (field l w fs)
