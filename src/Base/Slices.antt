-- ===== src/Base/Slices.antt =====
-- The byte strings of Python: slices, `find`, `split`, little-endian numbers and `base64.b64decode`.
use Prim.Native.Nat.{ℕ, zero, suc, ◌+◌, ◌-◌, ◌*◌, ◌/◌, ◌%◌, ◌^◌, ◌<◌}
use mathlib.Core.Path.{◌≡◌, refl, sym, ap, ◌∙◌}
use mathlib.Core.Bool.{Bool, true, false, ◌&&◌, ◌||◌}
use mathlib.Core.Option.{Option, none, some}
use mathlib.Core.List.{List, [], ◌∷◌, ◌++◌}
use native.Mathlib.Omega.{arith}
use cathedral_compute.Base.Tests.{nat_beq, ltb, leb, if◌then◌else◌}
use cathedral_compute.Base.Lists.{length, take, drop, length-append}
use cathedral_compute.Base.Text.{Bytes, from_bytes_little}

-- `data[a:b]`
unfoldable pub slice : ℕ → ℕ → Bytes → Bytes
slice a b bytes = take (b - a) (drop a bytes)

take-append : (n : ℕ) (xs ys : Bytes) → length xs ≡ n → take n (xs ++ ys) ≡ xs
take-append zero [] ys e = refl
take-append zero (x ∷ xs) ys e = ground arith
take-append (suc n) [] ys e = ground arith
take-append (suc n) (x ∷ xs) ys e = rw (take-append n xs ys (omega arith)) refl

drop-append : (m : ℕ) (xs ys : Bytes) → drop (length xs + m) (xs ++ ys) ≡ drop m ys
drop-append m [] ys = let e : 0 + m ≡ m = omega arith in ap (λ k. drop k ys) e
drop-append m (x ∷ xs) ys =
    let e : length (x ∷ xs) + m ≡ suc (length xs + m) = omega arith in
    ap (λ k. drop k ((x ∷ xs) ++ ys)) e ∙ drop-append m xs ys

abbrev pub concat : List Bytes → Bytes
concat [] = []
concat (c ∷ cs) = c ++ concat cs

-- The chunks have these lengths.
abbrev pub HaveLengths : List Bytes → List ℕ → Type 0
HaveLengths [] [] = Unit
HaveLengths (c ∷ cs) (w ∷ ws) = (length c ≡ w) × HaveLengths cs ws
HaveLengths _ _ = ⊥

abbrev pub offset : ℕ → List ℕ → ℕ
offset zero ws = 0
offset (suc i) [] = 0
offset (suc i) (w ∷ ws) = w + offset i ws

abbrev pub chunk : ℕ → List Bytes → Bytes
chunk i [] = []
chunk zero (c ∷ cs) = c
chunk (suc i) (c ∷ cs) = chunk i cs

abbrev width_at : ℕ → List ℕ → ℕ
width_at i [] = 0
width_at zero (w ∷ ws) = w
width_at (suc i) (w ∷ ws) = width_at i ws

offset-suc : (i : ℕ) (ws : List ℕ) → offset (suc i) ws - offset i ws ≡ width_at i ws
offset-suc i [] = ground arith
offset-suc zero (w ∷ ws) = ground arith
offset-suc (suc i) (w ∷ ws) = let rest = offset-suc i ws in ground arith

chunk_there :
    (i : ℕ) (cs : List Bytes) (ws : List ℕ)
    → HaveLengths cs ws
    → take (width_at i ws) (drop (offset i ws) (concat cs)) ≡ chunk i cs
chunk_there i [] [] h = refl
chunk_there i [] (w ∷ ws) h = elim h [ ]
chunk_there zero (c ∷ cs) [] h = elim h [ ]
chunk_there (suc i) (c ∷ cs) [] h = elim h [ ]
chunk_there zero (c ∷ cs) (w ∷ ws) h = take-append w c (concat cs) h.0
chunk_there (suc i) (c ∷ cs) (w ∷ ws) h =
    rw (sym h.0, drop-append (offset i ws) c (concat cs)) (chunk_there i cs ws h.1)

-- The slices between the offsets of concatenated chunks are the chunks.
pub slice-concat :
    (i : ℕ) (cs : List Bytes) (ws : List ℕ)
    → HaveLengths cs ws
    → slice (offset i ws) (offset (suc i) ws) (concat cs) ≡ chunk i cs
unfolding slice
slice-concat i cs ws h = rw (offset-suc i ws) (chunk_there i cs ws h)

pub length-concat :
    (cs : List Bytes) (ws : List ℕ) → HaveLengths cs ws → length (concat cs) ≡ offset (length ws) ws
length-concat [] [] h = refl
length-concat [] (w ∷ ws) h = elim h [ ]
length-concat (c ∷ cs) [] h = elim h [ ]
length-concat (c ∷ cs) (w ∷ ws) h =
    let rest = length-concat cs ws h.1 in
    let split = length-append c (concat cs) in let first = h.0 in omega arith

-- `n.to_bytes(size, "little")`
unfoldable pub to_bytes_little : ℕ → ℕ → Bytes
to_bytes_little zero n = []
to_bytes_little (suc size) n = n % 256 ∷ to_bytes_little size (n / 256)

pub length-to_bytes_little : (size n : ℕ) → length (to_bytes_little size n) ≡ size
unfolding to_bytes_little
length-to_bytes_little zero n = refl
length-to_bytes_little (suc size) n = ap suc (length-to_bytes_little size (n / 256))

-- `from_bytes` reads what `to_bytes` wrote.
pub from_bytes_little-to_bytes_little :
    (size n : ℕ) → n < 256 ^ size → from_bytes_little (to_bytes_little size n) ≡ n
unfolding from_bytes_little to_bytes_little
from_bytes_little-to_bytes_little zero n small = omega arith
from_bytes_little-to_bytes_little (suc size) n small =
    let rest = from_bytes_little-to_bytes_little size (n / 256) (grind arith) in
    rw rest (omega arith)

is_prefix : Bytes → Bytes → Bool
is_prefix [] bytes = true
is_prefix (p ∷ ps) [] = false
is_prefix (p ∷ ps) (x ∷ xs) = nat_beq p x && is_prefix ps xs

-- The first position at or after `at` where the pattern stands in the data that starts there.
find_from : ℕ → Bytes → Bytes → Option ℕ
unfolding is_prefix
find_from at pattern [] = if is_prefix pattern [] then some at else none
find_from at pattern (x ∷ xs) =
    let later = find_from (suc at) pattern xs in
    if is_prefix pattern (x ∷ xs) then some at else later

-- `data.find(pattern, start)`, with `none` for -1
unfoldable pub find : Bytes → ℕ → Bytes → Option ℕ
unfolding find_from
find pattern start bytes =
    if ltb (length bytes) start then none else find_from start pattern (drop start bytes)

-- The bytes that `bytes.split()` splits at.
abbrev is_space : ℕ → Bool
is_space b = nat_beq b 32 || (leb 9 b && leb b 13)

-- `b"".join(data.split())`
unfoldable pub join_split : Bytes → Bytes
join_split [] = []
join_split (b ∷ bs) = let rest = join_split bs in if is_space b then rest else b ∷ rest

infixl 5 ◌>>=◌
abbrev ◌>>=◌ : {A B : Type 0} → Option A → (A → Option B) → Option B
none >>= next = none
some a >>= next = next a

abbrev sextet : ℕ → Option ℕ
sextet b =
    if leb 65 b && leb b 90
    then some (b - 65)
    else if leb 97 b && leb b 122
    then some (b - 71)
    else if leb 48 b && leb b 57
    then some (b + 4)
    else if nat_beq b 43
    then some 62
    else if nat_beq b 47
    then some 63
    else none

-- `base64.b64decode(data, validate=True)`, with `none` for a `ValueError`: groups of four digits,
-- the last of which may end in one or two `=`.
unfoldable pub b64decode : Bytes → Option Bytes
b64decode [] = some []
b64decode (a ∷ b ∷ c ∷ d ∷ rest) =
    let decoded = b64decode rest in
    if nat_beq d 61 && nat_beq (length rest) 0
    then (if nat_beq c 61
        then (do x ← sextet a; y ← sextet b; some ((x * 4 + y / 16) ∷ []))
        else (do
          x ← sextet a
          y ← sextet b
          z ← sextet c
          some ((x * 4 + y / 16) ∷ ((y % 16) * 16 + z / 4) ∷ [])))
    else (do
      x ← sextet a
      y ← sextet b
      z ← sextet c
      w ← sextet d
      more ← decoded
      some ((x * 4 + y / 16) ∷ ((y % 16) * 16 + z / 4) ∷ ((z % 4) * 64 + w) ∷ more))
b64decode _ = none
