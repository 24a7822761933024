-- ===== src/Ledger/Audience.antt =====
-- The texts that the ledger checks: `validate_score_audience` of cathedral/score_audience.py,
-- `normalize_block_hash` of cathedral/challenge.py and `is_launch_hotkey` of
-- cathedral/launch_limits.py.
use cathedral_compute.Base.{
  ℕ, ◌+◌, String, Bool, not, ◌&&◌, ◌||◌, List, [], ◌∷◌, all, length, leb, nat_beq, if◌then◌else◌,
  Result, ok, ◌>>◌, raise_if, map,
}
use cathedral_compute.Base.Int.{ℤ, pos, leb_ℤ}
use cathedral_compute.Base.Text.{codes, is_hex_text, strip_prefix}
use cathedral_compute.Ledger.{LedgerError, bad_audience, bad_anchor_hash}

-- `0x21 <= ord(character) <= 0x7E`
abbrev pub is_visible : ℕ → Bool
is_visible c = leb 33 c && leb c 126

-- No visible character is white space, so the test of `strip` follows from the test of all.
unfoldable pub validate_score_audience : String → ℤ → Result LedgerError (String × ℤ)
validate_score_audience network netuid = do
  let text = codes network
  raise_if (not (leb 1 (length text)) || not (leb (length text) 128) || not (all is_visible text))
      bad_audience
  raise_if (not (leb_ℤ (pos 0) netuid) || not (leb_ℤ netuid (pos 65535))) bad_audience
  ok (network, netuid)

unfoldable pub is_launch_hotkey : String → Bool
is_launch_hotkey hotkey =
    let text = codes hotkey in leb 1 (length text) && leb (length text) 128 && all is_visible text

-- The characters that `str.strip` removes.
abbrev pub is_space : ℕ → Bool
is_space c =
    (leb 9 c && leb c 13)
    || (leb 28 c && leb c 32)
    || nat_beq c 0x85
    || nat_beq c 0xa0
    || nat_beq c 0x1680
    || (leb 0x2000 c && leb c 0x200a)
    || nat_beq c 0x2028
    || nat_beq c 0x2029
    || nat_beq c 0x202f
    || nat_beq c 0x205f
    || nat_beq c 0x3000

unfoldable pub lstrip : List ℕ → List ℕ
lstrip [] = []
lstrip (c ∷ cs) = let rest = lstrip cs in if is_space c then rest else c ∷ cs

unfoldable pub rstrip : List ℕ → List ℕ
rstrip [] = []
rstrip (c ∷ cs) = elim (rstrip cs) [ [] ↦ if is_space c then [] else c ∷ [] | d ∷ ds ↦ c ∷ d ∷ ds ]

-- `lower` on ASCII; no other character becomes a digit, `x` or one of `a` to `f`.
abbrev lower : ℕ → ℕ
lower c = if leb 65 c && leb c 90 then c + 32 else c

abbrev normal_text : String → List ℕ
unfolding lstrip rstrip
normal_text s = map lower (rstrip (lstrip (codes s)))

-- `text.removeprefix("0x")`
abbrev without_0x : List ℕ → List ℕ
unfolding strip_prefix
without_0x s = let (rest, found) = strip_prefix (codes "0x") s in if found then rest else s

unfoldable pub normalize_block_hash : String → Result LedgerError (List ℕ)
unfolding strip_prefix lstrip rstrip
normalize_block_hash block_hash = do
  let digits = without_0x (normal_text block_hash)
  raise_if (not (is_hex_text 64 digits)) bad_anchor_hash
  ok digits
