-- ===== src/Quote/Tdx/Identity.antt =====
-- What the identities that cathedral/verify/tdx_quote.py derives from a quote bind.
use cathedral_compute.Base.{
  ℕ, suc, ◌+◌, ◌*◌, ◌/◌, ◌%◌, ◌<◌, ◌≡◌, ◌↔◌, refl, sym, ap, ◌∙◌, true, List, [], ◌∷◌, ◌++◌, All,
  arith,
}
use cathedral_compute.Base.Text.{codes, hex, hex_digit, from_bytes_little, Bytes}
use cathedral_compute.Base.Slices.{concat, HaveLengths, slice, slice-concat, offset, chunk}
use cathedral_compute.Quote.Tdx.{
  TdxReportBody, ParsedTdxQuote, measurement, measurement_material, measurement_domain,
  debug_enabled,
}
use cathedral_compute.Quote.Tdx.Roundtrip.{body_chunks, body_lengths}

concat-injective :
    (i : ℕ) (cs ds : List Bytes) (ws : List ℕ)
    → HaveLengths cs ws
    → HaveLengths ds ws
    → concat cs ≡ concat ds
    → chunk i cs ≡ chunk i ds
concat-injective i cs ds ws hc hd e =
    sym (slice-concat i cs ws hc)
    ∙ (ap (slice (offset i ws) (offset (suc i) ws)) e ∙ slice-concat i ds ws hd)

hex_digit-injective : (a b : ℕ) → a < 16 → b < 16 → hex_digit a ≡ hex_digit b → a ≡ b
hex_digit-injective a b p q e = ground arith

abbrev IsByte : ℕ → Type 0
IsByte b = b < 256

hex-injective : (xs ys : Bytes) → All IsByte xs → All IsByte ys → hex xs ≡ hex ys → xs ≡ ys
unfolding hex
hex-injective [] [] p q e = refl
hex-injective [] (y ∷ ys) p q e = ground arith
hex-injective (x ∷ xs) [] p q e = ground arith
hex-injective (x ∷ xs) (y ∷ ys) p q e =
    let high : hex_digit (x / 16) ≡ hex_digit (y / 16) = cc in
    let low : hex_digit (x % 16) ≡ hex_digit (y % 16) = cc in
    let rest : hex xs ≡ hex ys = cc in
    let tails = hex-injective xs ys p.1 q.1 rest in
    let small_x = p.0 in
    let small_y = q.0 in
    let highs = hex_digit-injective (x / 16) (y / 16) (omega arith) (omega arith) high in
    let lows = hex_digit-injective (x % 16) (y % 16) (omega arith) (omega arith) low in
    let heads : x ≡ y = omega arith in rw (heads, tails) refl

-- The identity fields of a TD, which the measurement is taken of.
pub record SameIdentity (b c : TdxReportBody) : Type 0 where
  pub attributes : b.td_attributes ≡ c.td_attributes
  pub features : b.xfam ≡ c.xfam
  pub initial : b.mr_td ≡ c.mr_td
  pub config : b.mr_config_id ≡ c.mr_config_id
  pub owner : b.mr_owner ≡ c.mr_owner
  pub owner_config : b.mr_owner_config ≡ c.mr_owner_config
  pub register0 : b.rtmr0 ≡ c.rtmr0
  pub register1 : b.rtmr1 ≡ c.rtmr1
  pub register2 : b.rtmr2 ≡ c.rtmr2
  pub register3 : b.rtmr3 ≡ c.rtmr3

abbrev identity_chunks : TdxReportBody → List Bytes
identity_chunks b =
    measurement_domain ∷ b.td_attributes ∷ b.xfam ∷ b.mr_td ∷ b.mr_config_id ∷ b.mr_owner
    ∷ b.mr_owner_config ∷ b.rtmr0 ∷ b.rtmr1 ∷ b.rtmr2 ∷ b.rtmr3 ∷ []

abbrev identity_lengths : List ℕ
identity_lengths = 29 ∷ 8 ∷ 8 ∷ 48 ∷ 48 ∷ 48 ∷ 48 ∷ 48 ∷ 48 ∷ 48 ∷ 48 ∷ []

measurement_material-concat :
    (b : TdxReportBody) → concat (identity_chunks b) ≡ measurement_material b
unfolding measurement_material
measurement_material-concat b = refl

identity-lengths :
    (b : TdxReportBody)
    → HaveLengths (body_chunks b) body_lengths
    → HaveLengths (identity_chunks b) identity_lengths
identity-lengths b h =
    let k = h.1.1.1.1 in
    (
      refl,
      (
        k.0,
        (
          k.1.0,
          (
            k.1.1.0,
            (
              k.1.1.1.0,
              (
                k.1.1.1.1.0,
                (
                  k.1.1.1.1.1.0,
                  (
                    k.1.1.1.1.1.1.0,
                    (k.1.1.1.1.1.1.1.0, (k.1.1.1.1.1.1.1.1.0, (k.1.1.1.1.1.1.1.1.1.0, tt))),
                  ),
                ),
              ),
            ),
          ),
        ),
      ),
    )

measurement_material-injective :
    (b c : TdxReportBody)
    → HaveLengths (body_chunks b) body_lengths
    → HaveLengths (body_chunks c) body_lengths
    → measurement_material b ≡ measurement_material c
    → SameIdentity b c
measurement_material-injective b c hb hc e =
    let joined = measurement_material-concat b ∙ (e ∙ sym (measurement_material-concat c)) in
    let at = λ (i : ℕ).
      concat-injective i (identity_chunks b) (identity_chunks c) identity_lengths
        (identity-lengths b hb) (identity-lengths c hc) joined in
    record {
      attributes = at 1;
      features = at 2;
      initial = at 3;
      config = at 4;
      owner = at 5;
      owner_config = at 6;
      register0 = at 7;
      register1 = at 8;
      register2 = at 9;
      register3 = at 10;
    }

append-injective : (p xs ys : Bytes) → p ++ xs ≡ p ++ ys → xs ≡ ys
append-injective [] xs ys e = e
append-injective (x ∷ p) xs ys e = append-injective p xs ys (cc)

-- Two quotes with the same measurement, whose bodies have the sizes of the format and whose hashed
-- bytes do not collide under a hash that returns bytes, agree in every identity field of the TD.
pub measurement-SameIdentity :
    (sha256 : Bytes → Bytes)
    → ((m : Bytes) → All IsByte (sha256 m))
    → (p q : ParsedTdxQuote) → HaveLengths (body_chunks p.body) body_lengths
    → HaveLengths (body_chunks q.body) body_lengths
    → (sha256 (measurement_material p.body) ≡ sha256 (measurement_material q.body)
        → measurement_material p.body ≡ measurement_material q.body)
    → measurement sha256 p ≡ measurement sha256 q
    → SameIdentity p.body q.body
unfolding measurement
measurement-SameIdentity sha256 bytes p q hp hq no_collision same =
    let digests = append-injective (codes "tdx-measurement-sha256:") _ _ same in
    measurement_material-injective p.body q.body hp hq
      (no_collision (hex-injective _ _ (bytes _) (bytes _) digests))

-- The debug bit is the lowest bit of the first attribute byte.
pub debug_enabled_iff :
    (q : ParsedTdxQuote) (first : ℕ) (rest : Bytes)
    → q.body.td_attributes ≡ first ∷ rest
    → (debug_enabled q ≡ true) ↔ (first % 2 ≡ 1)
unfolding debug_enabled from_bytes_little
debug_enabled_iff q first rest e =
    rw e (
      let low : (first + 256 * from_bytes_little rest) % 2 ≡ first % 2 = omega arith in
      ground arith)
