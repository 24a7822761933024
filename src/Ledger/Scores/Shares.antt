-- ===== src/Ledger/Scores/Shares.antt =====
-- The scores of cathedral/ledger.py as shares of the maximum.
use cathedral_compute.Base.{
  ℕ, ◌≡◌, refl, ◌<◌, ◌≤◌, String, Bool, true, ◌&&◌, List, [], ◌∷◌, max, ltb, map, string_eq, arith,
  subst, sym, ap, inl, inr, Bool-cases, Member, Any, ltb→lt,
}
use cathedral_compute.Base.Text.{codes}
use cathedral_compute.Ledger.{Ledger, Score}
use cathedral_compute.Ledger.Scores.{
  text_ltb, verified_work, is_attested, gated_units, maximum_of, share, universe, shares,
  score_epoch,
}

-- Rising hotkeys.
abbrev pub ascending : List String → Bool
ascending [] = true
ascending (s ∷ []) = true
ascending (s ∷ t ∷ ts) = text_ltb (codes s) (codes t) && ascending (t ∷ ts)

pub map-Member {ℓ κ} :
    {A : Type ℓ} {B : Type κ} (f : A → B) (xs : List A) (b : B)
    → Member b (map f xs)
    → (a : A) × Member a xs × (b ≡ f a)
map-Member f [] b m = elim m [ ]
map-Member f (x ∷ xs) b (Any.here same) = (x, Any.here refl, same)
map-Member f (x ∷ xs) b (Any.there m) =
    let (a, inside, same) = map-Member f xs b m in (a, Any.there inside, same)

maximum_of-le :
    (gated : String → ℕ) (hs : List String) (h : String)
    → Member h hs
    → gated h ≤ maximum_of gated hs
maximum_of-le gated [] h m = elim m [ ]
maximum_of-le gated (x ∷ xs) h (Any.here same) =
    subst (λ y. gated y ≤ max (gated x) (maximum_of gated xs)) (sym same) (omega arith)
maximum_of-le gated (x ∷ xs) h (Any.there m) = let later = maximum_of-le gated xs h m in omega arith

-- The hotkey that reaches the maximum.
maximum_of-Member :
    (gated : String → ℕ) (hs : List String)
    → 0 < maximum_of gated hs
    → (h : String) × Member h hs × (gated h ≡ maximum_of gated hs)
maximum_of-Member gated [] positive = ground arith
maximum_of-Member gated (x ∷ xs) positive =
    elim (Bool-cases (ltb (gated x) (maximum_of gated xs))) [
      | inl less ↦
          let lower = ltb→lt (gated x) (maximum_of gated xs) less in
          let (h, inside, same) = maximum_of-Member gated xs (omega arith) in
          (h, Any.there inside, omega arith)
      | inr other ↦ (x, Any.here refl, ground arith)
    ]

-- A score is a share: not above the whole, which is not nothing.
abbrev pub IsShare : Score → Type 0
IsShare s = (s.numerator ≤ s.denominator) × (0 < s.denominator)

share-IsShare : (maximum units : ℕ) (h : String) → units ≤ maximum → IsShare (share maximum units h)
share-IsShare maximum units h fits = elim (Bool-cases (ltb 0 maximum)) [
  | inl some_work ↦ let positive = ltb→lt 0 maximum some_work in rw some_work (fits, positive)
  | inr no_work ↦ rw no_work (omega arith, omega arith)
]

-- Every score of an epoch is a fraction whose numerator is at most its denominator, which is not
-- nothing.
pub score_epoch-IsShare :
    (id : ℕ) (hotkeys : List String) (l : Ledger) (s : Score)
    → Member s (score_epoch id hotkeys l)
    → IsShare s
unfolding score_epoch shares
score_epoch-IsShare id hotkeys l s m =
    let gated = gated_units id l in
    let hs = universe id hotkeys l in
    let (h, inside, same) = map-Member (λ k. share (maximum_of gated hs) (gated k) k) hs s m in
    subst IsShare (sym same)
      (share-IsShare (maximum_of gated hs) (gated h) h (maximum_of-le gated hs h inside))

-- An epoch's score is above nothing only for a hotkey whose attestation in the epoch is eligible and
-- whose worker lifecycle, where the epoch has one, is attested; its work units are then the verified
-- work of that hotkey in that epoch.
pub score_epoch-is_attested :
    (id : ℕ) (hotkeys : List String) (l : Ledger) (s : Score)
    → Member s (score_epoch id hotkeys l)
    → 0 < s.numerator
    → (is_attested id s.hotkey l ≡ true)
      × (s.work_units ≡ verified_work id s.hotkey l.challenges)
      × (s.numerator ≡ s.work_units)
unfolding score_epoch shares gated_units
score_epoch-is_attested id hotkeys l s m positive =
    let gated = gated_units id l in
    let hs = universe id hotkeys l in
    let (h, inside, same) = map-Member (λ k. share (maximum_of gated hs) (gated k) k) hs s m in
    subst
      (λ y.
        (is_attested id y.hotkey l ≡ true)
        × (y.work_units ≡ verified_work id y.hotkey l.challenges)
        × (y.numerator ≡ y.work_units))
      (sym same) (earned (maximum_of gated hs) h (subst (λ y. 0 < y.numerator) same positive))
  where
    earned :
        (top : ℕ) (h : String)
        → 0 < (share top (gated_units id l h) h).numerator
        → (is_attested id (share top (gated_units id l h) h).hotkey l ≡ true)
          × ((share top (gated_units id l h) h).work_units
              ≡ verified_work id (share top (gated_units id l h) h).hotkey l.challenges)
          × ((share top (gated_units id l h) h).numerator
              ≡ (share top (gated_units id l h) h).work_units)
    earned top h more = ground arith

Member-map {ℓ κ} :
    {A : Type ℓ} {B : Type κ} (f : A → B) (xs : List A) (a : A)
    → Member a xs
    → Member (f a) (map f xs)
Member-map f [] a m = elim m [ ]
Member-map f (x ∷ xs) a (Any.here same) = Any.here (ap f same)
Member-map f (x ∷ xs) a (Any.there m) = Any.there (Member-map f xs a m)

abbrev whole : ℕ → String → Score
whole top h = record { hotkey = h; work_units = top; numerator = top; denominator = top }

share-whole : (top units : ℕ) (h : String) → 0 < top → units ≡ top → share top units h ≡ whole top h
share-whole top units h positive same =
    let some_work : ltb 0 top ≡ true = ground (arith, positive) in rw some_work (rw same)

-- When some hotkey of the epoch has gated work, a hotkey with the most of it has the whole score.
pub score_epoch-best :
    (id : ℕ) (hotkeys : List String) (l : Ledger)
    → 0 < maximum_of (gated_units id l) (universe id hotkeys l)
    → (h : String) × Member h (universe id hotkeys l)
      × Member
          (whole (maximum_of (gated_units id l) (universe id hotkeys l)) h)
          (score_epoch id hotkeys l)
unfolding score_epoch shares
score_epoch-best id hotkeys l positive =
    let gated = gated_units id l in
    let hs = universe id hotkeys l in
    let (h, inside, same) = maximum_of-Member gated hs positive in
    let top = maximum_of gated hs in
    (
      h,
      inside,
      subst (λ y. Member y (score_epoch id hotkeys l)) (share-whole top (gated h) h positive same)
          (Member-map (λ k. share top (gated k) k) hs h inside),
    )
