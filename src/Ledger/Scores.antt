-- ===== src/Ledger/Scores.antt =====
-- The scores of `complete_epoch` in cathedral/ledger.py: the sorted set of hotkeys, the verified
-- work of an epoch gated by its eligible attestations and worker lifecycle, and each hotkey's share
-- of the epoch's maximum.
pub mod Shares
pub mod Locality
pub mod Earned
use cathedral_compute.Base.{
  ℕ, suc, ◌+◌, String, Bool, true, false, not, ◌&&◌, ◌||◌, List, [], ◌∷◌, ◌++◌, max, ltb, any, map,
  filter, nat_beq, string_eq, ◌==◌, text_beq, if◌then◌else◌,
}
use cathedral_compute.Base.Text.{codes}
use cathedral_compute.Lifecycle.{attested, state_eq}
use cathedral_compute.Ledger.{Ledger, Challenge, Attestation, LifecycleRow, Score, is_verified}

-- `<` on texts, by their code points
abbrev pub text_ltb : List ℕ → List ℕ → Bool
text_ltb s [] = false
text_ltb [] (d ∷ t) = true
text_ltb (c ∷ s) (d ∷ t) = ltb c d || (nat_beq c d && text_ltb s t)

-- `sorted` of a set of texts
unfoldable pub insert_text : String → List String → List String
insert_text s [] = s ∷ []
insert_text s (t ∷ ts) =
    let rest = insert_text s ts in
    if text_beq (codes s) (codes t)
    then t ∷ ts
    else if text_ltb (codes s) (codes t)
    then s ∷ t ∷ ts
    else t ∷ rest

unfoldable pub sorted_set : List String → List String
unfolding insert_text
sorted_set [] = []
sorted_set (s ∷ ss) = insert_text s (sorted_set ss)

-- The total of a hotkey's verified work in an epoch
abbrev pub counts : ℕ → String → Challenge → Bool
counts id hotkey c = nat_beq c.epoch_id id && c.hotkey == hotkey && is_verified c.status

unfoldable pub verified_work : ℕ → String → List Challenge → ℕ
verified_work id hotkey [] = 0
verified_work id hotkey (c ∷ cs) =
    let rest = verified_work id hotkey cs in
    if counts id hotkey c then c.work_units + rest else rest

abbrev pub in_epoch : ℕ → LifecycleRow → Bool
in_epoch id r = nat_beq r.epoch_id id

abbrev pub is_eligible_row : ℕ → String → Attestation → Bool
is_eligible_row id hotkey a = nat_beq a.epoch_id id && a.hotkey == hotkey && a.score_eligible

abbrev pub lifecycle_allows : String → List LifecycleRow → Bool
lifecycle_allows hotkey [] = true
lifecycle_allows hotkey (r ∷ rs) = any (λ x. x.hotkey == hotkey && x.state == attested) (r ∷ rs)

-- `hotkey in attested`, once the lifecycle has narrowed the set
unfoldable pub is_attested : ℕ → String → Ledger → Bool
is_attested id hotkey l =
    any (is_eligible_row id hotkey) l.attestations
    && lifecycle_allows hotkey (filter (in_epoch id) l.lifecycle)

unfoldable pub gated_units : ℕ → Ledger → String → ℕ
unfolding is_attested verified_work
gated_units id l hotkey =
    if is_attested id hotkey l then verified_work id hotkey l.challenges else 0

abbrev pub maximum_of : (String → ℕ) → List String → ℕ
maximum_of gated [] = 0
maximum_of gated (h ∷ hs) = max (gated h) (maximum_of gated hs)

-- `units / maximum if maximum > 0 else 0.0`
abbrev pub share : ℕ → ℕ → String → Score
share maximum units hotkey =
    if ltb 0 maximum
    then record { hotkey = hotkey; work_units = units; numerator = units; denominator = maximum }
    else record { hotkey = hotkey; work_units = units; numerator = 0; denominator = 1 }

-- The hotkeys given, those with a challenge or an attestation, and those of the lifecycle rows
unfoldable pub universe : ℕ → List String → Ledger → List String
unfolding sorted_set
universe id all_hotkeys l = sorted_set (
    all_hotkeys
    ++ map (λ c. c.hotkey) (filter (λ c. nat_beq c.epoch_id id) l.challenges)
    ++ map (λ a. a.hotkey) (filter (λ a. nat_beq a.epoch_id id) l.attestations)
    ++ map (λ r. r.hotkey) (filter (in_epoch id) l.lifecycle))

unfoldable pub shares : (String → ℕ) → List String → List Score
shares gated hotkeys =
    let maximum = maximum_of gated hotkeys in map (λ h. share maximum (gated h) h) hotkeys

unfoldable pub score_epoch : ℕ → List String → Ledger → List Score
unfolding universe shares gated_units
score_epoch id all_hotkeys l = shares (gated_units id l) (universe id all_hotkeys l)
