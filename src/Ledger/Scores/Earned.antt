-- ===== src/Ledger/Scores/Earned.antt =====
-- What a score of cathedral/ledger.py above nothing rests on, in terms of the rows of the tables.
use cathedral_compute.Base.{
  ℕ, ◌≡◌, ◌⊎◌, refl, sym, ap, ◌∙◌, ◌+◌, ◌<◌, String, Bool, true, false, ◌&&◌, List, [], ◌∷◌, any,
  filter, nat_beq_iff, string_eq, eq_iff, arith, inl, inr, Bool-cases, Member, Any, &&_parts, ◌↔◌,
  ◌==◌, subst,
}
use cathedral_compute.Lifecycle.{State, attested, state_eq}
use cathedral_compute.Ledger.{
  Ledger, Challenge, ChallengeStatus, Attestation, LifecycleRow, Score, verified, is_verified,
}
use cathedral_compute.Ledger.Scores.{
  counts, verified_work, in_epoch, is_eligible_row, lifecycle_allows, is_attested, score_epoch,
}
use cathedral_compute.Ledger.Scores.Shares.{score_epoch-is_attested}

-- A verified challenge of the hotkey in the epoch.
abbrev pub IsWork : ℕ → String → Challenge → Type 0
IsWork id hotkey c = (c.epoch_id ≡ id) × (c.hotkey ≡ hotkey) × (c.status ≡ verified)

-- The total of the work units of such challenges among some.
pub data Earned (id : ℕ) (hotkey : String) : List Challenge → ℕ → Type 0 where
  nothing : Earned id hotkey [] 0
  counted :
      {c : Challenge} {cs : List Challenge} {total : ℕ}
      → IsWork id hotkey c
      → Earned id hotkey cs total
      → Earned id hotkey (c ∷ cs) (c.work_units + total)
  passed_over :
      {c : Challenge} {cs : List Challenge} {total : ℕ}
      → ¬ IsWork id hotkey c
      → Earned id hotkey cs total
      → Earned id hotkey (c ∷ cs) total

-- The hotkey has an attestation in the epoch that is eligible for a score.
abbrev pub IsEligible : ℕ → String → Ledger → Type 0
IsEligible id hotkey l =
    (a : Attestation) × Member a l.attestations
    × (a.epoch_id ≡ id)
    × (a.hotkey ≡ hotkey)
    × (a.score_eligible ≡ true)

-- The epoch has no lifecycle rows, or one of them is the hotkey's and has the state `attested`.
abbrev pub IsAllowed : ℕ → String → Ledger → Type 0
IsAllowed id hotkey l =
    ((r : LifecycleRow) → Member r l.lifecycle → ¬ (r.epoch_id ≡ id))
    ⊎ ((r : LifecycleRow) × Member r l.lifecycle
        × (r.epoch_id ≡ id)
        × (r.hotkey ≡ hotkey)
        × (r.state ≡ attested))

verified_iff : (s : ChallengeStatus) → (is_verified s ≡ true) ↔ (s ≡ verified)
verified_iff s = ground arith

attested_iff : (s : State) → ((s == attested) ≡ true) ↔ (s ≡ attested)
attested_iff s = ground arith

counts_iff :
    (id : ℕ) (hotkey : String) (c : Challenge) → (counts id hotkey c ≡ true) ↔ IsWork id hotkey c
counts_iff id hotkey c =
    ground (arith, nat_beq_iff c.epoch_id id, eq_iff c.hotkey hotkey, verified_iff c.status)

true-ne-false : true ≡ false → ⊥
true-ne-false e = cc

verified_work-Earned :
    (id : ℕ) (hotkey : String) (cs : List Challenge)
    → Earned id hotkey cs (verified_work id hotkey cs)
unfolding verified_work
verified_work-Earned id hotkey [] = Earned.nothing
verified_work-Earned id hotkey (c ∷ cs) =
    let later = verified_work-Earned id hotkey cs in
    let test = counts_iff id hotkey c in
    elim (Bool-cases (counts id hotkey c)) [
      | inl holds ↦ rw holds (Earned.counted (test.0 holds) later)
      | inr fails ↦
          rw fails (Earned.passed_over (λ w. true-ne-false (sym (test.1 w) ∙ fails)) later)
    ]

any-Member {ℓ} :
    {A : Type ℓ} (p : A → Bool) (xs : List A)
    → any p xs ≡ true
    → (x : A) × Member x xs × (p x ≡ true)
any-Member p [] h = cc
any-Member p (x ∷ xs) h = elim (Bool-cases (p x)) [
  | inl holds ↦ (x, Any.here refl, holds)
  | inr fails ↦ let (y, inside, at) = any-Member p xs (rw fails at h) in (y, Any.there inside, at)
]

kept-Member {ℓ} :
    {A : Type ℓ} (p : A → Bool) (y : A) (ys : List A) (x : A)
    → p y ≡ true
    → (Member x (filter p ys) → Member x ys × (p x ≡ true))
    → Member x (y ∷ filter p ys)
    → Member x (y ∷ ys) × (p x ≡ true)
kept-Member p y ys x holds later (Any.here same) = (Any.here same, ap p same ∙ holds)
kept-Member p y ys x holds later (Any.there m) = (Any.there (later m).0, (later m).1)

filter-Member {ℓ} :
    {A : Type ℓ} (p : A → Bool) (xs : List A) (x : A)
    → Member x (filter p xs)
    → Member x xs × (p x ≡ true)
filter-Member p [] x m = elim m [ ]
filter-Member p (y ∷ ys) x m = elim (Bool-cases (p y)) [
  | inl holds ↦ kept-Member p y ys x holds (filter-Member p ys x) (rw holds at m)
  | inr fails ↦
      let (inside, holds) = filter-Member p ys x (rw fails at m) in (Any.there inside, holds)
]

not_first {ℓ} :
    {A : Type ℓ} (p : A → Bool) (y : A) (ys : List A) (x : A)
    → p y ≡ false
    → (Member x ys → p x ≡ false)
    → Member x (y ∷ ys)
    → p x ≡ false
not_first p y ys x fails later (Any.here same) = ap p same ∙ fails
not_first p y ys x fails later (Any.there m) = later m

nothing_kept {ℓ} :
    {A : Type ℓ} (p : A → Bool) (xs : List A) (x : A) → filter p xs ≡ [] → Member x xs → p x ≡ false
nothing_kept p [] x h m = elim m [ ]
nothing_kept p (y ∷ ys) x h m = elim (Bool-cases (p y)) [
  | inl holds ↦ let cons = rw holds at h in cc
  | inr fails ↦ not_first p y ys x fails (nothing_kept p ys x (rw fails at h)) m
]

of_epoch : (id : ℕ) (r : LifecycleRow) → (in_epoch id r ≡ true) ↔ (r.epoch_id ≡ id)
of_epoch id r = nat_beq_iff r.epoch_id id

allowed_by :
    (hotkey : String) (rows : List LifecycleRow)
    → lifecycle_allows hotkey rows ≡ true
    → (rows ≡ [])
      ⊎ ((r : LifecycleRow) × Member r rows × (r.hotkey ≡ hotkey) × (r.state ≡ attested))
allowed_by hotkey [] h = inl refl
allowed_by hotkey (x ∷ xs) h =
    let (r, inside, holds) =
      any-Member (λ y. y.hotkey == hotkey && y.state == attested) (x ∷ xs) h in
    let (own, state) = &&_parts (r.hotkey == hotkey) (r.state == attested) holds in
    inr (r, inside, (eq_iff r.hotkey hotkey).0 own, (attested_iff r.state).0 state)

lifecycle-IsAllowed :
    (id : ℕ) (hotkey : String) (l : Ledger)
    → lifecycle_allows hotkey (filter (in_epoch id) l.lifecycle) ≡ true
    → IsAllowed id hotkey l
lifecycle-IsAllowed id hotkey l h = elim (allowed_by hotkey (filter (in_epoch id) l.lifecycle) h) [
  | inl empty ↦ inl (λ r m same.
      true-ne-false
        (sym ((of_epoch id r).1 same) ∙ nothing_kept (in_epoch id) l.lifecycle r empty m))
  | inr (r, inside, own, state) ↦
      let (m, same) = filter-Member (in_epoch id) l.lifecycle r inside in
      inr (r, m, (of_epoch id r).0 same, own, state)
]

eligible_row :
    (id : ℕ) (hotkey : String) (a : Attestation)
    → is_eligible_row id hotkey a ≡ true
    → (a.epoch_id ≡ id) × (a.hotkey ≡ hotkey) × (a.score_eligible ≡ true)
eligible_row id hotkey a h = ground (arith, nat_beq_iff a.epoch_id id, eq_iff a.hotkey hotkey)

attestations-IsEligible :
    (id : ℕ) (hotkey : String) (l : Ledger)
    → any (is_eligible_row id hotkey) l.attestations ≡ true
    → IsEligible id hotkey l
attestations-IsEligible id hotkey l h =
    let (a, inside, holds) = any-Member (is_eligible_row id hotkey) l.attestations h in
    let (same, own, eligible) = eligible_row id hotkey a holds in (a, inside, same, own, eligible)

-- An epoch's score is above nothing only for a hotkey that has an attestation in the epoch that is
-- eligible for a score and, where the epoch has lifecycle rows, one of its own in the state
-- `attested`. Its work units, which are then its numerator, are the total of the hotkey's verified
-- challenges in the epoch.
pub score_epoch-Earned :
    (id : ℕ) (hotkeys : List String) (l : Ledger) (s : Score)
    → Member s (score_epoch id hotkeys l)
    → 0 < s.numerator
    → IsEligible id s.hotkey l
      × IsAllowed id s.hotkey l
      × Earned id s.hotkey l.challenges s.work_units
      × (s.numerator ≡ s.work_units)
unfolding is_attested
score_epoch-Earned id hotkeys l s m positive =
    let (passes, units, whole) = score_epoch-is_attested id hotkeys l s m positive in
    let (eligible, allowed) =
      &&_parts (any (is_eligible_row id s.hotkey) l.attestations) _ passes in
    (
      attestations-IsEligible id s.hotkey l eligible,
      lifecycle-IsAllowed id s.hotkey l allowed,
      subst (Earned id s.hotkey l.challenges) (sym units)
          (verified_work-Earned id s.hotkey l.challenges),
      whole,
    )
