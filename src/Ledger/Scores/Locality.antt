-- ===== src/Ledger/Scores/Locality.antt =====
-- The rows that the scores of an epoch in cathedral/ledger.py read, and the order of their hotkeys.
use cathedral_compute.Base.{
  ℕ, ◌≡◌, refl, String, Bool, true, false, ◌&&◌, List, [], ◌∷◌, any, map, filter, nat_beq,
  string_eq, text_beq, arith, sym, ap, ◌∙◌,
}
use cathedral_compute.Base.Text.{codes}
use cathedral_compute.Ledger.{Ledger, Challenge, Attestation}
use cathedral_compute.Ledger.Scores.{
  text_ltb, insert_text, sorted_set, verified_work, is_eligible_row, in_epoch, is_attested,
  gated_units, maximum_of, share, universe, shares, score_epoch,
}

-- The rows of an epoch.
abbrev pub challenges_of : ℕ → Ledger → List Challenge
challenges_of id l = filter (λ c. nat_beq c.epoch_id id) l.challenges

abbrev pub attestations_of : ℕ → Ledger → List Attestation
attestations_of id l = filter (λ a. nat_beq a.epoch_id id) l.attestations

verified_work-filter :
    (id : ℕ) (h : String) (cs : List Challenge)
    → verified_work id h cs ≡ verified_work id h (filter (λ c. nat_beq c.epoch_id id) cs)
unfolding verified_work
verified_work-filter id h [] = refl
verified_work-filter id h (c ∷ cs) = ground (arith, verified_work-filter id h cs)

eligible-filter :
    (id : ℕ) (h : String) (rows : List Attestation)
    → any (is_eligible_row id h) rows
      ≡ any (is_eligible_row id h) (filter (λ a. nat_beq a.epoch_id id) rows)
eligible-filter id h [] = refl
eligible-filter id h (a ∷ rows) = ground (arith, eligible-filter id h rows)

maximum_of_same :
    (f g : String → ℕ) (hs : List String)
    → ((h : String) → f h ≡ g h)
    → maximum_of f hs ≡ maximum_of g hs
maximum_of_same f g [] same = refl
maximum_of_same f g (h ∷ hs) same = rw (same h, maximum_of_same f g hs same)

map_same {ℓ κ} :
    {A : Type ℓ} {B : Type κ} (f g : A → B) (xs : List A)
    → ((x : A) → f x ≡ g x)
    → map f xs ≡ map g xs
map_same f g [] same = refl
map_same f g (x ∷ xs) same = rw (same x, map_same f g xs same)

shares_same :
    (f g : String → ℕ) (hs : List String) → ((h : String) → f h ≡ g h) → shares f hs ≡ shares g hs
unfolding shares
shares_same f g hs same =
    rw (maximum_of_same f g hs same)
      (map_same _ _ hs (λ h. ap (λ u. share (maximum_of g hs) u h) (same h)))

module _ (id : ℕ) (l m : Ledger) (same_work : challenges_of id l ≡ challenges_of id m)
    (same_evidence : attestations_of id l ≡ attestations_of id m)
    (same_lifecycle : filter (in_epoch id) l.lifecycle ≡ filter (in_epoch id) m.lifecycle) where
  gated_same : (h : String) → gated_units id l h ≡ gated_units id m h
  unfolding gated_units is_attested
  gated_same h =
      let work =
        verified_work-filter id h l.challenges
        ∙ ap (verified_work id h) same_work
        ∙ sym (verified_work-filter id h m.challenges) in
      let evidence =
        eligible-filter id h l.attestations
        ∙ ap (any (is_eligible_row id h)) same_evidence
        ∙ sym (eligible-filter id h m.attestations) in
      rw (work, evidence, same_lifecycle)

  universe_same : (hotkeys : List String) → universe id hotkeys l ≡ universe id hotkeys m
  unfolding universe
  universe_same hotkeys = rw (same_work, same_evidence, same_lifecycle)

-- The scores of an epoch depend only on that epoch's challenges, attestations and worker lifecycle:
-- two ledgers that agree on these give it the same scores.
pub score_epoch-local :
    (id : ℕ) (hotkeys : List String) (l m : Ledger)
    → challenges_of id l ≡ challenges_of id m
    → attestations_of id l ≡ attestations_of id m
    → filter (in_epoch id) l.lifecycle ≡ filter (in_epoch id) m.lifecycle
    → score_epoch id hotkeys l ≡ score_epoch id hotkeys m
unfolding score_epoch
score_epoch-local id hotkeys l m same_work same_evidence same_lifecycle =
    ap (shares (gated_units id l))
      (universe_same id l m same_work same_evidence same_lifecycle hotkeys)
    ∙ shares_same (gated_units id l) (gated_units id m) (universe id hotkeys m)
        (gated_same id l m same_work same_evidence same_lifecycle)

-- Rising hotkeys.
abbrev pub starts_above : String → List String → Bool
starts_above s [] = true
starts_above s (t ∷ ts) = text_ltb (codes s) (codes t)

unfoldable pub ascending : List String → Bool
ascending [] = true
ascending (s ∷ ss) = starts_above s ss && ascending ss

text_ltb_total : (s t : List ℕ) → text_beq s t ≡ false → text_ltb s t ≡ false → text_ltb t s ≡ true
text_ltb_total [] [] d h = ground arith
text_ltb_total [] (b ∷ t) d h = ground arith
text_ltb_total (a ∷ s) [] d h = refl
text_ltb_total (a ∷ s) (b ∷ t) d h = ground (arith, text_ltb_total s t)

insert_text-starts :
    (s u : String) (ts : List String)
    → starts_above u ts ≡ true
    → text_ltb (codes u) (codes s) ≡ true
    → starts_above u (insert_text s ts) ≡ true
unfolding insert_text
insert_text-starts s u [] h less = less
insert_text-starts s u (t ∷ ts) h less = ground arith

insert_text-ascending :
    (s : String) (ts : List String) → ascending ts ≡ true → ascending (insert_text s ts) ≡ true
unfolding ascending insert_text
insert_text-ascending s [] h = refl
insert_text-ascending s (t ∷ ts) h = ground (
  arith,
  insert_text-ascending s ts,
  insert_text-starts s t ts,
  text_ltb_total (codes s) (codes t),
)

-- The hotkeys of an epoch's scores rise: each is named once.
pub sorted_set-ascending : (ss : List String) → ascending (sorted_set ss) ≡ true
unfolding sorted_set ascending
sorted_set-ascending [] = refl
sorted_set-ascending (s ∷ ss) = insert_text-ascending s (sorted_set ss) (sorted_set-ascending ss)
