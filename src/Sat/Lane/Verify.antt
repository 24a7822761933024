-- ===== src/Sat/Lane/Verify.antt =====
-- What `verify` accepts, what it records and what it never reads.
use cathedral_compute.Base.{
  ℕ, ◌≡◌, ◌≢◌, refl, ap, ◌∙◌, ◌==◌, String, true, false, List, Option, none, some, arith, inl, inr,
  Option-cases, member, ◌↔◌, text_eq, text_beq_iff, string_eq, eq_iff,
}
use cathedral_compute.Base.Dict.{get, put, get-put, get-put_self}
use cathedral_compute.Base.Int.{ℤ}
use cathedral_compute.Sat.Instance.Laws.{IsValid}
use cathedral_compute.Sat.Solver.Semantics.{satisfies}
use cathedral_compute.Sat.Certificate.{check_assignment}
use cathedral_compute.Sat.Certificate.Sound.{valuation_of, check_sound}
use cathedral_compute.Sat.Canonical.{Random}
use cathedral_compute.Sat.WorkItem.{SatWorkItem, SatCertificate, derived_work_units}
use cathedral_compute.Sat.Lane.{SatLane, is_owner, is_some, accounted, verify}

-- The challenge is the item's, was issued to the result's miner, and has no credit yet.
pub record IsAccounted (lane : SatLane) (item : SatWorkItem) (result : SatCertificate)
    : Type 0 where
  pub same_challenge : result.challenge_id ≡ item.challenge_id
  pub issued : member result.challenge_id lane.issued_ids ≡ true
  pub uncredited : get result.challenge_id lane.verified_credits ≡ none
  pub named : result.assigned_hotkey ≢ ""
  pub owned : get result.challenge_id lane.challenge_owner ≡ some result.assigned_hotkey

pub is_owner_iff :
    (o : Option String) (hotkey : String) → (is_owner o hotkey ≡ true) ↔ (o ≡ some hotkey)
is_owner_iff none hotkey = (λ h. cc, λ h. cc)
is_owner_iff (some o) hotkey =
    (λ h. ground (arith, eq_iff hotkey o), λ h. ground (arith, eq_iff hotkey o))

not_some_iff {ℓ} : {A : Type ℓ} (o : Option A) → (is_some o ≡ false) ↔ (o ≡ none)
not_some_iff none = (λ h. refl, λ h. refl)
not_some_iff (some a) = (λ h. cc, λ h. cc)

module _ (lane : SatLane) (item : SatWorkItem) (result : SatCertificate) where
  accounted_sound : accounted lane item result ≡ true → IsAccounted lane item result
  unfolding accounted
  accounted_sound h = record {
    same_challenge = ground (arith, text_beq_iff result.challenge_id item.challenge_id);
    issued = ground arith;
    uncredited = ground (arith, not_some_iff (get result.challenge_id lane.verified_credits));
    named = λ e. ground (arith, eq_iff result.assigned_hotkey "");
    owned =
        ground (
          arith,
          is_owner_iff (get result.challenge_id lane.challenge_owner) result.assigned_hotkey,
        );
  }

  accounted_complete : IsAccounted lane item result → accounted lane item result ≡ true
  unfolding accounted
  accounted_complete h = ground (
    arith,
    text_beq_iff result.challenge_id item.challenge_id,
    not_some_iff (get result.challenge_id lane.verified_credits),
    eq_iff result.assigned_hotkey "",
    is_owner_iff (get result.challenge_id lane.challenge_owner) result.assigned_hotkey,
  )

-- What the lane answers when it accepts: the same certificate with the validator's own units.
abbrev pub credited : Random → SatWorkItem → SatCertificate → SatCertificate
credited rng item result = record result { work_units = derived_work_units rng item }

abbrev pub with_credit : Random → SatWorkItem → SatCertificate → SatLane → SatLane
with_credit rng item result lane = record lane {
  verified_credits = put result.challenge_id (derived_work_units rng item) lane.verified_credits;
}

module _ (rng : Random) (item : SatWorkItem) (result : SatCertificate) (lane : SatLane) where
  -- A result of an accounted challenge with an assignment that passes the check is accepted: the
  -- answer carries the derived work units, and the lane gains exactly that credit.
  pub verify-accepts :
      {a : List ℤ}
      → IsAccounted lane item result
      → result.satisfiable ≡ true
      → result.assignment ≡ some a
      → check_assignment item.instance' a ≡ true
      → verify rng item result lane
        ≡ (some (credited rng item result), with_credit rng item result lane)
  unfolding verify
  verify-accepts acc sat given checked = ground (arith, accounted_complete lane item result acc)

  -- A lane that answers `None` is left as it was.
  pub verify-rejects :
      (verify rng item result lane).0 ≡ none → (verify rng item result lane).1 ≡ lane
  unfolding verify
  verify-rejects h = ground arith

  -- What is true of an accepted result.
  pub record IsAccepted (c : SatCertificate) : Type 0 where
    pub accounted_for : IsAccounted lane item result
    pub answer : c ≡ credited rng item result
    pub after : (verify rng item result lane).1 ≡ with_credit rng item result lane
    pub assignment : List ℤ
    pub claimed : result.assignment ≡ some assignment
    pub checked : check_assignment item.instance' assignment ≡ true

  pub verify_inversion :
      {c : SatCertificate} → (verify rng item result lane).0 ≡ some c → IsAccepted c
  unfolding verify
  verify_inversion {c} h = elim (Option-cases result.assignment) [
    | inl e ↦ ground arith
    | inr (a, e) ↦
        let passed : (accounted lane item result ≡ true)
            × (result.satisfiable ≡ true)
            × (check_assignment item.instance' a ≡ true) =
          ground arith in
        let acc = accounted_sound lane item result passed.0 in
        let accepted = verify-accepts acc passed.1 e passed.2 in
        record {
          accounted_for = acc;
          answer = ground (arith, ap (λ (r : Option SatCertificate × SatLane). r.0) accepted);
          after = ap (λ (r : Option SatCertificate × SatLane). r.1) accepted;
          assignment = a;
          claimed = e;
          checked = passed.2;
        }
  ]

  -- The credits after a result was accepted.
  pub record IsCredited : Type 0 where
    pub credit :
        get result.challenge_id (verify rng item result lane).1.verified_credits
        ≡ some (derived_work_units rng item)
    pub others :
        (id : List ℕ)
        → (result.challenge_id == id) ≡ false
        → get id (verify rng item result lane).1.verified_credits ≡ get id lane.verified_credits

  IsAccepted-IsCredited : {c : SatCertificate} → IsAccepted c → IsCredited
  IsAccepted-IsCredited acc =
      let after = ap (λ (m : SatLane). m.verified_credits) acc.after in
      record {
        credit =
            ap (get result.challenge_id) after
            ∙ get-put_self result.challenge_id (derived_work_units rng item) lane.verified_credits;
        others = λ id other.
            ap (get id) after
            ∙ get-put result.challenge_id id (derived_work_units rng item) lane.verified_credits
            ∙ rw other refl;
      }

  -- For a valid instance, an accepted certificate was issued to the miner that sent it and had no
  -- credit, is answered and recorded in the lane's credits with the derived units, whatever units it
  -- claims, the credits of other challenges stay, and its literals name a valuation that satisfies
  -- every clause.
  pub verify_sound :
      {c : SatCertificate}
      → IsValid item.instance'
      → (verify rng item result lane).0 ≡ some c
      → IsAccounted lane item result
        × (c.work_units ≡ derived_work_units rng item)
        × IsCredited
        × ((a : List ℤ) × (result.assignment ≡ some a)
            × (satisfies (valuation_of a) item.instance'.clauses ≡ true))
  verify_sound valid h =
      let acc = verify_inversion h in
      (
        acc.accounted_for,
        ap (λ (k : SatCertificate). k.work_units) acc.answer,
        IsAccepted-IsCredited acc,
        (acc.assignment, acc.claimed, check_sound item.instance' acc.assignment valid acc.checked),
      )
