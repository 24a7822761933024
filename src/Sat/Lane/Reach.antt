-- ===== src/Sat/Lane/Reach.antt =====
-- The lane over any sequence of its operations.
use cathedral_compute.Base.{
  ℕ, ◌+◌, ◌≡◌, refl, String, true, List, [], ◌∷◌, none, some, arith, inl, inr, Option-cases,
  Bool-cases, member, ◌==◌, text_eq, text_beq_iff, ok,
}
use cathedral_compute.Base.Dict.{get, get-put, get-put_self}
use cathedral_compute.Sat.Canonical.{Random}
use cathedral_compute.Sat.WorkItem.{SatWorkItem, SatCertificate, Hashes, derived_work_units}
use cathedral_compute.Sat.Lane.{
  SatLane, ChallengeId, issue, enqueue, dispatch_from, dispatch, verify, new_lane,
}
use cathedral_compute.Sat.Lane.Verify.{verify_inversion, verify-rejects}

module _ (hashes : Hashes) (rng : Random) where
  -- One call of the lane.
  pub data Step (lane after : SatLane) : Type 0 where
    enqueued : (item : SatWorkItem) → enqueue hashes rng item lane ≡ ok after → Step lane after
    dispatched : (miner : String) → after ≡ (dispatch hashes rng miner lane).1 → Step lane after
    verified :
        (item : SatWorkItem) (result : SatCertificate)
        → after ≡ (verify rng item result lane).1
        → Step lane after

  pub data Reach (lane : SatLane) : SatLane → Type 0 where
    here : Reach lane lane
    next : {mid after : SatLane} → Reach lane mid → Step mid after → Reach lane after

-- Every credited challenge was issued, and every issued challenge has an owner.
pub record IsSound (lane : SatLane) : Type 0 where
  pub credited_issued :
      (id : ChallengeId) (u : ℕ)
      → get id lane.verified_credits ≡ some u
      → member id lane.issued_ids ≡ true
  pub issued_owned :
      (id : ChallengeId)
      → member id lane.issued_ids ≡ true
      → (owner : String) × (get id lane.challenge_owner ≡ some owner)

pub new_lane-IsSound : (namespace : String) → IsSound (new_lane namespace)
unfolding new_lane get
new_lane-IsSound namespace = record { credited_issued = λ id u h. cc; issued_owned = λ id h. cc }

issue-IsSound :
    (id : ChallengeId) (miner : String) (lane : SatLane)
    → IsSound lane
    → IsSound (issue id miner lane)
unfolding issue
issue-IsSound id miner lane s = record {
  credited_issued = λ j u h. ground (arith, s.credited_issued j u h);
  issued_owned = λ j h. elim (Bool-cases (id == j)) [
    | inl same ↦ (miner, rw get-put (rw same refl))
    | inr other ↦
        let (owner, old) =
          s.issued_owned j (ground (arith, text_beq_iff j id, text_beq_iff id j)) in
        (owner, rw get-put (rw other old))
  ];
}

verify-IsSound :
    (rng : Random) (item : SatWorkItem) (result : SatCertificate) (lane : SatLane)
    → IsSound lane
    → IsSound (verify rng item result lane).1
verify-IsSound rng item result lane s = elim (Option-cases (verify rng item result lane).0) [
  | inl e ↦ rw (verify-rejects rng item result lane e) s
  | inr (c, e) ↦
      let acc = verify_inversion rng item result lane e in
      rw acc.after (record {
        credited_issued = λ j u h. elim (Bool-cases (result.challenge_id == j)) [
          | inl same ↦
              let eq : result.challenge_id ≡ j = (text_beq_iff _ _).0 same in
              rw (← eq) acc.accounted_for.issued
          | inr other ↦ s.credited_issued j u (rw (get-put, other) at h)
        ];
        issued_owned = s.issued_owned;
      })
]

module _ (hashes : Hashes) (rng : Random) where
  dispatch_from-IsSound :
      (items : List SatWorkItem) (miner : String) (lane : SatLane)
      → IsSound lane
      → IsSound (dispatch_from hashes rng items miner lane).1
  unfolding dispatch_from
  dispatch_from-IsSound [] miner lane s =
      issue-IsSound _ miner (record lane { seed_counter = lane.seed_counter + 1 })
        (record { credited_issued = s.credited_issued; issued_owned = s.issued_owned })
  dispatch_from-IsSound (item ∷ rest) miner lane s =
      issue-IsSound _ miner (record lane { queue = rest })
        (record { credited_issued = s.credited_issued; issued_owned = s.issued_owned })

  dispatch_from-credits :
      (items : List SatWorkItem) (miner : String) (lane : SatLane)
      → (dispatch_from hashes rng items miner lane).1.verified_credits ≡ lane.verified_credits
  unfolding dispatch_from issue
  dispatch_from-credits [] miner lane = refl
  dispatch_from-credits (item ∷ rest) miner lane = refl

  -- What `enqueue` keeps.
  record SameAccounts (lane after : SatLane) : Type 0 where
    issued : after.issued_ids ≡ lane.issued_ids
    owners : after.challenge_owner ≡ lane.challenge_owner
    credits : after.verified_credits ≡ lane.verified_credits

  enqueue-SameAccounts :
      (item : SatWorkItem) (lane after : SatLane)
      → enqueue hashes rng item lane ≡ ok after
      → SameAccounts lane after
  unfolding enqueue
  enqueue-SameAccounts item lane after h = ground arith

  Step-IsSound : {lane after : SatLane} → Step hashes rng lane after → IsSound lane → IsSound after
  unfolding dispatch
  Step-IsSound {lane} {after} (enqueued item h) s =
      let same = enqueue-SameAccounts item lane after h in
      record {
        credited_issued = λ j u g. rw same.issued (s.credited_issued j u (rw same.credits at g));
        issued_owned = λ j g. rw same.owners (s.issued_owned j (rw same.issued at g));
      }
  Step-IsSound {lane} {after} (dispatched miner h) s =
      rw h (dispatch_from-IsSound lane.queue miner lane s)
  Step-IsSound {lane} {after} (verified item result h) s =
      rw h (verify-IsSound rng item result lane s)

  -- Every lane reached from a new one is sound: a credit is for an issued challenge, and every
  -- issued challenge has an owner.
  pub Reach-IsSound :
      (namespace : String) {lane : SatLane}
      → Reach hashes rng (new_lane namespace) lane
      → IsSound lane
  Reach-IsSound namespace here = new_lane-IsSound namespace
  Reach-IsSound namespace (next r st) = Step-IsSound st (Reach-IsSound namespace r)

  verify_keeps :
      (item : SatWorkItem) (result : SatCertificate) (lane : SatLane) (id : ChallengeId) {u : ℕ}
      → get id lane.verified_credits ≡ some u
      → get id (verify rng item result lane).1.verified_credits ≡ some u
  verify_keeps item result lane id {u} h = elim (Option-cases (verify rng item result lane).0) [
    | inl e ↦ rw (verify-rejects rng item result lane e) h
    | inr (c, e) ↦
        let acc = verify_inversion rng item result lane e in
        elim (Bool-cases (result.challenge_id == id)) [
          | inl same ↦
              let eq : result.challenge_id ≡ id = (text_beq_iff _ _).0 same in
              cc (acc.accounted_for.uncredited, eq)
          | inr other ↦ rw acc.after (rw get-put (rw other h))
        ]
  ]

  Step-keeps :
      {lane after : SatLane} (id : ChallengeId) {u : ℕ}
      → Step hashes rng lane after
      → get id lane.verified_credits ≡ some u
      → get id after.verified_credits ≡ some u
  unfolding dispatch
  Step-keeps {lane} {after} id (enqueued item h) g =
      rw (enqueue-SameAccounts item lane after h).credits g
  Step-keeps {lane} {after} id (dispatched miner h) g =
      rw h (rw (dispatch_from-credits lane.queue miner lane) g)
  Step-keeps {lane} {after} id (verified item result h) g =
      rw h (verify_keeps item result lane id g)

  -- A credit is never changed or withdrawn, whatever calls follow.
  pub Reach-keeps :
      {lane after : SatLane} (id : ChallengeId) {u : ℕ}
      → get id lane.verified_credits ≡ some u
      → Reach hashes rng lane after
      → get id after.verified_credits ≡ some u
  Reach-keeps id g here = g
  Reach-keeps id g (next r st) = Step-keeps id st (Reach-keeps id g r)

  -- Once a result is accepted, every later result for its challenge is rejected, whatever calls
  -- stand between, and the credit is still the units derived at acceptance.
  pub credited_once :
      (item other : SatWorkItem) (result again : SatCertificate) (lane : SatLane)
      {c : SatCertificate} {later : SatLane}
      → (verify rng item result lane).0 ≡ some c
      → Reach hashes rng (verify rng item result lane).1 later
      → again.challenge_id ≡ result.challenge_id
      → ((verify rng other again later).0 ≡ none)
        × (get result.challenge_id later.verified_credits ≡ some (derived_work_units rng item))
  credited_once item other result again lane {c} {later} h r same =
      let acc = verify_inversion rng item result lane h in
      let now : get result.challenge_id (verify rng item result lane).1.verified_credits
          ≡ some (derived_work_units rng item) =
        rw acc.after (get-put_self result.challenge_id _ lane.verified_credits) in
      let then' = Reach-keeps result.challenge_id now r in
      (
        elim (Option-cases (verify rng other again later).0) [
          | inl e ↦ e
          | inr (d, e) ↦
              let twice = verify_inversion rng other again later e in
              cc (twice.accounted_for.uncredited, same, then')
        ],
        then',
      )
