-- ===== src/Sat/Lane/Score.antt =====
-- What miners can earn by `score`, whatever certificates they hand in.
use cathedral_compute.Base.{
  ℕ, ◌+◌, ◌*◌, ◌≤◌, ◌≡◌, refl, String, Bool, true, false, not, ◌||◌, List, [], ◌∷◌, Option, none,
  some, arith, inl, inr, Option-cases, Bool-cases, member, ◌==◌, text_eq, text_beq_iff, string_eq,
  eq_iff, if◌then◌else◌,
}
use cathedral_compute.Base.Dict.{Dict, get}
use cathedral_compute.Sat.WorkItem.{SatCertificate}
use cathedral_compute.Sat.Lane.{SatLane, ChallengeId, is_owner, earned, score_from, score}

-- All credits of the lane, and those of the challenges that a miner owns.
pub total_credits : Dict ChallengeId ℕ → ℕ
total_credits [] = 0
total_credits ((id, u) ∷ d) = u + total_credits d

pub owned_credits : SatLane → String → List ChallengeId → Dict ChallengeId ℕ → ℕ
owned_credits lane miner seen [] = 0
owned_credits lane miner seen ((id, u) ∷ d) =
    (if member id seen || not (is_owner (get id lane.challenge_owner) miner) then 0 else u)
    + owned_credits lane miner seen d

module _ (lane : SatLane) (miner : String) where
  owned_credits-seen :
      (id : ChallengeId) (seen : List ChallengeId) (d : Dict ChallengeId ℕ)
      → owned_credits lane miner (id ∷ seen) d ≤ owned_credits lane miner seen d
  unfolding owned_credits
  owned_credits-seen id seen [] = omega arith
  owned_credits-seen id seen ((j, u) ∷ d) = ground (arith, owned_credits-seen id seen d)

  owned_credits-take :
      (id : ChallengeId) (u : ℕ) (seen : List ChallengeId) (d : Dict ChallengeId ℕ)
      → get id d ≡ some u
      → member id seen ≡ false
      → is_owner (get id lane.challenge_owner) miner ≡ true
      → u + owned_credits lane miner (id ∷ seen) d ≤ owned_credits lane miner seen d
  unfolding owned_credits get
  owned_credits-take id u seen [] h m o = cc
  owned_credits-take id u seen ((j, v) ∷ d) h m o = elim (Bool-cases (j == id)) [
    | inl same ↦
        let eq : j ≡ id = (text_beq_iff _ _).0 same in
        rw eq (ground (arith, text_beq_iff id id, owned_credits-seen id seen d))
    | inr other ↦ ground (arith, owned_credits-take id u seen d)
  ]

  score_from-le :
      (seen : List ChallengeId) (certs : List SatCertificate)
      → score_from lane miner seen certs ≤ owned_credits lane miner seen lane.verified_credits
  unfolding score_from earned
  score_from-le seen [] = omega arith
  score_from-le seen (c ∷ certs) = elim (Option-cases (earned lane miner seen c.challenge_id)) [
    | inl e ↦ rw (e, score_from) (score_from-le seen certs)
    | inr (u, e) ↦
        rw (e, score_from)
          (omega (
            arith,
            score_from-le (c.challenge_id ∷ seen) certs,
            owned_credits-take c.challenge_id u seen lane.verified_credits (ground arith)
                (ground arith) (ground arith),
          ))
  ]

-- Miners that hand in certificates, each once.
abbrev pub names : String → List (String × List SatCertificate) → Bool
names m [] = false
names m ((k, certs) ∷ rest) = m == k || names m rest

abbrev pub Distinct : List (String × List SatCertificate) → Type 0
Distinct [] = Unit
Distinct ((m, certs) ∷ rest) = (names m rest ≡ false) × Distinct rest

abbrev pub sum_scores : SatLane → List (String × List SatCertificate) → ℕ
sum_scores lane [] = 0
sum_scores lane ((m, certs) ∷ rest) = score lane m certs + sum_scores lane rest

-- The miners of the list that own a challenge: at most one of distinct ones.
owners : Option String → List (String × List SatCertificate) → ℕ
owners o [] = 0
owners o ((m, certs) ∷ rest) = (if is_owner o m then 1 else 0) + owners o rest

owners-absent :
    (o : String) (ms : List (String × List SatCertificate))
    → names o ms ≡ false
    → owners (some o) ms ≡ 0
unfolding owners
owners-absent o [] h = refl
owners-absent o ((m, certs) ∷ ms) h = ground (arith, owners-absent o ms, eq_iff o m, eq_iff m o)

owners-le-one :
    (o : Option String) (ms : List (String × List SatCertificate)) → Distinct ms → owners o ms ≤ 1
unfolding owners
owners-le-one none [] h = omega arith
owners-le-one none (m ∷ ms) h = ground (arith, owners-le-one none ms)
owners-le-one (some o) [] h = omega arith
owners-le-one (some o) ((m, certs) ∷ ms) h = elim (Bool-cases (m == o)) [
  | inl same ↦
      let eq : m ≡ o = (eq_iff m o).0 same in ground (arith, owners-absent o ms (rw eq at h.0))
  | inr other ↦ ground (arith, owners-le-one (some o) ms h.1)
]

-- All that the miners of a list own of the credits `d`.
shares : SatLane → List (String × List SatCertificate) → Dict ChallengeId ℕ → ℕ
shares lane [] d = 0
shares lane ((m, certs) ∷ ms) d = owned_credits lane m [] d + shares lane ms d

module _ (lane : SatLane) where
  shares-nil : (ms : List (String × List SatCertificate)) → shares lane ms [] ≡ 0
  unfolding shares owned_credits
  shares-nil [] = refl
  shares-nil (m ∷ ms) = omega (arith, shares-nil ms)

  shares-cons :
      (ms : List (String × List SatCertificate)) (id : ChallengeId) (u : ℕ) (d : Dict ChallengeId ℕ)
      → shares lane ms ((id, u) ∷ d)
        ≡ owners (get id lane.challenge_owner) ms * u + shares lane ms d
  unfolding shares owned_credits owners
  shares-cons [] id u d = omega arith
  shares-cons ((m, certs) ∷ ms) id u d =
      elim (Bool-cases (is_owner (get id lane.challenge_owner) m)) [
        | inl e ↦ rw e (grind (arith, shares-cons ms id u d))
        | inr e ↦ rw e (omega (arith, shares-cons ms id u d))
      ]

  shares-le :
      (ms : List (String × List SatCertificate)) (d : Dict ChallengeId ℕ)
      → Distinct ms
      → shares lane ms d ≤ total_credits d
  unfolding total_credits
  shares-le ms [] h = omega (arith, shares-nil ms)
  shares-le ms ((id, u) ∷ d) h = grind (
    arith,
    shares-cons ms id u d,
    shares-le ms d h,
    owners-le-one (get id lane.challenge_owner) ms h,
  )

  sum_scores-le-shares :
      (ms : List (String × List SatCertificate))
      → sum_scores lane ms ≤ shares lane ms lane.verified_credits
  unfolding shares score
  sum_scores-le-shares [] = omega arith
  sum_scores-le-shares ((m, certs) ∷ ms) =
      omega (arith, score_from-le lane m [] certs, sum_scores-le-shares ms)

  -- Distinct miners, whatever certificates they hand in and however often, score together at most
  -- the sum of the credits that `verify` has recorded.
  pub sum_scores-le-total_credits :
      (ms : List (String × List SatCertificate))
      → Distinct ms
      → sum_scores lane ms ≤ total_credits lane.verified_credits
  sum_scores-le-total_credits ms h =
      omega (arith, sum_scores-le-shares ms, shares-le ms lane.verified_credits h)
