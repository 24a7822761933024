-- ===== src/Lifecycle/Snapshot/Laws.antt =====
-- What a checked snapshot guarantees, and when it makes its worker eligible.
use cathedral_compute.Base.{
  ℕ, ◌≤◌, ◌<◌, ◌≡◌, ◌≢◌, ◌↔◌, refl, String, true, false, not, ◌&&◌, Option, none, some, arith,
  length, eq_iff, ok, inl, inr, Option-cases, Bool-cases,
}
use cathedral_compute.Base.Int.{ℤ, pos, ◌≤ℤ◌}
use cathedral_compute.Base.Text.{codes, is_sha256_digest}
use cathedral_compute.Lifecycle.{attested, require_snapshot_reason, state_beq, state_beq_iff}
use cathedral_compute.Lifecycle.Snapshot.{
  DateTime, LifecycleSnapshot, max_sqlite_integer, has_valid_identity, optional_utc,
  window_is_empty, is_text, evidence_current, attested_is_complete, registry_reference_ok,
  check_snapshot, unexpired, eligible_at,
}

abbrev pub IsBoundedPositive : ℤ → Type 0
IsBoundedPositive n = (pos 1 ≤ℤ n) × (n ≤ℤ pos max_sqlite_integer)

abbrev pub IsUtc : Option DateTime → Type 0
IsUtc none = Unit
IsUtc (some t) = t.is_utc ≡ true

abbrev pub IsText : Option String → Type 0
IsText none = ⊥
IsText (some s) = s ≢ ""

abbrev pub WindowOpens : Option DateTime → Option DateTime → Type 0
WindowOpens (some verified) (some expires) = verified.instant < expires.instant
WindowOpens _ _ = Unit

-- The evidence was verified by `now` and has not expired then.
abbrev pub IsCurrent : Option DateTime → Option DateTime → ℕ → Type 0
IsCurrent (some verified) (some expires) now = (verified.instant ≤ now) × (now < expires.instant)
IsCurrent _ _ now = ⊥

abbrev pub IsRegistryReference : Option ℤ → Option String → Type 0
IsRegistryReference none none = Unit
IsRegistryReference (some release) (some digest) =
    IsBoundedPositive release × (is_sha256_digest digest ≡ true)
IsRegistryReference _ _ = ⊥

pub record IsComplete (s : LifecycleSnapshot) : Type 0 where
  pub current : IsCurrent s.evidence_verified_at s.evidence_expires_at s.state_changed_at.instant
  pub measured : IsText s.measurement
  pub digested : IsText s.evidence_digest
  pub governed : IsText s.policy_digest

pub record IsValid (s : LifecycleSnapshot) : Type 0 where
  pub named : s.hotkey ≢ ""
  pub name_bounded : length (codes s.hotkey) ≤ 512
  pub generation_ok : IsBoundedPositive s.generation
  pub revision_ok : IsBoundedPositive s.revision
  pub event_ok : IsBoundedPositive s.event_id
  pub retries_ok : pos 0 ≤ℤ s.retry_count
  pub changed_utc : s.state_changed_at.is_utc ≡ true
  pub reason_ok : require_snapshot_reason s.state s.reason ≡ ok tt
  pub verified_utc : IsUtc s.evidence_verified_at
  pub expires_utc : IsUtc s.evidence_expires_at
  pub retry_utc : IsUtc s.next_retry_at
  pub window_ok : WindowOpens s.evidence_verified_at s.evidence_expires_at
  pub complete : s.state ≡ attested → IsComplete s
  pub registry_ok : IsRegistryReference s.policy_registry_release s.policy_registry_digest

optional_utc_iff : (t : Option DateTime) → (optional_utc t ≡ ok tt) ↔ IsUtc t
optional_utc_iff none = (λ h. tt, λ h. refl)
optional_utc_iff (some t) = (λ h. ground arith, λ h. ground arith)

window_iff : (v e : Option DateTime) → (window_is_empty v e ≡ false) ↔ WindowOpens v e
unfolding window_is_empty
window_iff (some v) (some e) = (λ h. ground arith, λ h. ground arith)
window_iff (some v) none = (λ h. tt, λ h. refl)
window_iff none e = (λ h. tt, λ h. refl)

IsText-iff : (s : Option String) → (is_text s ≡ true) ↔ IsText s
IsText-iff none = (λ h. cc, λ h. absurd h)
IsText-iff (some s) = (λ h e. ground (arith, eq_iff s ""), λ h. ground (arith, eq_iff s ""))

IsCurrent-iff :
    (v e : Option DateTime) (now : ℕ) → (evidence_current v e now ≡ true) ↔ IsCurrent v e now
unfolding evidence_current
IsCurrent-iff (some v) (some e) now = (λ h. ground arith, λ h. ground arith)
IsCurrent-iff (some v) none now = (λ h. cc, λ h. absurd h)
IsCurrent-iff none e now = (λ h. cc, λ h. absurd h)

registry_iff :
    (r : Option ℤ) (d : Option String)
    → (registry_reference_ok r d ≡ true) ↔ IsRegistryReference r d
unfolding registry_reference_ok
registry_iff none none = (λ h. tt, λ h. refl)
registry_iff none (some d) = (λ h. cc, λ h. absurd h)
registry_iff (some r) none = (λ h. cc, λ h. absurd h)
registry_iff (some r) (some d) = (λ h. ground arith, λ h. ground arith)

IsComplete-iff : (s : LifecycleSnapshot) → (attested_is_complete s ≡ true) ↔ IsComplete s
unfolding attested_is_complete
IsComplete-iff s =
    let now =
      IsCurrent-iff s.evidence_verified_at s.evidence_expires_at s.state_changed_at.instant in
    (
      λ h. record {
        current = now.0 (ground arith);
        measured = (IsText-iff s.measurement).0 (ground arith);
        digested = (IsText-iff s.evidence_digest).0 (ground arith);
        governed = (IsText-iff s.policy_digest).0 (ground arith);
      },
      λ c. cc (
        now.1 c.current,
        (IsText-iff s.measurement).1 c.measured,
        (IsText-iff s.evidence_digest).1 c.digested,
        (IsText-iff s.policy_digest).1 c.governed,
      ),
    )

module _ (s : LifecycleSnapshot) where
  check_snapshot_sound : check_snapshot s ≡ ok tt → IsValid s
  unfolding check_snapshot
  check_snapshot_sound h =
      let identity : has_valid_identity s ≡ true = ground arith in
      record {
        named = λ e. ground (arith, eq_iff s.hotkey "");
        name_bounded = ground arith;
        generation_ok = ground arith;
        revision_ok = ground arith;
        event_ok = ground arith;
        retries_ok = ground arith;
        changed_utc = ground arith;
        reason_ok = ground arith;
        verified_utc = (optional_utc_iff s.evidence_verified_at).0 (ground arith);
        expires_utc = (optional_utc_iff s.evidence_expires_at).0 (ground arith);
        retry_utc = (optional_utc_iff s.next_retry_at).0 (ground arith);
        window_ok = (window_iff s.evidence_verified_at s.evidence_expires_at).0 (ground arith);
        complete = λ e. (IsComplete-iff s).0 (ground (arith, state_beq_iff s.state attested));
        registry_ok =
            (registry_iff s.policy_registry_release s.policy_registry_digest).0 (ground arith);
      }

  has_valid_identity_lem : IsValid s → has_valid_identity s ≡ true
  unfolding has_valid_identity
  has_valid_identity_lem v = ground (arith, eq_iff s.hotkey "", v.named)

  no_incomplete : IsValid s → (state_beq s.state attested && not (attested_is_complete s)) ≡ false
  no_incomplete v = elim (Bool-cases (state_beq s.state attested)) [
    | inl e ↦ ground (arith, (IsComplete-iff s).1 (v.complete ((state_beq_iff _ _).0 e)))
    | inr e ↦ ground arith
  ]

  check_snapshot_complete : IsValid s → check_snapshot s ≡ ok tt
  unfolding check_snapshot
  check_snapshot_complete v =
      rw (has_valid_identity_lem v, check_snapshot)
        (ground (
          arith,
          (optional_utc_iff s.evidence_verified_at).1 v.verified_utc,
          (optional_utc_iff s.evidence_expires_at).1 v.expires_utc,
          (optional_utc_iff s.next_retry_at).1 v.retry_utc,
          (window_iff s.evidence_verified_at s.evidence_expires_at).1 v.window_ok,
          no_incomplete v,
          (registry_iff s.policy_registry_release s.policy_registry_digest).1 v.registry_ok,
        ))

  -- A snapshot is constructed exactly when its identity and counters are within their bounds, its
  -- times are UTC, its reason is one for its state, its evidence window is not empty, an attested
  -- snapshot carries evidence that is current at the change with its three digests, and the
  -- registry reference is whole or absent.
  pub check_snapshot_iff : (check_snapshot s ≡ ok tt) ↔ IsValid s
  check_snapshot_iff = (check_snapshot_sound, check_snapshot_complete)

unexpired_of_current :
    (v e : Option DateTime) (now : DateTime) → IsCurrent v e now.instant → unexpired e now ≡ true
unfolding unexpired
unexpired_of_current (some v) (some e) now c = ground arith
unexpired_of_current (some v) none now c = absurd c
unexpired_of_current none e now c = absurd c

module _ (s : LifecycleSnapshot) (valid : check_snapshot s ≡ ok tt) where
  -- Of a constructed snapshot and any UTC times: an attested worker is eligible at the time of its
  -- change; an eligible worker is attested and its evidence has not expired; and who is eligible
  -- later is eligible earlier, so that eligibility once lost does not come back by itself.
  pub eligible_at_window :
      (when later : DateTime)
      → when.is_utc ≡ true
      → later.is_utc ≡ true
      → (s.state ≡ attested → eligible_at s s.state_changed_at ≡ ok true)
        × (eligible_at s when ≡ ok true
            → (s.state ≡ attested)
              × ((expires : DateTime) × (s.evidence_expires_at ≡ some expires)
                  × (when.instant < expires.instant)))
        × (when.instant ≤ later.instant
            → eligible_at s later ≡ ok true
            → eligible_at s when ≡ ok true)
  unfolding eligible_at
  eligible_at_window when later u w = (
    λ e.
        let v = check_snapshot_sound s valid in
        let current =
          unexpired_of_current s.evidence_verified_at s.evidence_expires_at s.state_changed_at
            (v.complete e).current in
        ground (arith, v.changed_utc, state_beq_iff s.state attested),
    λ h. (
      ground (arith, state_beq_iff s.state attested),
      elim (Option-cases s.evidence_expires_at) [
        | inl e ↦ ground arith
        | inr (expires, e) ↦ (expires, e, ground arith)
      ],
    ),
    λ le h. ground arith,
  )
